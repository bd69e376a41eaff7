-- ===== src/Service/Dispatch.antt =====
-- Which messages reach Lua.
