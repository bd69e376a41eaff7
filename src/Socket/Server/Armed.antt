-- ===== src/Socket/Server/Armed.antt =====
-- The operations of src/starnet_socket_server.cpp one after another keep the events watched.
