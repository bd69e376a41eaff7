-- ===== src/Sharedata/Nested/Tests.antt =====
-- A table in a table, through src/lualib-src/lua-sharedata.cpp.
use starnet.Common.{ℕ, ◌≡◌, refl, true, some, List, [], ◌∷◌}
use starnet.Common.Int.{pos}
use starnet.Sharedata.Table.{SharedKey, integer_key, string_key, same_key}
use starnet.Sharedata.Parts.{LuaKey}
use starnet.Sharedata.Nested.{
  method, is_method, integer_value, boolean_value, table_value, LuaTable, BoxTable, conv_nested,
  integer_scalar, read_box, read_lua, IsNew, AreShareable, IsShareableValue, IsShareable,
}
use starnet.Sharedata.Nested.Paths.{conv_nested-read_box}

-- { [1] = 7, a = true }
abbrev inner : LuaTable 1
inner = (
  1,
  (LuaKey.integer (pos 1), integer_value (pos 7))
      ∷ (LuaKey.string (97 ∷ []), boolean_value true)
      ∷ [],
)

-- { b = inner }
abbrev outer : LuaTable 2
outer = (0, (LuaKey.string (98 ∷ []), table_value inner) ∷ [])

outer-IsShareable : IsShareable 2 outer
unfolding IsShareable AreShareable IsShareableValue IsNew same_key
outer-IsShareable = (refl, (refl, tt, (refl, tt, tt)), tt)

inner_read :
    read_lua 2 outer (string_key (98 ∷ [])) (integer_key (pos 1) ∷ [])
    ≡ some (integer_scalar (pos 7))
unfolding read_lua is_method same_key
inner_read = refl

conv_nested-read_box_example :
    (u : BoxTable 2) × (conv_nested 2 outer ≡ some u)
    × ((k : SharedKey) (ks : List SharedKey) → read_box 2 u k ks ≡ read_lua 2 outer k ks)
conv_nested-read_box_example = conv_nested-read_box 2 outer outer-IsShareable

abbrev version : List ℕ
version = 118 ∷ 101 ∷ 114 ∷ 115 ∷ 105 ∷ 111 ∷ 110 ∷ []

version_hidden : read_lua 2 outer (string_key version) [] ≡ some (method version)
unfolding read_lua
version_hidden = refl
