-- ===== src/Sharedata/Nested/Paths.antt =====
-- Reading a nested table that src/lualib-src/lua-sharedata.cpp has converted, along a path of keys.
use starnet.Common.{
  if◌then◌else◌, ℕ, zero, suc, ◌≡◌, inl, inr, refl, sym, ap, ◌∙◌, some-injective, Option, some,
  List, [], ◌∷◌,
}
use starnet.Sharedata.Table.{SharedKey}
use starnet.Sharedata.Parts.Index.{conv_table-index_value}
use starnet.Sharedata.Nested.{
  is_method, read_method, LuaValue, integer_value, number_value, string_value, boolean_value,
  table_value, other_value, SharedValue, real, string, boolean, table, integer, conv_value,
  LuaTable, BoxTable, conv_nested, Scalar, read_value, read_box, lua_value, read_lua,
  IsShareableValue, IsShareable,
}
use starnet.Sharedata.Nested.Entries.{entries-IsConverted}

-- A table is converted, and any path of keys leads to the same in both.
abbrev IsShared : (d : ℕ) → LuaTable d → Type 0
IsShared d t =
    (u : BoxTable d) × (conv_nested d t ≡ some u)
    × ((k : SharedKey) (ks : List SharedKey) → read_box d u k ks ≡ read_lua d t k ks)

table_reads :
    {T U : Type 0} (read : U → SharedKey → List SharedKey → Option Scalar)
    (read' : T → SharedKey → List SharedKey → Option Scalar) (t : T) (u : U)
    → ((k : SharedKey) (ks : List SharedKey) → read u k ks ≡ read' t k ks)
    → (ks : List SharedKey) → read_value read (table u) ks ≡ lua_value read' (table_value t) ks
table_reads read read' t u reads [] = refl
table_reads read read' t u reads (k ∷ ks) = reads k ks

-- The same of a value, if it holds of the tables.
value_shared :
    (d : ℕ)
    → ((t : LuaTable d) → IsShareable d t → IsShared d t)
    → (a : LuaValue (LuaTable d)) → IsShareableValue (IsShareable d) a
    → (v : SharedValue (BoxTable d)) × (conv_value (conv_nested d) a ≡ some v)
      × ((ks : List SharedKey) → read_value (read_box d) v ks ≡ lua_value (read_lua d) a ks)
unfolding conv_value IsShareableValue
value_shared d share (integer_value n) s = (integer n, refl, λ ks. refl)
value_shared d share (number_value r) s = (real r, refl, λ ks. refl)
value_shared d share (string_value b) s = (string b, refl, λ ks. refl)
value_shared d share (boolean_value b) s = (boolean b, refl, λ ks. refl)
value_shared d share (table_value t) s =
    let (u, e, reads) = share t s in
    (table u, rw (conv_value, e) refl, table_reads (read_box d) (read_lua d) t u reads)
value_shared d share other_value s = elim s [ ]

-- A Lua table whose keys are integers and strings, none twice, and whose values are numbers,
-- strings, booleans and such tables again, as deep as they go, is converted, and any path of keys
-- through the box and the boxes it gives leads to what it leads to in the Lua table, except that
-- at every box the fields of the metatable come first: a key that names one leads to its function,
-- and `__name` to the name of the metatable, whatever the Lua table has there.
pub conv_nested-read_box :
    (d : ℕ) (t : LuaTable d)
    → IsShareable d t
    → (u : BoxTable d) × (conv_nested d t ≡ some u)
      × ((k : SharedKey) (ks : List SharedKey) → read_box d u k ks ≡ read_lua d t k ks)
unfolding conv_nested read_box read_lua IsShareable
conv_nested-read_box zero t s = elim t [ ]
conv_nested-read_box (suc d) (rawlen, entries) s =
    let conv = conv_value (conv_nested d) in
    let share = value_shared d (conv_nested-read_box d) in
    let c =
      entries-IsConverted conv (IsShareableValue (IsShareable d))
        (λ a p. let (v, e, reads) = share a p in (v, e)) entries s in
    let (u, made, index) =
      conv_table-index_value conv rawlen entries c.items c.converts c.distinct in
    (
      u,
      made,
      (λ k ks. elim (c.corresponds k) [
        | inl (gone, unset) ↦
            let nothing = index k ∙ unset in rw (read_box, read_lua, nothing, gone) refl
        | inr (a, v, got, p, e, stored) ↦
            let value = index k ∙ stored in
            let (w, e', reads) = share a p in
            let w_v = some-injective w v (sym e' ∙ e) in
            let behind = ap (λ x. read_value (read_box d) x ks) (sym w_v) ∙ reads ks in
            rw (read_box, read_lua, value, got)
              (ap (λ found. if is_method k then read_method k ks else found) behind)
      ]),
    )
