-- ===== src/Seri/Value.antt =====
-- The values that lualib-src/lua-seri.cpp reads from the Lua stack and pushes on it.
use starnet.Common.{ℕ, suc, Bool}
use starnet.Common.{List}
use starnet.Common.Int.{ℤ}

-- A double and a light userdata are their eight bytes. A table that is written is what Lua tells
-- of it: its values at 1 .. rawlen, and the pairs of `lua_next` in their order; with a `__pairs`
-- it is the pairs that the iterator yields, and whether it ends without an error. A table that is
-- read is the calls that build it: the values of `lua_rawseti`, and the pairs of `lua_rawset`.
mutual
  pub data Value : Type 0 where
    nil : Value
    boolean : Bool → Value
    integer : ℤ → Value
    real : List ℕ → Value
    light_userdata : List ℕ → Value
    string : List ℕ → Value
    table : Values → Pairs → Value
    meta_table : Pairs → Bool → Value
    unsupported : Value

  pub data Values : Type 0 where
    no_values : Values
    value : Value → Values → Values

  pub data Pairs : Type 0 where
    no_pairs : Pairs
    pair : Value → Value → Pairs → Pairs

abbrev pub values_length : Values → ℕ
values_length no_values = 0
values_length (value v vs) = suc (values_length vs)
