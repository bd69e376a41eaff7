-- ===== src/Seri/Spec.antt =====
-- What lualib-src/lua-seri.cpp promises: the bytes of a value, how deep it is, and what it becomes.
use starnet.Common.{ℕ, suc, ◌^◌, ◌<◌, ◌≡◌, true, false, List, [], ◌++◌, length, max, if◌then◌else◌}
use starnet.Common.Int.{ℤ, pos, negsuc}
use starnet.Seri.Value.{
  Value, nil, boolean, integer, real, light_userdata, string, table, meta_table, unsupported,
  Values, no_values, value, Pairs, no_pairs, pair, values_length,
}
use starnet.Seri.Read.{is_nan}
use starnet.Seri.Write.{
  wb_nil, wb_boolean, wb_integer, wb_real, wb_pointer, wb_string, wb_table_head, is_array_key,
}

-- The bytes, without depth and without errors.
unfoldable mutual
  pub encode : Value → List ℕ
  encode nil = wb_nil
  encode (boolean b) = wb_boolean b
  encode (integer v) = wb_integer v
  encode (real v) = wb_real v
  encode (light_userdata v) = wb_pointer v
  encode (string str) = wb_string str
  encode (table array pairs) =
      wb_table_head (values_length array)
      ++ (encode_items array ++ (encode_pairs (values_length array) pairs ++ wb_nil))
  encode (meta_table pairs ends) = wb_table_head 0 ++ (encode_pairs 0 pairs ++ wb_nil)
  encode unsupported = []

  pub encode_items : Values → List ℕ
  encode_items no_values = []
  encode_items (value v vs) = encode v ++ encode_items vs

  pub encode_pairs : ℕ → Pairs → List ℕ
  encode_pairs n no_pairs = []
  encode_pairs n (pair k v pairs) =
      let rest = encode_pairs n pairs in
      if is_array_key n k then rest else encode k ++ (encode v ++ rest)

-- The levels of tables below a value that have something in them.
unfoldable mutual
  pub height : Value → ℕ
  height (table array pairs) = max (height_items array) (height_pairs (values_length array) pairs)
  height (meta_table pairs ends) = height_pairs 0 pairs
  height _ = 0

  pub height_items : Values → ℕ
  height_items no_values = 0
  height_items (value v vs) = max (suc (height v)) (height_items vs)

  pub height_pairs : ℕ → Pairs → ℕ
  height_pairs n no_pairs = 0
  height_pairs n (pair k v pairs) =
      let rest = height_pairs n pairs in
      if is_array_key n k then rest else max (suc (max (height k) (height v))) rest

-- Every value that is written has a type that can be, and every iterator ends.
unfoldable mutual
  pub IsPackable : Value → Type 0
  IsPackable (table array pairs) = ArePackable array × ArePackablePairs (values_length array) pairs
  IsPackable (meta_table pairs ends) = ArePackablePairs 0 pairs × (ends ≡ true)
  IsPackable unsupported = ⊥
  IsPackable _ = Unit

  pub ArePackable : Values → Type 0
  ArePackable no_values = Unit
  ArePackable (value v vs) = IsPackable v × ArePackable vs

  pub ArePackablePairs : ℕ → Pairs → Type 0
  ArePackablePairs n no_pairs = Unit
  ArePackablePairs n (pair k v pairs) =
      let rest = ArePackablePairs n pairs in
      elim (is_array_key n k) [ true ↦ rest | false ↦ IsPackable k × IsPackable v × rest ]

-- The table that the reader builds: the array, and the pairs that are not in it.
unfoldable mutual
  pub stored : Value → Value
  stored (table array pairs) = table (stored_items array) (stored_pairs (values_length array) pairs)
  stored (meta_table pairs ends) = table no_values (stored_pairs 0 pairs)
  stored nil = nil
  stored (boolean b) = boolean b
  stored (integer v) = integer v
  stored (real v) = real v
  stored (light_userdata v) = light_userdata v
  stored (string str) = string str
  stored unsupported = unsupported

  pub stored_items : Values → Values
  stored_items no_values = no_values
  stored_items (value v vs) = value (stored v) (stored_items vs)

  pub stored_pairs : ℕ → Pairs → Pairs
  stored_pairs n no_pairs = no_pairs
  stored_pairs n (pair k v pairs) =
      let rest = stored_pairs n pairs in
      if is_array_key n k then rest else pair (stored k) (stored v) rest

-- What Lua grants of the values on its stack: integers of 64 bits, eight bytes of a double and of
-- a pointer, strings and arrays whose length fits an `int`; and what a predicate says of keys.
abbrev pub IsInt64 : ℤ → Type 0
IsInt64 (pos n) = n < 2 ^ 63
IsInt64 (negsuc n) = n < 2 ^ 63

unfoldable mutual
  pub IsLua : (Value → Type 0) → Value → Type 0
  IsLua K (integer v) = IsInt64 v
  IsLua K (real v) = length v ≡ 8
  IsLua K (light_userdata v) = length v ≡ 8
  IsLua K (string str) = length str < 2 ^ 31
  IsLua K (table array pairs) =
      (values_length array < 2 ^ 31) × AreLua K array × AreLuaPairs K pairs
  IsLua K (meta_table pairs ends) = AreLuaPairs K pairs
  IsLua K _ = Unit

  pub AreLua : (Value → Type 0) → Values → Type 0
  AreLua K no_values = Unit
  AreLua K (value v vs) = IsLua K v × AreLua K vs

  pub AreLuaPairs : (Value → Type 0) → Pairs → Type 0
  AreLuaPairs K no_pairs = Unit
  AreLuaPairs K (pair k v pairs) = K k × IsLua K k × IsLua K v × AreLuaPairs K pairs

-- No key is nil, which ends a table.
abbrev pub IsSome : Value → Type 0
IsSome nil = ⊥
IsSome _ = Unit

-- Nor is a key NaN, which no table has, but which an iterator of `__pairs` may yield.
abbrev pub IsKey : Value → Type 0
IsKey nil = ⊥
IsKey (real v) = is_nan (real v) ≡ false
IsKey _ = Unit
