-- ===== src/Sharedata/Nested.antt =====
-- Tables in tables: conv_value and the boxes of src/lualib-src/lua-sharedata.cpp. Tables are nested
-- as deep as a number says, and a type of values has the type of its tables as an argument.
pub mod Entries
mod Paths
mod Tests
use starnet.Common.{
  ℕ, zero, suc, Bool, false, ◌||◌, Option, none, some, List, [], ◌∷◌, ◌≡◌, if◌then◌else◌,
}
use starnet.Common.Int.{ℤ}
use starnet.Sharedata.Table.{SharedKey, integer_key, string_key, same_key, same_str}
use starnet.Sharedata.Parts.{SharedTable, LuaKey, conv_table, index_value}

-- A value of Lua; `other_value` is of a type that can not be shared. A double is its eight bytes.
pub data LuaValue (T : Type 0) : Type 0 where
  integer_value : ℤ → LuaValue T
  number_value : List ℕ → LuaValue T
  string_value : List ℕ → LuaValue T
  boolean_value : Bool → LuaValue T
  table_value : T → LuaValue T
  other_value : LuaValue T

-- A SharedValue that is not of type NIL.
pub data SharedValue (T : Type 0) : Type 0 where
  real : List ℕ → SharedValue T
  string : List ℕ → SharedValue T
  boolean : Bool → SharedValue T
  table : T → SharedValue T
  integer : ℤ → SharedValue T

-- conv_table for the tables that are values is an argument; `none` is luaL_error.
unfoldable pub conv_value : {T U : Type 0} → (T → Option U) → LuaValue T → Option (SharedValue U)
conv_value conv (integer_value n) = some (integer n)
conv_value conv (number_value r) = some (real r)
conv_value conv (string_value s) = some (string s)
conv_value conv (boolean_value b) = some (boolean b)
conv_value conv (table_value t) = elim (conv t) [ none ↦ none | some u ↦ some (table u) ]
conv_value conv other_value = none

pub data NoTable : Type 0 where

-- A Lua table: what lua_rawlen says, and what lua_next yields.
abbrev pub LuaTable : ℕ → Type 0
LuaTable zero = NoTable
LuaTable (suc d) = ℕ × List (LuaKey × LuaValue (LuaTable d))

abbrev pub BoxTable : ℕ → Type 0
BoxTable zero = NoTable
BoxTable (suc d) = SharedTable (SharedValue (BoxTable d))

unfoldable pub conv_nested : (d : ℕ) → LuaTable d → Option (BoxTable d)
unfolding conv_value
conv_nested zero t = some t
conv_nested (suc d) (rawlen, entries) = conv_table (conv_value (conv_nested d)) rawlen entries

-- What a read ends with: a table is read on. `of_string` is what Lua gives for a string at further
-- keys, and `method` the function of the metatable with that name.
pub data Scalar : Type 0 where
  real_scalar : List ℕ → Scalar
  string_scalar : List ℕ → Scalar
  boolean_scalar : Bool → Scalar
  integer_scalar : ℤ → Scalar
  of_string : List ℕ → SharedKey → List SharedKey → Scalar
  method : List ℕ → Scalar

-- A number, a boolean and a function have no keys; a string has those of the string library.
abbrev pub read_scalar : Scalar → List SharedKey → Option Scalar
read_scalar c [] = some c
read_scalar c (k ∷ ks) = none

abbrev pub read_string : List ℕ → List SharedKey → Option Scalar
read_string s [] = some (string_scalar s)
read_string s (k ∷ ks) = some (of_string s k ks)

-- What is behind a value: a table wants a key more.
abbrev pub read_value :
    {T : Type 0}
    → (T → SharedKey → List SharedKey → Option Scalar)
    → SharedValue T
    → List SharedKey
    → Option Scalar
read_value read (table u) (k ∷ ks) = read u k ks
read_value read (table u) [] = none
read_value read (real r) ks = read_scalar (real_scalar r) ks
read_value read (string s) ks = read_string s ks
read_value read (boolean b) ks = read_scalar (boolean_scalar b) ks
read_value read (integer n) ks = read_scalar (integer_scalar n) ks

-- The fields of the metatable of a box: __name, which luaL_newmetatable sets, __index, __pairs,
-- __len, __gc, version, isdirty and hashlen.
abbrev name_field : List ℕ
name_field = 95 ∷ 95 ∷ 110 ∷ 97 ∷ 109 ∷ 101 ∷ []

abbrev methods : List (List ℕ)
methods =
    name_field
    ∷ (95 ∷ 95 ∷ 105 ∷ 110 ∷ 100 ∷ 101 ∷ 120 ∷ [])
    ∷ (95 ∷ 95 ∷ 112 ∷ 97 ∷ 105 ∷ 114 ∷ 115 ∷ [])
    ∷ (95 ∷ 95 ∷ 108 ∷ 101 ∷ 110 ∷ [])
    ∷ (95 ∷ 95 ∷ 103 ∷ 99 ∷ [])
    ∷ (118 ∷ 101 ∷ 114 ∷ 115 ∷ 105 ∷ 111 ∷ 110 ∷ [])
    ∷ (105 ∷ 115 ∷ 100 ∷ 105 ∷ 114 ∷ 116 ∷ 121 ∷ [])
    ∷ (104 ∷ 97 ∷ 115 ∷ 104 ∷ 108 ∷ 101 ∷ 110 ∷ [])
    ∷ []

abbrev among : List ℕ → List (List ℕ) → Bool
among s [] = false
among s (name ∷ names) = let rest = among s names in same_str s name || rest

-- MT_NAME
abbrev mt_name : List ℕ
mt_name =
    115 ∷ 116 ∷ 97 ∷ 114 ∷ 110 ∷ 101 ∷ 116 ∷ 46 ∷ 115 ∷ 104 ∷ 97 ∷ 114 ∷ 101 ∷ 100 ∷ 97 ∷ 116 ∷ 97
    ∷ 46 ∷ 98 ∷ 111 ∷ 120 ∷ []

unfoldable pub is_method : SharedKey → Bool
is_method (integer_key n) = false
is_method (string_key s) = among s methods

-- The field of the metatable: `__name` is the string MT_NAME, the others are functions.
unfoldable pub read_method : SharedKey → List SharedKey → Option Scalar
read_method (integer_key n) ks = none
read_method (string_key s) ks =
    if same_str s name_field then read_string mt_name ks else read_scalar (method s) ks

-- The value of a box at a key, and of the boxes that it gives for tables at the keys that follow;
-- the metatable is looked up first. `none` is nil, a box, or an error of Lua for a value that has
-- no keys.
unfoldable pub read_box : (d : ℕ) → BoxTable d → SharedKey → List SharedKey → Option Scalar
unfolding is_method read_method
read_box zero t k ks = none
read_box (suc d) t k ks =
    let found : Option Scalar = elim (index_value t k) [
      | none ↦ none
      | some v ↦ read_value (read_box d) v ks
    ] in
    if is_method k then read_method k ks else found

-- An entry of the Lua table itself.
abbrev pub raw_get : {A : Type 0} → List (LuaKey × A) → SharedKey → Option A
raw_get [] k = none
raw_get ((LuaKey.integer n, a) ∷ entries) k =
    let rest = raw_get entries k in if same_key (integer_key n) k then some a else rest
raw_get ((LuaKey.string s, a) ∷ entries) k =
    let rest = raw_get entries k in if same_key (string_key s) k then some a else rest
raw_get ((LuaKey.other, a) ∷ entries) k = raw_get entries k

abbrev pub lua_value :
    {T : Type 0}
    → (T → SharedKey → List SharedKey → Option Scalar)
    → LuaValue T
    → List SharedKey
    → Option Scalar
lua_value read (table_value u) (k ∷ ks) = read u k ks
lua_value read (table_value u) [] = none
lua_value read (number_value r) ks = read_scalar (real_scalar r) ks
lua_value read (string_value s) ks = read_string s ks
lua_value read (boolean_value b) ks = read_scalar (boolean_scalar b) ks
lua_value read (integer_value n) ks = read_scalar (integer_scalar n) ks
lua_value read other_value ks = none

-- The Lua table itself along a path, if its tables had the fields of the metatable instead of
-- entries of their own with these names.
unfoldable pub read_lua : (d : ℕ) → LuaTable d → SharedKey → List SharedKey → Option Scalar
unfolding is_method read_method
read_lua zero t k ks = none
read_lua (suc d) (rawlen, entries) k ks =
    let found : Option Scalar = elim (raw_get entries k) [
      | none ↦ none
      | some v ↦ lua_value (read_lua d) v ks
    ] in
    if is_method k then read_method k ks else found

-- Keys are integers and strings, each once, and values are what can be shared.
unfoldable pub IsNew : {A : Type 0} → LuaKey → List (LuaKey × A) → Type 0
IsNew (LuaKey.integer n) entries = raw_get entries (integer_key n) ≡ none
IsNew (LuaKey.string s) entries = raw_get entries (string_key s) ≡ none
IsNew LuaKey.other entries = NoTable

unfoldable pub AreShareable : {A : Type 0} → (A → Type 0) → List (LuaKey × A) → Type 0
AreShareable P [] = Unit
AreShareable P ((key, a) ∷ entries) = IsNew key entries × P a × AreShareable P entries

unfoldable pub IsShareableValue : {T : Type 0} → (T → Type 0) → LuaValue T → Type 0
IsShareableValue P (table_value t) = P t
IsShareableValue P other_value = NoTable
IsShareableValue P (integer_value n) = Unit
IsShareableValue P (number_value r) = Unit
IsShareableValue P (string_value s) = Unit
IsShareableValue P (boolean_value b) = Unit

unfoldable pub IsShareable : (d : ℕ) → LuaTable d → Type 0
unfolding AreShareable IsShareableValue
IsShareable zero t = Unit
IsShareable (suc d) (rawlen, entries) = AreShareable (IsShareableValue (IsShareable d)) entries
