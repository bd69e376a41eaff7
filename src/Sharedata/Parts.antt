-- ===== src/Sharedata/Parts.antt =====
-- The two parts of a table of src/starnet_sharedata.cpp together, and src/lualib-src/lua-sharedata.cpp,
-- which makes one of a Lua table. The array is its size with a function of the index. A pointer to
-- a value is an Option of it, where `none` is nullptr.
pub mod Conv
pub mod Place
pub mod Index
pub mod Iterate
pub mod Copy
pub mod Deepcopy
pub mod Export
mod Endless
mod Tests
use starnet.Common.{
  ℕ, suc, ◌+◌, ◌-◌, Bool, true, false, ◌&&◌, Option, none, some, List, [], ◌∷◌, ◌++◌, length, ltb,
  leb, ◌==◌, if◌then◌else◌,
}
use starnet.Common.Int.{ℤ, pos, negsuc}
use starnet.Sharedata.Table.{
  SharedKey, integer_key, string_key, Nodes, Items, empty_node, finish, lookup_hash,
}

pub record SharedTable (V : Type 0) : Type 0 where
  pub array_size : ℕ
  pub array : ℕ → Option V
  pub hash_size : ℕ
  pub hash : Nodes V
  pub pending : Items V

-- A key of a Lua table; `other` is a number that is no integer, or a value of another type.
pub data LuaKey : Type 0 where
  integer : ℤ → LuaKey
  string : List ℕ → LuaKey
  other : LuaKey

module _ {V : Type 0} where
  abbrev pub create : SharedTable V
  create = record {
    array_size = 0;
    array = λ i. none;
    hash_size = 0;
    hash = λ i. empty_node;
    pending = [];
  }

  -- Of a vector that grows, the new elements are of type NIL.
  unfoldable pub resize : ℕ → SharedTable V → SharedTable V
  resize n t = record t {
    array_size = n;
    array = λ i. if ltb i t.array_size then t.array i else none;
  }

  unfoldable pub set_array : ℕ → V → SharedTable V → SharedTable V
  unfolding resize
  set_array index v t =
      if leb 1 index
      then (let grown = if ltb t.array_size index then resize index t else t in
          record grown { array = λ i. if i == index - 1 then some v else grown.array i })
      else t

  unfoldable pub add_hash : SharedKey → V → SharedTable V → SharedTable V
  add_hash k v t = record t { pending = t.pending ++ (k, v) ∷ [] }

  unfoldable pub finish_table : SharedTable V → SharedTable V
  finish_table t = elim t.pending [
    | [] ↦ t
    | kv ∷ items ↦ record t {
      hash_size = suc (length items);
      hash = finish (kv ∷ items);
      pending = [];
    }
  ]

  unfoldable pub lookup_array : SharedTable V → ℤ → Option (Option V)
  lookup_array t (negsuc n) = none
  lookup_array t (pos n) = if leb 1 n && leb n t.array_size then some (t.array (n - 1)) else none

  unfoldable pub lookup_node : SharedTable V → SharedKey → Option (Option V)
  lookup_node t k = elim (lookup_hash t.hash_size t.hash k) [
    | none ↦ none
    | some i ↦ some (t.hash i).value
  ]

  unfoldable pub lookup : SharedTable V → SharedKey → Option (Option V)
  unfolding lookup_array lookup_node
  lookup t (integer_key k) = elim (lookup_array t k) [
    | none ↦ lookup_node t (integer_key k)
    | some v ↦ some v
  ]
  lookup t (string_key s) = lookup_node t (string_key s)

  abbrev pub flat : Option (Option V) → Option V
  flat none = none
  flat (some v) = v

  -- What the shared table gives for a key, which `__index` asks after the metatable: nil where
  -- there is no value, and where it is of type NIL.
  unfoldable pub index_value : SharedTable V → SharedKey → Option V
  unfolding lookup
  index_value t k = flat (lookup t k)

  -- Where the loop of `conv_table` puts an integer key.
  unfoldable pub add_integer : ℕ → ℤ → V → SharedTable V → SharedTable V
  unfolding set_array add_hash
  add_integer sizearray (negsuc n) v t = add_hash (integer_key (negsuc n)) v t
  add_integer sizearray (pos n) v t =
      if leb 1 n && leb n sizearray then set_array n v t else add_hash (integer_key (pos n)) v t

  module _ {A : Type 0} (conv_value : A → Option V) where
    -- The loop of `conv_table` over what `lua_next` yields; `none` is `luaL_error`.
    unfoldable pub conv_entries : ℕ → List (LuaKey × A) → SharedTable V → Option (SharedTable V)
    unfolding add_integer add_hash
    conv_entries sizearray [] t = some t
    conv_entries sizearray ((integer n, a) ∷ entries) t = elim (conv_value a) [
      | none ↦ none
      | some v ↦ conv_entries sizearray entries (add_integer sizearray n v t)
    ]
    conv_entries sizearray ((string s, a) ∷ entries) t = elim (conv_value a) [
      | none ↦ none
      | some v ↦ conv_entries sizearray entries (add_hash (string_key s) v t)
    ]
    conv_entries sizearray ((other, a) ∷ entries) t = none

    unfoldable pub conv_table : ℕ → List (LuaKey × A) → Option (SharedTable V)
    unfolding conv_entries finish_table
    conv_table rawlen entries = elim (conv_entries rawlen entries create) [
      | none ↦ none
      | some t ↦ some (finish_table t)
    ]
