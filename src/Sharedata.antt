-- ===== src/Sharedata.antt =====
-- The store of src/starnet_sharedata.cpp, and the cache of its clients in lualib/starnet/sharedata.lua.
-- A method of the store holds its lock from end to end, so it is one step. The map is a function of
-- the name; a table, which is never changed after it is built, is a value of any type.
pub mod Fresh
pub mod Table
pub mod Parts
pub mod Nested
mod Tests
use Prim.Native.String.{String}
use text.Mathlib.Text.{◌==◌ as str_eq}
use starnet.Common.{
  ℕ, ◌+◌, ◌%◌, ◌^◌, Bool, true, false, Option, none, some, List, [], ◌∷◌, ◌==◌, if◌then◌else◌,
}

pub record TableState (A : Type 0) : Type 0 where
  pub name : String
  pub table : A
  pub version : ℕ
  pub dirty : Bool

abbrev pub Store : Type 0 → Type 0
Store A = String → Option (TableState A)

module _ {A : Type 0} where
  unfoldable pub set_name : Store A → String → Option (TableState A) → Store A
  set_name store name st n = if str_eq n name then st else store n

  unfoldable pub query : Store A → String → Option (TableState A)
  query store name = store name

  -- The version is 0 for a new name, and else one more, as a `uint32_t`.
  unfoldable pub update : Store A → String → A → Store A
  unfolding set_name
  update store name table = set_name store name (
      some (record {
        name = name;
        table = table;
        version = elim (store name) [ none ↦ 0 | some st ↦ (st.version + 1) % 2 ^ 32 ];
        dirty = true;
      }))

  unfoldable pub delete : Store A → String → Store A
  unfolding set_name
  delete store name = set_name store name none

  unfoldable pub exist : Store A → String → Bool
  exist store name = elim (store name) [ none ↦ false | some st ↦ true ]

  -- 0 stands for a name that is not there, too.
  unfoldable pub version_of : Store A → String → ℕ
  version_of store name = elim (store name) [ none ↦ 0 | some st ↦ st.version ]

  -- `sharedata.query`: the cached box if its version is the store's, and else a new one.
  unfoldable pub requery : Store A → Store A → String → Option (TableState A) × Store A
  unfolding set_name query
  requery cache store name = (query store name, set_name cache name (query store name))

  unfoldable pub cached_query : Store A → Store A → String → Option (TableState A) × Store A
  unfolding requery
  cached_query cache store name = elim (cache name) [
    | none ↦ requery cache store name
    | some b ↦
        if b.version == version_of store name then (some b, cache) else requery cache store name
  ]

-- What any service may do to the store.
pub data StoreOp (A : Type 0) : Type 0 where
  update_op : String → A → StoreOp A
  delete_op : String → StoreOp A

module _ {A : Type 0} where
  unfoldable pub run_ops : Store A → List (StoreOp A) → Store A
  run_ops store [] = store
  run_ops store (update_op name table ∷ ops) = run_ops (update store name table) ops
  run_ops store (delete_op name ∷ ops) = run_ops (delete store name) ops
