-- ===== src/Sharedata/Parts/Iterate.antt =====
-- NextKey of src/starnet_sharedata.cpp, and push_table of src/lualib-src/lua-sharedata.cpp, which
-- copies a table by it. A value that is found is not of type NIL.
use starnet.Common.{ℕ, zero, suc, ◌+◌, ◌-◌, Option, none, some, [], ◌∷◌, leb, ◌==◌, if◌then◌else◌}
use starnet.Common.Int.{pos, negsuc}
use starnet.Sharedata.Table.{SharedKey, integer_key, string_key, Nodes, Items, lookup_hash}
use starnet.Sharedata.Parts.{SharedTable}

module _ {V : Type 0} where
  -- The first value among n slots of the hash part from i on.
  unfoldable pub next_hash_slot : ℕ → ℕ → Nodes V → Option (SharedKey × V)
  next_hash_slot zero i hash = none
  next_hash_slot (suc n) i hash = elim (hash i).value [
    | none ↦ next_hash_slot n (suc i) hash
    | some v ↦ some ((hash i).key, v)
  ]

  -- The first value among n elements of the array from i on.
  unfoldable pub next_array : ℕ → ℕ → SharedTable V → Option (SharedKey × V)
  next_array zero i t = none
  next_array (suc n) i t = elim (t.array i) [
    | none ↦ next_array n (suc i) t
    | some v ↦ some (integer_key (pos (i + 1)), v)
  ]

  -- The elements from i on, n of them, and then the hash part.
  unfoldable pub next_parts : ℕ → ℕ → SharedTable V → Option (SharedKey × V)
  unfolding next_array next_hash_slot
  next_parts n i t = elim (next_array n i t) [
    | none ↦ next_hash_slot t.hash_size 0 t.hash
    | some kv ↦ some kv
  ]

  unfoldable pub next_after : SharedTable V → SharedKey → Option (SharedKey × V)
  unfolding next_hash_slot
  next_after t k =
      let start : ℕ = elim (lookup_hash t.hash_size t.hash k) [ none ↦ 0 | some i ↦ i + 1 ] in
      next_hash_slot (t.hash_size - start) start t.hash

  -- The integer 0 asks for the first key.
  unfoldable pub next_key : SharedTable V → SharedKey → Option (SharedKey × V)
  unfolding next_parts next_after
  next_key t (integer_key (pos n)) =
      if n == 0
      then next_parts t.array_size 0 t
      else if leb n t.array_size
      then next_parts (t.array_size - n) n t
      else next_after t (integer_key (pos n))
  next_key t (integer_key (negsuc n)) = next_after t (integer_key (negsuc n))
  next_key t (string_key s) = next_after t (string_key s)

  -- The loop of `push_table` with fuel: the pairs in the order in which they are set.
  unfoldable pub push_loop : ℕ → SharedTable V → SharedKey → Items V
  unfolding next_key
  push_loop zero t prev = []
  push_loop (suc n) t prev = elim (next_key t prev) [
    | none ↦ []
    | some (k, v) ↦ (k, v) ∷ push_loop n t k
  ]

  unfoldable pub push_table : ℕ → SharedTable V → Items V
  unfolding push_loop
  push_table fuel t = push_loop fuel t (integer_key (pos 0))
