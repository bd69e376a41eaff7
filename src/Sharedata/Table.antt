-- ===== src/Sharedata/Table.antt =====
-- The tables of src/starnet_sharedata.cpp: an array part, and a hash part that is built once.
-- A value is of any type; `none` is a SharedValue of type NIL. A vector is its size with a
-- function of the index; a pointer to a node is its index, and -1 in `next` is `none`.
pub mod Chain
pub mod Insert
pub mod Slots
pub mod First
pub mod Second
pub mod Finish
pub mod Lookup
use starnet.Common.{
  ℕ, zero, suc, ◌+◌, ◌-◌, ◌*◌, ◌/◌, ◌%◌, ◌^◌, Bool, true, false, not, ◌&&◌, Option, none, some,
  List, [], ◌∷◌, ltb, leb, ◌==◌, length, take, drop, if◌then◌else◌, bit_xor, ℕ_discrete,
}
use starnet.Common.Int.{ℤ, pos, negsuc}

-- A SharedKey is its type with the field that the type stands for.
pub data SharedKey : Type 0 where
  integer_key : ℤ → SharedKey
  string_key : List ℕ → SharedKey

abbrev same_integer : ℤ → ℤ → Bool
same_integer (pos a) (pos b) = a == b
same_integer (negsuc a) (negsuc b) = a == b
same_integer (pos a) (negsuc b) = false
same_integer (negsuc a) (pos b) = false

abbrev pub same_str : List ℕ → List ℕ → Bool
same_str [] [] = true
same_str [] (y ∷ ys) = false
same_str (x ∷ xs) [] = false
same_str (x ∷ xs) (y ∷ ys) = let rest = same_str xs ys in (x == y) && rest

unfoldable pub same_key : SharedKey → SharedKey → Bool
same_key (integer_key a) (integer_key b) = same_integer a b
same_key (string_key a) (string_key b) = same_str a b
same_key (integer_key a) (string_key b) = false
same_key (string_key a) (integer_key b) = false

-- The last byte of the first i of a string.
abbrev byte_before : List ℕ → ℕ → ℕ
byte_before [] i = 0
byte_before (b ∷ s) zero = 0
byte_before (b ∷ s) (suc zero) = b
byte_before (b ∷ s) (suc (suc i)) = byte_before s (suc i)

-- The loop of `HashKey`: `step` is positive, so there are i rounds at most.
hash_loop : ℕ → List ℕ → ℕ → ℕ → ℕ → ℕ
hash_loop zero s step i h = h
hash_loop (suc n) s step i h =
    let mixed = (h * 2 ^ 5 % 2 ^ 32 + h / 2 ^ 2 + byte_before s i) % 2 ^ 32 in
    let rest = hash_loop n s step (i - step) (bit_xor h mixed) in if leb step i then rest else h

unfoldable pub hash_key : List ℕ → ℕ
unfolding hash_loop
hash_key s = hash_loop (length s) s (length s / 2 ^ 5 + 1) (length s) (length s % 2 ^ 32)

-- The field `hash` that `AddHash` and `Lookup` set.
unfoldable pub key_hash : SharedKey → ℕ
unfolding hash_key
key_hash (integer_key (pos n)) = n % 2 ^ 32
key_hash (integer_key (negsuc n)) = 2 ^ 32 - 1 - n % 2 ^ 32
key_hash (string_key s) = hash_key s

unfoldable pub main_slot : ℕ → SharedKey → ℕ
main_slot size k = key_hash k % size

pub record SharedNode (V : Type 0) : Type 0 where
  pub key : SharedKey
  pub value : Option V
  pub next : Option ℕ
  pub nocolliding : Bool

abbrev pub Nodes : Type 0 → Type 0
Nodes V = ℕ → SharedNode V

abbrev pub Items : Type 0 → Type 0
Items V = List (SharedKey × V)

module _ {V : Type 0} where
  abbrev pub empty_node : SharedNode V
  empty_node = record { key = integer_key (pos 0); value = none; next = none; nocolliding = false }

  abbrev pub is_empty : SharedNode V → Bool
  is_empty n = elim n.value [ none ↦ true | some v ↦ false ]

  unfoldable pub set_node : Nodes V → ℕ → SharedNode V → Nodes V
  set_node hash i n j = if j == i then n else hash j

  unfoldable pub fill_one : ℕ → Nodes V → SharedKey × V → Nodes V
  unfolding set_node main_slot
  fill_one size hash (k, v) =
      let i = main_slot size k in
      if is_empty (hash i)
      then set_node hash i (record { key = k; value = some v; next = none; nocolliding = true })
      else hash

  unfoldable pub fill_no_colliding : ℕ → Items V → Nodes V → Nodes V
  unfolding fill_one
  fill_no_colliding size [] hash = hash
  fill_no_colliding size (kv ∷ items) hash = fill_no_colliding size items (fill_one size hash kv)

  -- The loop for an empty slot among the n from i on.
  unfoldable pub find_empty : ℕ → ℕ → Nodes V → Option ℕ
  find_empty zero i hash = none
  find_empty (suc n) i hash =
      let rest = find_empty n (suc i) hash in if is_empty (hash i) then some i else rest

  -- Behind the node of its main slot, in slot j.
  unfoldable pub insert : ℕ → Nodes V → ℕ → SharedKey × V → Nodes V
  unfolding set_node main_slot
  insert size hash j (k, v) =
      let i = main_slot size k in
      let n : SharedNode V = record {
        key = k;
        value = some v;
        next = (hash i).next;
        nocolliding = false;
      } in
      set_node (set_node hash i (record (hash i) { next = some j; nocolliding = false })) j n

  -- The nodes with `emptyslot`.
  unfoldable pub collide_one : ℕ → Nodes V × ℕ → SharedKey × V → Nodes V × ℕ
  unfolding main_slot find_empty insert
  collide_one size (hash, emptyslot) (k, v) =
      if same_key (hash (main_slot size k)).key k
      then (hash, emptyslot)
      else elim (find_empty (size - emptyslot) emptyslot hash) [
        | none ↦ (hash, emptyslot)
        | some j ↦ (insert size hash j (k, v), suc j)
      ]

  unfoldable pub fill_colliding : ℕ → Items V → Nodes V × ℕ → Nodes V × ℕ
  unfolding collide_one
  fill_colliding size [] s = s
  fill_colliding size (kv ∷ items) s = fill_colliding size items (collide_one size s kv)

  -- The hash part that `Finish` builds of what `AddHash` has collected.
  unfoldable pub finish : Items V → Nodes V
  unfolding fill_no_colliding fill_colliding
  finish items =
      let size = length items in
      (fill_colliding size items (fill_no_colliding size items (λ i. empty_node), 0)).0

  -- The loop of `LookupHash`, with fuel; the two tests of a node are for the hash and the key.
  unfoldable pub lookup_loop : ℕ → Nodes V → SharedKey → ℕ → Option ℕ
  lookup_loop zero hash k i = none
  lookup_loop (suc n) hash k i =
      let rest : Option ℕ = elim (hash i).next [ none ↦ none | some j ↦ lookup_loop n hash k j ] in
      if (key_hash k == key_hash (hash i).key) && same_key (hash i).key k then some i else rest

  unfoldable pub lookup_hash : ℕ → Nodes V → SharedKey → Option ℕ
  unfolding lookup_loop main_slot
  lookup_hash size hash k =
      let i = main_slot size k in
      if size == 0
      then none
      else if not (key_hash k == key_hash (hash i).key) && (hash i).nocolliding
      then none
      else lookup_loop (suc size) hash k i
