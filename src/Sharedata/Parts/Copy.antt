-- ===== src/Sharedata/Parts/Copy.antt =====
-- What push_table of src/lualib-src/lua-sharedata.cpp copies: every value, part by part.
use starnet.Common.{
  ℕ, zero, suc, ◌+◌, ◌-◌, ◌≤◌, ◌<◌, ◌≡◌, ◌≢◌, refl, sym, ap, length, length-append, ◌∙◌, true,
  false, inl, inr, none, some, Option-cases, [], ◌∷◌, ◌++◌, leb, ◌==◌, arith,
}
use starnet.Common.Int.{pos, negsuc}
use starnet.Sharedata.Table.{
  SharedKey, integer_key, string_key, Nodes, Items, is_empty, lookup_hash,
}
use starnet.Sharedata.Parts.{SharedTable}
use starnet.Sharedata.Parts.Conv.{in_array}
use starnet.Sharedata.Parts.Iterate.{
  next_hash_slot, next_array, next_parts, next_after, next_key, push_loop, push_table,
}

module _ {V : Type 0} where
  unfoldable pub slot_items : ℕ → ℕ → Nodes V → Items V
  slot_items zero i hash = []
  slot_items (suc n) i hash =
      let rest = slot_items n (suc i) hash in
      elim (hash i).value [ none ↦ rest | some v ↦ ((hash i).key, v) ∷ rest ]

  unfoldable pub array_items : ℕ → ℕ → SharedTable V → Items V
  array_items zero i t = []
  array_items (suc n) i t =
      let rest = array_items n (suc i) t in
      elim (t.array i) [ none ↦ rest | some v ↦ (integer_key (pos (i + 1)), v) ∷ rest ]

  length-slot_items : (n i : ℕ) (hash : Nodes V) → length (slot_items n i hash) ≤ n
  unfolding slot_items
  length-slot_items zero i hash = omega arith
  length-slot_items (suc n) i hash =
      let ih = length-slot_items n (suc i) hash in
      elim (Option-cases (hash i).value) [
        | inl e ↦ rw (slot_items, e) (omega (arith, ih))
        | inr (v, e) ↦ rw (slot_items, e) (omega (arith, ih))
      ]

  length-array_items : (n i : ℕ) (t : SharedTable V) → length (array_items n i t) ≤ n
  unfolding array_items
  length-array_items zero i t = omega arith
  length-array_items (suc n) i t =
      let ih = length-array_items n (suc i) t in
      elim (Option-cases (t.array i)) [
        | inl e ↦ rw (array_items, e) (omega (arith, ih))
        | inr (v, e) ↦ rw (array_items, e) (omega (arith, ih))
      ]

  -- A key of the hash part is found in its own slot, and has no element of the array.
  pub record IsOrdered (t : SharedTable V) : Type 0 where
    pub inside : (i : ℕ) → is_empty (t.hash i) ≡ false → i < t.hash_size
    pub own :
        (i : ℕ)
        → is_empty (t.hash i) ≡ false
        → lookup_hash t.hash_size t.hash (t.hash i).key ≡ some i
    pub apart : (i : ℕ) → is_empty (t.hash i) ≡ false → in_array t.array_size (t.hash i).key ≡ false

  -- A table that NextKey gets through: besides, no key is the integer 0.
  pub record IsIterable (t : SharedTable V) : Type 0 where
    pub ordered : IsOrdered t
    pub nonzero : (i : ℕ) → is_empty (t.hash i) ≡ false → (t.hash i).key ≢ integer_key (pos 0)

  next_key-hash :
      (t : SharedTable V) (k : SharedKey)
      → in_array t.array_size k ≡ false
      → k ≢ integer_key (pos 0)
      → next_key t k ≡ next_after t k
  unfolding next_key in_array
  next_key-hash t (string_key s) away n = refl
  next_key-hash t (integer_key (negsuc m)) away n = refl
  next_key-hash t (integer_key (pos zero)) away n = absurd (n refl)
  next_key-hash t (integer_key (pos (suc m))) away n =
      let big : leb (suc m) t.array_size ≡ false = ground (arith, away) in
      let some_n : (suc m == 0) ≡ false = ground arith in rw (next_key, some_n, big) refl

  pub next_key-slot :
      (t : SharedTable V) (i m : ℕ)
      → IsOrdered t
      → suc (i + m) ≡ t.hash_size
      → is_empty (t.hash i) ≡ false
      → (t.hash i).key ≢ integer_key (pos 0)
      → next_key t (t.hash i).key ≡ next_hash_slot m (suc i) t.hash
  unfolding next_after
  next_key-slot t i m ordered e full nonzero =
      let found = ordered.own i full in
      let left : t.hash_size - (i + 1) ≡ m = omega (arith, e) in
      let one : i + 1 ≡ suc i = omega arith in
      next_key-hash t (t.hash i).key (ordered.apart i full) nonzero
      ∙ rw (next_after, found, left, one) refl

  pub next_key-element :
      (t : SharedTable V) (i m : ℕ)
      → suc (i + m) ≡ t.array_size
      → next_key t (integer_key (pos (i + 1))) ≡ next_parts m (suc i) t
  unfolding next_key
  next_key-element t i m e =
      let one : i + 1 ≡ suc i = omega arith in
      let some_n : (i + 1 == 0) ≡ false = ground arith in
      let within : leb (i + 1) t.array_size ≡ true = ground (arith, e) in
      let left : t.array_size - suc i ≡ m = omega (arith, e) in
      rw (next_key, some_n, within, one, left) refl

  module _ (t : SharedTable V) (able : IsIterable t) where
    push_loop-slots :
        (m i n : ℕ) (prev : SharedKey)
        → i + m ≡ t.hash_size
        → m < n
        → next_key t prev ≡ next_hash_slot m i t.hash
        → push_loop n t prev ≡ slot_items m i t.hash
    unfolding push_loop slot_items next_hash_slot
    push_loop-slots m i zero prev e lt next = absurd (omega (arith, lt))
    push_loop-slots zero i (suc n) prev e lt next = rw (push_loop, next) refl
    push_loop-slots (suc m) i (suc n) prev e lt next = elim (Option-cases (t.hash i).value) [
      | inl empty ↦
          let further = rw (next_hash_slot, empty) at next in
          let ih =
            push_loop-slots m (suc i) (suc n) prev (omega (arith, e)) (omega (arith, lt)) further in
          rw (slot_items, empty) ih
      | inr (v, value) ↦
          let here = rw (next_hash_slot, value) at next in
          let full : is_empty (t.hash i) ≡ false = rw value refl in
          let further =
            next_key-slot t i m able.ordered (omega (arith, e)) full (able.nonzero i full) in
          let ih =
            push_loop-slots m (suc i) n (t.hash i).key (omega (arith, e)) (omega (arith, lt))
              further in
          rw (push_loop, here, slot_items, value, ih) refl
    ]

    push_loop-parts :
        (m i n : ℕ) (prev : SharedKey)
        → i + m ≡ t.array_size
        → m + t.hash_size < n
        → next_key t prev ≡ next_parts m i t
        → push_loop n t prev ≡ array_items m i t ++ slot_items t.hash_size 0 t.hash
    unfolding push_loop array_items next_parts next_array
    push_loop-parts m i zero prev e lt next = absurd (omega (arith, lt))
    push_loop-parts zero i (suc n) prev e lt next =
        push_loop-slots t.hash_size 0 (suc n) prev (omega arith) (omega (arith, lt)) next
    push_loop-parts (suc m) i (suc n) prev e lt next = elim (Option-cases (t.array i)) [
      | inl empty ↦
          let further = rw (next_parts, next_array, empty) at next in
          let ih =
            push_loop-parts m (suc i) (suc n) prev (omega (arith, e)) (omega (arith, lt)) further in
          rw (array_items, empty) ih
      | inr (v, value) ↦
          let here = rw (next_parts, next_array, value) at next in
          let further = next_key-element t i m (omega (arith, e)) in
          let ih =
            push_loop-parts m (suc i) n (integer_key (pos (i + 1))) (omega (arith, e))
              (omega (arith, lt)) further in
          rw (push_loop, here, array_items, value, ih) refl
    ]

    pub push_table-parts :
        (n : ℕ)
        → t.array_size + t.hash_size < n
        → push_table n t ≡ array_items t.array_size 0 t ++ slot_items t.hash_size 0 t.hash
    unfolding push_table next_key
    push_table-parts n enough =
        push_loop-parts t.array_size 0 n (integer_key (pos 0)) (omega arith) enough refl

    -- With more fuel than there are elements and slots the loop ends by itself: it takes no more
    -- rounds, whatever the fuel.
    pub push_table-settled :
        (more : ℕ)
        → push_table (suc (t.array_size + t.hash_size) + more) t
          ≡ push_table (suc (t.array_size + t.hash_size)) t
    push_table-settled more =
        push_table-parts (suc (t.array_size + t.hash_size) + more) (omega arith)
        ∙ sym (push_table-parts (suc (t.array_size + t.hash_size)) (omega arith))

    pub length-push_table :
        (more : ℕ)
        → length (push_table (suc (t.array_size + t.hash_size) + more) t)
          ≤ t.array_size + t.hash_size
    length-push_table more =
        let e = push_table-parts (suc (t.array_size + t.hash_size) + more) (omega arith) in
        let a = array_items t.array_size 0 t in
        let b = slot_items t.hash_size 0 t.hash in
        omega (
          arith,
          ap length e,
          length-append a b,
          length-array_items t.array_size 0 t,
          length-slot_items t.hash_size 0 t.hash,
        )
