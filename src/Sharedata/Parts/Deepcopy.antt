-- ===== src/Sharedata/Parts/Deepcopy.antt =====
-- The copy that push_table of src/lualib-src/lua-sharedata.cpp makes, against the table it copies.
use starnet.Common.{
  ℕ, zero, suc, ◌+◌, ◌-◌, ◌≤◌, ◌<◌, ◌≡◌, ◌≢◌, refl, sym, ap, subst, ◌∙◌, true, false, Bool-cases,
  inl, inr, some-injective, none-ne-some, Option, none, some, Option-cases, [], ◌∷◌, ◌++◌, arith,
  ℕ_discrete,
}
use starnet.Common.Int.{pos, negsuc}
use starnet.Sharedata.Table.{
  SharedKey, integer_key, string_key, same_key, SharedNode, Items, is_empty, lookup_hash,
}
use starnet.Sharedata.Table.Chain.{assoc}
use starnet.Sharedata.Table.Slots.{same_key-eq, same_key-ne, same_key_self}
use starnet.Sharedata.Table.Lookup.{lookup_hash-key}
use starnet.Sharedata.Parts.{SharedTable, flat, index_value, lookup, lookup_array, lookup_node}
use starnet.Sharedata.Parts.Conv.{in_array}
use starnet.Sharedata.Parts.Place.{or_else}
use starnet.Sharedata.Parts.Iterate.{push_table}
use starnet.Sharedata.Parts.Copy.{IsIterable, slot_items, array_items, push_table-parts}

integer_of : SharedKey → ℕ
integer_of (integer_key (pos n)) = n
integer_of (integer_key (negsuc n)) = 0
integer_of (string_key s) = 0

index_ne : (i j : ℕ) → i ≢ j → integer_key (pos (i + 1)) ≢ integer_key (pos (j + 1))
unfolding integer_of
index_ne i j n e = let f = ap integer_of e in n (omega (arith, f))

module _ {V : Type 0} where
  or_else-none : (o : Option V) → or_else o none ≡ o
  or_else-none none = refl
  or_else-none (some v) = refl

  is_empty-none : (n : SharedNode V) → is_empty n ≡ true → n.value ≡ none
  is_empty-none n e = elim (Option-cases n.value) [
    | inl f ↦ f
    | inr (v, f) ↦ absurd (let g = rw f at e in cc g)
  ]

  assoc-append :
      (k : SharedKey) (a b : Items V) → assoc k (a ++ b) ≡ or_else (assoc k a) (assoc k b)
  unfolding assoc
  assoc-append k [] b = refl
  assoc-append k ((k', v) ∷ a) b = elim (Bool-cases (same_key k' k)) [
    | inl e ↦ rw e refl
    | inr e ↦ rw e (assoc-append k a b)
  ]

  pub index_value-outside :
      (t : SharedTable V) (k : SharedKey)
      → in_array t.array_size k ≡ false
      → index_value t k ≡ flat (lookup_node t k)
  unfolding in_array index_value lookup lookup_array
  index_value-outside t (string_key s) e = refl
  index_value-outside t (integer_key (negsuc n)) e = refl
  index_value-outside t (integer_key (pos n)) e = rw (flat, lookup, lookup_array, e) refl

  index_value-inside :
      (t : SharedTable V) (k : SharedKey)
      → in_array t.array_size k ≡ true
      → (j : ℕ) × (k ≡ integer_key (pos (j + 1)))
        × (j < t.array_size)
        × (index_value t k ≡ t.array j)
  unfolding in_array index_value lookup lookup_array
  index_value-inside t (string_key s) e = absurd (cc e)
  index_value-inside t (integer_key (negsuc n)) e = absurd (cc e)
  index_value-inside t (integer_key (pos n)) e =
      let next : n ≡ n - 1 + 1 = ground (arith, e) in
      (
        n - 1,
        ap (λ x. integer_key (pos x)) next,
        ground (arith, e),
        rw (flat, lookup, lookup_array, e) refl,
      )

  module _ (t : SharedTable V) (able : IsIterable t) (k : SharedKey) where
    slots-miss :
        ((i : ℕ) → is_empty (t.hash i) ≡ false → (t.hash i).key ≢ k)
        → (m i : ℕ) → assoc k (slot_items m i t.hash) ≡ none
    unfolding assoc slot_items
    slots-miss miss zero i = refl
    slots-miss miss (suc m) i = elim (Option-cases (t.hash i).value) [
      | inl e ↦ rw (slot_items, e) (slots-miss miss m (suc i))
      | inr (v, e) ↦
          let full : is_empty (t.hash i) ≡ false = rw e refl in
          let differ = same_key-ne (t.hash i).key k (miss i full) in
          rw (slot_items, e, assoc, differ) (slots-miss miss m (suc i))
    ]

    slots-hit :
        (j : ℕ)
        → lookup_hash t.hash_size t.hash k ≡ some j
        → is_empty (t.hash j) ≡ false
        → (m i : ℕ) → i ≤ j
        → j < i + m
        → assoc k (slot_items m i t.hash) ≡ (t.hash j).value
    unfolding assoc slot_items
    slots-hit j found full zero i lo hi = absurd (omega (arith, lo, hi))
    slots-hit j found full (suc m) i lo hi =
        let key = lookup_hash-key t.hash k t.hash_size j found in
        elim (Option-cases (t.hash i).value) [
          | inl e ↦
              let apart : i ≢ j = λ f.
                let g = subst (λ x. is_empty (t.hash x) ≡ false) (sym f) full in
                let h = rw e at g in cc h in
              rw (slot_items, e)
                (slots-hit j found full m (suc i) (omega (arith, lo, apart)) (omega (arith, hi)))
          | inr (v, e) ↦
              let full_i : is_empty (t.hash i) ≡ false = rw e refl in
              elim (Bool-cases (same_key (t.hash i).key k)) [
                | inl same ↦
                    let own = able.ordered.own i full_i in
                    let own_k =
                      subst (λ x. lookup_hash t.hash_size t.hash x ≡ some i)
                        (same_key-eq (t.hash i).key k same) own in
                    let i_j = some-injective i j (sym own_k ∙ found) in
                    let value = subst (λ x. (t.hash x).value ≡ some v) i_j e in
                    rw (slot_items, e, assoc, same) (sym value)
                | inr differ ↦
                    let apart : i ≢ j = λ f.
                      let key_i = subst (λ x. (t.hash x).key ≡ k) (sym f) key in
                      let h = subst (λ x. same_key x k ≡ false) key_i differ in
                      cc (h, same_key_self k) in
                    rw (slot_items, e, assoc, differ)
                      (slots-hit j found full m (suc i) (omega (arith, lo, apart))
                        (omega (arith, hi)))
              ]
        ]

    -- The slots as a list have what LookupHash finds.
    slots-agree : assoc k (slot_items t.hash_size 0 t.hash) ≡ flat (lookup_node t k)
    unfolding lookup_node
    slots-agree =
        let miss : ((i : ℕ)
            → is_empty (t.hash i) ≡ false
            → (t.hash i).key ≡ k
            → lookup_hash t.hash_size t.hash k ≡ some i) =
          λ i full key.
            subst (λ x. lookup_hash t.hash_size t.hash x ≡ some i) key (able.ordered.own i full) in
        elim (Option-cases (lookup_hash t.hash_size t.hash k)) [
          | inl e ↦
              rw (flat, lookup_node, e)
                (slots-miss (λ i full key. none-ne-some i (sym e ∙ miss i full key)) t.hash_size 0)
          | inr (j, e) ↦
              rw (flat, lookup_node, e)
                (elim (Bool-cases (is_empty (t.hash j))) [
                  | inl empty ↦
                      let other : (i : ℕ) → is_empty (t.hash i) ≡ false → (t.hash i).key ≢ k =
                        λ i full key.
                          let i_j = some-injective i j (sym (miss i full key) ∙ e) in
                          let f = subst (λ x. is_empty (t.hash x) ≡ false) i_j full in
                          cc (f, empty) in
                      slots-miss other t.hash_size 0 ∙ sym (is_empty-none (t.hash j) empty)
                  | inr full ↦
                      slots-hit j e full t.hash_size 0 (omega arith)
                        (omega (arith, able.ordered.inside j full))
                ])
        ]

    array-miss :
        ((n : ℕ) → 1 ≤ n → n ≤ t.array_size → k ≢ integer_key (pos n))
        → (m i : ℕ) → i + m ≤ t.array_size
        → assoc k (array_items m i t) ≡ none
    unfolding assoc array_items
    array-miss miss zero i le = refl
    array-miss miss (suc m) i le = elim (Option-cases (t.array i)) [
      | inl e ↦ rw (array_items, e) (array-miss miss m (suc i) (omega (arith, le)))
      | inr (v, e) ↦
          let differ =
            same_key-ne (integer_key (pos (i + 1))) k
              (λ f. miss (i + 1) (omega arith) (omega (arith, le)) (sym f)) in
          rw (array_items, e, assoc, differ) (array-miss miss m (suc i) (omega (arith, le)))
    ]

    -- Not what comes before.
    array-past :
        (j : ℕ)
        → k ≡ integer_key (pos (j + 1))
        → (m i : ℕ) → j < i
        → assoc k (array_items m i t) ≡ none
    unfolding assoc array_items
    array-past j key zero i lt = refl
    array-past j key (suc m) i lt =
        let ih = array-past j key m (suc i) (omega (arith, lt)) in
        elim (Option-cases (t.array i)) [
          | inl e ↦ rw (array_items, e) ih
          | inr (v, e) ↦
              let differ =
                same_key-ne (integer_key (pos (i + 1))) k
                  (λ f. index_ne i j (λ g. absurd (omega (arith, lt, g))) (f ∙ key)) in
              rw (array_items, e, assoc, differ) ih
        ]

    array-hit :
        (j : ℕ)
        → k ≡ integer_key (pos (j + 1))
        → (m i : ℕ) → i ≤ j
        → j < i + m
        → assoc k (array_items m i t) ≡ t.array j
    unfolding assoc array_items
    array-hit j key zero i lo hi = absurd (omega (arith, lo, hi))
    array-hit j key (suc m) i lo hi = elim (ℕ_discrete i j) [
      | yes e ↦
          let same : same_key (integer_key (pos (i + 1))) k ≡ true =
            rw (key, e) (same_key_self (integer_key (pos (j + 1)))) in
          elim (Option-cases (t.array i)) [
            | inl empty ↦
                rw (array_items, empty)
                  (array-past j key m (suc i) (omega (arith, e)) ∙ sym empty ∙ ap t.array e)
            | inr (v, value) ↦ rw (array_items, value, assoc, same) (sym value ∙ ap t.array e)
          ]
      | no n ↦
          let differ : same_key (integer_key (pos (i + 1))) k ≡ false =
            same_key-ne (integer_key (pos (i + 1))) k (λ f. index_ne i j n (f ∙ key)) in
          let ih = array-hit j key m (suc i) (omega (arith, lo, n)) (omega (arith, hi)) in
          elim (Option-cases (t.array i)) [
            | inl empty ↦ rw (array_items, empty) ih
            | inr (v, value) ↦ rw (array_items, value, assoc, differ) ih
          ]
    ]

    parts_together :
        or_else (assoc k (array_items t.array_size 0 t)) (assoc k (slot_items t.hash_size 0 t.hash))
        ≡ index_value t k
    unfolding in_array
    parts_together = elim (Bool-cases (in_array t.array_size k)) [
      | inr away ↦
          let miss : (n : ℕ) → 1 ≤ n → n ≤ t.array_size → k ≢ integer_key (pos n) =
            λ n pos_n le f. let g = rw f at away in absurd (ground (arith, g, pos_n, le)) in
          let gone = array-miss miss t.array_size 0 (omega arith) in
          ap (λ o. or_else o (assoc k (slot_items t.hash_size 0 t.hash))) gone
          ∙ slots-agree
          ∙ sym (index_value-outside t k away)
      | inl inside ↦
          let (j, key, lt, value) = index_value-inside t k inside in
          let hit = array-hit j key t.array_size 0 (omega arith) (omega (arith, lt)) in
          let other : (i : ℕ) → is_empty (t.hash i) ≡ false → (t.hash i).key ≢ k = λ i full f.
            let away = able.ordered.apart i full in
            let g = subst (λ x. in_array t.array_size x ≡ false) f away in cc (g, inside) in
          let gone = slots-miss other t.hash_size 0 in
          ap (λ o. or_else o (assoc k (slot_items t.hash_size 0 t.hash))) hit
          ∙ ap (or_else (t.array j)) gone
          ∙ or_else-none (t.array j)
          ∙ sym value
    ]

    -- The copy has under every key what the look-up gives.
    pub push_table-index_value :
        (n : ℕ) → t.array_size + t.hash_size < n → assoc k (push_table n t) ≡ index_value t k
    push_table-index_value n enough =
        ap (assoc k) (push_table-parts t able n enough)
        ∙ assoc-append k (array_items t.array_size 0 t) (slot_items t.hash_size 0 t.hash)
        ∙ parts_together
