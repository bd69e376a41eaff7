-- ===== src/Sharedata/Parts/Place.antt =====
-- What conv_table of src/lualib-src/lua-sharedata.cpp has in the parts of the table after its loop.
use starnet.Common.{
  ℕ, ◌≤◌, ◌≡◌, refl, sym, ap, ◌∙◌, true, false, Bool-cases, inl, inr, Option, none, some, [], ◌∷◌,
  ◌++◌, append-nil, append_assoc, ◌==◌, ==_iff, if◌then◌else◌, arith, ℕ_discrete,
}
use starnet.Common.Int.{pos}
use starnet.Sharedata.Table.{SharedKey, integer_key, same_key, Items}
use starnet.Sharedata.Table.Chain.{assoc, AreDistinct}
use starnet.Sharedata.Table.Slots.{same_key-eq, same_key-ne, same_key_self}
use starnet.Sharedata.Parts.{SharedTable, set_array, add_hash}
use starnet.Sharedata.Parts.Conv.{
  in_array, outside, cell, place_all, place-inside, place-outside, set_array-rest, set_array-cell,
  set_array-size,
}

abbrev pub or_else : {V : Type 0} → Option V → Option V → Option V
or_else none o = o
or_else (some v) o = some v

module _ {V : Type 0} (sizearray : ℕ) where
  -- What placing the items changes.
  pub record IsPlaced (items : Items V) (t t' : SharedTable V) : Type 0 where
    pub pending : t'.pending ≡ t.pending ++ outside sizearray items
    pub hash_size : t'.hash_size ≡ t.hash_size
    pub hash : t'.hash ≡ t.hash
    pub array_size : t.array_size ≤ sizearray → t'.array_size ≤ sizearray
    pub cells :
        (n : ℕ)
        → 1 ≤ n
        → n ≤ sizearray
        → cell t' n ≡ or_else (assoc (integer_key (pos n)) items) (cell t n)

  inside-IsPlaced :
      (n : ℕ) (v : V) (items : Items V) (t t' : SharedTable V)
      → in_array sizearray (integer_key (pos n)) ≡ true
      → assoc (integer_key (pos n)) items ≡ none
      → IsPlaced items (set_array n v t) t'
      → IsPlaced ((integer_key (pos n), v) ∷ items) t t'
  unfolding outside assoc in_array
  inside-IsPlaced n v items t t' inside new p =
      let (same_pending, same_size, same_hash) = set_array-rest n v t in
      let pos_n : 1 ≤ n = ground (arith, inside) in
      let n_le : n ≤ sizearray = ground (arith, inside) in
      record {
        pending = rw inside (p.pending ∙ ap (λ x. x ++ outside sizearray items) same_pending);
        hash_size = p.hash_size ∙ same_size;
        hash = p.hash ∙ same_hash;
        array_size = λ le. p.array_size (set_array-size n v t sizearray n_le le);
        cells = λ m pos_m m_le. p.cells m pos_m m_le ∙ elim (ℕ_discrete n m) [
          | yes e ↦
              let hit = (==_iff m n).1 (sym e) in
              let same : same_key (integer_key (pos n)) (integer_key (pos m)) ≡ true =
                rw e (same_key_self (integer_key (pos m))) in
              let new_m : assoc (integer_key (pos m)) items ≡ none = rw⁻¹ e new in
              rw (same, new_m) (set_array-cell n v t m pos_n pos_m ∙ rw hit refl)
          | no d ↦
              let miss : (m == n) ≡ false = ground (arith, d) in
              let differ : same_key (integer_key (pos n)) (integer_key (pos m)) ≡ false =
                same_key-ne _ _ (λ f. d (cc f)) in
              let same = set_array-cell n v t m pos_n pos_m in
              let kept = rw miss at same in
              rw differ (ap (or_else (assoc (integer_key (pos m)) items)) kept)
        ];
      }

  outside-IsPlaced :
      (k : SharedKey) (v : V) (items : Items V) (t t' : SharedTable V)
      → in_array sizearray k ≡ false
      → IsPlaced items (add_hash k v t) t'
      → IsPlaced ((k, v) ∷ items) t t'
  unfolding outside assoc add_hash cell in_array
  outside-IsPlaced k v items t t' away p = record {
    pending = rw away (p.pending ∙ append_assoc t.pending ((k, v) ∷ []) (outside sizearray items));
    hash_size = p.hash_size;
    hash = p.hash;
    array_size = p.array_size;
    cells = λ m pos_m m_le.
        let differ : same_key k (integer_key (pos m)) ≡ false =
          same_key-ne k _ (λ f. let g = rw f at away in absurd (ground (arith, g, pos_m, m_le))) in
        rw differ (p.cells m pos_m m_le);
  }

  pub place_all-IsPlaced :
      (items : Items V) (t : SharedTable V)
      → AreDistinct items
      → IsPlaced items t (place_all sizearray items t)
  unfolding place_all AreDistinct outside assoc
  place_all-IsPlaced [] t d = record {
    pending = sym (append-nil t.pending);
    hash_size = refl;
    hash = refl;
    array_size = λ le. le;
    cells = λ n pos_n n_le. refl;
  }
  place_all-IsPlaced ((k, v) ∷ items) t d = elim (Bool-cases (in_array sizearray k)) [
    | inl inside ↦
        let (n, k_n, pos_n, placed) = place-inside sizearray k v t inside in
        let inside_n = rw k_n at inside in
        let new = rw k_n at d.0 in
        let ih = place_all-IsPlaced items (set_array n v t) d.1 in
        rw (placed, k_n) (inside-IsPlaced n v items t _ inside_n new ih)
    | inr away ↦
        rw (place-outside sizearray k v t away)
          (outside-IsPlaced k v items t _ away (place_all-IsPlaced items (add_hash k v t) d.1))
  ]

  pub assoc-outside :
      (k : SharedKey) (items : Items V)
      → assoc k (outside sizearray items) ≡ (if in_array sizearray k then none else assoc k items)
  unfolding assoc outside
  assoc-outside k [] = ground arith
  assoc-outside k ((k', v) ∷ items) =
      let ih = assoc-outside k items in
      elim (Bool-cases (in_array sizearray k')) [
        | inl inside ↦ elim (Bool-cases (same_key k' k)) [
          | inl same ↦
              let inside_k = rw (same_key-eq k' k same) at inside in
              rw (inside, inside_k) (ih ∙ rw inside_k refl)
          | inr differ ↦ rw (inside, differ) ih
        ]
        | inr away ↦ elim (Bool-cases (same_key k' k)) [
          | inl same ↦
              let away_k = rw (same_key-eq k' k same) at away in rw (away, away_k, same) refl
          | inr differ ↦ rw (away, differ) ih
        ]
      ]

  pub outside-AreDistinct :
      (items : Items V) → AreDistinct items → AreDistinct (outside sizearray items)
  unfolding AreDistinct outside
  outside-AreDistinct [] d = tt
  outside-AreDistinct ((k, v) ∷ items) d = elim (Bool-cases (in_array sizearray k)) [
    | inl e ↦ rw e (outside-AreDistinct items d.1)
    | inr e ↦ rw e (assoc-outside k items ∙ rw e d.0, outside-AreDistinct items d.1)
  ]
