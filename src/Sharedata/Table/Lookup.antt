-- ===== src/Sharedata/Table/Lookup.antt =====
-- LookupHash of src/starnet_sharedata.cpp on the nodes that Finish builds.
use starnet.Common.{
  ℕ, zero, suc, ◌<◌, ◌≡◌, refl, sym, ap, subst, ◌∙◌, true, false, not, ◌&&◌, Bool-cases, inl, inr,
  some-injective, none-ne-some, Option, none, some, Option-cases, [], ◌∷◌, ◌==◌, ==_iff, arith, All,
  length,
}
use starnet.Sharedata.Table.{
  SharedKey, same_key, key_hash, Nodes, Items, is_empty, main_slot, finish, lookup_loop,
  lookup_hash,
}
use starnet.Sharedata.Table.Chain.{assoc, Reach, stop, via, Placed, IsBuilt, IsHome, AreDistinct}
use starnet.Sharedata.Table.Slots.{same_key-eq, same_key_self}
use starnet.Sharedata.Table.First.{AreKnown}
use starnet.Sharedata.Table.Second.{is_empty-full}
use starnet.Sharedata.Table.Finish.{IsFinished, finish-IsFinished}

module _ {V : Type 0} where
  known_behind :
      (k : SharedKey) (v : V) (items part : Items V)
      → assoc k items ≡ none
      → AreKnown items part
      → AreKnown ((k, v) ∷ items) part
  unfolding assoc
  known_behind k v items [] new known = tt
  known_behind k v items ((k', v') ∷ part) new known = (
    (elim (Bool-cases (same_key k k')) [
      | inl e ↦
          let stored = subst (λ x. assoc x items ≡ some v') (sym (same_key-eq k k' e)) known.0 in
          absurd (none-ne-some v' (sym new ∙ stored))
      | inr e ↦ rw e known.0
    ]),
    known_behind k v items part new known.1,
  )

  pub AreDistinct-known : (items : Items V) → AreDistinct items → AreKnown items items
  unfolding AreDistinct assoc
  AreDistinct-known [] d = tt
  AreDistinct-known ((k, v) ∷ items) (new, d) =
      (rw (same_key_self k) refl, known_behind k v items items new (AreDistinct-known items d))

  -- What holds of all items holds of the one that assoc finds.
  assoc-All {κ} :
      (P : SharedKey × V → Type κ) (items : Items V) (k : SharedKey) (v : V)
      → All P items
      → assoc k items ≡ some v
      → P (k, v)
  unfolding assoc
  assoc-All P [] k v all e = absurd (none-ne-some v e)
  assoc-All P ((k', v') ∷ items) k v all e = elim (Bool-cases (same_key k' k)) [
    | inl f ↦
        let g = rw f at e in
        subst (λ x. P (x, v)) (same_key-eq k' k f)
          (subst (λ x. P (k', x)) (some-injective v' v g) all.0)
    | inr f ↦ assoc-All P items k v all.1 (rw f at e)
  ]

  Reach-alone : (hash : Nodes V) (i b : ℕ) → Reach hash i b → (hash i).next ≡ none → i ≡ b
  Reach-alone hash i b (stop a) e = refl
  Reach-alone hash i b (via a j c f r) e = absurd (none-ne-some j (sym e ∙ f))

  module _ (hash : Nodes V) (k : SharedKey) where
    -- The two tests of a node are one for the key.
    node_test :
        (i : ℕ)
        → ((key_hash k == key_hash (hash i).key) && same_key (hash i).key k)
          ≡ same_key (hash i).key k
    node_test i = elim (Bool-cases (same_key (hash i).key k)) [
      | inl e ↦
          let f =
            (==_iff (key_hash k) (key_hash (hash i).key)).1
              (ap key_hash (sym (same_key-eq (hash i).key k e))) in
          rw (e, f) refl
      | inr e ↦ elim (Bool-cases (key_hash k == key_hash (hash i).key)) [
        | inl f ↦ rw (e, f) refl
        | inr f ↦ rw (e, f) refl
      ]
    ]

    loop-key : (n i j : ℕ) → lookup_loop n hash k i ≡ some j → (hash j).key ≡ k
    unfolding lookup_loop
    loop-key zero i j e = absurd (none-ne-some j e)
    loop-key (suc n) i j e =
        let f = rw (node_test i) at e in
        elim (Bool-cases (same_key (hash i).key k)) [
          | inl same ↦
              let g = rw same at f in
              subst (λ x. (hash x).key ≡ k) (some-injective i j g) (same_key-eq (hash i).key k same)
          | inr other ↦
              let g = rw other at f in
              elim (Option-cases (hash i).next) [
                | inl last ↦ let h = rw last at g in absurd (none-ne-some j h)
                | inr (i', more) ↦ let h = rw more at g in loop-key n i' j h
              ]
        ]

    loop-finds :
        (all : Items V) (size emptyslot : ℕ) (built : IsBuilt all size hash emptyslot)
        → (i b : ℕ) → Reach hash i b
        → (hash b).key ≡ k
        → is_empty (hash i) ≡ false
        → (n : ℕ) → built.rank i < n
        → (j : ℕ) × (lookup_loop n hash k i ≡ some j) × (is_empty (hash j) ≡ false)
    unfolding lookup_loop
    loop-finds all size emptyslot built i b walk key full zero lt = absurd (omega (arith, lt))
    loop-finds all size emptyslot built i b (stop a) key full (suc n) lt =
        let same : same_key (hash i).key k ≡ true = rw key (same_key_self k) in
        (i, rw (node_test i, same) refl, full)
    loop-finds all size emptyslot built i b (via a i' c more walk) key full (suc n) lt =
        let (full', far) = built.away i i' more in
        let falls = built.rank_falls i i' more in
        let ih =
          loop-finds all size emptyslot built i' b walk key full' n (omega (arith, lt, falls)) in
        elim (Bool-cases (same_key (hash i).key k)) [
          | inl same ↦ (i, rw (node_test i, same) refl, full)
          | inr other ↦ (ih.0, rw (node_test i, other, more) ih.1, ih.2)
        ]

    pub lookup_hash-key : (size j : ℕ) → lookup_hash size hash k ≡ some j → (hash j).key ≡ k
    unfolding lookup_hash
    lookup_hash-key size j e = elim (Bool-cases (size == 0)) [
      | inl f ↦ let g = rw f at e in absurd (none-ne-some j g)
      | inr f ↦
          let g = rw f at e in
          elim (Bool-cases (
            not (key_hash k == key_hash (hash (main_slot size k)).key)
            && (hash (main_slot size k)).nocolliding)) [
              | inl early ↦ let h = rw early at g in absurd (none-ne-some j h)
              | inr late ↦ loop-key (suc size) (main_slot size k) j (rw late at g)
            ]
    ]

    -- The early exit is not taken for a key that is there.
    no_early_exit :
        (all : Items V) (size emptyslot b : ℕ)
        → IsBuilt all size hash emptyslot
        → Reach hash (main_slot size k) b
        → (hash b).key ≡ k
        → (not (key_hash k == key_hash (hash (main_slot size k)).key)
            && (hash (main_slot size k)).nocolliding)
          ≡ false
    no_early_exit all size emptyslot b built walk key =
        let i = main_slot size k in
        elim (Bool-cases (hash i).nocolliding) [
          | inl flag ↦
              let i_b = Reach-alone hash i b walk (built.clear i flag) in
              let key_i : (hash i).key ≡ k = ap (λ x. (hash x).key) i_b ∙ key in
              let eq = (==_iff (key_hash k) (key_hash (hash i).key)).1 (ap key_hash (sym key_i)) in
              rw eq refl
          | inr flag ↦ elim (Bool-cases (key_hash k == key_hash (hash i).key)) [
            | inl eq ↦ rw eq refl
            | inr ne ↦ rw (ne, flag) refl
          ]
        ]

    pub lookup_hash-finds :
        (all : Items V) (size : ℕ) (v : V)
        → 0 < size
        → IsFinished all size hash
        → assoc k all ≡ some v
        → (j : ℕ) × (lookup_hash size hash k ≡ some j) × (is_empty (hash j) ≡ false)
    unfolding lookup_hash
    lookup_hash-finds all size v pos f e =
        let (b, walk, key, value) = assoc-All (Placed size hash) all k v f.placed e in
        let home = assoc-All (λ kv. IsHome size hash (main_slot size kv.0)) all k v f.homes e in
        let bound = f.built.rank_bound (main_slot size k) in
        let late = no_early_exit all size f.emptyslot b f.built walk key in
        let found =
          loop-finds all size f.emptyslot f.built (main_slot size k) b walk key home.0 (suc size)
            (omega (arith, bound, f.within)) in
        let some_size : (size == 0) ≡ false = ground (arith, pos) in rw (some_size, late) found

    -- The value of the node that is found.
    unfoldable pub value_at : Option ℕ → Option V
    value_at none = none
    value_at (some i) = (hash i).value

    value-agrees :
        (all : Items V) (size : ℕ)
        → 0 < size
        → IsFinished all size hash
        → value_at (lookup_hash size hash k) ≡ assoc k all
    unfolding value_at
    value-agrees all size pos f = elim (Option-cases (assoc k all)) [
      | inr (v, e) ↦
          let (j, found, full) = lookup_hash-finds all size v pos f e in
          let (w, value) = is_empty-full (hash j) full in
          let key = lookup_hash-key size j found in
          rw found (value ∙ sym (f.built.sound j w value) ∙ ap (λ x. assoc x all) key)
      | inl e ↦ elim (Option-cases (lookup_hash size hash k)) [
        | inl missing ↦ rw missing (sym e)
        | inr (j, found) ↦
            let key = lookup_hash-key size j found in
            rw found (elim (Option-cases (hash j).value) [
              | inl empty ↦ empty ∙ sym e
              | inr (w, value) ↦ value ∙ sym (f.built.sound j w value) ∙ ap (λ x. assoc x all) key
            ])
      ]
    ]

  -- In the hash part that Finish builds of items with distinct keys, the node that LookupHash
  -- finds for a key has the value that was added under it, and where no value was added no
  -- value is found.
  pub finish-lookup_hash :
      (items : Items V) (k : SharedKey)
      → AreDistinct items
      → value_at (finish items) k (lookup_hash (length items) (finish items) k) ≡ assoc k items
  unfolding assoc lookup_hash value_at
  finish-lookup_hash [] k d = refl
  finish-lookup_hash (kv ∷ items) k d =
      let all = kv ∷ items in
      let pos : 0 < length all = omega arith in
      value-agrees (finish all) k all (length all) pos
        (finish-IsFinished all pos (AreDistinct-known all d) d)
