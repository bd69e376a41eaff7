-- ===== src/Sharedata/Table/Chain.antt =====
-- What holds of the nodes of src/starnet_sharedata.cpp while the hash part is built.
use starnet.Common.{
  ℕ, ◌≤◌, ◌<◌, ◌≡◌, ◌≢◌, refl, sym, ap, subst, ◌∙◌, true, false, Option, none, some, [], ◌∷◌, ◌==◌,
  ==_iff, if◌then◌else◌, arith, ℕ_discrete, Bool,
}
use starnet.Sharedata.Table.{
  SharedKey, same_key, SharedNode, Nodes, Items, is_empty, set_node, main_slot, insert,
}

module _ {V : Type 0} where
  -- The list of the items as a map.
  unfoldable pub assoc : SharedKey → Items V → Option V
  assoc k [] = none
  assoc k ((k', v) ∷ items) = let rest = assoc k items in if same_key k' k then some v else rest

  -- No key twice.
  unfoldable pub AreDistinct : Items V → Type 0
  AreDistinct [] = Unit
  AreDistinct ((k, v) ∷ items) = (assoc k items ≡ none) × AreDistinct items

  -- A walk along `next`.
  pub data Reach (hash : Nodes V) : ℕ → ℕ → Type 0 where
    stop : (i : ℕ) → Reach hash i i
    via : (i j b : ℕ) → (hash i).next ≡ some j → Reach hash j b → Reach hash i b

  -- An item stands in a node that is reached from its main slot.
  abbrev pub Placed : ℕ → Nodes V → SharedKey × V → Type 0
  Placed size hash (k, v) =
      (b : ℕ) × Reach hash (main_slot size k) b × ((hash b).key ≡ k) × ((hash b).value ≡ some v)

  -- A main slot with a key at home.
  abbrev pub IsHome : ℕ → Nodes V → ℕ → Type 0
  IsHome size hash s = (is_empty (hash s) ≡ false) × (main_slot size (hash s).key ≡ s)

  -- `rank` falls along `next`, and is at most the number of slots that were searched.
  pub record IsBuilt (all : Items V) (size : ℕ) (hash : Nodes V) (emptyslot : ℕ) : Type 0 where
    pub sound : (i : ℕ) (v : V) → (hash i).value ≡ some v → assoc (hash i).key all ≡ some v
    pub bare : (i : ℕ) → is_empty (hash i) ≡ true → (hash i).next ≡ none
    pub clear : (i : ℕ) → (hash i).nocolliding ≡ true → (hash i).next ≡ none
    pub away :
        (i j : ℕ)
        → (hash i).next ≡ some j
        → (is_empty (hash j) ≡ false) × (main_slot size (hash j).key ≢ j)
    pub inside : (i : ℕ) → is_empty (hash i) ≡ false → i < size
    pub unique :
        (i j : ℕ)
        → is_empty (hash i) ≡ false
        → is_empty (hash j) ≡ false
        → (hash i).key ≡ (hash j).key
        → i ≡ j
    pub rank : ℕ → ℕ
    pub rank_bound : (i : ℕ) → rank i ≤ emptyslot
    pub rank_falls : (i j : ℕ) → (hash i).next ≡ some j → rank j < rank i

  module _ (size : ℕ) (hash : Nodes V) (j : ℕ) (k : SharedKey) (v : V) where
    abbrev pub s : ℕ
    s = main_slot size k

    abbrev pub after : Nodes V
    after = insert size hash j (k, v)

    pub insert-new :
        after j ≡ record { key = k; value = some v; next = (hash s).next; nocolliding = false }
    unfolding insert set_node
    insert-new = let e = (==_iff j j).1 refl in rw e refl

    pub insert-main : s ≢ j → after s ≡ record (hash s) { next = some j; nocolliding = false }
    unfolding insert set_node
    insert-main n =
        let e : (s == j) ≡ false = ground (arith, n) in
        let f = (==_iff s s).1 refl in rw (e, f) refl

    pub insert-other : (x : ℕ) → x ≢ j → x ≢ s → after x ≡ hash x
    unfolding insert set_node
    insert-other x n m =
        let e : (x == j) ≡ false = ground (arith, n) in
        let f : (x == s) ≡ false = ground (arith, m) in rw (e, f) refl

    -- A property of every node, from the new one, the one at the main slot, and the others.
    pub insert-cases {κ} :
        (P : ℕ → SharedNode V → Type κ)
        → s ≢ j
        → P j (record { key = k; value = some v; next = (hash s).next; nocolliding = false })
        → P s (record (hash s) { next = some j; nocolliding = false })
        → ((x : ℕ) → x ≢ j → x ≢ s → P x (hash x))
        → (x : ℕ) → P x (after x)
    insert-cases P apart new main other x = elim (ℕ_discrete x j) [
      | yes e ↦ subst (λ y. P y (after y)) (sym e) (subst (P j) (sym insert-new) new)
      | no n ↦ elim (ℕ_discrete x s) [
        | yes e ↦ subst (λ y. P y (after y)) (sym e) (subst (P s) (sym (insert-main apart)) main)
        | no m ↦ subst (P x) (sym (insert-other x n m)) (other x n m)
      ]
    ]

    module _ (home : IsHome size hash s) (vacant : is_empty (hash j) ≡ true) where
      pub apart : s ≢ j
      apart e = let f = rw e at home.0 in cc (f, vacant)

      -- A node that is not empty keeps its key and its value.
      pub insert-keeps :
          (x : ℕ)
          → is_empty (hash x) ≡ false
          → ((after x).key ≡ (hash x).key) × ((after x).value ≡ (hash x).value)
      insert-keeps x full =
          insert-cases
            (λ y n. is_empty (hash y) ≡ false → (n.key ≡ (hash y).key) × (n.value ≡ (hash y).value))
            apart (λ f. absurd (cc (f, vacant))) (λ f. (refl, refl)) (λ y n m f. (refl, refl)) x
            full

      pub insert-full : (x : ℕ) → is_empty (hash x) ≡ false → is_empty (after x) ≡ false
      insert-full x full =
          let same = (insert-keeps x full).1 in
          ap (λ o. elim o as (λ o. Bool) [ none ↦ true | some w ↦ false ]) same ∙ full

      pub insert-IsHome : (x : ℕ) → IsHome size hash x → IsHome size after x
      insert-IsHome x h = (insert-full x h.0, ap (main_slot size) (insert-keeps x h.0).0 ∙ h.1)

      -- A node that is not the new one was there.
      pub insert-old :
          (x : ℕ)
          → x ≢ j
          → is_empty (after x) ≡ false
          → (is_empty (hash x) ≡ false) × ((after x).key ≡ (hash x).key)
      insert-old x n full =
          let was : is_empty (hash x) ≡ false = elim (ℕ_discrete x s) [
            | yes e ↦ rw e home.0
            | no m ↦ sym (ap is_empty (insert-other x n m)) ∙ full
          ] in
          (was, (insert-keeps x was).0)
