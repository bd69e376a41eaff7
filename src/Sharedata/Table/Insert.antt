-- ===== src/Sharedata/Table/Insert.antt =====
-- A node put into its chain, in src/starnet_sharedata.cpp: what `IsBuilt` promises still holds.
use starnet.Common.{
  ℕ, suc, ◌≤◌, ◌<◌, ◌≡◌, ◌≢◌, refl, sym, ap, subst, ◌∙◌, true, false, some-injective, none-ne-some,
  none, some, ◌==◌, ==_iff, if◌then◌else◌, arith, ℕ_discrete,
}
use starnet.Sharedata.Table.{SharedKey, Nodes, Items, is_empty, main_slot, insert}
use starnet.Sharedata.Table.Chain.{
  assoc, Reach, stop, via, Placed, IsHome, IsBuilt, insert-new, insert-main, insert-other,
  insert-cases, insert-keeps, insert-full, insert-old,
}

module _ {V : Type 0} where
  module _ (size : ℕ) (hash : Nodes V) (j : ℕ) (k : SharedKey) (v : V)
      (home : IsHome size hash (main_slot size k)) (vacant : is_empty (hash j) ≡ true)
      (all : Items V) (emptyslot : ℕ) (built : IsBuilt all size hash emptyslot) (le : emptyslot ≤ j)
      (lt : j < size) (known : assoc k all ≡ some v)
      (new : (x : ℕ) → is_empty (hash x) ≡ false → (hash x).key ≢ k) where
    abbrev s : ℕ
    s = main_slot size k

    abbrev after : Nodes V
    after = insert size hash j (k, v)

    apart : s ≢ j
    apart e = let f = rw e at home.0 in cc (f, vacant)

    -- What `next` leads to is neither the main slot nor the new node.
    target : (i x : ℕ) → (hash i).next ≡ some x → (x ≢ j) × (x ≢ s)
    target i x e =
        let (full, far) = built.away i x e in
        (
          (λ f. let g = rw f at full in cc (g, vacant)),
          (λ f. far (subst (λ y. main_slot size (hash y).key ≡ y) (sym f) home.1)),
        )

    after_sound : (x : ℕ) (w : V) → (after x).value ≡ some w → assoc (after x).key all ≡ some w
    after_sound =
        insert-cases size hash j k v (λ x n. (w : V) → n.value ≡ some w → assoc n.key all ≡ some w)
          apart (λ w e. known ∙ e) (λ w e. built.sound s w e) (λ x n m w e. built.sound x w e)

    after-bare : (x : ℕ) → is_empty (after x) ≡ true → (after x).next ≡ none
    after-bare =
        insert-cases size hash j k v (λ x n. is_empty n ≡ true → n.next ≡ none) apart
          (λ e. absurd (cc e)) (λ e. absurd (cc (e, home.0))) (λ x n m e. built.bare x e)

    after-clear : (x : ℕ) → (after x).nocolliding ≡ true → (after x).next ≡ none
    after-clear =
        insert-cases size hash j k v (λ x n. n.nocolliding ≡ true → n.next ≡ none) apart
          (λ e. absurd (cc e)) (λ e. absurd (cc e)) (λ x n m e. built.clear x e)

    Away : ℕ → Type 0
    Away x = (is_empty (after x) ≡ false) × (main_slot size (after x).key ≢ x)

    keeps_Away : (i x : ℕ) → (hash i).next ≡ some x → Away x
    unfolding Away
    keeps_Away i x e =
        let (full, far) = built.away i x e in
        let same = (insert-keeps size hash j k v home vacant x full).0 in
        (
          insert-full size hash j k v home vacant x full,
          (λ f. far (sym (ap (main_slot size) same) ∙ f)),
        )

    new-Away : Away j
    unfolding Away
    new-Away = (
      ap is_empty (insert-new size hash j k v),
      (λ f. apart (sym (ap (λ n. main_slot size n.key) (insert-new size hash j k v)) ∙ f)),
    )

    after-Away : (x i : ℕ) → (after x).next ≡ some i → Away i
    after-Away =
        insert-cases size hash j k v (λ x n. (i : ℕ) → n.next ≡ some i → Away i) apart
          (λ i e. keeps_Away s i e) (λ i e. subst Away (some-injective j i e) new-Away)
          (λ x n m i e. keeps_Away x i e)

    after_rank : ℕ → ℕ
    after_rank x =
        if x == j then built.rank s else if x == s then suc (built.rank s) else built.rank x

    after_rank-new : after_rank j ≡ built.rank s
    unfolding after_rank
    after_rank-new = let e = (==_iff j j).1 refl in rw e refl

    after_rank-main : after_rank s ≡ suc (built.rank s)
    unfolding after_rank
    after_rank-main =
        let e : (s == j) ≡ false = ground (arith, apart) in
        let f = (==_iff s s).1 refl in rw (e, f) refl

    after_rank-other : (x : ℕ) → x ≢ j → x ≢ s → after_rank x ≡ built.rank x
    unfolding after_rank
    after_rank-other x n m =
        let e : (x == j) ≡ false = ground (arith, n) in
        let f : (x == s) ≡ false = ground (arith, m) in rw (e, f) refl

    after_rank-bound : (x : ℕ) → after_rank x ≤ suc j
    unfolding after_rank
    after_rank-bound x =
        let a = built.rank_bound s in let b = built.rank_bound x in ground (arith, a, b, le)

    after_rank-falls : (x i : ℕ) → (after x).next ≡ some i → after_rank i < after_rank x
    after_rank-falls =
        insert-cases size hash j k v
          (λ x n. (i : ℕ) → n.next ≡ some i → after_rank i < after_rank x) apart
          (λ i e.
            let (n, m) = target s i e in
            let lt = built.rank_falls s i e in rw (after_rank-new, after_rank-other i n m) lt)
          (λ i e.
            subst (λ y. after_rank y < after_rank s) (some-injective j i e)
              (rw (after_rank-new, after_rank-main) (omega arith)))
          (λ x n m i e.
            let (n', m') = target x i e in
            rw (after_rank-other i n' m', after_rank-other x n m) (built.rank_falls x i e))

    -- A node of the new key is the new node.
    unique_new : (x : ℕ) → is_empty (after x) ≡ false → (after x).key ≡ k → x ≡ j
    unique_new x full key = elim (ℕ_discrete x j) [
      | yes e ↦ e
      | no n ↦
          let (was, same) = insert-old size hash j k v home vacant x n full in
          absurd (new x was (sym same ∙ key))
    ]

    key_new : (after j).key ≡ k
    key_new = ap (λ n. n.key) (insert-new size hash j k v)

    after_unique :
        (x y : ℕ)
        → is_empty (after x) ≡ false
        → is_empty (after y) ≡ false
        → (after x).key ≡ (after y).key
        → x ≡ y
    after_unique x y full_x full_y same = elim (ℕ_discrete x j) [
      | yes e ↦
          let at_j = subst (λ z. (after z).key ≡ (after y).key) e same in
          e ∙ sym (unique_new y full_y (sym at_j ∙ key_new))
      | no n ↦ elim (ℕ_discrete y j) [
        | yes e ↦
            let at_j = subst (λ z. (after x).key ≡ (after z).key) e same in
            unique_new x full_x (at_j ∙ key_new) ∙ sym e
        | no m ↦
            let (was_x, same_x) = insert-old size hash j k v home vacant x n full_x in
            let (was_y, same_y) = insert-old size hash j k v home vacant y m full_y in
            built.unique x y was_x was_y (sym same_x ∙ same ∙ same_y)
      ]
    ]

    pub insert-IsBuilt : IsBuilt all size after (suc j)
    unfolding Away
    insert-IsBuilt = record {
      sound = after_sound;
      bare = after-bare;
      clear = after-clear;
      away = after-Away;
      inside = λ x full. elim (ℕ_discrete x j) [
        | yes e ↦ omega (arith, e, lt)
        | no n ↦ built.inside x (insert-old size hash j k v home vacant x n full).0
      ];
      unique = after_unique;
      rank = after_rank;
      rank_bound = after_rank-bound;
      rank_falls = after_rank-falls;
    }

    -- Walks go on, by the new node from the main slot.
    pub insert-Reach : (a b : ℕ) → Reach hash a b → Reach after a b
    insert-Reach a b (stop i) = stop a
    insert-Reach a b (via i i' c e r) =
        let ih = insert-Reach i' b r in
        elim (ℕ_discrete a j) [
          | yes f ↦
              let nowhere = rw f at e in
              absurd (none-ne-some i' (sym (built.bare j vacant) ∙ nowhere))
          | no n ↦ elim (ℕ_discrete a s) [
            | yes f ↦
                let next_s : (after s).next ≡ some j =
                  ap (λ x. x.next) (insert-main size hash j k v apart) in
                let at_s = rw f at e in
                let next_j : (after j).next ≡ some i' =
                  ap (λ x. x.next) (insert-new size hash j k v) ∙ at_s in
                subst (λ x. Reach after x b) (sym f) (via s j b next_s (via j i' b next_j ih))
            | no m ↦ via a i' b (ap (λ x. x.next) (insert-other size hash j k v a n m) ∙ e) ih
          ]
        ]

    pub insert-Placed : Placed size after (k, v)
    insert-Placed = (
      j,
      via s j j (ap (λ x. x.next) (insert-main size hash j k v apart)) (stop j),
      ap (λ x. x.key) (insert-new size hash j k v),
      ap (λ x. x.value) (insert-new size hash j k v),
    )

    pub insert-keeps_Placed : (kv : SharedKey × V) → Placed size hash kv → Placed size after kv
    insert-keeps_Placed kv p =
        let (b, walk, key, value) = p in
        let full : is_empty (hash b) ≡ false = rw value refl in
        let (same_k, same_v) = insert-keeps size hash j k v home vacant b full in
        (b, insert-Reach _ b walk, same_k ∙ key, same_v ∙ value)
