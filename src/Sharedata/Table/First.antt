-- ===== src/Sharedata/Table/First.antt =====
-- FillNoColliding of src/starnet_sharedata.cpp: every main slot gets its first item.
use starnet.Common.{
  ℕ, zero, suc, ◌+◌, ◌≤◌, ◌<◌, ◌≡◌, ◌≢◌, refl, sym, ap, subst, ◌∙◌, true, false, Bool-cases, inl,
  inr, none-ne-some, none, some, [], ◌∷◌, ◌==◌, ==_iff, arith, ℕ_discrete, All, length,
}
use starnet.Sharedata.Table.{
  SharedKey, SharedNode, Nodes, Items, is_empty, empty_node, set_node, main_slot, fill_one,
  fill_no_colliding,
}
use starnet.Sharedata.Table.Chain.{assoc, IsHome, IsBuilt}
use starnet.Sharedata.Table.Slots.{empties, absent, empties-fewer, same_key_self}

main_slot-lt : (size : ℕ) (k : SharedKey) → 0 < size → main_slot size k < size
unfolding main_slot
main_slot-lt size k pos = omega (arith, pos)

module _ {V : Type 0} where
  abbrev pub AreKnown : Items V → Items V → Type 0
  AreKnown all items = All (λ kv. assoc kv.0 all ≡ some kv.1) items

  abbrev pub AreHome : ℕ → Nodes V → Items V → Type 0
  AreHome size hash items = All (λ kv. IsHome size hash (main_slot size kv.0)) items

  -- No chains yet, and every key at home.
  record IsFlat (all : Items V) (size : ℕ) (hash : Nodes V) : Type 0 where
    sound : (i : ℕ) (v : V) → (hash i).value ≡ some v → assoc (hash i).key all ≡ some v
    alone : (i : ℕ) → (hash i).next ≡ none
    home : (i : ℕ) → is_empty (hash i) ≡ false → main_slot size (hash i).key ≡ i

  module _ (all : Items V) (size : ℕ) (hash : Nodes V) (k : SharedKey) (v : V) where
    s : ℕ
    s = main_slot size k

    after : Nodes V
    after = fill_one size hash (k, v)

    new_node : SharedNode V
    new_node = record { key = k; value = some v; next = none; nocolliding = true }

    fill-full : is_empty (hash s) ≡ false → after ≡ hash
    unfolding after s fill_one
    fill-full e = rw e refl

    fill-new : is_empty (hash s) ≡ true → after s ≡ new_node
    unfolding after s fill_one set_node new_node
    fill-new e = let f = (==_iff (main_slot size k) (main_slot size k)).1 refl in rw (e, f) refl

    fill-other : (x : ℕ) → x ≢ s → after x ≡ hash x
    unfolding after s fill_one set_node
    fill-other x n =
        let f : (x == main_slot size k) ≡ false = ground (arith, n) in
        elim (Bool-cases (is_empty (hash (main_slot size k)))) [
          | inl e ↦ rw (e, f) refl
          | inr e ↦ rw e refl
        ]

    -- A full slot stays as it is, and the main slot of the item is full.
    fill_keeps : (x : ℕ) → is_empty (hash x) ≡ false → after x ≡ hash x
    fill_keeps x full = elim (ℕ_discrete x s) [
      | yes e ↦ ap (λ h. h x) (fill-full (rw e at full))
      | no n ↦ fill-other x n
    ]

    fill_main : is_empty (after s) ≡ false
    unfolding new_node
    fill_main = elim (Bool-cases (is_empty (hash s))) [
      | inl e ↦ ap is_empty (fill-new e)
      | inr e ↦ ap (λ h. is_empty (h s)) (fill-full e) ∙ e
    ]

    fill_one-IsFlat : assoc k all ≡ some v → IsFlat all size hash → IsFlat all size after
    unfolding new_node s
    fill_one-IsFlat known flat = elim (Bool-cases (is_empty (hash s))) [
      | inr e ↦ subst (IsFlat all size) (sym (fill-full e)) flat
      | inl e ↦
          let either : (P : ℕ → SharedNode V → Type 0)
              → P s new_node
              → ((x : ℕ) → P x (hash x))
              → (x : ℕ) → P x (after x) =
            λ P new old x. elim (ℕ_discrete x s) [
              | yes f ↦ subst (λ y. P y (after y)) (sym f) (subst (P s) (sym (fill-new e)) new)
              | no n ↦ subst (P x) (sym (fill-other x n)) (old x)
            ] in
          record {
            sound =
                either (λ x n. (w : V) → n.value ≡ some w → assoc n.key all ≡ some w)
                  (λ w f. known ∙ f) flat.sound;
            alone = either (λ x n. n.next ≡ none) refl flat.alone;
            home =
                either (λ x n. is_empty n ≡ false → main_slot size n.key ≡ x) (λ f. refl) flat.home;
          }
    ]

  absent_le :
      (size : ℕ) (hash : Nodes V) (k : SharedKey) (v : V) (items : Items V)
      → absent size hash ((k, v) ∷ items) ≤ suc (absent size hash items)
  unfolding absent
  absent_le size hash k v items = ground arith

  absent_same :
      (size : ℕ) (hash : Nodes V) (k : SharedKey) (v : V) (items : Items V)
      → (hash (main_slot size k)).key ≡ k
      → absent size hash ((k, v) ∷ items) ≡ absent size hash items
  unfolding absent
  absent_same size hash k v items e = rw (e, same_key_self k) refl

  -- What a run of the pass leaves.
  record IsFilled (all : Items V) (size : ℕ) (items : Items V) (before now : Nodes V) : Type 0 where
    flat : IsFlat all size now
    keeps : (x : ℕ) → is_empty (before x) ≡ false → now x ≡ before x
    mains : All (λ kv. is_empty (now (main_slot size kv.0)) ≡ false) items
    counts : empties size 0 before + absent size now items ≤ empties size 0 now + length items

  module _ (all : Items V) (size : ℕ) (pos : 0 < size) where
    -- One item before the others.
    IsFilled-step :
        (k : SharedKey) (v : V) (items : Items V) (hash now : Nodes V)
        → IsFilled all size items (fill_one size hash (k, v)) now
        → IsFilled all size ((k, v) ∷ items) hash now
    unfolding s after new_node
    IsFilled-step k v items hash now f =
        let s = main_slot size k in
        let after = fill_one size hash (k, v) in
        let main = fill_main all size hash k v in
        let at_main : now s ≡ after s = f.keeps s main in
        record {
          flat = f.flat;
          keeps = λ x full.
              let same = fill_keeps all size hash k v x full in
              f.keeps x (ap is_empty same ∙ full) ∙ same;
          mains = (ap is_empty at_main ∙ main, f.mains);
          counts = elim (Bool-cases (is_empty (hash s))) [
            | inl e ↦
                let own : (now s).key ≡ k =
                  ap (λ n. n.key) (at_main ∙ fill-new all size hash k v e) in
                let fewer =
                  empties-fewer size 0 s hash after (omega arith)
                    (omega (arith, main_slot-lt size k pos)) e main
                    (λ x n. sym (ap is_empty (fill-other all size hash k v x n))) in
                omega (arith, f.counts, fewer, absent_same size now k v items own)
            | inr e ↦
                let same = fill-full all size hash k v e in
                let less = rw same at f.counts in omega (arith, less, absent_le size now k v items)
          ];
        }

    fill_no_colliding-IsFilled :
        (items : Items V) (hash : Nodes V)
        → AreKnown all items
        → IsFlat all size hash
        → IsFilled all size items hash (fill_no_colliding size items hash)
    unfolding fill_no_colliding absent after
    fill_no_colliding-IsFilled [] hash known flat = record {
      flat = flat;
      keeps = λ x full. refl;
      mains = tt;
      counts = omega arith;
    }
    fill_no_colliding-IsFilled ((k, v) ∷ items) hash known flat = IsFilled-step k v items hash _ (
        fill_no_colliding-IsFilled items (fill_one size hash (k, v)) known.1
          (fill_one-IsFlat all size hash k v known.0 flat))

    IsFlat-AreHome :
        (items : Items V) (now : Nodes V)
        → IsFlat all size now
        → All (λ kv. is_empty (now (main_slot size kv.0)) ≡ false) items
        → AreHome size now items
    IsFlat-AreHome [] now flat mains = tt
    IsFlat-AreHome ((k, v) ∷ items) now flat mains =
        ((mains.0, flat.home _ mains.0), IsFlat-AreHome items now flat mains.1)

    IsFlat-IsBuilt : (now : Nodes V) → IsFlat all size now → IsBuilt all size now 0
    IsFlat-IsBuilt now flat = record {
      sound = flat.sound;
      bare = λ i e. flat.alone i;
      clear = λ i e. flat.alone i;
      away = λ i j e. absurd (none-ne-some j (sym (flat.alone i) ∙ e));
      inside =
          λ i full. subst (λ x. x < size) (flat.home i full) (main_slot-lt size (now i).key pos);
      unique = λ i j full_i full_j same.
          sym (flat.home i full_i) ∙ ap (main_slot size) same ∙ flat.home j full_j;
      rank = λ i. 0;
      rank_bound = λ i. omega arith;
      rank_falls = λ i j e. absurd (none-ne-some j (sym (flat.alone i) ∙ e));
    }

    empties_all : (n i : ℕ) → empties n i (λ x. empty_node {V = V}) ≡ n
    unfolding empties
    empties_all zero i = refl
    empties_all (suc n) i = ap suc (empties_all n (suc i))

    empty_nodes-IsFlat : IsFlat all size (λ x. empty_node)
    empty_nodes-IsFlat = record {
      sound = λ i v e. absurd (none-ne-some v e);
      alone = λ i. refl;
      home = λ i e. absurd (cc e);
    }

  -- After the first pass over all items there are as many empty slots as items are left.
  pub first_pass :
      (all : Items V)
      → 0 < length all
      → AreKnown all all
      → let size = length all in
        let now = fill_no_colliding size all (λ x. empty_node) in
        IsBuilt all size now 0
        × AreHome size now all
        × (absent size now all ≤ empties size 0 now)
        × ((i : ℕ) → is_empty (now i) ≡ false → main_slot size (now i).key ≡ i)
  first_pass all pos known =
      let size = length all in
      let f =
        fill_no_colliding-IsFilled all size pos all (λ x. empty_node) known
          (empty_nodes-IsFlat all size pos) in
      (
        IsFlat-IsBuilt all size pos _ f.flat,
        IsFlat-AreHome all size pos all _ f.flat f.mains,
        omega (arith, f.counts, empties_all all size pos size 0),
        f.flat.home,
      )
