-- ===== src/Sharedata/Table/Second.antt =====
-- FillColliding of src/starnet_sharedata.cpp: the items that found their main slot taken.
use starnet.Common.{
  ℕ, suc, ◌+◌, ◌-◌, ◌≤◌, ◌<◌, ◌≡◌, ◌≢◌, refl, sym, ap, subst, ◌∙◌, true, false, Bool-cases, inl,
  inr, none-ne-some, none, some, Option-cases, [], ◌∷◌, ℕ_discrete, ◌==◌, ==_iff, arith,
}
use starnet.Sharedata.Table.{
  SharedKey, same_key, SharedNode, Nodes, Items, is_empty, main_slot, find_empty, set_node, insert,
  collide_one,
}
use starnet.Sharedata.Table.Chain.{
  assoc, stop, Placed, IsHome, IsBuilt, AreDistinct, insert-new, insert-keeps, insert-IsHome,
  insert-old,
}
use starnet.Sharedata.Table.Insert.{insert-IsBuilt, insert-Placed, insert-keeps_Placed}
use starnet.Sharedata.Table.Slots.{
  empties, absent, empties-cong, Found, find_empty-Found, same_key-eq, same_key_self,
}
use starnet.Sharedata.Table.First.{AreHome}

module _ {V : Type 0} where
  pub is_empty-full : (n : SharedNode V) → is_empty n ≡ false → (v : V) × (n.value ≡ some v)
  is_empty-full n e = elim (Option-cases n.value) [
    | inl f ↦ absurd (let g = rw f at e in cc g)
    | inr p ↦ p
  ]

  -- What the second pass needs of the nodes and `emptyslot` before the items.
  pub record IsReady (all : Items V) (size : ℕ) (items : Items V) (s : Nodes V × ℕ) : Type 0 where
    pub built : IsBuilt all size s.0 s.1
    pub homes : AreHome size s.0 items
    pub within : s.1 ≤ size
    pub room : absent size s.0 items ≤ empties (size - s.1) s.1 s.0
    pub distinct : AreDistinct items
    pub fresh :
        (i : ℕ)
        → is_empty (s.0 i) ≡ false
        → main_slot size (s.0 i).key ≢ i
        → assoc (s.0 i).key items ≡ none

  assoc-tail :
      (x k : SharedKey) (v : V) (items : Items V)
      → assoc x ((k, v) ∷ items) ≡ none
      → (k ≢ x) × (assoc x items ≡ none)
  unfolding assoc
  assoc-tail x k v items e = elim (Bool-cases (same_key k x)) [
    | inl same ↦ let g = rw same at e in absurd (none-ne-some v (sym g))
    | inr other ↦ (
      (λ f.
          let g = subst (λ y. same_key k y ≡ false) (sym f) other in
          absurd (cc (g, same_key_self k))),
      rw other at e,
    )
  ]

  module _ (all : Items V) (size : ℕ) where
    absent-insert :
        (hash : Nodes V) (j : ℕ) (k : SharedKey) (v : V)
        → IsHome size hash (main_slot size k)
        → is_empty (hash j) ≡ true
        → (items : Items V) → AreHome size hash items
        → absent size (insert size hash j (k, v)) items ≡ absent size hash items
    unfolding absent
    absent-insert hash j k v home vacant [] homes = refl
    absent-insert hash j k v home vacant ((k', v') ∷ items) homes =
        let same = (insert-keeps size hash j k v home vacant (main_slot size k') homes.0.0).0 in
        rw (same, absent-insert hash j k v home vacant items homes.1) refl

    empty-insert :
        (hash : Nodes V) (j : ℕ) (k : SharedKey) (v : V)
        → IsHome size hash (main_slot size k)
        → is_empty (hash j) ≡ true
        → (x : ℕ) → x ≢ j
        → is_empty (insert size hash j (k, v) x) ≡ is_empty (hash x)
    unfolding insert set_node
    empty-insert hash j k v home vacant x n =
        let f : (x == j) ≡ false = ground (arith, n) in
        elim (Bool-cases (x == main_slot size k)) [
          | inl e ↦
              let x_s = (==_iff x (main_slot size k)).0 e in
              rw (f, e) (ap (λ y. is_empty (hash y)) (sym x_s))
          | inr e ↦ rw (f, e) refl
        ]

    homes-insert :
        (hash : Nodes V) (j : ℕ) (k : SharedKey) (v : V)
        → IsHome size hash (main_slot size k)
        → is_empty (hash j) ≡ true
        → (items : Items V) → AreHome size hash items
        → AreHome size (insert size hash j (k, v)) items
    homes-insert hash j k v home vacant [] homes = tt
    homes-insert hash j k v home vacant ((k', v') ∷ items) homes = (
      insert-IsHome size hash j k v home vacant (main_slot size k') homes.0,
      homes-insert hash j k v home vacant items homes.1,
    )

    -- One item is placed, and the others stay as they were.
    pub record IsStepped (items : Items V) (kv : SharedKey × V) (before now : Nodes V × ℕ)
        : Type 0 where
      pub ready : IsReady all size items now
      pub placed : Placed size now.0 kv
      pub keeps : (kv' : SharedKey × V) → Placed size before.0 kv' → Placed size now.0 kv'
      pub full : (i : ℕ) → IsHome size before.0 i → IsHome size now.0 i

    -- The item is in its main slot.
    at_home-IsStepped :
        (k : SharedKey) (v : V) (items : Items V) (s : Nodes V × ℕ)
        → assoc k all ≡ some v
        → IsReady all size ((k, v) ∷ items) s
        → same_key (s.0 (main_slot size k)).key k ≡ true
        → IsStepped items (k, v) s s
    unfolding absent AreDistinct
    at_home-IsStepped k v items (hash, e) known r same =
        let m = main_slot size k in
        let key = same_key-eq (hash m).key k same in
        let (w, value) = is_empty-full (hash m) r.homes.0.0 in
        let stored = r.built.sound m w value in
        let w_v : some w ≡ some v = sym stored ∙ ap (λ x. assoc x all) key ∙ known in
        record {
          ready = record {
            built = r.built;
            homes = r.homes.1;
            within = r.within;
            room = rw same at r.room;
            distinct = r.distinct.1;
            fresh = λ i full away. (assoc-tail _ k v items (r.fresh i full away)).1;
          };
          placed = (m, stop m, key, value ∙ w_v);
          keeps = λ kv' p. p;
          full = λ i h. h;
        }

    -- Its key is in no slot.
    new_key :
        (k : SharedKey) (v : V) (items : Items V) (hash : Nodes V) (e : ℕ)
        → IsReady all size ((k, v) ∷ items) (hash, e)
        → same_key (hash (main_slot size k)).key k ≡ false
        → (x : ℕ) → is_empty (hash x) ≡ false
        → (hash x).key ≢ k
    new_key k v items hash e r away x full key = elim (ℕ_discrete (main_slot size (hash x).key) x) [
      | yes at_home ↦
          let main : main_slot size k ≡ x = sym (ap (main_slot size) key) ∙ at_home in
          let f = subst (λ y. same_key (hash y).key k ≡ false) main away in
          let g = subst (λ y. same_key y k ≡ false) key f in cc (g, same_key_self k)
      | no far ↦ (assoc-tail _ k v items (r.fresh x full far)).0 (sym key)
    ]

    -- The item goes into slot j.
    inserted-IsStepped :
        (k : SharedKey) (v : V) (items : Items V) (hash : Nodes V) (e j : ℕ)
        → assoc k all ≡ some v
        → IsReady all size ((k, v) ∷ items) (hash, e)
        → same_key (hash (main_slot size k)).key k ≡ false
        → Found (size - e) e hash (some j)
        → IsStepped items (k, v) (hash, e) (insert size hash j (k, v), suc j)
    unfolding absent Found AreDistinct
    inserted-IsStepped k v items hash e j known r away (lo, hi, vacant, count) =
        let home = r.homes.0 in
        let after = insert size hash j (k, v) in
        let new = new_key k v items hash e r away in
        let lt : j < size = omega (arith, hi, r.within) in
        let room = rw away at r.room in
        let width : e + (size - e) - suc j ≡ size - suc j = omega (arith, r.within) in
        let later : (x : ℕ) → suc j ≤ x → is_empty (after x) ≡ is_empty (hash x) =
          λ x le. empty-insert hash j k v home vacant x (λ f. absurd (omega (arith, le, f))) in
        let rest = empties-cong (size - suc j) (suc j) after hash later in
        let absences = absent-insert hash j k v home vacant items r.homes.1 in
        record {
          ready = record {
            built = insert-IsBuilt size hash j k v home vacant all e r.built lo lt known new;
            homes = homes-insert hash j k v home vacant items r.homes.1;
            within = omega (arith, hi, r.within);
            room = let count' = rw width at count in omega (arith, room, rest, absences, count');
            distinct = r.distinct.1;
            fresh = λ i full far. elim (ℕ_discrete i j) [
              | yes f ↦
                  let key : (after i).key ≡ k =
                    subst (λ y. (after y).key ≡ k) (sym f)
                      (ap (λ n. n.key) (insert-new size hash j k v)) in
                  subst (λ y. assoc y items ≡ none) (sym key) r.distinct.0
              | no n ↦
                  let (was, same) = insert-old size hash j k v home vacant i n full in
                  let far' = subst (λ y. main_slot size y ≢ i) same far in
                  subst (λ y. assoc y items ≡ none) (sym same)
                    (assoc-tail _ k v items (r.fresh i was far')).1
            ];
          };
          placed = insert-Placed size hash j k v home vacant all e r.built lo lt known new;
          keeps = insert-keeps_Placed size hash j k v home vacant all e r.built lo lt known new;
          full = insert-IsHome size hash j k v home vacant;
        }

    pub collide_one-IsStepped :
        (k : SharedKey) (v : V) (items : Items V) (s : Nodes V × ℕ)
        → assoc k all ≡ some v
        → IsReady all size ((k, v) ∷ items) s
        → IsStepped items (k, v) s (collide_one size s (k, v))
    unfolding collide_one absent Found
    collide_one-IsStepped k v items (hash, e) known r =
        elim (Bool-cases (same_key (hash (main_slot size k)).key k)) [
          | inl same ↦ rw same (at_home-IsStepped k v items (hash, e) known r same)
          | inr away ↦
              let found = find_empty-Found (size - e) e hash in
              elim (Option-cases (find_empty (size - e) e hash)) [
                | inl f ↦
                    let none_left = rw f at found in
                    let room = rw away at r.room in absurd (omega (arith, none_left, room))
                | inr (j, f) ↦
                    let found' = rw f at found in
                    rw (away, f) (inserted-IsStepped k v items hash e j known r away found')
              ]
        ]
