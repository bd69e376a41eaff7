-- ===== src/Sharedata/Table/Finish.antt =====
-- Finish of src/starnet_sharedata.cpp: both passes over all items.
use starnet.Common.{ℕ, ◌-◌, ◌≤◌, ◌<◌, ◌≡◌, [], ◌∷◌, arith, All, length}
use starnet.Sharedata.Table.{
  SharedKey, Nodes, Items, empty_node, main_slot, fill_no_colliding, fill_colliding, finish,
}
use starnet.Sharedata.Table.Chain.{Placed, IsHome, IsBuilt, AreDistinct}
use starnet.Sharedata.Table.First.{AreKnown, AreHome, first_pass}
use starnet.Sharedata.Table.Second.{IsReady, collide_one-IsStepped}

module _ {V : Type 0} where
  -- What the second pass leaves.
  record IsDone (all : Items V) (size : ℕ) (items : Items V) (before now : Nodes V × ℕ)
      : Type 0 where
    built : IsBuilt all size now.0 now.1
    within : now.1 ≤ size
    placed : All (Placed size now.0) items
    keeps : (kv : SharedKey × V) → Placed size before.0 kv → Placed size now.0 kv
    full : (i : ℕ) → IsHome size before.0 i → IsHome size now.0 i

  module _ (all : Items V) (size : ℕ) where
    fill_colliding-IsDone :
        (items : Items V) (s : Nodes V × ℕ)
        → AreKnown all items
        → IsReady all size items s
        → IsDone all size items s (fill_colliding size items s)
    unfolding fill_colliding
    fill_colliding-IsDone [] s known r = record {
      built = r.built;
      within = r.within;
      placed = tt;
      keeps = λ kv p. p;
      full = λ i h. h;
    }
    fill_colliding-IsDone ((k, v) ∷ items) s known r =
        let one = collide_one-IsStepped all size k v items s known.0 r in
        let more = fill_colliding-IsDone items _ known.1 one.ready in
        record {
          built = more.built;
          within = more.within;
          placed = (more.keeps (k, v) one.placed, more.placed);
          keeps = λ kv p. more.keeps kv (one.keeps kv p);
          full = λ i h. more.full i (one.full i h);
        }

  homes-map :
      (size : ℕ) (a b : Nodes V)
      → ((i : ℕ) → IsHome size a i → IsHome size b i)
      → (items : Items V) → AreHome size a items
      → AreHome size b items
  homes-map size a b f [] homes = tt
  homes-map size a b f ((k, v) ∷ items) homes =
      (f (main_slot size k) homes.0, homes-map size a b f items homes.1)

  -- Of what is built, with the search for an empty slot at emptyslot in the end.
  pub record IsFinished (all : Items V) (size : ℕ) (hash : Nodes V) : Type 0 where
    pub emptyslot : ℕ
    pub built : IsBuilt all size hash emptyslot
    pub within : emptyslot ≤ size
    pub placed : All (Placed size hash) all
    pub homes : AreHome size hash all

  pub finish-IsFinished :
      (all : Items V)
      → 0 < length all
      → AreKnown all all
      → AreDistinct all
      → IsFinished all (length all) (finish all)
  unfolding finish
  finish-IsFinished all pos known d =
      let size = length all in
      let (built, homes, room, flat) = first_pass all pos known in
      let width : size - 0 ≡ size = omega arith in
      let s : Nodes V × ℕ = (fill_no_colliding size all (λ x. empty_node), 0) in
      let r : IsReady all size all s = record {
        built = built;
        homes = homes;
        within = omega arith;
        room = rw width room;
        distinct = d;
        fresh = λ i full far. absurd (far (flat i full));
      } in
      let done = fill_colliding-IsDone all size all s known r in
      record {
        emptyslot = (fill_colliding size all s).1;
        built = done.built;
        within = done.within;
        placed = done.placed;
        homes = homes-map size s.0 (fill_colliding size all s).0 done.full all homes;
      }
