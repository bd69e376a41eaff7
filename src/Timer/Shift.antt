-- ===== src/Timer/Shift.antt =====
-- `move_list` and `timer_shift` of src/starnet_timer.cpp against the list of waiting nodes.
use mathlib.Core.List.{foldl, filter}
use starnet.Common.{
  ℕ, suc, ◌+◌, ◌-◌, ◌*◌, ◌/◌, ◌%◌, ◌≤◌, ◌<◌, bit_and, ◌≡◌, ◌≢◌, refl, ap, sym, ◌∙◌, some, List, [],
  ◌∷◌, ◌++◌, append-nil, append_assoc, ite, dec_lt, All, arith, ℕ_discrete,
}
use starnet.Common.Bits.{bit_and_63, bit_and_255, bit_and_16383, bit_and_1048575, bit_and_67108863}
use starnet.Timer.{Timer, Node, add_node, set_level, move_list, timer_shift, shift_loop}
use starnet.Timer.Place.{Slot, near_slot, level_slot, Slot-discrete, at, at-add_node, slot_of}
use starnet.Timer.Carry.{
  IsWaiting, next_tick, rank, Carry, carry_0, carry_1, carry_2, carry_3, slot_of_quiet,
  rank_waiting, rank_moved, slot_of_unmoved,
}

-- The nodes that belong in slot `s` at time `now`, in order.
abbrev pub placed : ℕ → Slot → List Node → List Node
placed now s = filter (λ n. Slot-discrete (slot_of n.expire now) s)

-- Only the wheel differs.
abbrev pub SameClock : Timer → Timer → Type 0
SameClock T U = (U.time ≡ T.time) × (U.current ≡ T.current) × (U.current_point ≡ T.current_point)

pub add_node-SameClock : (T : Timer) (n : Node) → SameClock T (add_node T n)
unfolding add_node
add_node-SameClock T n = ground arith

foldl-SameClock : (T : Timer) (ns : List Node) → SameClock T (foldl add_node T ns)
foldl-SameClock T [] = (refl, refl, refl)
foldl-SameClock T (n ∷ ns) =
    let here = add_node-SameClock T n in
    let rest = foldl-SameClock (add_node T n) ns in
    (rest.0 ∙ here.0, rest.1 ∙ here.1, rest.2 ∙ here.2)

at-foldl :
    (T : Timer) (ns : List Node) (s : Slot)
    → at (foldl add_node T ns) s ≡ at T s ++ placed T.time s ns
at-foldl T [] s = sym (append-nil (at T s))
at-foldl T (n ∷ ns) s =
    at-foldl (add_node T n) ns s
    ∙ ground (
      arith,
      add_node-SameClock T n,
      at-add_node T n s,
      append_assoc (at T s) (n ∷ []) (placed T.time s ns),
    )

at-set_level :
    (T : Timer) (i k : ℕ) (s : Slot)
    → at (set_level T i k []) s ≡ ite (Slot-discrete (level_slot i k) s) [] (at T s)
at-set_level T i k (near_slot j) = ground arith
at-set_level T i k (level_slot h j) = ground arith

-- The moved list leaves its slot, and each of its nodes joins the slot of the present time.
at-move_list :
    (T : Timer) (i k : ℕ) (s : Slot)
    → at (move_list T i k) s
      ≡ ite (Slot-discrete (level_slot i k) s) [] (at T s)
        ++ placed T.time s (at T (level_slot i k))
unfolding move_list
at-move_list T i k s =
    at-foldl (set_level T i k []) (T.t i k) s
    ∙ ap (λ l. l ++ placed T.time s (T.t i k)) (at-set_level T i k s)

move_list-SameClock : (T : Timer) (i k : ℕ) → SameClock T (move_list T i k)
unfolding move_list
move_list-SameClock T i k = foldl-SameClock (set_level T i k []) (T.t i k)

-- What `timer_shift` does: nothing but the clock, or one list moves.
abbrev pub clocked : Timer → Timer
clocked T = record T { time = next_tick T.time }

data Shifts (T : Timer) : Type 0 where
  quiet : next_tick T.time % 256 ≢ 0 → timer_shift T ≡ some (clocked T) → Shifts T
  carries :
      (i k : ℕ)
      → Carry i k (next_tick T.time)
      → timer_shift T ≡ some (move_list (clocked T) i k)
      → Shifts T

-- One round of the loop, on each of its branches.
shift_loop-stop :
    (n : ℕ) (T : Timer) (ct mask time i : ℕ)
    → bit_and ct (mask - 1) ≢ 0
    → shift_loop (suc n) T ct mask time i ≡ some T
unfolding shift_loop
shift_loop-stop n T ct mask time i h = ground arith

shift_loop-move :
    (n : ℕ) (T : Timer) (ct mask time i : ℕ)
    → bit_and ct (mask - 1) ≡ 0
    → time % 64 ≢ 0
    → shift_loop (suc n) T ct mask time i ≡ some (move_list T i (time % 64))
unfolding shift_loop
shift_loop-move n T ct mask time i h q = ground (arith, bit_and_63 time)

shift_loop-next :
    (n : ℕ) (T : Timer) (ct mask time i : ℕ)
    → bit_and ct (mask - 1) ≡ 0
    → time % 64 ≡ 0
    → shift_loop (suc n) T ct mask time i ≡ shift_loop n T ct (mask * 64) (time / 64) (i + 1)
unfolding shift_loop
shift_loop-next n T ct mask time i h q = ground (arith, bit_and_63 time)

module _ (T : Timer) where
  abbrev ct : ℕ
  ct = next_tick T.time

  loop_shift : ct ≢ 0 → timer_shift T ≡ shift_loop 4 (clocked T) ct 256 (ct / 256) 0
  unfolding timer_shift
  loop_shift h = ground arith

  top_Shifts :
      ct ≢ 0
      → ct % 67108864 ≡ 0
      → shift_loop 1 (clocked T) ct 67108864 (ct / 256 / 64 / 64 / 64) 3 ≡ timer_shift T
      → Shifts T
  top_Shifts h a e = carries 3 (ct / 256 / 64 / 64 / 64 % 64) (carry_3 refl a (omega arith)) (
      sym e
      ∙ shift_loop-move 0 (clocked T) ct 67108864 (ct / 256 / 64 / 64 / 64) 3
          (omega (arith, bit_and_67108863 ct)) (omega arith))

  level_2_Shifts :
      ct ≢ 0
      → ct % 1048576 ≡ 0
      → shift_loop 2 (clocked T) ct 1048576 (ct / 256 / 64 / 64) 2 ≡ timer_shift T
      → Shifts T
  level_2_Shifts h a e = elim (ℕ_discrete (ct / 256 / 64 / 64 % 64) 0) [
    | yes z ↦ top_Shifts h (omega arith) (
        sym (
          shift_loop-next 1 (clocked T) ct 1048576 (ct / 256 / 64 / 64) 2
            (omega (arith, bit_and_1048575 ct)) z)
        ∙ e)
    | no z ↦ carries 2 (ct / 256 / 64 / 64 % 64) (carry_2 refl a (omega arith) z) (
        sym e
        ∙ shift_loop-move 1 (clocked T) ct 1048576 (ct / 256 / 64 / 64) 2
            (omega (arith, bit_and_1048575 ct)) z)
  ]

  level_1_Shifts :
      ct ≢ 0
      → ct % 16384 ≡ 0
      → shift_loop 3 (clocked T) ct 16384 (ct / 256 / 64) 1 ≡ timer_shift T
      → Shifts T
  level_1_Shifts h a e = elim (ℕ_discrete (ct / 256 / 64 % 64) 0) [
    | yes z ↦ level_2_Shifts h (omega arith) (
        sym (
          shift_loop-next 2 (clocked T) ct 16384 (ct / 256 / 64) 1 (omega (arith, bit_and_16383 ct))
            z)
        ∙ e)
    | no z ↦ carries 1 (ct / 256 / 64 % 64) (carry_1 refl a (omega arith) z) (
        sym e
        ∙ shift_loop-move 2 (clocked T) ct 16384 (ct / 256 / 64) 1 (omega (arith, bit_and_16383 ct))
            z)
  ]

  level_0_Shifts :
      ct ≢ 0
      → ct % 256 ≡ 0
      → shift_loop 4 (clocked T) ct 256 (ct / 256) 0 ≡ timer_shift T
      → Shifts T
  level_0_Shifts h a e = elim (ℕ_discrete (ct / 256 % 64) 0) [
    | yes z ↦ level_1_Shifts h (omega arith) (
        sym (shift_loop-next 3 (clocked T) ct 256 (ct / 256) 0 (omega (arith, bit_and_255 ct)) z)
        ∙ e)
    | no z ↦ carries 0 (ct / 256 % 64) (carry_0 refl a refl z) (
        sym e ∙ shift_loop-move 3 (clocked T) ct 256 (ct / 256) 0 (omega (arith, bit_and_255 ct)) z)
  ]

  wrap_shift : ct ≡ 0 → timer_shift T ≡ some (move_list (clocked T) 3 0)
  unfolding timer_shift
  wrap_shift h = ground arith

  timer_shift-Shifts : Shifts T
  timer_shift-Shifts = elim (ℕ_discrete ct 0) [
    | yes z ↦ carries 3 0 (carry_3 refl (omega arith) (omega arith)) (wrap_shift z)
    | no z ↦ elim (ℕ_discrete (ct % 256) 0) [
      | yes a ↦ level_0_Shifts z a (sym (loop_shift z))
      | no a ↦ quiet a (
          loop_shift z
          ∙ shift_loop-stop 3 (clocked T) ct 256 (ct / 256) 0 (omega (arith, bit_and_255 ct)))
    ]
  ]

-- A list moves only into slots that were empty, so the order of arrival is kept in every slot.
module _ (now i k : ℕ) (c : Carry i k (next_tick now)) where
  abbrev m : Slot
  m = level_slot i k

  low_kept :
      (s : Slot) (ns : List Node)
      → rank s < suc i
      → All (λ n. IsWaiting now n.expire) ns
      → placed now s ns ≡ []
  low_kept s [] h w = refl
  low_kept s (n ∷ ns) h w = ground (arith, rank_waiting n.expire now i k w.0 c, low_kept s ns h w.1)

  low_moved :
      (s : Slot) (ns : List Node)
      → rank s < suc i
      → All (λ n. IsWaiting now n.expire) ns
      → placed (next_tick now) s ns ≡ placed (next_tick now) s (placed now m ns)
  low_moved s [] h w = refl
  low_moved s (n ∷ ns) h w = ground (
    arith,
    rank_waiting n.expire now i k w.0 c,
    slot_of_unmoved n.expire now i k w.0 c,
    low_moved s ns h w.1,
  )

  high_moved :
      (s : Slot) (ns : List Node)
      → suc i ≤ rank s
      → All (λ n. IsWaiting now n.expire) ns
      → placed (next_tick now) s (placed now m ns) ≡ []
  high_moved s [] h w = refl
  high_moved s (n ∷ ns) h w =
      ground (arith, rank_moved n.expire now i k w.0 c, high_moved s ns h w.1)

  high_kept :
      (s : Slot) (ns : List Node)
      → suc i ≤ rank s
      → All (λ n. IsWaiting now n.expire) ns
      → placed (next_tick now) s ns ≡ ite (Slot-discrete m s) [] (placed now s ns)
  high_kept s [] h w = ground arith
  high_kept s (n ∷ ns) h w = ground (
    arith,
    rank_moved n.expire now i k w.0 c,
    slot_of_unmoved n.expire now i k w.0 c,
    high_kept s ns h w.1,
  )

-- The wheel holds exactly the nodes of a list, each slot in the order of the list.
abbrev pub IsLaid : Timer → List Node → Type 0
IsLaid T ns = (s : Slot) → at T s ≡ placed T.time s ns

module _ (T : Timer) (ns : List Node) (laid : IsLaid T ns)
    (w : All (λ n. IsWaiting T.time n.expire) ns) where
  moved_slot :
      (i k : ℕ)
      → Carry i k (next_tick T.time)
      → (s : Slot) → at (move_list (clocked T) i k) s ≡ placed (next_tick T.time) s ns
  moved_slot i k c s = at-move_list (clocked T) i k s ∙ elim (dec_lt (rank s) (suc i)) [
    | yes l ↦
        rw (low_moved T.time i k c s ns l w)
          (ground (arith, laid s, laid (level_slot i k), low_kept T.time i k c s ns l w))
    | no h ↦ rw (high_kept T.time i k c s ns (omega arith) w) (
        ground (
          arith,
          laid s,
          laid (level_slot i k),
          high_moved T.time i k c s ns (omega arith) w,
          append-nil (ite (Slot-discrete (level_slot i k) s) [] (at T s)),
        ))
  ]

  quiet_slot :
      next_tick T.time % 256 ≢ 0
      → (ms : List Node) (s : Slot) → All (λ n. IsWaiting T.time n.expire) ms
      → placed T.time s ms ≡ placed (next_tick T.time) s ms
  quiet_slot h [] s u = refl
  quiet_slot h (n ∷ ms) s u =
      ground (arith, slot_of_quiet n.expire T.time u.0 h, quiet_slot h ms s u.1)

  -- `timer_shift` never runs its mask out of an `int`, moves the clock on by one tick, and lays
  -- the same nodes out for the new time.
  pub timer_shift-IsLaid :
      (T' : Timer) × (timer_shift T ≡ some T') × SameClock (clocked T) T' × IsLaid T' ns
  timer_shift-IsLaid = elim (timer_shift-Shifts T) [
    | quiet h e ↦ (clocked T, e, (refl, refl, refl), λ s. rw (← quiet_slot h ns s w) (laid (s)))
    | carries i k c e ↦ (
      move_list (clocked T) i k,
      e,
      move_list-SameClock (clocked T) i k,
      λ s. moved_slot i k c s ∙ rw ((move_list-SameClock (clocked T) i k).0) refl,
    )
  ]
