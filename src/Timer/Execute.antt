-- ===== src/Timer/Execute.antt =====
-- `timer_execute` of src/starnet_timer.cpp against the list of waiting nodes.
use mathlib.Core.List.{filter-append}
use starnet.Common.{
  ℕ, suc, ◌%◌, ◌^◌, ◌<◌, ◌≡◌, refl, ap, subst, ◌∙◌, some, List, [], ◌∷◌, ◌++◌, append-nil,
  append_assoc, All, bit_and, ite, arith, ℕ_discrete,
}
use starnet.Common.Bits.{bit_and_255}
use starnet.Timer.{
  Timer, Node, Add, Windows, timer_add, add_node, add_all, dispatch_list, timer_execute, set_near,
  after,
}
use starnet.Timer.Place.{Slot, near_slot, level_slot, Slot-discrete, at, at-add_node, slot_of}
use starnet.Timer.Shift.{placed, IsLaid, SameClock, add_node-SameClock}
use starnet.Timer.Agenda.{due, not_due, node_of, added, window, events}

abbrev pub IsDelay : ℕ → Type 0
IsDelay d = (0 < d) × (d < 2 ^ 31)

abbrev pub AllDelays : List Add → Type 0
AllDelays = All (λ a. IsDelay a.delay)

pub window-AllDelays : (ns : List Node) (vs : Windows) → All AllDelays vs → AllDelays (window ns vs)
window-AllDelays [] vs h = tt
window-AllDelays (n ∷ ns) [] h = tt
window-AllDelays (n ∷ ns) (v ∷ vs) h = h.0

-- A new node is laid behind the others.
pub add_node-IsLaid :
    (T : Timer) (ns : List Node) (n : Node) → IsLaid T ns → IsLaid (add_node T n) (ns ++ (n ∷ []))
add_node-IsLaid T ns n laid s = ground (
  arith,
  at-add_node T n s,
  add_node-SameClock T n,
  laid s,
  filter-append (λ m. Slot-discrete (slot_of m.expire T.time) s) ns (n ∷ []),
  append-nil (placed T.time s ns),
)

add_all-SameClock : (T : Timer) (w : List Add) → SameClock T (add_all T w)
unfolding add_all timer_add
add_all-SameClock T [] = (refl, refl, refl)
add_all-SameClock T (a ∷ w) =
    let here = add_node-SameClock T (node_of T.time a.event a.delay) in
    let rest = add_all-SameClock (add_node T (node_of T.time a.event a.delay)) w in
    (rest.0 ∙ here.0, rest.1 ∙ here.1, rest.2 ∙ here.2)

add_all-IsLaid :
    (T : Timer) (ns : List Node) (w : List Add)
    → IsLaid T ns
    → IsLaid (add_all T w) (ns ++ added T.time w)
unfolding add_all timer_add
add_all-IsLaid T ns [] laid = rw append-nil laid
add_all-IsLaid T ns (a ∷ w) laid =
    let n = node_of T.time a.event a.delay in
    let T' = add_node T n in
    let rest = add_all-IsLaid T' (ns ++ (n ∷ [])) w (add_node-IsLaid T ns n laid) in
    subst (λ t. IsLaid (add_all T' w) (ns ++ (n ∷ added t w))) (add_node-SameClock T n).0
      (subst (IsLaid (add_all T' w)) (append_assoc ns (n ∷ []) (added T'.time w)) rest)

-- The slot of the present time holds the nodes that are due.
slot_of-due : (e now : ℕ) → slot_of e now ≡ near_slot (now % 256) → e ≡ now
unfolding slot_of
slot_of-due e now h = ground arith

due-slot_of : (now : ℕ) → slot_of now now ≡ near_slot (now % 256)
unfolding slot_of
due-slot_of now = ground arith

placed-due : (now : ℕ) (ns : List Node) → placed now (near_slot (now % 256)) ns ≡ due now ns
placed-due now [] = refl
placed-due now (n ∷ ns) =
    ground (arith, slot_of-due n.expire now, due-slot_of now, placed-due now ns)

placed-not_due :
    (now : ℕ) (s : Slot) (ns : List Node)
    → placed now s (not_due now ns)
      ≡ ite (Slot-discrete (near_slot (now % 256)) s) [] (placed now s ns)
placed-not_due now s [] = ground arith
placed-not_due now s (n ∷ ns) =
    ground (arith, slot_of-due n.expire now, due-slot_of now, placed-not_due now s ns)

due-not_due : (now : ℕ) (ns : List Node) → due now (not_due now ns) ≡ []
due-not_due now [] = refl
due-not_due now (n ∷ ns) = ground (arith, due-not_due now ns)

not_due_all : (now : ℕ) (ns : List Node) → due now ns ≡ [] → not_due now ns ≡ ns
not_due_all now [] h = refl
not_due_all now (n ∷ ns) h = ground (arith, not_due_all now ns)

due-added : (now : ℕ) (w : List Add) → now < 2 ^ 32 → AllDelays w → due now (added now w) ≡ []
due-added now [] f h = refl
due-added now (a ∷ w) f h = ground (arith, due-added now w f h.1)

dispatch_list-events : (ns : List Node) → dispatch_list ns ≡ events ns
unfolding dispatch_list
dispatch_list-events [] = refl
dispatch_list-events (n ∷ ns) = ap (◌∷◌ n.event) (dispatch_list-events ns)

-- The slot of the present time, and the wheel with that slot taken out.
abbrev cleared : Timer → Timer
cleared T = set_near T (bit_and T.time 255) []

module _ (T : Timer) (ns : List Node) (laid : IsLaid T ns) where
  pub near-due : T.near (bit_and T.time 255) ≡ due T.time ns
  near-due = rw (bit_and_255 T.time) (laid (near_slot (T.time % 256)) ∙ placed-due T.time ns)

  at-cleared :
      (s : Slot)
      → at (cleared T) s ≡ ite (Slot-discrete (near_slot (bit_and T.time 255)) s) [] (at T s)
  at-cleared (near_slot k) = ground arith
  at-cleared (level_slot i k) = ground arith

  cleared-IsLaid : IsLaid (cleared T) (not_due T.time ns)
  cleared-IsLaid s =
      ground (arith, at-cleared s, placed-not_due T.time s ns, bit_and_255 T.time, laid s)

due-rest :
    (now : ℕ) (ns : List Node) (w : List Add)
    → now < 2 ^ 32
    → AllDelays w
    → due now (not_due now ns ++ added now w) ≡ []
due-rest now ns w f h =
    filter-append (λ n. ℕ_discrete n.expire now) (not_due now ns) (added now w)
    ∙ rw (due-not_due now ns) (due-added now w f h)

-- One round of the loop of `timer_execute`.
abbrev later_windows : Windows → Windows
later_windows [] = []
later_windows (w ∷ ws) = ws

pub round_empty :
    (f : ℕ) (ws : Windows) (T : Timer)
    → T.near (bit_and T.time 255) ≡ []
    → timer_execute (suc f) ws T ≡ some ([], T)
unfolding timer_execute
round_empty f ws T e = rw (e, timer_execute) refl

round_full :
    (f : ℕ) (ws : Windows) (T : Timer) (n : Node) (ns : List Node)
    → T.near (bit_and T.time 255) ≡ n ∷ ns
    → timer_execute (suc f) ws T
      ≡ after
          (events (n ∷ ns))
          (timer_execute f (later_windows ws) (add_all (cleared T) (window (n ∷ ns) ws)))
round_full f [] T n ns e =
    rw (← dispatch_list-events (n ∷ ns))
      (unfold timer_execute add_all in rw (e, timer_execute) refl)
round_full f (w ∷ ws) T n ns e =
    rw (← dispatch_list-events (n ∷ ns)) (unfold timer_execute in rw (e, timer_execute) refl)

-- The state that `timer_execute` leaves: what was due is sent and gone, what came in is laid out.
abbrev pub Executes : Timer → List Node → Windows → List Add → Type 0
Executes T ns ws w =
    (T' : Timer) × (timer_execute 2 ws T ≡ some (events (due T.time ns), T'))
    × SameClock T T'
    × IsLaid T' (not_due T.time ns ++ added T.time w)

module _ (T : Timer) (ns : List Node) (laid : IsLaid T ns) (fits : T.time < 2 ^ 32) where
  execute_none : (ws : Windows) → due T.time ns ≡ [] → Executes T ns ws []
  execute_none ws e = (
    T,
    rw e (round_empty 1 ws T (near-due T ns laid ∙ e)),
    (refl, refl, refl),
    rw (append-nil (not_due T.time ns), not_due_all T.time ns e) laid,
  )

  execute_some :
      (ws : Windows) (n : Node) (r : List Node)
      → due T.time ns ≡ n ∷ r
      → AllDelays (window (n ∷ r) ws)
      → Executes T ns ws (window (n ∷ r) ws)
  execute_some ws n r e h =
      let w = window (n ∷ r) ws in
      let T' = add_all (cleared T) w in
      let laid' = add_all-IsLaid (cleared T) (not_due T.time ns) w (cleared-IsLaid T ns laid) in
      let same = add_all-SameClock (cleared T) w in
      let over = near-due T' _ laid' ∙ rw (same.0) (due-rest T.time ns w fits h) in
      (
        T',
        rw e (
            round_full 1 ws T n r (near-due T ns laid ∙ e)
            ∙ rw (round_empty 0 (later_windows ws) T' over, append-nil (events (n ∷ r))) refl),
        same,
        laid',
      )

  -- The loop ends within two rounds, sends what is due in order of arrival, and leaves the rest
  -- with what came in behind it.
  pub timer_execute-Executes :
      (ws : Windows) → All AllDelays ws → Executes T ns ws (window (due T.time ns) ws)
  timer_execute-Executes ws h = go (due T.time ns) refl
    where
      go : (l : List Node) → due T.time ns ≡ l → Executes T ns ws (window l ws)
      go [] e = execute_none ws e
      go (n ∷ r) e = execute_some ws n r e (window-AllDelays (n ∷ r) ws h)
