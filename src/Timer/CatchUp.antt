-- ===== src/Timer/CatchUp.antt =====
-- `starnet_timeout` and `starnet_updatetime` of src/starnet_timer.cpp against the agenda.
use starnet.Common.{
  ℕ, zero, suc, ◌+◌, ◌-◌, ◌%◌, ◌^◌, ◌≤◌, ◌<◌, ◌≡◌, refl, subst, ◌∙◌, some, List, [], ◌∷◌, ◌++◌, All,
  All-append, ap, sym, append-nil, append_assoc, arith, ℕ_discrete,
}
use starnet.Common.Int.{ℤ, pos, negsuc}
use starnet.Timer.{
  Timer, Event, Add, Others, timer_add, add_all, starnet_timer_init, starnet_timeout, update_ticks,
  starnet_updatetime,
}
use starnet.Timer.Place.{Slot, at, near_slot, level_slot}
use starnet.Timer.Shift.{IsLaid, add_node-SameClock}
use starnet.Timer.Execute.{IsDelay, AllDelays, add_node-IsLaid}
use starnet.Timer.Agenda.{Agenda, node_of, added, then_adds, tick, ticks_events, ticks}
use starnet.Timer.Update.{Refines, Ticks, timer_update-Refines, node_of-IsWaiting}

abbrev pub empty_agenda : Agenda
empty_agenda = record { time = 0; waiting = [] }

pub starnet_timer_init-Refines : (cs cp : ℕ) → Refines (starnet_timer_init cs cp) empty_agenda
unfolding starnet_timer_init
starnet_timer_init-Refines cs cp = record {
  same_time = refl;
  fits = omega arith;
  waits = tt;
  laid = empty_laid;
}
  where
    empty_laid : IsLaid (starnet_timer_init cs cp) []
    empty_laid (near_slot k) = refl
    empty_laid (level_slot i k) = refl

-- An agenda with one more node, behind the others.
abbrev pub then_add : Agenda → Event → ℕ → Agenda
then_add a e d = record a { waiting = a.waiting ++ (node_of a.time e d ∷ []) }

pub timer_add-Refines :
    (T : Timer) (a : Agenda) (e : Event) (d : ℕ)
    → Refines T a
    → IsDelay d
    → Refines (timer_add T e d) (then_add a e d)
unfolding timer_add
timer_add-Refines T a e d r h = record {
  same_time = (add_node-SameClock T (node_of T.time e d)).0 ∙ r.same_time;
  fits = r.fits;
  waits = All-append _ a.waiting _ r.waits (node_of-IsWaiting a.time e d r.fits h, tt);
  laid =
      subst (λ t. IsLaid (timer_add T e d) (a.waiting ++ (node_of t e d ∷ []))) r.same_time
        (add_node-IsLaid T a.waiting (node_of T.time e d) r.laid);
}

then_adds_one :
    (a : Agenda) (x : Add) (w : List Add)
    → then_adds w (then_add a x.event x.delay) ≡ then_adds (x ∷ w) a
unfolding then_adds
then_adds_one a x w =
    ap (λ l. record a { waiting = l })
      (append_assoc a.waiting (node_of a.time x.event x.delay ∷ []) (added a.time w))

-- What other threads add between two ticks.
pub add_all-Refines :
    (w : List Add) (T : Timer) (a : Agenda)
    → Refines T a
    → AllDelays w
    → Refines (add_all T w) (then_adds w a)
      × ((add_all T w).current ≡ T.current)
      × ((add_all T w).current_point ≡ T.current_point)
unfolding add_all then_adds timer_add
add_all-Refines [] T a r h =
    (subst (λ l. Refines T (record a { waiting = l })) (sym (append-nil a.waiting)) r, refl, refl)
add_all-Refines (x ∷ w) T a r h =
    let T' = timer_add T x.event x.delay in
    let same = add_node-SameClock T (node_of T.time x.event x.delay) in
    let (r', c, p) =
      add_all-Refines w T' (then_add a x.event x.delay)
        (timer_add-Refines T a x.event x.delay r h.0) h.1 in
    (subst (Refines (add_all T' w)) (then_adds_one a x w) r', c ∙ same.1, p ∙ same.2)

-- Nobody adds meanwhile.
abbrev pub undisturbed : ℕ → Others
undisturbed i = record { before = []; first = []; second = [] }

-- Every delay that is added is a positive `int`.
abbrev pub AreDelays : (ℕ → Others) → Type 0
AreDelays ws = (j : ℕ) → AllDelays (ws j).before × All AllDelays (ws j).second

-- The loop of the catch-up is as many ticks of the agenda.
abbrev Runs : ℕ → ℕ → (ℕ → Others) → Timer → Agenda → Type 0
Runs n i ws T a =
    (T' : Timer) × (update_ticks n i ws T ≡ some (ticks_events n i ws a, T'))
    × Refines T' (ticks n i ws a)
    × (T'.current ≡ T.current)
    × (T'.current_point ≡ T.current_point)

pub update_ticks-Refines :
    (n i : ℕ) (ws : ℕ → Others) (T : Timer) (a : Agenda)
    → Refines T a
    → AreDelays ws
    → Runs n i ws T a
unfolding update_ticks ticks_events ticks
update_ticks-Refines zero i ws T a r h = (T, refl, r, refl, refl)
update_ticks-Refines (suc n) i ws T a r h =
    let (r₀, c₀, p₀) = add_all-Refines (ws i).before T a r (h i).0 in
    go c₀ p₀
      (timer_update-Refines (add_all T (ws i).before) b r₀ (ws i).first (ws i).second (h i).1)
      (λ T₁ r₁. update_ticks-Refines n (i + 1) ws T₁ (tick (ws i).second b) r₁ h)
  where
    b : Agenda
    b = then_adds (ws i).before a

    go :
        (add_all T (ws i).before).current ≡ T.current
        → (add_all T (ws i).before).current_point ≡ T.current_point
        → Ticks (add_all T (ws i).before) b (ws i).first (ws i).second
        → ((T₁ : Timer)
            → Refines T₁ (tick (ws i).second b)
            → Runs n (i + 1) ws T₁ (tick (ws i).second b))
        → Runs (suc n) i ws T a
    go c₀ p₀ (T₁, e, r₁, c, p) rest =
        let (T₂, e', r₂, c', p') = rest T₁ r₁ in
        (T₂, ground (arith, e, e'), r₂, c' ∙ c ∙ c₀, p' ∙ p ∙ p₀)

-- What a timeout is to do: a delay that is not positive is answered at once.
abbrev pub timeout_agenda : Agenda → ℕ → ℤ → ℕ → List Event × Agenda
timeout_agenda a handle (negsuc n) session = (record { handle = handle; session = session } ∷ [], a)
timeout_agenda a handle (pos zero) session = (record { handle = handle; session = session } ∷ [], a)
timeout_agenda a handle (pos (suc n)) session =
    ([], then_add a (record { handle = handle; session = session }) (suc n))

abbrev pub IsInt : ℤ → Type 0
IsInt (pos n) = n < 2 ^ 31
IsInt (negsuc n) = n < 2 ^ 31

-- For every `int` delay, on a wheel that refines an agenda: a delay of zero or less sends the
-- response at once and leaves the wheel alone; a positive one sends nothing, and the new wheel
-- refines the agenda with the node behind the others, due after that many ticks.
pub starnet_timeout-Refines :
    (T : Timer) (a : Agenda) (handle : ℕ) (time : ℤ) (session : ℕ)
    → Refines T a
    → IsInt time
    → ((starnet_timeout T handle time session).0 ≡ (timeout_agenda a handle time session).0)
      × Refines (starnet_timeout T handle time session).1 (timeout_agenda a handle time session).1
unfolding starnet_timeout
starnet_timeout-Refines T a handle (negsuc n) session r h = (refl, r)
starnet_timeout-Refines T a handle (pos zero) session r h = (refl, r)
starnet_timeout-Refines T a handle (pos (suc n)) session r h =
    (refl, timer_add-Refines T a _ (suc n) r (omega arith, h))

abbrev set_clock : Timer → ℕ → Timer
set_clock T cp = record T {
  current_point = cp;
  current = (T.current + (cp - T.current_point)) % 2 ^ 64;
}

at-set_clock : (T : Timer) (cp : ℕ) (s : Slot) → at (set_clock T cp) s ≡ at T s
at-set_clock T cp (near_slot k) = refl
at-set_clock T cp (level_slot i k) = refl

set_clock-Refines : (T : Timer) (a : Agenda) (cp : ℕ) → Refines T a → Refines (set_clock T cp) a
set_clock-Refines T a cp r = record {
  same_time = r.same_time;
  fits = r.fits;
  waits = r.waits;
  laid = λ s. at-set_clock T cp s ∙ r.laid s;
}

updatetime_same :
    (T : Timer) (cp : ℕ) (ws : ℕ → Others)
    → cp ≡ T.current_point
    → starnet_updatetime cp ws T ≡ some ([], T)
unfolding starnet_updatetime
updatetime_same T cp ws e = ground arith

updatetime_later :
    (T : Timer) (cp : ℕ) (ws : ℕ → Others)
    → T.current_point < cp
    → cp < T.current_point + 2 ^ 32
    → starnet_updatetime cp ws T ≡ update_ticks (cp - T.current_point) 0 ws (set_clock T cp)
unfolding starnet_updatetime
updatetime_later T cp ws lo hi =
    let d : (cp - T.current_point) % 2 ^ 32 ≡ cp - T.current_point = omega arith in
    ground (arith, d)

-- If the wheel refines an agenda, the monotonic clock `cp` has not gone back and is less than
-- 2^32 ticks ahead, and other threads add only positive `int` delays, before any tick and wherever
-- a tick gives the lock away, then `starnet_updatetime` makes one tick of the agenda for each
-- hundredth of a second that passed, with those adds behind the nodes that wait, sends what those
-- ticks send, in order, and advances `current` by as much.
pub starnet_updatetime-Refines :
    (T : Timer) (a : Agenda) (cp : ℕ) (ws : ℕ → Others)
    → Refines T a
    → T.current < 2 ^ 64
    → T.current_point ≤ cp
    → cp < T.current_point + 2 ^ 32
    → AreDelays ws
    → (T' : Timer) × (starnet_updatetime cp ws T
        ≡ some (ticks_events (cp - T.current_point) 0 ws a, T'))
      × Refines T' (ticks (cp - T.current_point) 0 ws a)
      × (T'.current ≡ (T.current + (cp - T.current_point)) % 2 ^ 64)
      × (T'.current_point ≡ cp)
starnet_updatetime-Refines T a cp ws r c lo hi delays = elim (ℕ_discrete cp T.current_point) [
  | yes e ↦
      let none_passed : cp - T.current_point ≡ 0 = omega arith in
      (
        T,
        rw none_passed (unfold ticks_events in updatetime_same T cp ws e),
        rw none_passed (unfold ticks in r),
        omega arith,
        omega arith,
      )
  | no e ↦
      let (T', run, r', same, point) =
        update_ticks-Refines (cp - T.current_point) 0 ws (set_clock T cp) a
          (set_clock-Refines T a cp r) delays in
      (T', updatetime_later T cp ws (omega arith) hi ∙ run, r', same, point)
]
