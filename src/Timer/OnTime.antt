-- ===== src/Timer/OnTime.antt =====
-- When each timer of src/starnet_timer.cpp fires, with no other thread adding in between.
use mathlib.Core.List.{filter}
use starnet.Common.{
  ℕ, zero, suc, ◌+◌, ◌-◌, ◌%◌, ◌^◌, ◌≤◌, ◌<◌, ◌≡◌, refl, ap, subst, ◌∙◌, some, List, [], ◌∷◌, ◌++◌,
  append-nil, arith, ℕ_discrete, dec_lt,
}
use mathlib.Core.Path.{ap₂}
use starnet.Timer.{Timer, Event, Node, starnet_updatetime}
use starnet.Timer.Carry.{ticks_left, next_tick}
use starnet.Timer.Agenda.{
  Agenda, due, not_due, events, tick_events, tick, ticks_events, added, window, then_adds,
}
use starnet.Timer.Update.{Refines, AllWaiting}
use starnet.Timer.CatchUp.{undisturbed, starnet_updatetime-Refines}

-- The nodes whose delay ends with the k-th tick from `now`, and those whose delay is longer.
abbrev pub on_tick : ℕ → ℕ → List Node → List Node
on_tick now k = filter (λ n. ℕ_discrete (ticks_left n.expire now) k)

abbrev pub after_tick : ℕ → ℕ → List Node → List Node
after_tick now k = filter (λ n. dec_lt k (ticks_left n.expire now))

-- The events of ticks k + 1 to k + n.
unfoldable pub schedule : ℕ → ℕ → ℕ → List Node → List Event
schedule zero k now ns = []
schedule (suc n) k now ns = events (on_tick now (k + 1) ns) ++ schedule n (k + 1) now ns

abbrev clock : ℕ → ℕ → ℕ
clock now k = (now + k) % 2 ^ 32

due-after_tick :
    (now k : ℕ) (ns : List Node)
    → k + 1 < 2 ^ 32
    → AllWaiting now ns
    → due (clock now (k + 1)) (after_tick now k ns) ≡ on_tick now (k + 1) ns
due-after_tick now k [] h w = refl
due-after_tick now k (n ∷ ns) h w = ground (arith, due-after_tick now k ns h w.1)

not_due-after_tick :
    (now k : ℕ) (ns : List Node)
    → k + 1 < 2 ^ 32
    → AllWaiting now ns
    → not_due (clock now (k + 1)) (after_tick now k ns) ≡ after_tick now (k + 1) ns
not_due-after_tick now k [] h w = refl
not_due-after_tick now k (n ∷ ns) h w = ground (arith, not_due-after_tick now k ns h w.1)

after_zero : (now : ℕ) (ns : List Node) → AllWaiting now ns → after_tick now 0 ns ≡ ns
after_zero now [] w = refl
after_zero now (n ∷ ns) w = ground (arith, after_zero now ns w.1)

abbrev agenda_after : ℕ → ℕ → List Node → Agenda
agenda_after now k ns = record { time = clock now k; waiting = after_tick now k ns }

-- The k-th tick fires what it should, and the agenda after it is the list less what has fired.
next-clock : (now k : ℕ) → next_tick (clock now k) ≡ clock now (k + 1)
next-clock now k = omega arith

tick_events-agenda_after :
    (now k : ℕ) (ns : List Node)
    → k + 1 < 2 ^ 32
    → AllWaiting now ns
    → tick_events (agenda_after now k ns) ≡ events (on_tick now (k + 1) ns)
unfolding tick_events
tick_events-agenda_after now k ns h w =
    ap (λ t. events (due t (after_tick now k ns))) (next-clock now k)
    ∙ ap events (due-after_tick now k ns h w)

added-nothing : (now : ℕ) (ns : List Node) → added now (window ns []) ≡ []
added-nothing now [] = refl
added-nothing now (n ∷ ns) = refl

tick-agenda_after :
    (now k : ℕ) (ns : List Node)
    → k + 1 < 2 ^ 32
    → AllWaiting now ns
    → tick [] (agenda_after now k ns) ≡ agenda_after now (k + 1) ns
unfolding tick
tick-agenda_after now k ns h w =
    ap
      (λ t. record {
        time = t;
        waiting =
            not_due t (after_tick now k ns) ++ added t (window (due t (after_tick now k ns)) []);
      })
      (next-clock now k)
    ∙ ap (λ l. record { time = clock now (k + 1); waiting = l })
        (rw (added-nothing, append-nil) (not_due-after_tick now k ns h w))

then_adds_none : (a : Agenda) → then_adds [] a ≡ a
unfolding then_adds
then_adds_none a = ap (λ l. record a { waiting = l }) (append-nil a.waiting)

ticks_events-schedule :
    (n i k now : ℕ) (ns : List Node)
    → k + n < 2 ^ 32
    → AllWaiting now ns
    → ticks_events n i undisturbed (agenda_after now k ns) ≡ schedule n k now ns
unfolding ticks_events schedule
ticks_events-schedule zero i k now ns h w = refl
ticks_events-schedule (suc n) i k now ns h w =
    rw
      (
        then_adds_none (agenda_after now k ns),
        tick_events-agenda_after now k ns (omega arith) w,
        tick-agenda_after now k ns (omega arith) w,
      )
      (ap (◌++◌ (events (on_tick now (k + 1) ns)))
        (ticks_events-schedule n (i + 1) (k + 1) now ns (omega arith) w))

-- If the wheel refines an agenda, the monotonic clock `cp` has not gone back and is less than
-- 2^32 ticks ahead, and no other thread adds meanwhile, then the events that
-- `starnet_updatetime` sends are, tick by tick, those of the waiting nodes whose remaining
-- delay is exactly that many ticks: none early, none late, none twice, and those of one tick in
-- order of arrival.
pub starnet_updatetime-schedule :
    (T : Timer) (a : Agenda) (cp : ℕ)
    → Refines T a
    → T.current < 2 ^ 64
    → T.current_point ≤ cp
    → cp < T.current_point + 2 ^ 32
    → (T' : Timer) × (starnet_updatetime cp undisturbed T
        ≡ some (schedule (cp - T.current_point) 0 a.time a.waiting, T'))
starnet_updatetime-schedule T a cp r c lo hi =
    let (T', e, _, _, _) =
      starnet_updatetime-Refines T a cp undisturbed r c lo hi (λ j. (tt, tt)) in
    let now_fits = r.fits in
    let start : agenda_after a.time 0 a.waiting ≡ a =
      ap₂ (λ t l. record { time = t; waiting = l }) (omega arith)
        (after_zero a.time a.waiting r.waits) in
    (
      T',
      e
          ∙ ap (λ es. some (es, T'))
              (subst
                (λ b.
                  ticks_events (cp - T.current_point) 0 undisturbed b
                  ≡ schedule (cp - T.current_point) 0 a.time a.waiting)
                start
                (ticks_events-schedule (cp - T.current_point) 0 0 a.time a.waiting (omega arith)
                  r.waits)),
    )
