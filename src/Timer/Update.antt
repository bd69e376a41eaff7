-- ===== src/Timer/Update.antt =====
-- The wheel of src/starnet_timer.cpp refines the agenda: add, tick, and the catch-up loop.
use starnet.Common.{
  ℕ, ◌^◌, ◌<◌, ◌≡◌, ◌≢◌, refl, sym, ap, subst, ◌∙◌, some, List, [], ◌∷◌, ◌++◌, All, All-append,
  bit_and, arith,
}
use starnet.Timer.{Timer, Node, Event, Add, Windows, timer_execute, timer_update, timer_shift}
use starnet.Timer.Carry.{IsWaiting, next_tick}
use starnet.Timer.Shift.{IsLaid, SameClock, timer_shift-IsLaid, clocked}
use starnet.Timer.Execute.{
  IsDelay, AllDelays, window-AllDelays, Executes, timer_execute-Executes, round_empty, near-due,
}
use starnet.Timer.Agenda.{Agenda, due, not_due, node_of, added, window, events, tick_events, tick}

abbrev pub AllWaiting : ℕ → List Node → Type 0
AllWaiting now = All (λ n. IsWaiting now n.expire)

-- The wheel and the agenda agree: the same clock, every slot holds its nodes of the agenda in
-- the agenda's order, and every node still waits.
pub record Refines (T : Timer) (a : Agenda) : Type 0 where
  pub same_time : T.time ≡ a.time
  pub fits : a.time < 2 ^ 32
  pub waits : AllWaiting a.time a.waiting
  pub laid : IsLaid T a.waiting

pub node_of-IsWaiting :
    (now : ℕ) (e : Event) (d : ℕ)
    → now < 2 ^ 32
    → IsDelay d
    → IsWaiting now (node_of now e d).expire
node_of-IsWaiting now e d h k = omega arith

pub added-AllWaiting :
    (now : ℕ) (w : List Add) → now < 2 ^ 32 → AllDelays w → AllWaiting now (added now w)
added-AllWaiting now [] h k = tt
added-AllWaiting now (a ∷ w) h k =
    (node_of-IsWaiting now a.event a.delay h k.0, added-AllWaiting now w h k.1)

due-waiting : (now : ℕ) (ns : List Node) → AllWaiting now ns → due now ns ≡ []
due-waiting now [] w = refl
due-waiting now (n ∷ ns) w =
    let ne : n.expire ≢ now = omega arith in ground (arith, due-waiting now ns w.1)

later-IsWaiting : (now e : ℕ) → IsWaiting now e → e ≢ next_tick now → IsWaiting (next_tick now) e
later-IsWaiting now e w h = omega arith

not_due-AllWaiting :
    (now : ℕ) (ns : List Node)
    → AllWaiting now ns
    → AllWaiting (next_tick now) (not_due (next_tick now) ns)
not_due-AllWaiting now [] w = tt
not_due-AllWaiting now (n ∷ ns) w =
    ground (arith, later-IsWaiting now n.expire w.0, not_due-AllWaiting now ns w.1)

update_run :
    (T T₁ T₂ : Timer) (ws vs : Windows) (es : List Event)
    → timer_execute 2 ws T ≡ some ([], T)
    → timer_shift T ≡ some T₁
    → timer_execute 2 vs T₁ ≡ some (es, T₂)
    → timer_update ws vs T ≡ some (es, T₂)
unfolding timer_update
update_run T T₁ T₂ ws vs es p q r = ground (arith, p, q, r)

-- What one tick is to do.
abbrev pub Ticks : Timer → Agenda → Windows → Windows → Type 0
Ticks T a ws vs =
    (T' : Timer) × (timer_update ws vs T ≡ some (tick_events a, T'))
    × Refines T' (tick vs a)
    × (T'.current ≡ T.current)
    × (T'.current_point ≡ T.current_point)

module _ (T : Timer) (a : Agenda) (r : Refines T a) (ws vs : Windows)
    (delays : All AllDelays vs) where
  nothing_due : T.near (bit_and T.time 255) ≡ []
  nothing_due = near-due T a.waiting r.laid ∙ rw r.same_time (due-waiting a.time a.waiting r.waits)

  abbrev now : ℕ
  now = next_tick a.time

  tick_after_shift :
      (T₁ : Timer)
      → timer_shift T ≡ some T₁
      → SameClock (clocked T) T₁
      → IsLaid T₁ a.waiting
      → Executes T₁ a.waiting vs (window (due T₁.time a.waiting) vs)
      → Ticks T a ws vs
  tick_after_shift T₁ shifted same laid (T₂, executed, same', laid') =
      let at_now = same.0 ∙ ap (λ t. next_tick t) r.same_time in
      let run =
        subst (λ t. timer_execute 2 vs T₁ ≡ some (events (due t a.waiting), T₂)) at_now executed in
      let kept =
        subst (λ t. IsLaid T₂ (not_due t a.waiting ++ added t (window (due t a.waiting) vs))) at_now
          laid' in
      let fits : now < 2 ^ 32 = omega arith in
      (
        T₂,
        unfold tick_events in
            update_run T T₁ T₂ ws vs _ (round_empty 1 ws T nothing_due) shifted run,
        unfold tick in
            record {
              same_time = same'.0 ∙ at_now;
              fits = fits;
              waits =
                  All-append _ (not_due now a.waiting) _
                    (not_due-AllWaiting a.time a.waiting r.waits)
                    (added-AllWaiting now _ fits (window-AllDelays (due now a.waiting) vs delays));
              laid = kept;
            },
        same'.1 ∙ same.1,
        same'.2 ∙ same.2,
      )

  -- If the wheel refines an agenda and other threads add only positive `int` delays, then
  -- `timer_update` succeeds (both `timer_execute` loops end, no mask leaves an `int`), sends the
  -- events that are due at the next time in order of arrival, first come first sent, and leaves a
  -- wheel that refines the agenda after the tick, with what was added while the lock was
  -- released. `current` and `current_point` do not change.
  pub timer_update-Refines : Ticks T a ws vs
  timer_update-Refines =
      let waits = subst (λ t. AllWaiting t a.waiting) (sym r.same_time) r.waits in
      let (T₁, shifted, same, laid) = timer_shift-IsLaid T a.waiting r.laid waits in
      tick_after_shift T₁ shifted same laid
        (timer_execute-Executes T₁ a.waiting laid (rw (same.0) (omega arith)) vs delays)
