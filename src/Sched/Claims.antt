-- ===== src/Sched/Claims.antt =====
-- Who has a service: the global queue or one worker, and nobody after it has been closed.
use starnet.Common.{
  ℕ, zero, suc, ◌+◌, ◌<◌, ◌≡◌, ◌⊎◌, refl, true, false, List, [], ◌∷◌, ◌++◌, map, ◌==◌,
  if◌then◌else◌, arith,
}
use starnet.Common.Int.{ℤ}
use starnet.Msg.{Msg}
use starnet.Mq.{
  push, pop, take_overload, globalmq_pop, globalmq_push, try_enter_global, finish_dispatch, clear,
}
use starnet.Sched.{Service, System, Task, act, send_task, drop_message}
use starnet.Sched.Counts.{count_id, count_id-append}
use starnet.Sched.Steps.{count_of}

-- The task works on service `s` for a worker, its Lua state still open.
abbrev pub holds : ℕ → Task → ℕ
holds s (Task.claimed w i) = if i == s then 1 else 0
holds s (Task.running w i n) = if i == s then 1 else 0
holds s (Task.checking w i) = if i == s then 1 else 0
holds s (Task.finishing w i) = if i == s then 1 else 0
holds s (Task.exiting w i) = if i == s then 1 else 0
holds s _ = 0

abbrev pub enters : ℕ → Task → ℕ
enters s (Task.entering i) = if i == s then 1 else 0
enters s _ = 0

-- How many places have the service.
abbrev pub live : Service → ℕ
live srv = if srv.exited then 0 else (if srv.mq.in_global then 1 else 0)

-- The invariant of one service, over the number of tasks that hold it and that enter it.
pub record Good (s : ℕ) (σ : System) (held entered : ℕ) : Type 0 where
  pub once : count_id s σ.global.items + held ≡ live (σ.services s)
  pub closed : (σ.services s).exited ≡ true → (σ.services s).mq.in_global ≡ true
  pub no_lost :
      (σ.services s).exited ≡ false
      → (σ.services s).mq.in_global ≡ false
      → ((σ.services s).mq.msg_queue ≡ []) ⊎ (0 < entered)

abbrev pub Keeps : ℕ → System → Task → ℕ → ℕ → Type 0
Keeps s σ t h e =
    Good s σ (holds s t + h) (enters s t + e)
    → Good s (act σ t).0 (count_of (holds s) (act σ t).1 + h) (count_of (enters s) (act σ t).1 + e)

act-pushing : (s : ℕ) (σ : System) (h e i : ℕ) (m : Msg) → Keeps s σ (Task.pushing i m) h e
unfolding act push
act-pushing s σ h e i m g = ground (arith, g.closed, g.no_lost)

act-entering : (s : ℕ) (σ : System) (h e i : ℕ) → Keeps s σ (Task.entering i) h e
unfolding act try_enter_global globalmq_push
act-entering s σ h e i g =
    ground (arith, g.closed, g.no_lost, count_id-append s σ.global.items (i ∷ []))

act-worker : (s : ℕ) (σ : System) (h e : ℕ) (w : ℤ) → Keeps s σ (Task.worker w) h e
unfolding act globalmq_pop
act-worker s σ h e w g = ground (arith, g.closed, g.no_lost)

act-running : (s : ℕ) (σ : System) (h e : ℕ) (w : ℤ) (i n : ℕ) → Keeps s σ (Task.running w i n) h e
unfolding act pop take_overload
act-running s σ h e w i zero g = ground (arith, g.closed, g.no_lost)
act-running s σ h e w i (suc n) g = ground (arith, g.closed, g.no_lost)

act-checking : (s : ℕ) (σ : System) (h e : ℕ) (w : ℤ) (i : ℕ) → Keeps s σ (Task.checking w i) h e
unfolding act
act-checking s σ h e w i g = ground (arith, g.closed, g.no_lost)

act-finishing : (s : ℕ) (σ : System) (h e : ℕ) (w : ℤ) (i : ℕ) → Keeps s σ (Task.finishing w i) h e
unfolding act finish_dispatch globalmq_push
act-finishing s σ h e w i g =
    ground (arith, g.closed, g.no_lost, count_id-append s σ.global.items (i ∷ []))

act-exiting : (s : ℕ) (σ : System) (h e : ℕ) (w : ℤ) (i : ℕ) → Keeps s σ (Task.exiting w i) h e
unfolding act
act-exiting s σ h e w i g = ground (arith, g.closed, g.no_lost)

holds-sends :
    (s : ℕ) (ms : List (ℕ × Msg)) (w : ℤ)
    → count_of (holds s) (map send_task ms ++ (Task.worker w ∷ [])) ≡ 0
holds-sends s [] w = refl
holds-sends s ((i, m) ∷ ms) w = omega (arith, holds-sends s ms w)

enters-sends :
    (s : ℕ) (ms : List (ℕ × Msg)) (w : ℤ)
    → count_of (enters s) (map send_task ms ++ (Task.worker w ∷ [])) ≡ 0
enters-sends s [] w = refl
enters-sends s ((i, m) ∷ ms) w = omega (arith, enters-sends s ms w)

act-cleaning : (s : ℕ) (σ : System) (h e : ℕ) (w : ℤ) (i : ℕ) → Keeps s σ (Task.cleaning w i) h e
unfolding act clear
act-cleaning s σ h e w i g =
    let errors = (clear drop_message (σ.services i).mq).0 in
    ground (arith, g.closed, g.no_lost, holds-sends s errors w, enters-sends s errors w)

-- Every task, whatever the other tasks are, keeps the invariant of every service.
pub act-Good : (s : ℕ) (σ : System) (h e : ℕ) (t : Task) → Keeps s σ t h e
unfolding act
act-Good s σ h e (Task.sending i m) g = ground (arith, g.closed, g.no_lost)
act-Good s σ h e (Task.pushing i m) g = act-pushing s σ h e i m g
act-Good s σ h e (Task.entering i) g = act-entering s σ h e i g
act-Good s σ h e Task.signalling g = g
act-Good s σ h e (Task.worker w) g = act-worker s σ h e w g
act-Good s σ h e (Task.waiting w) g = g
act-Good s σ h e (Task.asleep w) g = g
act-Good s σ h e (Task.claimed w i) g = ground (arith, g.closed, g.no_lost)
act-Good s σ h e (Task.running w i n) g = act-running s σ h e w i n g
act-Good s σ h e (Task.checking w i) g = act-checking s σ h e w i g
act-Good s σ h e (Task.finishing w i) g = act-finishing s σ h e w i g
act-Good s σ h e (Task.exiting w i) g = act-exiting s σ h e w i g
act-Good s σ h e (Task.leaving w i) g = ground (arith, g.closed, g.no_lost)
act-Good s σ h e (Task.cleaning w i) g = act-cleaning s σ h e w i g
act-Good s σ h e (Task.killing i) g = ground (arith, g.closed, g.no_lost)
act-Good s σ h e (Task.erasing i) g = ground (arith, g.closed, g.no_lost)
act-Good s σ h e (Task.unnaming i) g = ground (arith, g.closed, g.no_lost)
act-Good s σ h e (Task.marking i) g = ground (arith, g.closed, g.no_lost)
act-Good s σ h e (Task.kill_check i) g = ground (arith, g.closed, g.no_lost)
act-Good s σ h e Task.creating g = ground (arith, g.closed, g.no_lost)
act-Good s σ h e (Task.initing i) g = g
