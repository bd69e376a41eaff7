-- ===== src/Sched/Exit.antt =====
-- The exit of a service in `Worker::CheckAndPutGlobal`, src/starnet_worker.cpp: who has won the
-- exchange of `exited`, and what that worker has still to do.
use starnet.Common.{
  ℕ, zero, suc, ◌+◌, ◌≤◌, ◌≡◌, refl, true, List, [], ◌∷◌, ◌++◌, map, ◌==◌, if◌then◌else◌, arith,
}
use starnet.Common.Int.{ℤ}
use starnet.Msg.{Msg}
use starnet.Mq.{pop, globalmq_pop, try_enter_global, clear}
use starnet.Sched.{System, Task, act, send_task, drop_message}
use starnet.Sched.Steps.{State, count_of, Reach, start, workers, is_call}
use starnet.Sched.Counts.{count_id, count_id-append, Reach-Holds}

-- The worker has won the exchange and not yet called OnExit.
abbrev pub leaves : ℕ → Task → ℕ
leaves s (Task.leaving w i) = if i == s then 1 else 0
leaves s _ = 0

-- The worker has won the exchange and not yet cleared the queue.
abbrev pub closes : ℕ → Task → ℕ
closes s (Task.leaving w i) = if i == s then 1 else 0
closes s (Task.cleaning w i) = if i == s then 1 else 0
closes s _ = 0

abbrev Exits : ℕ → System → ℕ → Type 0
Exits s σ h = count_id s σ.on_exits + h ≡ (if (σ.services s).exited then 1 else 0)

abbrev Closing : ℕ → System → ℕ → Type 0
Closing s σ h = h ≤ (if (σ.services s).exited then 1 else 0)

leaves-sends :
    (s : ℕ) (ms : List (ℕ × Msg)) (w : ℤ)
    → count_of (leaves s) (map send_task ms ++ (Task.worker w ∷ [])) ≡ 0
leaves-sends s [] w = refl
leaves-sends s ((i, m) ∷ ms) w = omega (arith, leaves-sends s ms w)

closes-sends :
    (s : ℕ) (ms : List (ℕ × Msg)) (w : ℤ)
    → count_of (closes s) (map send_task ms ++ (Task.worker w ∷ [])) ≡ 0
closes-sends s [] w = refl
closes-sends s ((i, m) ∷ ms) w = omega (arith, closes-sends s ms w)

act-Exits :
    (s : ℕ) (σ : System) (h : ℕ) (t : Task)
    → Exits s σ (leaves s t + h)
    → Exits s (act σ t).0 (count_of (leaves s) (act σ t).1 + h)
unfolding act
act-Exits s σ h (Task.worker w) g = unfold globalmq_pop in ground arith
act-Exits s σ h (Task.running w i zero) g = ground arith
act-Exits s σ h (Task.running w i (suc n)) g = unfold pop in ground arith
act-Exits s σ h (Task.entering i) g = unfold try_enter_global in ground arith
act-Exits s σ h (Task.leaving w i) g = ground (arith, count_id-append s σ.on_exits (i ∷ []))
act-Exits s σ h (Task.cleaning w i) g =
    let errors = (clear drop_message (σ.services i).mq).0 in
    unfold clear in ground (arith, leaves-sends s errors w)
act-Exits s σ h t g = ground arith

act-Closing :
    (s : ℕ) (σ : System) (h : ℕ) (t : Task)
    → Closing s σ (closes s t + h)
    → Closing s (act σ t).0 (count_of (closes s) (act σ t).1 + h)
unfolding act
act-Closing s σ h (Task.worker w) g = unfold globalmq_pop in ground arith
act-Closing s σ h (Task.running w i zero) g = ground arith
act-Closing s σ h (Task.running w i (suc n)) g = unfold pop in ground arith
act-Closing s σ h (Task.entering i) g = unfold try_enter_global in ground arith
act-Closing s σ h (Task.cleaning w i) g =
    let errors = (clear drop_message (σ.services i).mq).0 in
    unfold clear in ground (arith, closes-sends s errors w)
act-Closing s σ h t g = ground arith

leaves-call : (s : ℕ) (t : Task) → is_call t ≡ true → leaves s t ≡ 0
leaves-call s (Task.sending i m) h = refl
leaves-call s (Task.killing i) h = refl
leaves-call s Task.creating h = refl
leaves-call s t h = cc

closes-call : (s : ℕ) (t : Task) → is_call t ≡ true → closes s t ≡ 0
closes-call s (Task.sending i m) h = refl
closes-call s (Task.killing i) h = refl
closes-call s Task.creating h = refl
closes-call s t h = cc

workers-leaves : (s : ℕ) (ws : List ℤ) → count_of (leaves s) (workers ws) ≡ 0
workers-leaves s [] = refl
workers-leaves s (w ∷ ws) = omega (arith, workers-leaves s ws)

workers-closes : (s : ℕ) (ws : List ℤ) → count_of (closes s) (workers ws) ≡ 0
workers-closes s [] = refl
workers-closes s (w ∷ ws) = omega (arith, workers-closes s ws)

start-Exits : (s : ℕ) (ws : List ℤ) → Exits s (start ws).sys (count_of (leaves s) (start ws).tasks)
unfolding start
start-Exits s ws = omega (arith, workers-leaves s ws)

start-Closing :
    (s : ℕ) (ws : List ℤ) → Closing s (start ws).sys (count_of (closes s) (start ws).tasks)
unfolding start
start-Closing s ws = omega (arith, workers-closes s ws)

pub Reach-Exit :
    (s : ℕ) (ws : List ℤ) {a : State}
    → Reach (start ws) a
    → Exits s a.sys (count_of (leaves s) a.tasks)
Reach-Exit s ws r =
    Reach-Holds (Exits s) (leaves s) (leaves-call s) refl (λ v. refl) (act-Exits s) r
      (start-Exits s ws)

pub Reach-Closing :
    (s : ℕ) (ws : List ℤ) {a : State}
    → Reach (start ws) a
    → Closing s a.sys (count_of (closes s) a.tasks)
Reach-Closing s ws r =
    Reach-Holds (Closing s) (closes s) (closes-call s) refl (λ v. refl) (act-Closing s) r
      (start-Closing s ws)
