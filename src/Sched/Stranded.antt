-- ===== src/Sched/Stranded.antt =====
-- A service that is killed between a worker's look at `isExiting` and its FinishDispatch.
use starnet.Common.{
  ℕ, zero, suc, ◌+◌, ◌≤◌, ◌≡◌, refl, subst, true, false, List, [], ◌∷◌, ◌++◌, map, ◌==◌,
  if◌then◌else◌, arith,
}
use starnet.Common.Int.{ℤ}
use starnet.Msg.{Msg}
use starnet.Mq.{pop, globalmq_pop, globalmq_push, try_enter_global, finish_dispatch, clear}
use starnet.Sched.{System, Task, act, send_task, drop_message}
use starnet.Sched.Steps.{State, count_of, Reach, is_call}
use starnet.Sched.Counts.{count_id, count_id-append, count_of-replaced, Reach-Holds}

-- The task has service `s`, or works on it.
abbrev pub touches : ℕ → Task → ℕ
touches s (Task.pushing i m) = if i == s then 1 else 0
touches s (Task.entering i) = if i == s then 1 else 0
touches s (Task.claimed w i) = if i == s then 1 else 0
touches s (Task.running w i n) = if i == s then 1 else 0
touches s (Task.checking w i) = if i == s then 1 else 0
touches s (Task.finishing w i) = if i == s then 1 else 0
touches s (Task.exiting w i) = if i == s then 1 else 0
touches s (Task.leaving w i) = if i == s then 1 else 0
touches s (Task.cleaning w i) = if i == s then 1 else 0
touches s (Task.erasing i) = if i == s then 1 else 0
touches s (Task.unnaming i) = if i == s then 1 else 0
touches s (Task.marking i) = if i == s then 1 else 0
touches s (Task.kill_check i) = if i == s then 1 else 0
touches s _ = 0

-- Killed, not exited, and out of everybody's reach.
pub record IsStranded (s : ℕ) (σ : System) (touched : ℕ) : Type 0 where
  pub untouched : touched ≡ 0
  pub not_queued : count_id s σ.global.items ≡ 0
  pub gone : σ.registered s ≡ false
  pub old : s ≤ σ.max_id
  pub told : (σ.services s).is_exiting ≡ true
  pub alive : (σ.services s).exited ≡ false

touches-sends :
    (s : ℕ) (ms : List (ℕ × Msg)) (w : ℤ)
    → count_of (touches s) (map send_task ms ++ (Task.worker w ∷ [])) ≡ 0
touches-sends s [] w = refl
touches-sends s ((i, m) ∷ ms) w = omega (arith, touches-sends s ms w)

abbrev KeepsStranded : ℕ → System → Task → ℕ → Type 0
KeepsStranded s σ t h =
    IsStranded s σ (touches s t + h)
    → IsStranded s (act σ t).0 (count_of (touches s) (act σ t).1 + h)

act-finishing :
    (s : ℕ) (σ : System) (h : ℕ) (w : ℤ) (i : ℕ) → KeepsStranded s σ (Task.finishing w i) h
unfolding act finish_dispatch globalmq_push
act-finishing s σ h w i g = ground (arith, count_id-append s σ.global.items (i ∷ []))

act-cleaning :
    (s : ℕ) (σ : System) (h : ℕ) (w : ℤ) (i : ℕ) → KeepsStranded s σ (Task.cleaning w i) h
unfolding act clear
act-cleaning s σ h w i g =
    ground (arith, touches-sends s (clear drop_message (σ.services i).mq).0 w)

act-entering : (s : ℕ) (σ : System) (h i : ℕ) → KeepsStranded s σ (Task.entering i) h
unfolding act try_enter_global globalmq_push
act-entering s σ h i g = ground (arith, count_id-append s σ.global.items (i ∷ []))

act-worker : (s : ℕ) (σ : System) (h : ℕ) (w : ℤ) → KeepsStranded s σ (Task.worker w) h
unfolding act globalmq_pop
act-worker s σ h w g = ground arith

act-IsStranded : (s : ℕ) (σ : System) (h : ℕ) (t : Task) → KeepsStranded s σ t h
unfolding act
act-IsStranded s σ h (Task.sending i m) g = ground arith
act-IsStranded s σ h (Task.entering i) g = act-entering s σ h i g
act-IsStranded s σ h (Task.worker w) g = act-worker s σ h w g
act-IsStranded s σ h (Task.finishing w i) g = act-finishing s σ h w i g
act-IsStranded s σ h (Task.cleaning w i) g = act-cleaning s σ h w i g
act-IsStranded s σ h (Task.running w i zero) g = ground arith
act-IsStranded s σ h (Task.running w i (suc n)) g = unfold pop in ground arith
act-IsStranded s σ h t g = ground arith

touches-call : (s : ℕ) (t : Task) → is_call t ≡ true → touches s t ≡ 0
touches-call s (Task.sending i m) h = refl
touches-call s (Task.killing i) h = refl
touches-call s Task.creating h = refl
touches-call s t h = cc

after_finish :
    (s : ℕ) (w : ℤ) (σ : System)
    → count_id s σ.global.items ≡ 0
    → σ.registered s ≡ false
    → s ≤ σ.max_id
    → (σ.services s).is_exiting ≡ true
    → (σ.services s).exited ≡ false
    → (σ.services s).mq.msg_queue ≡ []
    → IsStranded s
        (act σ (Task.finishing w s)).0
        (count_of (touches s) (act σ (Task.finishing w s)).1 + 0)
unfolding act finish_dispatch
after_finish s w σ unqueued gone old told alive none_left = ground arith

-- A worker has read `isExiting` as false and is about to call FinishDispatch for service `s`;
-- meanwhile KillService has run to its end, found the service in the global state, and left. If
-- the queue is empty and nobody else has the service (it is not in the global queue, and no sender
-- is past its look-up, no other worker and no killer works on it), then after FinishDispatch the
-- service is marked as exiting and never exits, whatever happens next.
pub kill_strands :
    (s : ℕ) (w : ℤ) (a : State) (xs ys : List Task)
    → a.tasks ≡ xs ++ (Task.finishing w s ∷ ys)
    → count_of (touches s) xs + count_of (touches s) ys ≡ 0
    → count_id s a.sys.global.items ≡ 0
    → a.sys.registered s ≡ false
    → s ≤ a.sys.max_id
    → (a.sys.services s).is_exiting ≡ true
    → (a.sys.services s).exited ≡ false
    → (a.sys.services s).mq.msg_queue ≡ []
    → {b : State}
    → Reach
        (record {
          sys = (act a.sys (Task.finishing w s)).0;
          tasks = xs ++ ((act a.sys (Task.finishing w s)).1 ++ ys);
        })
        b
    → ((b.sys.services s).is_exiting ≡ true) × ((b.sys.services s).exited ≡ false)
kill_strands s w a xs ys here_now alone unqueued gone old told alive none_left r =
    let after = act a.sys (Task.finishing w s) in
    let start = after_finish s w a.sys unqueued gone old told alive none_left in
    let g =
      Reach-Holds (IsStranded s) (touches s) (touches-call s) refl (λ v. refl) (act-IsStranded s) r
        (subst (IsStranded s after.0)
          (omega (arith, alone, count_of-replaced (touches s) xs after.1 ys)) start) in
    (g.told, g.alive)
