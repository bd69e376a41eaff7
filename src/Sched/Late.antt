-- ===== src/Sched/Late.antt =====
-- A message that is pushed after the queue of an exited service has been cleared.
use starnet.Common.{
  ℕ, zero, suc, ◌+◌, ◌≡◌, refl, ◌∙◌, sym, true, List, [], ◌∷◌, ◌++◌, append_assoc, append-nil, map,
  ◌==◌, if◌then◌else◌, arith,
}
use starnet.Common.Int.{ℤ}
use starnet.Msg.{Msg}
use starnet.Mq.{push, pop, globalmq_pop, globalmq_push, try_enter_global, finish_dispatch, clear}
use starnet.Sched.{System, Task, act, send_task, drop_message}
use starnet.Sched.Steps.{State, count_of, Reach, start, is_call}
use starnet.Sched.Counts.{count_id, count_id-append, Reach-Holds}
use starnet.Sched.Claims.{holds}
use starnet.Sched.Exit.{closes}
use starnet.Sched.Safety.{Reach-IsGood, exited_closed}

-- The tasks that can take messages out of the queue of `s`.
abbrev pub drains : ℕ → Task → ℕ
drains s (Task.claimed w i) = if i == s then 1 else 0
drains s (Task.running w i n) = if i == s then 1 else 0
drains s (Task.checking w i) = if i == s then 1 else 0
drains s (Task.finishing w i) = if i == s then 1 else 0
drains s (Task.exiting w i) = if i == s then 1 else 0
drains s (Task.leaving w i) = if i == s then 1 else 0
drains s (Task.cleaning w i) = if i == s then 1 else 0
drains s _ = 0

-- Closed, cleared, and since then with the messages `ms` and `more` in the queue.
record IsDead (s : ℕ) (ms : List Msg) (σ : System) (drained : ℕ) : Type 0 where
  undrained : drained ≡ 0
  not_queued : count_id s σ.global.items ≡ 0
  exited : (σ.services s).exited ≡ true
  closed : (σ.services s).mq.in_global ≡ true
  more : List Msg
  kept : (σ.services s).mq.msg_queue ≡ ms ++ more

-- What a task adds to the queue of `s`.
abbrev grown : ℕ → Task → List Msg
grown s (Task.pushing i m) = if i == s then m ∷ [] else []
grown s _ = []

regroup : (ms more g l : List Msg) → l ≡ ms ++ more → l ++ g ≡ ms ++ (more ++ g)
regroup ms more g l e = rw e (append_assoc ms more g)

drains-sends :
    (s : ℕ) (ms : List (ℕ × Msg)) (w : ℤ)
    → count_of (drains s) (map send_task ms ++ (Task.worker w ∷ [])) ≡ 0
drains-sends s [] w = refl
drains-sends s ((i, m) ∷ ms) w = omega (arith, drains-sends s ms w)

record Same (s : ℕ) (σ τ : System) (drained drained' : ℕ) (g : List Msg) : Type 0 where
  undrained : drained' ≡ 0
  not_queued : count_id s τ.global.items ≡ 0
  exited : (τ.services s).exited ≡ true
  closed : (τ.services s).mq.in_global ≡ true
  kept : (τ.services s).mq.msg_queue ≡ (σ.services s).mq.msg_queue ++ g

abbrev KeepsDead : ℕ → List Msg → System → Task → ℕ → Type 0
KeepsDead s ms σ t h =
    IsDead s ms σ (drains s t + h)
    → Same s σ (act σ t).0 (drains s t + h) (count_of (drains s) (act σ t).1 + h) (grown s t)

act-Same : (s : ℕ) (ms : List Msg) (σ : System) (h : ℕ) (t : Task) → KeepsDead s ms σ t h
unfolding act
act-Same s ms σ h (Task.pushing i m) d =
    unfold push in ground (arith, append-nil (σ.services s).mq.msg_queue)
act-Same s ms σ h (Task.entering i) d =
    unfold try_enter_global globalmq_push in
    ground
      (arith, append-nil (σ.services s).mq.msg_queue, count_id-append s σ.global.items (i ∷ []))
act-Same s ms σ h (Task.worker w) d =
    unfold globalmq_pop in ground (arith, append-nil (σ.services s).mq.msg_queue)
act-Same s ms σ h (Task.running w i zero) d = ground (arith, append-nil (σ.services s).mq.msg_queue)
act-Same s ms σ h (Task.running w i (suc n)) d =
    unfold pop in ground (arith, append-nil (σ.services s).mq.msg_queue)
act-Same s ms σ h (Task.finishing w i) d =
    unfold finish_dispatch globalmq_push in
    ground
      (arith, append-nil (σ.services s).mq.msg_queue, count_id-append s σ.global.items (i ∷ []))
act-Same s ms σ h (Task.cleaning w i) d =
    let errors = (clear drop_message (σ.services i).mq).0 in
    unfold clear in ground (arith, append-nil (σ.services s).mq.msg_queue, drains-sends s errors w)
act-Same s ms σ h t d = ground (arith, append-nil (σ.services s).mq.msg_queue)

act-IsDead :
    (s : ℕ) (ms : List Msg) (σ : System) (h : ℕ) (t : Task)
    → IsDead s ms σ (drains s t + h)
    → IsDead s ms (act σ t).0 (count_of (drains s) (act σ t).1 + h)
act-IsDead s ms σ h t d =
    let e = act-Same s ms σ h t d in
    record {
      undrained = e.undrained;
      not_queued = e.not_queued;
      exited = e.exited;
      closed = e.closed;
      more = d.more ++ grown s t;
      kept = e.kept ∙ regroup ms d.more (grown s t) (σ.services s).mq.msg_queue d.kept;
    }

drains-call : (s : ℕ) (t : Task) → is_call t ≡ true → drains s t ≡ 0
drains-call s (Task.sending i m) h = refl
drains-call s (Task.killing i) h = refl
drains-call s Task.creating h = refl
drains-call s t h = cc

drains-parts : (s : ℕ) (t : Task) → drains s t ≡ holds s t + closes s t
drains-parts s (Task.leaving w i) = ground arith
drains-parts s (Task.cleaning w i) = ground arith
drains-parts s t = ground arith

drains-sum :
    (s : ℕ) (ts : List Task)
    → count_of (drains s) ts ≡ count_of (holds s) ts + count_of (closes s) ts
drains-sum s [] = refl
drains-sum s (t ∷ ts) = omega (arith, drains-parts s t, drains-sum s ts)

-- In a reachable state let a service have exited and its queue been cleared. Whatever messages
-- the queue holds then or gets later, from senders that had looked the service up before it was
-- killed, stay there in order in every later state: none is processed, and none is answered by
-- an error.
pub late_message :
    (s : ℕ) (ws : List ℤ) {a b : State}
    → Reach (start ws) a
    → (a.sys.services s).exited ≡ true
    → count_of (closes s) a.tasks ≡ 0
    → Reach a b
    → (more : List Msg) × ((b.sys.services s).mq.msg_queue
        ≡ (a.sys.services s).mq.msg_queue ++ more)
late_message s ws {a} r e c later =
    let closed = exited_closed s ws r e in
    let dead : IsDead s (a.sys.services s).mq.msg_queue a.sys (count_of (drains s) a.tasks) =
      record {
        undrained = omega (arith, drains-sum s a.tasks, closed);
        not_queued = closed.0;
        exited = e;
        closed = (Reach-IsGood s ws r).closed e;
        more = [];
        kept = sym (append-nil _);
      } in
    let d =
      Reach-Holds (IsDead s _) (drains s) (drains-call s) refl (λ v. refl) (act-IsDead s _) later
        dead in
    (d.more, d.kept)
