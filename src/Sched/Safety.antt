-- ===== src/Sched/Safety.antt =====
-- What holds of every service in every interleaving.
use starnet.Common.{
  ℕ, ◌+◌, ◌≤◌, ◌<◌, ◌≡◌, ◌≢◌, ◌⊎◌, inl, refl, ap, subst, ◌∙◌, true, false, List, [], ◌∷◌, arith,
  if◌then◌else◌,
}
use starnet.Common.Int.{ℤ}
use starnet.Sched.{System, Task}
use starnet.Sched.Steps.{
  State, count_of, Step, runs, calls, no_wake, wakes, Reach, stay, and_then, start, workers,
  is_call,
}
use starnet.Sched.Counts.{count_id, count_of-around, count_of-replaced, counts-through}
use starnet.Sched.Exit.{leaves, closes, Reach-Exit, Reach-Closing}
use starnet.Sched.Claims.{holds, enters, Good, act-Good}

abbrev pub IsGood : ℕ → State → Type 0
IsGood s a = Good s a.sys (count_of (holds s) a.tasks) (count_of (enters s) a.tasks)

-- Tasks that count the same may be exchanged.
Good-counts : (s : ℕ) (σ : System) {h k e f : ℕ} → h ≡ k → e ≡ f → Good s σ h e → Good s σ k f
Good-counts s σ {h} {k} {e} {f} p q g = subst (λ n. Good s σ n f) p (subst (Good s σ h) q g)

-- A call holds and enters nothing yet.
call-counts : (s : ℕ) (t : Task) → is_call t ≡ true → (holds s t ≡ 0) × (enters s t ≡ 0)
call-counts s (Task.sending i m) h = (refl, refl)
call-counts s (Task.killing i) h = (refl, refl)
call-counts s Task.creating h = (refl, refl)
call-counts s t h = cc

Step-IsGood : (s : ℕ) {a b : State} → Step a b → IsGood s a → IsGood s b
Step-IsGood s {a} (runs xs ys t ready e r) g = rw r (
    Good-counts s _ (count_of-replaced (holds s) xs _ ys) (count_of-replaced (enters s) xs _ ys) (
      act-Good s a.sys _ _ t (
        Good-counts s a.sys (ap (count_of (holds s)) e ∙ count_of-around (holds s) xs ys t)
          (ap (count_of (enters s)) e ∙ count_of-around (enters s) xs ys t) g)))
Step-IsGood s {a} (calls t c r) g =
    let z = call-counts s t c in
    rw r (Good-counts s a.sys (omega (arith, z.0)) (omega (arith, z.1)) g)
Step-IsGood s {a} (no_wake xs ys e n r) g = rw r (
    Good-counts s a.sys (counts-through (holds s) xs ys Task.signalling e refl refl)
      (counts-through (enters s) xs ys Task.signalling e refl refl) g)
Step-IsGood s {a} (wakes xs ys us vs w e n f r) g = rw r (
    Good-counts s a.sys
      (counts-through (holds s) xs ys Task.signalling e refl refl
        ∙ ap (count_of (holds s)) f
        ∙ count_of-around (holds s) us vs (Task.asleep w)
        ∙ omega (arith, count_of-around (holds s) us vs (Task.worker w)))
      (counts-through (enters s) xs ys Task.signalling e refl refl
        ∙ ap (count_of (enters s)) f
        ∙ count_of-around (enters s) us vs (Task.asleep w)
        ∙ omega (arith, count_of-around (enters s) us vs (Task.worker w)))
      g)

workers-counts :
    (s : ℕ) (ws : List ℤ)
    → (0 ≡ count_of (holds s) (workers ws)) × (0 ≡ count_of (enters s) (workers ws))
workers-counts s [] = (refl, refl)
workers-counts s (w ∷ ws) = let r = workers-counts s ws in (omega (arith, r.0), omega (arith, r.1))

start-IsGood : (s : ℕ) (ws : List ℤ) → IsGood s (start ws)
unfolding start
start-IsGood s ws =
    Good-counts s _ (workers-counts s ws).0 (workers-counts s ws).1
      (record { once = omega arith; closed = λ e. cc; no_lost = λ e f. inl refl })

pub Reach-IsGood : (s : ℕ) (ws : List ℤ) {a : State} → Reach (start ws) a → IsGood s a
Reach-IsGood s ws stay = start-IsGood s ws
Reach-IsGood s ws (and_then r st) = Step-IsGood s st (Reach-IsGood s ws r)

module _ (s : ℕ) (ws : List ℤ) {a : State} (r : Reach (start ws) a) where
  -- In every state that any interleaving of workers, senders, killers and creators reaches, a
  -- service stands at most once in the global queue and with the workers together, those that run
  -- its OnExit or clear its queue among them: it is never queued twice, never run or closed by two
  -- workers, and never queued while one has it.
  pub exclusive :
      count_id s a.sys.global.items + (count_of (holds s) a.tasks + count_of (closes s) a.tasks) ≤ 1
  exclusive = let g = Reach-IsGood s ws r in ground (arith, g.once, Reach-Closing s ws r)

  -- In every reachable state, whichever workers raced for the exit of a service: if the service
  -- is marked as exited, then its OnExit has run once and no worker is about to run it, or it has
  -- not run and exactly one worker is about to run it; if it is not marked, then OnExit has not
  -- run and no worker is about to run it.
  pub exits_once :
      count_id s a.sys.on_exits + count_of (leaves s) a.tasks
      ≡ (if (a.sys.services s).exited then 1 else 0)
  exits_once = Reach-Exit s ws r

  -- In every reachable state a service that is marked as exited is not in the global queue, no
  -- worker processes its messages or dispatches it, and at most one worker runs its OnExit or
  -- clears its queue.
  pub exited_closed :
      (a.sys.services s).exited ≡ true
      → (count_id s a.sys.global.items ≡ 0)
        × (count_of (holds s) a.tasks ≡ 0)
        × (count_of (closes s) a.tasks ≤ 1)
  exited_closed e =
      let g = Reach-IsGood s ws r in
      (ground (arith, g.once), ground (arith, g.once), ground (arith, Reach-Closing s ws r))

  -- In every reachable state, a service that has not exited and has messages either stands in
  -- the global queue or with a worker, or a sender that has pushed is about to put it there: no
  -- interleaving of Send with the end of a worker's batch loses the wake-up.
  pub never_forgotten :
      (a.sys.services s).exited ≡ false
      → (a.sys.services s).mq.msg_queue ≢ []
      → (count_id s a.sys.global.items + count_of (holds s) a.tasks ≡ 1)
        ⊎ (0 < count_of (enters s) a.tasks)
  never_forgotten e n = let g = Reach-IsGood s ws r in ground (arith, g.once, g.no_lost e)
