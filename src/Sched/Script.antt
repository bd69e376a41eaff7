-- ===== src/Sched/Script.antt =====
-- Runs of the scheduler by a script: which task moves next.
use starnet.Common.{
  ℕ, zero, suc, ◌≡◌, refl, true, false, List, [], ◌∷◌, ◌++◌, append_assoc, sym, ◌∙◌, Bool-cases,
  inl, inr,
}
use starnet.Mq.{
  push, pop, overload_loop, take_overload, mq_length, is_in_global, globalmq_push, globalmq_pop,
  globalmq_length, try_enter_global, finish_dispatch, clear,
}
use starnet.Handle.{starnet_handle_removename}
use starnet.Sched.{Task, act, batch}
use starnet.Sched.Steps.{
  State, runs, calls, no_wake, Reach, and_then, is_passive, is_call, wake_needed,
}

-- The task at an index moves (a signal is dropped where nobody needs it), or a call begins.
pub data Choice : Type 0 where
  run : ℕ → Choice
  call : Task → Choice

unfoldable pub move : State → List Task → Task → List Task → State
move a xs Task.signalling ys = elim (wake_needed a) [
  | true ↦ a
  | false ↦ record a { tasks = xs ++ ys }
]
move a xs t ys = elim (is_passive t) [
  | true ↦ a
  | false ↦ record { sys = (act a.sys t).0; tasks = xs ++ ((act a.sys t).1 ++ ys) }
]

unfoldable pub move_at : State → List Task → List Task → ℕ → State
move_at a xs [] i = a
move_at a xs (t ∷ ts) zero = move a xs t ts
move_at a xs (t ∷ ts) (suc i) = move_at a (xs ++ (t ∷ [])) ts i

unfoldable pub choose : State → Choice → State
unfolding move move_at
choose a (run i) = move_at a [] a.tasks i
choose a (call t) = elim (is_call t) [ true ↦ record a { tasks = t ∷ a.tasks } | false ↦ a ]

-- The line opens what a run computes with.
unfoldable pub play : State → List Choice → State
unfolding choose act wake_needed batch push pop overload_loop take_overload mq_length is_in_global
    globalmq_push globalmq_pop globalmq_length try_enter_global finish_dispatch clear
    starnet_handle_removename
play a [] = a
play a (c ∷ cs) = play (choose a c) cs

module _ {s a : State} where
  move-active :
      (xs ys : List Task) (t : Task)
      → a.tasks ≡ xs ++ (t ∷ ys)
      → Reach s a
      → Reach s (elim (is_passive t) as (λ b. State) [
        | true ↦ a
        | false ↦ record { sys = (act a.sys t).0; tasks = xs ++ ((act a.sys t).1 ++ ys) }
      ])
  move-active xs ys t e r = elim (Bool-cases (is_passive t)) [
    | inl p ↦ rw p r
    | inr p ↦ rw p (and_then r (runs xs ys t p e refl))
  ]

  move-Reach :
      (xs ys : List Task) (t : Task)
      → a.tasks ≡ xs ++ (t ∷ ys)
      → Reach s a
      → Reach s (move a xs t ys)
  unfolding move
  move-Reach xs ys Task.signalling e r = elim (Bool-cases (wake_needed a)) [
    | inl p ↦ rw (p, move) r
    | inr p ↦ rw (p, move) (and_then r (no_wake xs ys e p refl))
  ]
  move-Reach xs ys (Task.sending i m) e r = move-active xs ys (Task.sending i m) e r
  move-Reach xs ys t e r = move-active xs ys t e r

  move_at-Reach :
      (xs ts : List Task) (i : ℕ) → a.tasks ≡ xs ++ ts → Reach s a → Reach s (move_at a xs ts i)
  unfolding move_at
  move_at-Reach xs [] i e r = r
  move_at-Reach xs (t ∷ ts) zero e r = move-Reach xs ts t e r
  move_at-Reach xs (t ∷ ts) (suc i) e r =
      move_at-Reach (xs ++ (t ∷ [])) ts i (e ∙ sym (append_assoc xs (t ∷ []) ts)) r

  choose-Reach : (c : Choice) → Reach s a → Reach s (choose a c)
  unfolding choose
  choose-Reach (run i) r = move_at-Reach [] a.tasks i refl r
  choose-Reach (call t) r = elim (Bool-cases (is_call t)) [
    | inl p ↦ rw (p, choose) (and_then r (calls t p refl))
    | inr p ↦ rw (p, choose) r
  ]

-- What a script plays can happen.
pub play-Reach : {s : State} (a : State) (cs : List Choice) → Reach s a → Reach s (play a cs)
unfolding play
play-Reach a [] r = r
play-Reach a (c ∷ cs) r = play-Reach (choose a c) cs (choose-Reach c r)
