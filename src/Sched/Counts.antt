-- ===== src/Sched/Counts.antt =====
-- Counting over the list of tasks, and what a step does to such a count.
use starnet.Common.{
  ℕ, ◌+◌, ◌≡◌, refl, ap, subst, ◌∙◌, true, List, [], ◌∷◌, ◌++◌, ◌==◌, if◌then◌else◌, arith,
}
use starnet.Sched.{System, Task, act}
use starnet.Sched.Steps.{
  State, count_of, Step, runs, calls, no_wake, wakes, Reach, stay, and_then, is_call,
}

abbrev pub count_id : ℕ → List ℕ → ℕ
count_id s [] = 0
count_id s (i ∷ ids) = (if i == s then 1 else 0) + count_id s ids

pub count_id-append :
    (s : ℕ) (xs ys : List ℕ) → count_id s (xs ++ ys) ≡ count_id s xs + count_id s ys
count_id-append s [] ys = omega arith
count_id-append s (x ∷ xs) ys = omega (arith, count_id-append s xs ys)

pub count_of-append :
    (f : Task → ℕ) (xs ys : List Task) → count_of f (xs ++ ys) ≡ count_of f xs + count_of f ys
count_of-append f [] ys = omega arith
count_of-append f (x ∷ xs) ys = omega (arith, count_of-append f xs ys)

pub count_of-around :
    (f : Task → ℕ) (xs ys : List Task) (t : Task)
    → count_of f (xs ++ (t ∷ ys)) ≡ f t + (count_of f xs + count_of f ys)
count_of-around f xs ys t = omega (arith, count_of-append f xs (t ∷ ys))

pub count_of-replaced :
    (f : Task → ℕ) (xs ts ys : List Task)
    → count_of f ts + (count_of f xs + count_of f ys) ≡ count_of f (xs ++ (ts ++ ys))
count_of-replaced f xs ts ys =
    omega (arith, count_of-append f xs (ts ++ ys), count_of-append f ts ys)

pub counts-through :
    (f : Task → ℕ) {ts us : List Task} (xs ys : List Task) (t : Task)
    → ts ≡ xs ++ (t ∷ ys)
    → f t ≡ 0
    → us ≡ xs ++ ys
    → count_of f ts ≡ count_of f us
counts-through f xs ys t p z q =
    rw (p, q) (omega (arith, count_of-around f xs ys t, count_of-append f xs ys))

-- A property of the system and of one count, which every task keeps, holds after every step.
module _ (P : System → ℕ → Type 0) (f : Task → ℕ)
    (on_call : (t : Task) → is_call t ≡ true → f t ≡ 0) (on_signal : f Task.signalling ≡ 0)
    (on_sleep : (w : _) → f (Task.asleep w) ≡ f (Task.worker w))
    (on_act : (σ : System) (h : ℕ) (t : Task)
      → P σ (f t + h)
      → P (act σ t).0 (count_of f (act σ t).1 + h)) where
  abbrev pub Holds : State → Type 0
  Holds a = P a.sys (count_of f a.tasks)

  Step-Holds : {a b : State} → Step a b → Holds a → Holds b
  Step-Holds {a} (runs xs ys t ready e r) g = rw r (
      subst (P (act a.sys t).0) (count_of-replaced f xs (act a.sys t).1 ys) (
        on_act a.sys (count_of f xs + count_of f ys) t
          (subst (P a.sys) (ap (count_of f) e ∙ count_of-around f xs ys t) g)))
  Step-Holds {a} (calls t c r) g = rw r (subst (P a.sys) (omega (arith, on_call t c)) g)
  Step-Holds {a} (no_wake xs ys e n r) g =
      rw r (subst (P a.sys) (counts-through f xs ys Task.signalling e on_signal refl) g)
  Step-Holds {a} (wakes xs ys us vs w e n h r) g = rw r (
      subst (P a.sys)
        (counts-through f xs ys Task.signalling e on_signal refl
          ∙ ap (count_of f) h
          ∙ count_of-around f us vs (Task.asleep w)
          ∙ omega (arith, on_sleep w, count_of-around f us vs (Task.worker w)))
        g)

  pub Reach-Holds : {a b : State} → Reach a b → Holds a → Holds b
  Reach-Holds stay g = g
  Reach-Holds (and_then r st) g = Step-Holds st (Reach-Holds r g)
