-- ===== src/Sched/Steps.antt =====
-- The interleavings of the tasks.
use starnet.Common.{
  ℕ, suc, ◌+◌, ◌-◌, ◌≡◌, Bool, true, false, List, [], ◌∷◌, ◌++◌, ◌==◌, leb, if◌then◌else◌,
}
use starnet.Common.Int.{ℤ}
use starnet.Mq.{globalmq_length, new_global}
use starnet.Sched.{System, Task, act, new_service}

pub record State : Type 0 where
  pub sys : System
  pub tasks : List Task

-- How many tasks pass a test.
abbrev pub count_of : (Task → ℕ) → List Task → ℕ
count_of f [] = 0
count_of f (t ∷ ts) = f t + count_of f ts

abbrev pub sleeps : Task → ℕ
sleeps (Task.asleep w) = 1
sleeps _ = 0

-- The calls that any thread may make.
abbrev pub is_call : Task → Bool
is_call (Task.sending s m) = true
is_call (Task.killing s) = true
is_call Task.creating = true
is_call _ = false

-- A signal and a sleeper do not run by themselves.
abbrev pub is_passive : Task → Bool
is_passive Task.signalling = true
is_passive (Task.asleep w) = true
is_passive _ = false

-- The test of `CheckAndWeakUp`: the workers that are awake are no more than the services that
-- wait. (`sleepCount` counts the sleepers.)
unfoldable pub wake_needed : State → Bool
wake_needed a =
    let sleep_count = count_of sleeps a.tasks in
    if sleep_count == 0
    then false
    else leb (a.sys.worker_num - sleep_count) (globalmq_length a.sys.global)

pub data Step (a b : State) : Type 0 where
  runs :
      (xs ys : List Task) (t : Task)
      → is_passive t ≡ false
      → a.tasks ≡ xs ++ (t ∷ ys)
      → b ≡ record { sys = (act a.sys t).0; tasks = xs ++ ((act a.sys t).1 ++ ys) }
      → Step a b
  calls : (t : Task) → is_call t ≡ true → b ≡ record a { tasks = t ∷ a.tasks } → Step a b
  no_wake :
      (xs ys : List Task)
      → a.tasks ≡ xs ++ (Task.signalling ∷ ys)
      → wake_needed a ≡ false
      → b ≡ record a { tasks = xs ++ ys }
      → Step a b
  wakes :
      (xs ys us vs : List Task) (w : ℤ)
      → a.tasks ≡ xs ++ (Task.signalling ∷ ys)
      → wake_needed a ≡ true
      → xs ++ ys ≡ us ++ (Task.asleep w ∷ vs)
      → b ≡ record a { tasks = us ++ (Task.worker w ∷ vs) }
      → Step a b

pub data Reach (a : State) : State → Type 0 where
  stay : Reach a a
  and_then : {b c : State} → Reach a b → Step b c → Reach a c

-- The start: no service, every worker at the top of its loop.
abbrev pub workers : List ℤ → List Task
workers [] = []
workers (w ∷ ws) = Task.worker w ∷ workers ws

abbrev pub count_workers : List ℤ → ℕ
count_workers [] = 0
count_workers (w ∷ ws) = suc (count_workers ws)

unfoldable pub start : List ℤ → State
start ws = record {
  sys = record {
    services = λ s. new_service;
    registered = λ s. false;
    max_id = 0;
    names = [];
    global = new_global;
    worker_num = count_workers ws;
    processed = [];
    on_exits = [];
  };
  tasks = workers ws;
}
