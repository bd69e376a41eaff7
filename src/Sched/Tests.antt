-- ===== src/Sched/Tests.antt =====
-- Scripts of the scheduler, and its theorems in the states that they reach.
use starnet.Common.{
  ℕ, ◌+◌, ◌≤◌, ◌<◌, ◌≡◌, ◌⊎◌, refl, true, false, List, [], ◌∷◌, ◌++◌, arith, if◌then◌else◌, subst,
  sym,
}
use starnet.Common.Int.{ℤ, negsuc}
use starnet.Msg.{Msg, service_msg, MsgType}
use starnet.Sched.{Task, act}
use starnet.Sched.Steps.{State, count_of, Reach, stay, start}
use starnet.Sched.Counts.{count_id}
use starnet.Sched.Claims.{holds, enters}
use starnet.Sched.Safety.{exclusive, exits_once, exited_closed, never_forgotten}
use starnet.Sched.Exit.{leaves, closes}
use starnet.Sched.Script.{Choice, run, call, play, play-Reach}
use starnet.Sched.Races.{neg, init_race, sleep_race}
use starnet.Sched.Stranded.{kill_strands}
use starnet.Sched.Late.{late_message}

abbrev hello : Msg
hello = service_msg (record { type = MsgType.lua; source = 2; session = 1; buff = [] })

abbrev weight : ℤ
weight = negsuc 0

abbrev runs_of : ℕ → ℕ → List Choice → List Choice
runs_of ℕ.zero i cs = cs
runs_of (ℕ.suc n) i cs = run i ∷ runs_of n i cs

abbrev begin : State
begin = start (weight ∷ [])

-- A message is pushed, and the sender has not yet put the service into the global queue.
abbrev pushed_script : List Choice
pushed_script = call Task.creating ∷ runs_of 2 0 (call (Task.sending 1 hello) ∷ runs_of 2 0 [])

abbrev pushed : State
pushed = play begin pushed_script

-- The worker stands before FinishDispatch when service 1 has been killed.
abbrev killed_script : List Choice
killed_script =
    call Task.creating
    ∷ runs_of 2 0
        (call (Task.sending 1 hello) ∷ runs_of 9 0 (call (Task.killing 1) ∷ runs_of 5 0 []))

abbrev killed : State
killed = play begin killed_script

-- A sender holds service 1 while the service is killed and exits.
abbrev exited_script : List Choice
exited_script =
    call Task.creating
    ∷ runs_of 2 0
        (call (Task.sending 1 hello) ∷ run 0 ∷ call (Task.killing 1) ∷ runs_of 7 0 (runs_of 7 1 []))

abbrev exited : State
exited = play begin exited_script

abbrev exited_later : State
exited_later = play exited (runs_of 2 0 [])

killed_tasks : killed.tasks ≡ Task.finishing weight 1 ∷ []
unfolding start play
killed_tasks = refl

exited_tasks : exited.tasks ≡ Task.pushing 1 hello ∷ Task.worker weight ∷ []
unfolding start play
exited_tasks = refl

exited_later_queue : (exited_later.sys.services 1).mq.msg_queue ≡ hello ∷ []
unfolding start play
exited_later_queue = refl

exclusive_example :
    count_id 1 killed.sys.global.items
      + (count_of (holds 1) killed.tasks + count_of (closes 1) killed.tasks)
    ≤ 1
exclusive_example = exclusive 1 (weight ∷ []) (play-Reach begin killed_script stay)

exits_once_example :
    count_id 1 exited.sys.on_exits + count_of (leaves 1) exited.tasks
    ≡ (if (exited.sys.services 1).exited then 1 else 0)
exits_once_example = exits_once 1 (weight ∷ []) (play-Reach begin exited_script stay)

exited-exited : (exited.sys.services 1).exited ≡ true
unfolding start play
exited-exited = refl

exited_closed_example :
    (count_id 1 exited.sys.global.items ≡ 0)
    × (count_of (holds 1) exited.tasks ≡ 0)
    × (count_of (closes 1) exited.tasks ≤ 1)
exited_closed_example =
    exited_closed 1 (weight ∷ []) (play-Reach begin exited_script stay) exited-exited

pushed-alive :
    ((pushed.sys.services 1).exited ≡ false) × ((pushed.sys.services 1).mq.msg_queue ≡ hello ∷ [])
unfolding start play
pushed-alive = (refl, refl)

never_forgotten_example :
    (count_id 1 pushed.sys.global.items + count_of (holds 1) pushed.tasks ≡ 1)
    ⊎ (0 < count_of (enters 1) pushed.tasks)
never_forgotten_example =
    never_forgotten 1 (weight ∷ []) (play-Reach begin pushed_script stay) pushed-alive.0
      (λ e. cc (pushed-alive.1))

init_race_example :
    (a : State) × Reach (start (neg 1 ∷ [])) a
    × (a.tasks ≡ Task.initing 1 ∷ Task.running (neg 1) 1 0 ∷ [])
    × (a.sys.processed ≡ (1, hello) ∷ [])
init_race_example = init_race 1 hello

sleep_race_example :
    (a : State) × Reach (start (weight ∷ [])) a
    × (a.tasks ≡ Task.asleep weight ∷ [])
    × (a.sys.global.items ≡ 1 ∷ [])
    × ((a.sys.services 1).mq.msg_queue ≡ hello ∷ [])
sleep_race_example = sleep_race weight hello

-- The state before FinishDispatch meets the hypotheses, and has been reached.
killed_state :
    Reach begin killed
    × (killed.tasks ≡ [] ++ (Task.finishing weight 1 ∷ []))
    × (count_id 1 killed.sys.global.items ≡ 0)
    × (killed.sys.registered 1 ≡ false)
    × (killed.sys.max_id ≡ 1)
    × ((killed.sys.services 1).is_exiting ≡ true)
    × ((killed.sys.services 1).exited ≡ false)
    × ((killed.sys.services 1).mq.msg_queue ≡ [])
unfolding start play
killed_state = (play-Reach begin killed_script stay, refl, refl, refl, refl, refl, refl, refl)

abbrev finished : State
finished = record {
  sys = (act killed.sys (Task.finishing weight 1)).0;
  tasks = [] ++ ((act killed.sys (Task.finishing weight 1)).1 ++ []);
}

kill_strands_example :
    ((finished.sys.services 1).is_exiting ≡ true) × ((finished.sys.services 1).exited ≡ false)
kill_strands_example =
    kill_strands 1 weight killed [] [] killed_state.1 refl killed_state.2 killed_state.3
      (omega (arith, killed_state.4)) killed_state.5 killed_state.6 killed_state.7 {b = finished}
      stay

late_message_example :
    (more : List Msg) × ((exited_later.sys.services 1).mq.msg_queue
      ≡ (exited.sys.services 1).mq.msg_queue ++ more)
late_message_example =
    late_message 1 (weight ∷ []) (play-Reach begin exited_script stay) exited-exited
      (subst (λ ts. count_of (closes 1) ts ≡ 0) (sym exited_tasks) refl)
      (play-Reach exited (runs_of 2 0 []) stay)
