-- ===== src/Sched/Races.antt =====
-- Interleavings that the locks of src/starnet.cpp and src/starnet_worker.cpp do not rule out.
use starnet.Common.{ℕ, zero, suc, ◌≡◌, refl, List, [], ◌∷◌}
use starnet.Common.Int.{ℤ, pos, negsuc}
use starnet.Msg.{Msg}
use starnet.Sched.{Task}
use starnet.Sched.Steps.{State, Reach, stay, start}
use starnet.Sched.Script.{Choice, run, call, play, play-Reach}

-- Service 1 is created; a message for it comes in while its OnInit still runs.
abbrev early_message : Msg → List Choice
early_message m =
    call Task.creating
    ∷ run 0
    ∷ call (Task.sending 1 m)
    ∷ run 0
    ∷ run 0
    ∷ run 0
    ∷ run 0
    ∷ run 1
    ∷ run 1
    ∷ run 1
    ∷ []

-- A weight that is not positive: 0, -1, -2, ...
abbrev pub neg : ℕ → ℤ
neg zero = pos 0
neg (suc w) = negsuc w

-- For every weight of the one worker that is 0 or negative, and for every message, there is a
-- run in which the worker processes that message with the new service while the thread that
-- created the service is still in its OnInit.
pub init_race :
    (w : ℕ) (m : Msg)
    → (a : State) × Reach (start (neg w ∷ [])) a
      × (a.tasks ≡ Task.initing 1 ∷ Task.running (neg w) 1 0 ∷ [])
      × (a.sys.processed ≡ (1, m) ∷ [])
unfolding start play
init_race zero m =
    (play (start (neg 0 ∷ [])) (early_message m), play-Reach _ (early_message m) stay, refl, refl)
init_race (suc w) m = (
  play (start (neg (suc w) ∷ [])) (early_message m),
  play-Reach _ (early_message m) stay,
  refl,
  refl,
)

-- The worker finds nothing to do, a message arrives, and only then does the worker fall asleep.
abbrev late_sleep : Msg → List Choice
late_sleep m =
    run 0
    ∷ call Task.creating
    ∷ run 0
    ∷ run 0
    ∷ call (Task.sending 1 m)
    ∷ run 0
    ∷ run 0
    ∷ run 0
    ∷ run 0
    ∷ run 0
    ∷ []

-- For every weight of the one worker and every message there is a run that ends with the worker
-- asleep, no wake-up on its way, and a service with that message in the global queue.
pub sleep_race :
    (w : ℤ) (m : Msg)
    → (a : State) × Reach (start (w ∷ [])) a
      × (a.tasks ≡ Task.asleep w ∷ [])
      × (a.sys.global.items ≡ 1 ∷ [])
      × ((a.sys.services 1).mq.msg_queue ≡ m ∷ [])
unfolding start play
sleep_race w m =
    (play (start (w ∷ [])) (late_sleep m), play-Reach _ (late_sleep m) stay, refl, refl, refl)
