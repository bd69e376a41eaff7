-- ===== src/Sched.antt =====
-- src/starnet.cpp (Send, NewService, KillService), src/starnet_worker.cpp and the queues of
-- src/starnet_mq.cpp as threads that interleave.
-- A task is where a thread stands in one of these functions; `act` is its next step, of the
-- extent of one lock or one atomic access. Between two steps any other task may run, and any
-- thread may call Send, KillService or NewService at any time.
pub mod Steps
pub mod Counts
pub mod Claims
pub mod Exit
pub mod Safety
pub mod Script
pub mod Races
pub mod Stranded
pub mod Late
mod Tests
use starnet.Common.{
  ℕ, zero, suc, ◌+◌, ◌/◌, ◌^◌, Bool, true, false, Option, none, some, List, [], ◌∷◌, ◌++◌, map,
  ◌==◌, ltb, leb, if◌then◌else◌,
}
use starnet.Common.Int.{ℤ, pos, negsuc}
use starnet.Msg.{Msg, ServiceMsg, service_msg, socket_msg, MsgType}
use starnet.Mq.{
  Mq, new_mq, push, pop, take_overload, mq_length, is_in_global, GlobalQueue, new_global,
  globalmq_pop, globalmq_length, try_enter_global, finish_dispatch, clear,
}
use starnet.Handle.{NameMap, starnet_handle_removename}

-- What a `Service` keeps for the scheduler. Its Lua state is not modelled.
pub record Service : Type 0 where
  pub mq : Mq
  pub is_exiting : Bool
  pub exited : Bool

abbrev pub new_service : Service
new_service = record { mq = new_mq; is_exiting = false; exited = false }

-- `services` holds the objects, which live on while a thread points to them; `registered` is the
-- map of `Starnet` from ids to objects. `processed` and `on_exits` record the calls of OnMsg and
-- OnExit, the latest last.
pub record System : Type 0 where
  pub services : ℕ → Service
  pub registered : ℕ → Bool
  pub max_id : ℕ
  pub names : NameMap
  pub global : GlobalQueue
  pub worker_num : ℕ
  pub processed : List (ℕ × Msg)
  pub on_exits : List ℕ

-- A worker carries its weight.
pub data Task : Type 0 where
  sending : ℕ → Msg → Task
  pushing : ℕ → Msg → Task
  entering : ℕ → Task
  signalling : Task
  worker waiting asleep : ℤ → Task
  claimed : ℤ → ℕ → Task
  running : ℤ → ℕ → ℕ → Task
  checking finishing exiting leaving cleaning : ℤ → ℕ → Task
  killing erasing unnaming marking kill_check : ℕ → Task
  creating : Task
  initing : ℕ → Task

abbrev pub set_service : System → ℕ → Service → System
set_service σ s srv = record σ { services = λ i. if i == s then srv else σ.services i }

abbrev pub set_registered : System → ℕ → Bool → System
set_registered σ s b = record σ { registered = λ i. if i == s then b else σ.registered i }

-- `dropMessage`: a PTYPE_ERROR with the session goes back to the sender, if there is one.
unfoldable pub drop_message : Msg → List (ℕ × Msg)
drop_message (socket_msg m) = []
drop_message (service_msg m) =
    if m.source == 0
    then []
    else ((
      m.source,
      service_msg (record { type = MsgType.error; source = 0; session = m.session; buff = [] }),
    )
        ∷ [])

-- How many messages a worker takes at once.
unfoldable pub batch : ℤ → ℕ → ℕ
batch (negsuc w) len = 1
batch (pos w) len = len / 2 ^ w

abbrev send_task : ℕ × Msg → Task
send_task (to_id, m) = sending to_id m

-- Starnet::Send: look the receiver up, push, and enter the global queue.
step_find : System → ℕ → Msg → System × List Task
step_find σ s m = (σ, if σ.registered s then pushing s m ∷ [] else [])

step_push : System → ℕ → Msg → System × List Task
step_push σ s m =
    (set_service σ s (record (σ.services s) { mq = push (σ.services s).mq m }), entering s ∷ [])

step_enter : System → ℕ → Bool × Mq × GlobalQueue → System × List Task
step_enter σ s (pushed, q, g) = (
  record (set_service σ s (record (σ.services s) { mq = q })) { global = g },
  if pushed then signalling ∷ [] else [],
)

step_claim : System → ℤ → Option ℕ × GlobalQueue → System × List Task
step_claim σ w (none, g) = (record σ { global = g }, waiting w ∷ [])
step_claim σ w (some s, g) = (record σ { global = g }, claimed w s ∷ [])

step_process : System → ℤ → ℕ → ℕ → Option Msg × Mq → System × List Task
step_process σ w s n (none, q) =
    (set_service σ s (record (σ.services s) { mq = q }), checking w s ∷ [])
step_process σ w s n (some m, q) = (
  record (set_service σ s (record (σ.services s) { mq = (take_overload q).1 })) {
    processed = σ.processed ++ ((s, m) ∷ []);
  },
  running w s n ∷ [],
)

step_finish : System → ℤ → ℕ → Mq × GlobalQueue → System × List Task
step_finish σ w s (q, g) =
    (record (set_service σ s (record (σ.services s) { mq = q })) { global = g }, worker w ∷ [])

step_clean : System → ℤ → ℕ → List (ℕ × Msg) × Mq → System × List Task
step_clean σ w s (errors, q) =
    (set_service σ s (record (σ.services s) { mq = q }), map send_task errors ++ (worker w ∷ []))

-- Worker::operator(): how many messages this time.
step_plan : System → ℤ → ℕ → System × List Task
step_plan σ w s = (σ, running w s (batch w (mq_length (σ.services s).mq)) ∷ [])

-- Worker::CheckAndPutGlobal: the look at `isExiting`, the exchange of `exited`, and OnExit.
step_check : System → ℤ → ℕ → System × List Task
step_check σ w s = (σ, if (σ.services s).is_exiting then exiting w s ∷ [] else finishing w s ∷ [])

step_exit : System → ℤ → ℕ → System × List Task
step_exit σ w s = (
  set_service σ s (record (σ.services s) { exited = true }),
  if (σ.services s).exited then worker w ∷ [] else leaving w s ∷ [],
)

step_leave : System → ℤ → ℕ → System × List Task
step_leave σ w s = (record σ { on_exits = σ.on_exits ++ (s ∷ []) }, cleaning w s ∷ [])

-- Starnet::KillService, from the look-up to the second look at the global queue.
step_victim : System → ℕ → System × List Task
step_victim σ s = (σ, if σ.registered s then erasing s ∷ [] else [])

step_erase : System → ℕ → System × List Task
step_erase σ s = (set_registered σ s false, unnaming s ∷ [])

step_unname : System → ℕ → System × List Task
step_unname σ s = (record σ { names = starnet_handle_removename s σ.names }, marking s ∷ [])

step_mark : System → ℕ → System × List Task
step_mark σ s = (set_service σ s (record (σ.services s) { is_exiting = true }), kill_check s ∷ [])

step_idle_victim : System → ℕ → System × List Task
step_idle_victim σ s = (σ, if is_in_global (σ.services s).mq then [] else entering s ∷ [])

-- Starnet::NewService, up to the call of OnInit. Past 2^32 ids the model stops.
step_new : System → System × List Task
step_new σ =
    let s = σ.max_id + 1 in
    if ltb s (2 ^ 32)
    then (record (set_registered σ s true) { max_id = s }, initing s ∷ [])
    else (σ, creating ∷ [])

-- The next step of a task: the state after, and the tasks that take its place.
-- `asleep` and `signalling` do not move by themselves (see `Steps`).
unfoldable pub act : System → Task → System × List Task
unfolding step_find step_push step_enter step_claim step_plan step_process step_check step_finish
    step_exit step_leave step_clean step_victim step_erase step_unname step_mark step_idle_victim
    step_new
act σ (sending s m) = step_find σ s m
act σ (pushing s m) = step_push σ s m
act σ (entering s) = step_enter σ s (try_enter_global (σ.services s).mq σ.global s)
act σ signalling = (σ, signalling ∷ [])
act σ (worker w) = step_claim σ w (globalmq_pop σ.global)
act σ (waiting w) = (σ, asleep w ∷ [])
act σ (asleep w) = (σ, asleep w ∷ [])
act σ (claimed w s) = step_plan σ w s
act σ (running w s zero) = (σ, checking w s ∷ [])
act σ (running w s (suc n)) = step_process σ w s n (pop (σ.services s).mq)
act σ (checking w s) = step_check σ w s
act σ (finishing w s) = step_finish σ w s (finish_dispatch (σ.services s).mq σ.global s)
act σ (exiting w s) = step_exit σ w s
act σ (leaving w s) = step_leave σ w s
act σ (cleaning w s) = step_clean σ w s (clear drop_message (σ.services s).mq)
act σ (killing s) = step_victim σ s
act σ (erasing s) = step_erase σ s
act σ (unnaming s) = step_unname σ s
act σ (marking s) = step_mark σ s
act σ (kill_check s) = step_idle_victim σ s
act σ creating = step_new σ
act σ (initing s) = (σ, [])
