-- ===== src/Timer/Tests.antt =====
-- Runs of the timing wheel of src/starnet_timer.cpp, and its theorems at a concrete wheel.
use starnet.Common.{ℕ, ◌+◌, ◌-◌, ◌%◌, ◌^◌, ◌≡◌, refl, some, none, Option, List, [], ◌∷◌, arith}
use starnet.Common.Int.{pos}
use starnet.Timer.{
  Timer, Event, Others, add_node, timer_add, add_all, dispatch_list, move_list, timer_shift,
  timer_execute, timer_update, update_ticks, starnet_timer_init, starnet_timeout,
  starnet_updatetime,
}
use starnet.Timer.Agenda.{Agenda, ticks_events, ticks}
use starnet.Timer.Update.{Refines, Ticks, timer_update-Refines}
use starnet.Timer.CatchUp.{
  empty_agenda, then_add, undisturbed, starnet_timer_init-Refines, timer_add-Refines,
  starnet_timeout-Refines, starnet_updatetime-Refines,
}
use starnet.Timer.OnTime.{schedule, starnet_updatetime-schedule}

abbrev ping : Event
ping = record { handle = 1; session = 7 }

abbrev pong : Event
pong = record { handle = 2; session = 8 }

-- At time 0, one timer for tick 300 and one for tick 1.
abbrev two_timers : Timer
two_timers = timer_add (timer_add (starnet_timer_init 0 0) ping 300) pong 1

abbrev two_nodes : Agenda
two_nodes = then_add (then_add empty_agenda ping 300) pong 1

two_timers-Refines : Refines two_timers two_nodes
two_timers-Refines =
    timer_add-Refines _ _ pong 1
      (timer_add-Refines _ _ ping 300 (starnet_timer_init-Refines 0 0) (omega arith)) (omega arith)

abbrev sent : Option (List Event × Timer) → List Event
sent none = []
sent (some (es, T)) = es

-- The first of them stands in a level of the wheel, and fires after 300 ticks all the same.
fires_both : sent (starnet_updatetime 300 undisturbed two_timers) ≡ pong ∷ ping ∷ []
unfolding starnet_updatetime update_ticks timer_update timer_execute timer_shift move_list add_node
    timer_add starnet_timer_init dispatch_list add_all
fires_both = refl

fires_one : sent (starnet_updatetime 299 undisturbed two_timers) ≡ pong ∷ []
unfolding starnet_updatetime update_ticks timer_update timer_execute timer_shift move_list add_node
    timer_add starnet_timer_init dispatch_list add_all
fires_one = refl

timer_update-Refines_example :
    Ticks two_timers two_nodes [] ((record { event = ping; delay = 5 } ∷ []) ∷ [])
timer_update-Refines_example =
    timer_update-Refines two_timers two_nodes two_timers-Refines []
      ((record { event = ping; delay = 5 } ∷ []) ∷ []) (omega arith)

starnet_timeout-Refines_example :
    ((starnet_timeout two_timers 3 (pos 70000) 9).0 ≡ [])
    × Refines
        (starnet_timeout two_timers 3 (pos 70000) 9).1
        (then_add two_nodes (record { handle = 3; session = 9 }) 70000)
starnet_timeout-Refines_example =
    starnet_timeout-Refines two_timers two_nodes 3 (pos 70000) 9 two_timers-Refines (omega arith)

-- The clock fields of the two timers.
two_timers-clock : (two_timers.current ≡ 0) × (two_timers.current_point ≡ 0)
unfolding timer_add add_node starnet_timer_init
two_timers-clock = (refl, refl)

-- Before every tick another thread adds a timer for 5 ticks later.
abbrev disturbed : ℕ → Others
disturbed i = record { before = record { event = pong; delay = 5 } ∷ []; first = []; second = [] }

starnet_updatetime-Refines_example :
    (T' : Timer) × (starnet_updatetime 300 disturbed two_timers
      ≡ some (ticks_events (300 - two_timers.current_point) 0 disturbed two_nodes, T'))
    × Refines T' (ticks (300 - two_timers.current_point) 0 disturbed two_nodes)
    × (T'.current ≡ (two_timers.current + (300 - two_timers.current_point)) % 2 ^ 64)
    × (T'.current_point ≡ 300)
starnet_updatetime-Refines_example =
    starnet_updatetime-Refines two_timers two_nodes 300 disturbed two_timers-Refines
      (omega (arith, two_timers-clock)) (omega (arith, two_timers-clock))
      (omega (arith, two_timers-clock)) (λ j. ground arith)

starnet_updatetime-schedule_example :
    (T' : Timer) × (starnet_updatetime 300 undisturbed two_timers
      ≡ some (schedule (300 - two_timers.current_point) 0 0 two_nodes.waiting, T'))
starnet_updatetime-schedule_example =
    starnet_updatetime-schedule two_timers two_nodes 300 two_timers-Refines
      (omega (arith, two_timers-clock)) (omega (arith, two_timers-clock))
      (omega (arith, two_timers-clock))
