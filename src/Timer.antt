-- ===== src/Timer.antt =====
-- src/starnet_timer.cpp: the four-level timing wheel.
-- A `link_list` is the list of its nodes; the arrays `near` and `t` are functions of the index.
-- The event that follows a node in memory is two fields of the node. The spinlock makes each
-- function below one step; `timer_execute` releases it while it dispatches, and what other
-- threads add in that window is an argument.
pub mod Place
pub mod Carry
pub mod Shift
pub mod Agenda
pub mod Execute
pub mod Update
pub mod CatchUp
pub mod OnTime
mod Tests
use starnet.Common.{
  ℕ, zero, suc, ◌+◌, ◌-◌, ◌*◌, ◌/◌, ◌%◌, ◌^◌, bit_and, bit_or, Bool, Option, none, some, List, [],
  ◌∷◌, ◌++◌, ◌==◌, ltb, leb, if◌then◌else◌,
}
use starnet.Common.Int.{ℤ, pos, negsuc}
use mathlib.Core.List.{foldl}

abbrev pub time_near : ℕ
time_near = 256

abbrev pub time_near_mask : ℕ
time_near_mask = 255

abbrev pub time_level_mask : ℕ
time_level_mask = 63

-- `timer_event`, which is also the RESPONSE message that the event becomes.
pub record Event : Type 0 where
  pub handle : ℕ
  pub session : ℕ

pub record Node : Type 0 where
  pub expire : ℕ
  pub event : Event

pub record Timer : Type 0 where
  pub near : ℕ → List Node
  pub t : ℕ → ℕ → List Node
  pub time : ℕ
  pub current : ℕ
  pub current_point : ℕ

-- Writes to the two arrays.
abbrev pub set_near : Timer → ℕ → List Node → Timer
set_near T k l = record T { near = λ i. if i == k then l else T.near i }

abbrev pub set_level : Timer → ℕ → ℕ → List Node → Timer
set_level T i k l = record T {
  t = λ a b. if a == i then (if b == k then l else T.t a b) else T.t a b;
}

-- The loop of `add_node` over the levels: it stops at the first whose mask agrees.
unfoldable pub find_level : ℕ → ℕ → ℕ → ℕ → ℕ → ℕ
find_level zero i mask time current = i
find_level (suc n) i mask time current =
    let rest = find_level n (i + 1) (mask * 64 % 2 ^ 32) time current in
    if bit_or time (mask - 1) == bit_or current (mask - 1) then i else rest

unfoldable pub add_node : Timer → Node → Timer
unfolding find_level
add_node T n =
    if bit_or n.expire time_near_mask == bit_or T.time time_near_mask
    then set_near T (bit_and n.expire time_near_mask)
        (T.near (bit_and n.expire time_near_mask) ++ (n ∷ []))
    else (let i = find_level 3 0 (time_near * 64) n.expire T.time in
        let k = bit_and (n.expire / 2 ^ (8 + i * 6)) time_level_mask in
        set_level T i k (T.t i k ++ (n ∷ [])))

-- `time` is an `int` that the caller has found positive.
unfoldable pub timer_add : Timer → Event → ℕ → Timer
timer_add T e time = add_node T (record { expire = (time + T.time) % 2 ^ 32; event = e })

unfoldable pub move_list : Timer → ℕ → ℕ → Timer
move_list T level idx = foldl add_node (set_level T level idx []) (T.t level idx)

-- The loop of `timer_shift`. `none` is a mask shifted out of an `int`: the fifth round.
unfoldable pub shift_loop : ℕ → Timer → ℕ → ℕ → ℕ → ℕ → Option Timer
shift_loop zero T ct mask time i = none
shift_loop (suc n) T ct mask time i =
    let idx = bit_and time time_level_mask in
    let moved = move_list T i idx in
    let rest = shift_loop n T ct (mask * 64) (time / 2 ^ 6) (i + 1) in
    if bit_and ct (mask - 1) == 0 then (if idx == 0 then rest else some moved) else some T

unfoldable pub timer_shift : Timer → Option Timer
unfolding shift_loop
timer_shift T =
    let ct = (T.time + 1) % 2 ^ 32 in
    let T' = record T { time = ct } in
    if ct == 0 then some (move_list T' 3 0) else shift_loop 4 T' ct time_near (ct / 2 ^ 8) 0

-- `dispatch_list`: the messages sent, in order.
unfoldable pub dispatch_list : List Node → List Event
dispatch_list [] = []
dispatch_list (n ∷ ns) = n.event ∷ dispatch_list ns

-- What other threads add while the lock is released: each an event and its positive delay.
pub record Add : Type 0 where
  pub event : Event
  pub delay : ℕ

unfoldable pub add_all : Timer → List Add → Timer
add_all T [] = T
add_all T (a ∷ as') = add_all (timer_add T a.event a.delay) as'

abbrev after : List Event → Option (List Event × Timer) → Option (List Event × Timer)
after sent none = none
after sent (some (more, T)) = some (sent ++ more, T)

-- The `while` of `timer_execute`; `none` means that the fuel ran out.
-- The windows are what other threads add in each round; a round past the last window has none.
unfoldable pub timer_execute : ℕ → List (List Add) → Timer → Option (List Event × Timer)
timer_execute zero ws T = none
timer_execute (suc f) ws T = elim (T.near (bit_and T.time time_near_mask)) [
  | [] ↦ some ([], T)
  | n ∷ ns ↦
      let cleared = set_near T (bit_and T.time time_near_mask) [] in
      elim ws [
        | [] ↦ after (dispatch_list (n ∷ ns)) (timer_execute f [] cleared)
        | w ∷ ws' ↦ after (dispatch_list (n ∷ ns)) (timer_execute f ws' (add_all cleared w))
      ]
]

-- The test of the loop and one more: nothing that is added while the lock is released can land
-- in the slot of the current time.
abbrev pub execute_fuel : ℕ
execute_fuel = 2

abbrev pub Windows : Type 0
Windows = List (List Add)

abbrev then_execute : Windows → List Event × Timer → Option (List Event × Timer)
then_execute ws (sent, T) = elim (timer_shift T) [
  | none ↦ none
  | some T' ↦ after sent (timer_execute execute_fuel ws T')
]

unfoldable pub timer_update : Windows → Windows → Timer → Option (List Event × Timer)
timer_update ws vs T = elim (timer_execute execute_fuel ws T) [
  | none ↦ none
  | some r ↦ then_execute vs r
]

unfoldable pub timer_create_timer : Timer
timer_create_timer = record {
  near = λ i. [];
  t = λ i k. [];
  time = 0;
  current = 0;
  current_point = 0;
}

-- `starnet_timer_init`, with the clocks' answers: `cs` hundredths of the current second, and the
-- monotonic time.
unfoldable pub starnet_timer_init : ℕ → ℕ → Timer
unfolding timer_create_timer
starnet_timer_init cs cp = record timer_create_timer { current = cs; current_point = cp }

-- The events sent at once, and the timer after.
unfoldable pub starnet_timeout : Timer → ℕ → ℤ → ℕ → List Event × Timer
starnet_timeout T handle (negsuc n) session =
    (record { handle = handle; session = session } ∷ [], T)
starnet_timeout T handle (pos zero) session =
    (record { handle = handle; session = session } ∷ [], T)
starnet_timeout T handle (pos (suc n)) session =
    ([], timer_add T (record { handle = handle; session = session }) (suc n))

-- What other threads add around one tick: before it takes the lock, and in the windows of the two
-- calls of `timer_execute`.
pub record Others : Type 0 where
  pub before : List Add
  pub first : Windows
  pub second : Windows

-- The `for` of `starnet_updatetime`, which holds no lock between the ticks. (From 2^31 ticks on the
-- counter, an `int`, overflows, and is taken to wrap around.)
unfoldable pub update_ticks : ℕ → ℕ → (ℕ → Others) → Timer → Option (List Event × Timer)
unfolding timer_update add_all
update_ticks zero i ws T = some ([], T)
update_ticks (suc n) i ws T =
    elim (timer_update (ws i).first (ws i).second (add_all T (ws i).before)) [
      | none ↦ none
      | some (sent, T') ↦ after sent (update_ticks n (i + 1) ws T')
    ]

-- `cp` is what the monotonic clock answers, in hundredths of a second.
unfoldable pub starnet_updatetime : ℕ → (ℕ → Others) → Timer → Option (List Event × Timer)
starnet_updatetime cp ws T =
    let diff = (cp - T.current_point) % 2 ^ 32 in
    let T' = record T { current_point = cp; current = (T.current + diff) % 2 ^ 64 } in
    if ltb cp T.current_point
    then some ([], record T { current_point = cp })
    else (if cp == T.current_point then some ([], T) else update_ticks diff 0 ws T')
