-- ===== src/Mq.antt =====
-- src/starnet_mq.cpp: the queue of one service, and the global queue of services.
-- Each function holds its spinlock from end to end, so it is one step. A service is its id.
pub mod Overload
mod Tests
use starnet.Common.{
  ℕ, zero, suc, ◌+◌, ◌-◌, ◌*◌, ◌%◌, ◌^◌, Bool, true, false, Option, none, some, List, [], ◌∷◌, ◌++◌,
  ltb, length, if◌then◌else◌,
}
use starnet.Msg.{Msg}

-- MQ_OVERLOAD
abbrev pub mq_overload : ℕ
mq_overload = 1024

pub record Mq : Type 0 where
  pub msg_queue : List Msg
  pub in_global : Bool
  pub overload : ℕ
  pub overload_threshold : ℕ

abbrev pub new_mq : Mq
new_mq = record {
  msg_queue = [];
  in_global = false;
  overload = 0;
  overload_threshold = mq_overload;
}

unfoldable pub push : Mq → Msg → Mq
push q m = record q { msg_queue = q.msg_queue ++ (m ∷ []) }

-- Whether an int is above another, both as 32 bits.
abbrev pub int_above : ℕ → ℕ → Bool
int_above a b = ltb ((b + 2 ^ 31) % 2 ^ 32) ((a + 2 ^ 31) % 2 ^ 32)

-- The `while` of `Pop` on the overload mark and the threshold, with fuel. The threshold is an int,
-- which wraps around when it is doubled.
unfoldable pub overload_loop : ℕ → ℕ → ℕ → ℕ → ℕ × ℕ
overload_loop zero len over threshold = (over, threshold)
overload_loop (suc f) len over threshold =
    let rest = overload_loop f len len (threshold * 2 % 2 ^ 32) in
    if int_above len threshold then rest else (over, threshold)

-- As many rounds as there are messages are enough for up to 2^30 of them: the threshold is positive
-- and doubles. With more the loop need not end.
abbrev checked : Mq → List Msg → Mq
checked q rest =
    let len = length rest % 2 ^ 32 in
    let marks = overload_loop (length rest) len q.overload q.overload_threshold in
    record q { msg_queue = rest; overload = marks.0; overload_threshold = marks.1 }

pop_list : Mq → List Msg → Option Msg × Mq
pop_list q [] = (none, record q { overload_threshold = mq_overload })
pop_list q (m ∷ rest) = (some m, checked q rest)

unfoldable pub pop : Mq → Option Msg × Mq
unfolding pop_list
pop q = pop_list q q.msg_queue

unfoldable pub empty : Mq → Bool
empty q = elim q.msg_queue [ [] ↦ true | m ∷ rest ↦ false ]

-- `Overload` reads the mark and clears it.
unfoldable pub take_overload : Mq → ℕ × Mq
take_overload q = (q.overload, record q { overload = 0 })

unfoldable pub mq_length : Mq → ℕ
mq_length q = length q.msg_queue

unfoldable pub set_in_global : Mq → Bool → Mq
set_in_global q b = record q { in_global = b }

unfoldable pub is_in_global : Mq → Bool
is_in_global q = q.in_global

-- The global queue, with the count that it keeps beside it.
pub record GlobalQueue : Type 0 where
  pub items : List ℕ
  pub len : ℕ

abbrev pub new_global : GlobalQueue
new_global = record { items = []; len = 0 }

unfoldable pub globalmq_push : GlobalQueue → ℕ → GlobalQueue
globalmq_push g srv = record { items = g.items ++ (srv ∷ []); len = g.len + 1 }

pop_items : GlobalQueue → List ℕ → Option ℕ × GlobalQueue
pop_items g [] = (none, g)
pop_items g (s ∷ rest) = (some s, record { items = rest; len = g.len - 1 })

unfoldable pub globalmq_pop : GlobalQueue → Option ℕ × GlobalQueue
unfolding pop_items
globalmq_pop g = pop_items g g.items

unfoldable pub globalmq_length : GlobalQueue → ℕ
globalmq_length g = g.len

-- `TryEnterGlobal`: true if this call entered it.
unfoldable pub try_enter_global : Mq → GlobalQueue → ℕ → Bool × Mq × GlobalQueue
try_enter_global q g srv =
    if q.in_global
    then (false, q, g)
    else (true, record q { in_global = true }, globalmq_push g srv)

-- `FinishDispatch`: back into the global queue while there are messages.
unfoldable pub finish_dispatch : Mq → GlobalQueue → ℕ → Mq × GlobalQueue
unfolding set_in_global
finish_dispatch q g srv = elim q.msg_queue [
  | [] ↦ (set_in_global q false, g)
  | m ∷ rest ↦ (q, globalmq_push g srv)
]

-- `Clear`: what `drop_func` makes of each message, in order, and the emptied queue.
drop_each {ℓ} : {A : Type ℓ} → (Msg → List A) → List Msg → List A
drop_each drop_func [] = []
drop_each drop_func (m ∷ rest) = drop_func m ++ drop_each drop_func rest

unfoldable pub clear {ℓ} : {A : Type ℓ} → (Msg → List A) → Mq → List A × Mq
unfolding drop_each
clear drop_func q = (drop_each drop_func q.msg_queue, record q { msg_queue = [] })
