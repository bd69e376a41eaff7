-- ===== src/Mq/Tests.antt =====
-- The overload mark of src/starnet_mq.cpp at a concrete queue.
use starnet.Common.{refl, ◌≡◌, true, [], ◌∷◌, arith}
use starnet.Msg.{Msg, service_msg, MsgType}
use starnet.Mq.{Mq, pop, overload_loop}
use starnet.Mq.Overload.{Pops, pop-Pops}

abbrev hello : Msg
hello = service_msg (record { type = MsgType.lua; source = 2; session = 1; buff = [] })

-- Three messages over a threshold of 1.
abbrev loaded : Mq
loaded = record {
  msg_queue = hello ∷ hello ∷ hello ∷ [];
  in_global = true;
  overload = 0;
  overload_threshold = 1;
}

pop-Pops_example : Pops loaded (hello ∷ hello ∷ hello ∷ []) (pop loaded)
pop-Pops_example = pop-Pops loaded (omega arith) (omega arith) (omega arith)

marks : ((pop loaded).1.overload ≡ 2) × ((pop loaded).1.overload_threshold ≡ 2)
unfolding pop overload_loop
marks = (refl, refl)
