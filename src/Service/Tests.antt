-- ===== src/Service/Tests.antt =====
-- Runs of the dispatch of src/starnet_service.cpp, and its theorem at a concrete message.
use starnet.Common.{ℕ, ◌≡◌, refl, some, List, [], ◌∷◌}
use starnet.Common.Int.{pos}
use starnet.Msg.{ServiceMsg, socket_msg, MsgType, Subtype}
use starnet.Service.{on_msg, dispatch_socket, int_arg, string_arg}

abbrev raw_ntop : ℕ → List ℕ → List ℕ
raw_ntop family bytes = bytes

abbrev request : ServiceMsg
request = record { type = MsgType.lua; source = 3; session = 9; buff = b'h' ∷ [] }

-- A datagram from port 0x1f90 = 8080 over IPv4.
udp_call :
    on_msg raw_ntop (
      socket_msg (record {
        subtype = Subtype.udp;
        fd = 7;
        listen_fd = 0;
        size = 0;
        buff = 5 ∷ [];
        udp_addr = 2 ∷ 0x1f ∷ 0x90 ∷ 127 ∷ 0 ∷ 0 ∷ 1 ∷ [];
      }))
    ≡ some (
        dispatch_socket (
          int_arg (pos 6)
          ∷ int_arg (pos 7)
          ∷ string_arg (5 ∷ [])
          ∷ string_arg (127 ∷ 0 ∷ 0 ∷ 1 ∷ [])
          ∷ int_arg (pos 8080)
          ∷ []))
unfolding on_msg
udp_call = refl
