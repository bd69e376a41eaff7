-- ===== src/Service.antt =====
-- src/starnet_service.cpp: how a service hands a message to its Lua host library.
-- A call of a function of the Lua table `starnet` is a value; the Lua machine is not modelled.
-- `inet_ntop` is a parameter: from an address family and the address bytes to the text.
pub mod Dispatch
mod Tests
use starnet.Common.{
  ℕ, ◌+◌, ◌*◌, Bool, true, false, ◌&&◌, Option, none, some, List, [], ◌∷◌, ◌==◌, leb, if◌then◌else◌,
  length, take, drop,
}
use starnet.Common.Int.{ℤ, pos, negsuc}
use starnet.Msg.{Msg, ServiceMsg, service_msg, SocketMsg, socket_msg, MsgType, Subtype}

pub data LuaArg : Type 0 where
  nil_arg : LuaArg
  int_arg : ℤ → LuaArg
  string_arg : List ℕ → LuaArg

-- The calls of `CallStarnetLua`, with their arguments in order.
pub data LuaCall : Type 0 where
  dispatch_message dispatch_socket : List LuaArg → LuaCall

abbrev pub af_inet : ℕ
af_inet = 2

abbrev pub af_inet6 : ℕ
af_inet6 = 10

-- The numbers of `BaseMsg::TYPE` and `SocketMsg::SUBTYPE`.
unfoldable pub type_code : MsgType → ℕ
type_code MsgType.text = 0
type_code MsgType.response = 1
type_code MsgType.multicast = 2
type_code MsgType.client = 3
type_code MsgType.system = 4
type_code MsgType.harbor = 5
type_code MsgType.socket = 6
type_code MsgType.error = 7
type_code MsgType.reserved_queue = 8
type_code MsgType.reserved_debug = 9
type_code MsgType.lua = 10
type_code MsgType.reserved_snax = 11

unfoldable pub subtype_code : Subtype → ℕ
subtype_code Subtype.data_in = 1
subtype_code Subtype.connect = 2
subtype_code Subtype.close = 3
subtype_code Subtype.accept = 4
subtype_code Subtype.socket_error = 5
subtype_code Subtype.udp = 6
subtype_code Subtype.warning = 7

abbrev num : ℕ → LuaArg
num n = int_arg (pos n)

abbrev byte_at : List ℕ → ℕ
byte_at [] = 0
byte_at (b ∷ bs) = b

-- `memcpy(&p, addr + 1, 2)` and `ntohs`: the two bytes, the higher first.
abbrev port_of : List ℕ → ℕ
port_of addr = byte_at (drop 1 addr) * 256 + byte_at (drop 2 addr)

module _ (inet_ntop : ℕ → List ℕ → List ℕ) where
  -- The text of the address, and the port.
  unfoldable pub parse_udp_addr : List ℕ → List ℕ × ℕ
  parse_udp_addr addr =
      if leb 3 (length addr)
      then (if (byte_at addr == af_inet) && leb 7 (length addr)
          then (inet_ntop af_inet (take 4 (drop 3 addr)), port_of addr)
          else (if (byte_at addr == af_inet6) && leb 19 (length addr)
              then (inet_ntop af_inet6 (take 16 (drop 3 addr)), port_of addr)
              else ([], 0)))
      else ([], 0)

  unfoldable pub on_service_msg : ServiceMsg → LuaCall
  unfolding type_code
  on_service_msg m = dispatch_message (
      num (type_code m.type)
      ∷ num m.session
      ∷ num m.source
      ∷ string_arg m.buff
      ∷ num (length m.buff)
      ∷ [])

  socket_args : SocketMsg → Subtype → List LuaArg
  unfolding parse_udp_addr
  socket_args m Subtype.accept = num m.fd ∷ num m.listen_fd ∷ num 0 ∷ []
  socket_args m Subtype.close = num m.fd ∷ nil_arg ∷ int_arg (negsuc 0) ∷ []
  socket_args m Subtype.connect = num m.fd ∷ string_arg m.buff ∷ num 0 ∷ []
  socket_args m Subtype.socket_error = num m.fd ∷ string_arg m.buff ∷ nil_arg ∷ []
  socket_args m Subtype.data_in = num m.fd ∷ string_arg m.buff ∷ num (length m.buff) ∷ []
  socket_args m Subtype.warning = num m.fd ∷ num m.size ∷ nil_arg ∷ []
  socket_args m Subtype.udp =
      let (ip, port) = parse_udp_addr m.udp_addr in
      num m.fd ∷ string_arg m.buff ∷ string_arg ip ∷ num port ∷ []

  unfoldable pub on_socket_msg : SocketMsg → LuaCall
  unfolding socket_args subtype_code
  on_socket_msg m = dispatch_socket (num (subtype_code m.subtype) ∷ socket_args m m.subtype)

  by_type : ServiceMsg → MsgType → Option LuaCall
  unfolding on_service_msg
  by_type m MsgType.lua = some (on_service_msg m)
  by_type m MsgType.response = some (on_service_msg m)
  by_type m _ = none

  -- `none` is a message that `OnMsg` passes over.
  unfoldable pub on_msg : Msg → Option LuaCall
  unfolding by_type on_socket_msg
  on_msg (service_msg m) = by_type m m.type
  on_msg (socket_msg m) = some (on_socket_msg m)
