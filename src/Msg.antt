-- ===== src/Msg.antt =====
-- include/starnet_msg.h: the messages between services and from the sockets.
-- A byte string is the list of its bytes.
use starnet.Common.{ℕ, List}

-- `BaseMsg::TYPE`
pub data MsgType : Type 0 where
  text response multicast client system harbor socket error : MsgType
  reserved_queue reserved_debug lua reserved_snax : MsgType

-- `SocketMsg::SUBTYPE`
pub data Subtype : Type 0 where
  data_in connect close accept socket_error udp warning : Subtype

pub record ServiceMsg : Type 0 where
  pub type : MsgType
  pub source : ℕ
  pub session : ℕ
  pub buff : List ℕ

pub record SocketMsg : Type 0 where
  pub subtype : Subtype
  pub fd : ℕ
  pub listen_fd : ℕ
  pub size : ℕ
  pub buff : List ℕ
  pub udp_addr : List ℕ

-- `BaseMsg` by its two derived classes; a `SocketMsg` has the type SOCKET.
pub data Msg : Type 0 where
  service_msg : ServiceMsg → Msg
  socket_msg : SocketMsg → Msg

abbrev pub type_of : Msg → MsgType
type_of (service_msg m) = m.type
type_of (socket_msg m) = socket
