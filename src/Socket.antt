-- ===== src/Socket.antt =====
-- src/starnet_socket_server.cpp with include/starnet_socket_server.h and include/starnet_conn.h:
-- the state of the engine, and what the system keeps for it. Buffer has the write buffer of one
-- connection, Server the operations on connections, Read the reading of bytes, Handlers the event loop,
-- Address the addresses of UDP.
pub mod Buffer
pub mod Server
pub mod Read
pub mod Handlers
pub mod Address
use starnet.Common.{ℕ, Bool, Option, none, List, [], ◌==◌, if◌then◌else◌}
use starnet.Msg.{SocketMsg, Subtype}

-- What `write` does: it takes so many bytes and one more, or all if there are less; or it would
-- block (EAGAIN); or it fails otherwise (EINTR too, which the code does not tell apart).
pub data WriteResult : Type 0 where
  takes : ℕ → WriteResult
  again : WriteResult
  fails : WriteResult

-- The system's side of an fd: the bytes it has taken so far, and what `write` will do.
pub record Wire : Type 0 where
  pub bytes : List ℕ
  pub results : List WriteResult

pub record WriteObject : Type 0 where
  pub start : ℕ
  pub buff : List ℕ

pub record ConnWriteBuffer : Type 0 where
  pub objs : List WriteObject
  pub low : List WriteObject
  pub is_closing : Bool
  pub wb_size : ℕ
  pub warn_size : ℕ

pub data ConnType : Type 0 where
  listen client udp : ConnType

pub record Conn : Type 0 where
  pub type : ConnType
  pub fd : ℕ
  pub service_id : ℕ
  pub udp_addr : List ℕ
  pub connecting : Bool
  pub is_bind : Bool
  pub paused : Bool
  pub read_size : ℕ

-- The events that epoll watches: EPOLLIN and EPOLLOUT.
pub record Interest : Type 0 where
  pub epoll_in : Bool
  pub epoll_out : Bool

-- The maps of the engine, the epoll set, the wires, the fds that were closed, and what the
-- listener was given with the service it is for.
pub record SocketServer : Type 0 where
  pub conns : ℕ → Option Conn
  pub write_buffers : ℕ → Option ConnWriteBuffer
  pub epoll : ℕ → Option Interest
  pub wires : ℕ → Wire
  pub closed : List ℕ
  pub outbox : List (SocketMsg × ℕ)

unfoldable pub set_at : {A : Type 0} → (ℕ → A) → ℕ → A → ℕ → A
set_at f i a j = if j == i then a else f j
