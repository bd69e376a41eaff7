-- ===== src/Socket/Server.antt =====
-- The operations of src/starnet_socket_server.cpp on connections. A call of it is one step here;
-- SendBuffer, NotifyClose and OnAccept are made of the parts between which other threads may run.
-- The listener is set, as it is by src/starnet_start.cpp; epoll_ctl fails only for an fd that is there
-- already, or is not there. What a system call gives is an argument.
pub mod Open
pub mod Events
pub mod Keeps
pub mod Fresh
pub mod Ops
pub mod Asked
pub mod Handled
pub mod Looped
mod Armed
pub mod Stuck
pub mod Connecting
mod Reuse
mod Tests
use starnet.Common.{
  ℕ, ◌+◌, Bool, true, false, not, ◌&&◌, ◌||◌, Option, none, some, List, [], ◌∷◌, ◌++◌,
  if◌then◌else◌,
}
use starnet.Msg.{SocketMsg, Subtype, connect, close, accept, socket_error, warning}
use starnet.Socket.{
  Wire, ConnWriteBuffer, ConnType, listen, client, udp, Conn, Interest, SocketServer, set_at,
}
use starnet.Socket.Buffer.{new_buffer, is_empty, send_locked, writeable_locked}

abbrev pub new_conn : ℕ → ℕ → ConnType → Conn
new_conn fd id type = record {
  type = type;
  fd = fd;
  service_id = id;
  udp_addr = [];
  connecting = false;
  is_bind = false;
  paused = false;
  read_size = 8192;
}

-- `conns.emplace`: a connection that is there stays.
unfoldable pub add_conn : SocketServer → ℕ → ℕ → ConnType → SocketServer
unfolding set_at
add_conn s fd id type = elim (s.conns fd) [
  | none ↦ record s { conns = set_at s.conns fd (some (new_conn fd id type)) }
  | some c ↦ s
]

unfoldable pub get_conn : SocketServer → ℕ → Option Conn
get_conn s fd = s.conns fd

-- A change of the object that the map holds.
unfoldable pub set_conn : SocketServer → ℕ → Conn → SocketServer
unfolding set_at
set_conn s fd c = record s { conns = set_at s.conns fd (some c) }

-- The two locked parts of `RemoveConn`.
unfoldable pub remove_conn : SocketServer → ℕ → SocketServer
unfolding set_at
remove_conn s fd = record s {
  conns = set_at s.conns fd none;
  write_buffers = set_at s.write_buffers fd none;
}

abbrev is_paused : Option Conn → Bool
is_paused none = false
is_paused (some c) = c.paused

unfoldable pub add_event : SocketServer → ℕ → SocketServer
unfolding set_at
add_event s fd = elim (s.epoll fd) [
  | none ↦ record s {
    epoll =
        set_at s.epoll fd
          (some (record { epoll_in = not (is_paused (s.conns fd)); epoll_out = false }));
  }
  | some ev ↦ s
]

unfoldable pub remove_event : SocketServer → ℕ → SocketServer
unfolding set_at
remove_event s fd = record s { epoll = set_at s.epoll fd none }

unfoldable pub modify_event : SocketServer → ℕ → Bool → SocketServer
unfolding set_at
modify_event s fd epoll_out = elim (s.epoll fd) [
  | none ↦ s
  | some ev ↦ record s {
    epoll =
        set_at s.epoll fd
          (some (record { epoll_in = not (is_paused (s.conns fd)); epoll_out = epoll_out }));
  }
]

abbrev pub socket_msg_of : Subtype → ℕ → SocketMsg
socket_msg_of subtype fd = record {
  subtype = subtype;
  fd = fd;
  listen_fd = 0;
  size = 0;
  buff = [];
  udp_addr = [];
}

unfoldable pub on_socket_msg : SocketServer → SocketMsg → ℕ → SocketServer
on_socket_msg s msg id = record s { outbox = s.outbox ++ ((msg, id) ∷ []) }

-- `close`: the system takes the fd out of the epoll set.
unfoldable pub close_fd : SocketServer → ℕ → SocketServer
unfolding set_at
close_fd s fd = record s { epoll = set_at s.epoll fd none; closed = s.closed ++ (fd ∷ []) }

-- `close` of an fd that is not bound from outside.
abbrev pub close_own : SocketServer → ℕ → Bool → SocketServer
close_own s fd is_bind = if is_bind then s else close_fd s fd

abbrev pub buffer_of : Option ConnWriteBuffer → ConnWriteBuffer
buffer_of none = new_buffer
buffer_of (some wb) = wb

abbrev send_result :
    SocketServer → ℕ → Conn → ConnWriteBuffer × Option ℕ × Bool × Wire → SocketServer
send_result s fd c (wb, warn, arm, w) =
    let stored = record s {
      write_buffers = set_at s.write_buffers fd (some wb);
      wires = set_at s.wires fd w;
    } in
    let armed = if arm then modify_event stored fd true else stored in
    elim warn [
      | none ↦ armed
      | some kb ↦ on_socket_msg armed (record (socket_msg_of warning fd) { size = kb }) c.service_id
    ]

-- `SendBuffer` after `GetConn`: the part under the locks, and the warning. `writeBuffers[fd]` makes
-- a buffer where there is none. The Boolean says that 0 is returned.
unfoldable pub send_to : SocketServer → ℕ → Conn → List ℕ → Bool → Bool × SocketServer
unfolding set_at modify_event on_socket_msg
send_to s fd c buff low =
    let wb = buffer_of (s.write_buffers fd) in
    if wb.is_closing
    then (false, record s { write_buffers = set_at s.write_buffers fd (some wb) })
    else (true, send_result s fd c (send_locked wb buff low (s.wires fd)))

unfoldable pub send_buffer : SocketServer → ℕ → List ℕ → Bool → Bool × SocketServer
unfolding send_to get_conn
send_buffer s fd buff low = elim (get_conn s fd) [
  | none ↦ (false, s)
  | some c ↦ send_to s fd c buff low
]

abbrev after_flush : SocketServer → ℕ → Conn → ConnWriteBuffer × Wire → SocketServer
after_flush s fd c (wb, w) =
    let stored = record s {
      write_buffers = set_at s.write_buffers fd (some wb);
      wires = set_at s.wires fd w;
    } in
    if is_empty wb && wb.is_closing
    then on_socket_msg stored (socket_msg_of close c.fd) c.service_id
    else if is_empty wb
    then modify_event stored fd false
    else stored

-- A connection without a write buffer is left as it is. The `shutdown` before the message is left out.
unfoldable pub on_writeable : SocketServer → ℕ → SocketServer
unfolding set_at get_conn modify_event on_socket_msg
on_writeable s fd = elim (get_conn s fd) [
  | none ↦ s
  | some c ↦ elim (s.write_buffers fd) [
    | none ↦ s
    | some wb ↦ after_flush s fd c (writeable_locked wb (s.wires fd))
  ]
]

-- What `LingerClose` does where nothing waits.
abbrev drop_conn : SocketServer → ℕ → SocketServer
drop_conn s fd =
    let is_bind : Bool = elim (get_conn s fd) [ none ↦ false | some c ↦ c.is_bind ] in
    remove_event (close_own (remove_conn s fd) fd is_bind) fd

unfoldable pub linger_close : SocketServer → ℕ → SocketServer
unfolding get_conn remove_conn remove_event close_fd set_at
linger_close s fd = elim (s.write_buffers fd) [
  | none ↦ drop_conn s fd
  | some wb ↦
      if wb.is_closing
      then s
      else (let s' = record s {
        write_buffers = set_at s.write_buffers fd (some (record wb { is_closing = true }));
      } in
          if is_empty wb then drop_conn s' fd else s')
]

-- The message of a connection that is closed, and what follows it.
unfoldable pub notify_close : SocketServer → Conn → SocketServer
unfolding on_socket_msg remove_conn close_fd remove_event
notify_close s c =
    let told = on_socket_msg s (socket_msg_of close c.fd) c.service_id in
    remove_event (close_own (remove_conn told c.fd) c.fd c.is_bind) c.fd

-- SO_ERROR is the text of an error, or none; `ip` is the text of the peer's address.
unfoldable pub on_connect_finish : SocketServer → Conn → Option (List ℕ) → List ℕ → SocketServer
unfolding on_socket_msg remove_conn close_fd remove_event set_conn modify_event
on_connect_finish s c so_error ip = elim so_error [
  | some err ↦
      let told =
        on_socket_msg s (record (socket_msg_of socket_error c.fd) { buff = err }) c.service_id in
      remove_event (close_fd (remove_conn told c.fd) c.fd) c.fd
  | none ↦
      let s' = modify_event (set_conn s c.fd (record c { connecting = false })) c.fd false in
      on_socket_msg s' (record (socket_msg_of connect c.fd) { buff = ip }) c.service_id
]

abbrev has_data : Option ConnWriteBuffer → Bool
has_data none = false
has_data (some wb) = not (is_empty wb)

-- `PauseRead` for true and `ResumeRead` for false, which differ in nothing else.
unfoldable pub set_paused : Bool → SocketServer → ℕ → Bool × SocketServer
unfolding get_conn set_conn modify_event
set_paused paused s fd = elim (get_conn s fd) [
  | none ↦ (false, s)
  | some c ↦ (
    true,
    modify_event (set_conn s fd (record c { paused = paused })) fd (has_data (s.write_buffers fd)),
  )
]

abbrev pub update_conn : SocketServer → ℕ → (Conn → Conn) → SocketServer
update_conn s fd f = elim (get_conn s fd) [ none ↦ s | some c ↦ set_conn s fd (f c) ]

-- What `OnRW` does for EPOLLOUT on a connection that is in the map.
unfoldable pub on_rw_write : SocketServer → ℕ → Option (List ℕ) → List ℕ → SocketServer
unfolding get_conn on_connect_finish on_writeable
on_rw_write s fd so_error ip = elim (get_conn s fd) [
  | none ↦ s
  | some c ↦ if c.connecting then on_connect_finish s c so_error ip else on_writeable s fd
]
