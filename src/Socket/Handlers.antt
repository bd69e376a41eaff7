-- ===== src/Socket/Handlers.antt =====
-- The event loop of src/starnet_socket_server.cpp and what it calls, UDP, and CloseAll. The exit
-- eventfd and the logs are left out; what the system answers is an argument.
use starnet.Common.{
  ℕ, Bool, true, false, not, ◌&&◌, Option, none, some, List, [], ◌∷◌, if◌then◌else◌,
}
use starnet.Msg.{SocketMsg, Subtype}
use starnet.Socket.{Wire, ConnType, listen, client, udp, Conn, SocketServer}
use starnet.Socket.Server.{
  get_conn, set_conn, close_fd, add_conn, add_event, remove_conn, remove_event, close_own,
  on_socket_msg, socket_msg_of, on_rw_write,
}
use starnet.Socket.Server.Open.{on_accept}
use starnet.Socket.Read.{Incoming, read_data}

-- The datagrams that there are to read: the bytes, which MAX_UDP never cuts, and the packed address.
abbrev pub Datagram : Type 0
Datagram = List ℕ × List ℕ

-- An empty datagram ends the loop, as an error does; the rest is left.
unfoldable pub read_udp : SocketServer → Conn → List Datagram → SocketServer × List Datagram
unfolding on_socket_msg
read_udp s c [] = (s, [])
read_udp s c (([], addr) ∷ datagrams) = (s, datagrams)
read_udp s c ((b ∷ bs, addr) ∷ datagrams) =
    let msg : SocketMsg = record (socket_msg_of Subtype.udp c.fd) {
      buff = b ∷ bs;
      udp_addr = addr;
    } in
    read_udp (on_socket_msg s msg c.service_id) c datagrams

-- What the system answers: SO_ERROR, the peer, what there is to read, and the fds of `accept`.
pub record Answers : Type 0 where
  pub so_error : Option (List ℕ)
  pub ip : List ℕ
  pub incoming : List Incoming
  pub datagrams : List Datagram
  pub accepted : List (ℕ × Wire)

abbrev pub is_udp : ConnType → Bool
is_udp listen = false
is_udp client = false
is_udp udp = true

-- ReadUdp or ReadData, unless the connection is not finished or paused.
unfoldable pub on_rw_read : SocketServer → ℕ → Answers → SocketServer
unfolding get_conn read_udp read_data
on_rw_read s fd answers = elim (get_conn s fd) [
  | none ↦ s
  | some c ↦
      if not c.connecting && not c.paused
      then if is_udp c.type
        then (read_udp s c answers.datagrams).0
        else (read_data s c answers.incoming).0
      else s
]

-- The object of a connection that `OnConnectFinish` removes is not finished, so it is not read.
unfoldable pub on_rw : SocketServer → ℕ → Bool → Bool → Answers → SocketServer
unfolding on_rw_write on_rw_read
on_rw s fd is_read is_write answers =
    let s' = if is_write then on_rw_write s fd answers.so_error answers.ip else s in
    if is_read then on_rw_read s' fd answers else s'

-- An epoll_event: its fd, EPOLLIN and EPOLLOUT. EPOLLERR is only logged.
pub record EpollEvent : Type 0 where
  pub fd : ℕ
  pub is_read : Bool
  pub is_write : Bool

unfoldable pub on_event : SocketServer → EpollEvent → Answers → SocketServer
unfolding get_conn on_accept on_rw
on_event s ev answers = elim (get_conn s ev.fd) [
  | none ↦ s
  | some c ↦ elim c.type [
    | listen ↦ if ev.is_read then on_accept s c answers.accepted else s
    | client ↦ on_rw s ev.fd ev.is_read ev.is_write answers
    | udp ↦ on_rw s ev.fd ev.is_read ev.is_write answers
  ]
]

-- The round of `operator()` over the events that epoll_wait gives.
unfoldable pub on_events : SocketServer → List (EpollEvent × Answers) → SocketServer
unfolding on_event
on_events s [] = s
on_events s ((ev, answers) ∷ events) = on_events (on_event s ev answers) events

-- What `AddUdp` and `Starnet::Listen` do with the fd of a socket that they have made and bound; the
-- errors before that leave nothing.
unfoldable pub add_watched : SocketServer → ℕ → ℕ → ConnType → SocketServer
unfolding add_conn add_event
add_watched s id fd type = add_event (add_conn s fd id type) fd

-- `Starnet::CloseConn`, which closes an fd without a connection too.
unfoldable pub close_conn : SocketServer → ℕ → SocketServer
unfolding get_conn remove_conn remove_event close_fd
close_conn s fd = elim (get_conn s fd) [
  | none ↦ close_fd (remove_conn s fd) fd
  | some c ↦ remove_event (close_own (remove_conn s fd) fd c.is_bind) fd
]

-- `SetUdpAddress`, with the address that getaddrinfo gives, packed.
unfoldable pub set_udp_address : SocketServer → ℕ → Option (List ℕ) → Bool × SocketServer
unfolding get_conn set_conn
set_udp_address s fd addr = elim (get_conn s fd) [
  | none ↦ (false, s)
  | some c ↦ elim addr [
    | none ↦ (false, s)
    | some udp_addr ↦ (true, set_conn s fd (record c { udp_addr = udp_addr }))
  ]
]

-- The fds are the keys of `conns`.
unfoldable pub close_all : SocketServer → List ℕ → SocketServer
unfolding get_conn remove_conn remove_event close_fd
close_all s [] = s
close_all s (fd ∷ fds) =
    let unwatched = remove_event s fd in
    let is_bind : Bool = elim (get_conn unwatched fd) [ none ↦ false | some c ↦ c.is_bind ] in
    close_all (close_own (remove_conn unwatched fd) fd is_bind) fds

-- A round of `operator()`; the fds are those that CloseAll finds when the exit flag is set.
unfoldable pub run_round : SocketServer → List (EpollEvent × Answers) → Bool → List ℕ → SocketServer
unfolding on_events close_all
run_round s events exiting fds =
    let s' = on_events s events in if exiting then close_all s' fds else s'

-- SocketInfo: the connection, without what it does not show, and wbuffer.
unfoldable pub get_socket_info : SocketServer → ℕ → Option (Conn × ℕ)
get_socket_info s fd = elim (s.conns fd) [
  | none ↦ none
  | some c ↦
      let wbuffer : ℕ = elim (s.write_buffers fd) [ none ↦ 0 | some wb ↦ wb.wb_size ] in
      some (c, wbuffer)
]
