-- ===== src/Socket/Server/Open.antt =====
-- New connections in src/starnet_socket_server.cpp: OnAccept, Bind and Connect.
use starnet.Common.{ℕ, Bool, true, false, not, none, some, List, [], ◌∷◌, if◌then◌else◌}
use starnet.Msg.{connect, accept}
use starnet.Socket.{Wire, client, udp, Conn, SocketServer, set_at}
use starnet.Socket.Server.{
  add_conn, get_conn, set_conn, update_conn, add_event, modify_event, socket_msg_of, on_socket_msg,
}

-- `OnAccept` calls epoll_ctl itself.
unfoldable pub watch_accepted : SocketServer → ℕ → SocketServer
unfolding set_at
watch_accepted s fd = elim (s.epoll fd) [
  | none ↦ record s {
    epoll = set_at s.epoll fd (some (record { epoll_in = true; epoll_out = false }));
  }
  | some ev ↦ s
]

-- A round of `OnAccept` for an fd that `accept` gives; the system starts its wire afresh.
unfoldable pub accept_one : SocketServer → Conn → ℕ → Wire → SocketServer
unfolding add_conn set_at on_socket_msg watch_accepted
accept_one s listener fd w =
    let opened = record s { wires = set_at s.wires fd w } in
    let watched = watch_accepted (add_conn opened fd listener.service_id client) fd in
    on_socket_msg watched (record (socket_msg_of accept fd) { listen_fd = listener.fd })
      listener.service_id

-- `accept` gives fds until it gives none.
unfoldable pub on_accept : SocketServer → Conn → List (ℕ × Wire) → SocketServer
unfolding accept_one
on_accept s listener [] = s
on_accept s listener ((fd, w) ∷ fds) = on_accept (accept_one s listener fd w) listener fds

-- `Bind` of an fd that is valid, with what SO_TYPE says of it.
unfoldable pub bind : SocketServer → ℕ → ℕ → Bool → Bool × SocketServer
unfolding get_conn add_conn set_conn add_event
bind s id fd is_dgram = elim (get_conn s fd) [
  | some c ↦ (false, s)
  | none ↦
      let type = if is_dgram then udp else client in
      let added = add_conn s fd id type in
      (true, add_event (update_conn added fd (λ c. record c { is_bind = true })) fd)
]

-- `Connect` with the fd of a socket for which `connect` succeeded at once or is in progress.
unfoldable pub connect_fd : SocketServer → ℕ → ℕ → Wire → Bool → List ℕ → SocketServer
unfolding get_conn add_conn set_conn add_event modify_event on_socket_msg set_at
connect_fd s id fd w at_once ip =
    let opened = record s { wires = set_at s.wires fd w } in
    let added = add_conn opened fd id client in
    let marked = update_conn added fd (λ c. record c { connecting = not at_once }) in
    let watched = add_event marked fd in
    if at_once
    then on_socket_msg watched (record (socket_msg_of connect fd) { buff = ip }) id
    else modify_event watched fd true
