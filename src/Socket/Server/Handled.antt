-- ===== src/Socket/Server/Handled.antt =====
-- Reading in src/starnet_socket_server.cpp keeps the events watched.
use starnet.Common.{
  ℕ, suc, ◌≡◌, refl, sym, ap, ◌∙◌, not, ◌&&◌, Bool-cases, some, Option-cases, inl, inr, List, [],
  ◌∷◌,
}
use starnet.Msg.{close, data_in}
use starnet.Socket.{Conn, SocketServer}
use starnet.Socket.Read.{
  Incoming, Reading, drained, waiting, closed, read_loop, to_read, tell_data, after_read, read_data,
}
use starnet.Socket.Handlers.{Datagram, read_udp, Answers, is_udp, on_rw_read}
use starnet.Socket.Server.{
  get_conn, set_conn, update_conn, on_socket_msg, socket_msg_of, notify_close,
}
use starnet.Socket.Server.Events.{set_at_self, IsArmed, set_conn-Elsewhere}
use starnet.Socket.Server.Keeps.{removed-IsArmed, IsArmed-at, kept-IsArmed}

-- A change of the object of a connection that what is watched does not stand on.
pub changed_conn-IsArmed :
    (s : SocketServer) (fd : ℕ) (c c' : Conn)
    → IsArmed s
    → s.conns fd ≡ some c
    → c'.fd ≡ c.fd
    → c'.connecting ≡ c.connecting
    → c'.paused ≡ c.paused
    → IsArmed (set_conn s fd c')
unfolding set_conn
changed_conn-IsArmed s fd c c' armed e same_fd same_connecting same_paused =
    let (ev, f, same, watch) = IsArmed-at s fd c armed e in
    kept-IsArmed fd s (set_conn s fd c') c' (s.write_buffers fd) ev (set_conn-Elsewhere s fd c')
      armed (set_at_self s.conns fd (some c')) refl f (same_fd ∙ same)
      (record {
        reads = watch.reads ∙ ap not (sym same_paused);
        finishes = λ h. watch.finishes (sym same_connecting ∙ h);
        waits = λ h. watch.waits (sym same_connecting ∙ h);
        writes = watch.writes;
      })

hang_up-IsArmed : (s : SocketServer) (c : Conn) → IsArmed s → IsArmed (notify_close s c)
unfolding notify_close on_socket_msg
hang_up-IsArmed s c armed =
    removed-IsArmed (on_socket_msg s (socket_msg_of close c.fd) c.service_id) c.fd c.is_bind armed

tell_data-IsArmed :
    (s : SocketServer) (c : Conn) (buffs : List (List ℕ))
    → IsArmed s
    → IsArmed (tell_data s c buffs)
unfolding tell_data on_socket_msg
tell_data-IsArmed s c [] armed = armed
tell_data-IsArmed s c (buff ∷ buffs) armed =
    tell_data-IsArmed
      (on_socket_msg s (record (socket_msg_of data_in c.fd) { buff = buff }) c.service_id) c buffs
      armed

sized-IsArmed :
    (s : SocketServer) (fd size : ℕ)
    → IsArmed s
    → IsArmed (update_conn s fd (λ c. record c { read_size = size }))
unfolding get_conn
sized-IsArmed s fd size armed = elim (Option-cases (s.conns fd)) [
  | inl e ↦ rw (update_conn, e) armed
  | inr (c, e) ↦
      rw (update_conn, e)
        (changed_conn-IsArmed s fd c (record c { read_size = size }) armed e refl refl refl)
]

after_read-IsArmed :
    (s : SocketServer) (c : Conn) (reading : Reading)
    → IsArmed s
    → IsArmed (after_read s c reading).0
after_read-IsArmed s c (buffs, size, drained, rest) armed =
    sized-IsArmed (tell_data s c buffs) c.fd size (tell_data-IsArmed s c buffs armed)
after_read-IsArmed s c (buffs, size, waiting, rest) armed =
    sized-IsArmed (tell_data s c buffs) c.fd size (tell_data-IsArmed s c buffs armed)
after_read-IsArmed s c (buffs, size, closed, rest) armed =
    hang_up-IsArmed (update_conn (tell_data s c buffs) c.fd (λ c'. record c' { read_size = size }))
      c (sized-IsArmed (tell_data s c buffs) c.fd size (tell_data-IsArmed s c buffs armed))

read_data-IsArmed :
    (s : SocketServer) (c : Conn) (incoming : List Incoming)
    → IsArmed s
    → IsArmed (read_data s c incoming).0
unfolding read_data
read_data-IsArmed s c incoming armed =
    elim (Option-cases (read_loop (suc (to_read incoming)) c.read_size incoming)) [
      | inl e ↦ rw (read_data, e) armed
      | inr (reading, e) ↦ rw (read_data, e) (after_read-IsArmed s c reading armed)
    ]

read_udp-IsArmed :
    (s : SocketServer) (c : Conn) (datagrams : List Datagram)
    → IsArmed s
    → IsArmed (read_udp s c datagrams).0
unfolding read_udp on_socket_msg
read_udp-IsArmed s c [] armed = armed
read_udp-IsArmed s c (([], addr) ∷ datagrams) armed = armed
read_udp-IsArmed s c ((b ∷ bs, addr) ∷ datagrams) armed = read_udp-IsArmed _ c datagrams armed

module _ (s : SocketServer) (fd : ℕ) (answers : Answers) (armed : IsArmed s) where
  pub on_rw_read-IsArmed : IsArmed (on_rw_read s fd answers)
  unfolding on_rw_read
  on_rw_read-IsArmed = elim (Option-cases (s.conns fd)) [
    | inl e ↦ rw (on_rw_read, e) armed
    | inr (c, e) ↦ elim (Bool-cases (not c.connecting && not c.paused)) [
      | inr f ↦ rw (on_rw_read, e, f) armed
      | inl f ↦ elim (Bool-cases (is_udp c.type)) [
        | inl g ↦ rw (on_rw_read, e, f, g) (read_udp-IsArmed s c answers.datagrams armed)
        | inr g ↦ rw (on_rw_read, e, f, g) (read_data-IsArmed s c answers.incoming armed)
      ]
    ]
  ]
