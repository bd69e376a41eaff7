-- ===== src/Socket/Server/Looped.antt =====
-- The event loop of src/starnet_socket_server.cpp and its closing of connections keep the events watched.
use starnet.Common.{
  ℕ, ◌≡◌, refl, subst, Bool, true, false, Bool-cases, Option, none, some, Option-cases, inl, inr,
  List, [], ◌∷◌,
}
use starnet.Socket.{Wire, Conn, ConnType, listen, client, udp, SocketServer}
use starnet.Socket.Handlers.{
  Answers, on_rw, EpollEvent, on_event, close_conn, set_udp_address, close_all,
}
use starnet.Socket.Server.{remove_conn, remove_event, close_fd, close_own}
use starnet.Socket.Server.Open.{on_accept}
use starnet.Socket.Server.Events.{
  set_at_self, IsArmed, Elsewhere-trans, Elsewhere-IsArmed, remove_conn-Elsewhere,
  remove_event-Elsewhere, close_fd-Elsewhere,
}
use starnet.Socket.Server.Keeps.{removed-IsArmed}
use starnet.Socket.Server.Fresh.{accept_one-IsArmed}
use starnet.Socket.Server.Asked.{on_rw_write-IsArmed}
use starnet.Socket.Server.Handled.{changed_conn-IsArmed, on_rw_read-IsArmed}
use starnet.Socket.Server.Ops.{AreFree, AreFreeAs, AreFreeFor}

on_rw-IsArmed :
    (s : SocketServer) (fd : ℕ) (is_read is_write : Bool) (answers : Answers)
    → IsArmed s
    → IsArmed (on_rw s fd is_read is_write answers)
unfolding on_rw
on_rw-IsArmed s fd true true answers armed =
    on_rw_read-IsArmed _ fd answers (on_rw_write-IsArmed s fd armed answers.so_error answers.ip)
on_rw-IsArmed s fd true false answers armed = on_rw_read-IsArmed s fd answers armed
on_rw-IsArmed s fd false true answers armed =
    on_rw_write-IsArmed s fd armed answers.so_error answers.ip
on_rw-IsArmed s fd false false answers armed = armed

on_accept-IsArmed :
    (listener : Conn) (fds : List (ℕ × Wire)) (s : SocketServer)
    → IsArmed s
    → AreFree s listener fds
    → IsArmed (on_accept s listener fds)
unfolding on_accept
on_accept-IsArmed listener [] s armed ok = armed
on_accept-IsArmed listener ((fd, w) ∷ fds) s armed (free, ok) =
    on_accept-IsArmed listener fds _ (accept_one-IsArmed s fd armed free listener w) ok

pub on_event-IsArmed :
    (s : SocketServer) (ev : EpollEvent) (answers : Answers)
    → IsArmed s
    → AreFreeFor s (s.conns ev.fd) answers.accepted
    → IsArmed (on_event s ev answers)
unfolding on_event
on_event-IsArmed s ev answers armed free = elim (Option-cases (s.conns ev.fd)) [
  | inl e ↦ rw (on_event, e) armed
  | inr (c, e) ↦ by_conn_type c c.type (subst (λ x. AreFreeFor s x answers.accepted) e free) refl e
]
  where
    by_conn_type :
        (c : Conn) (type : ConnType)
        → AreFreeAs s c type answers.accepted
        → c.type ≡ type
        → s.conns ev.fd ≡ some c
        → IsArmed (on_event s ev answers)
    by_conn_type c client ok f e =
        rw (on_event, e, f) (on_rw-IsArmed s ev.fd ev.is_read ev.is_write answers armed)
    by_conn_type c udp ok f e =
        rw (on_event, e, f) (on_rw-IsArmed s ev.fd ev.is_read ev.is_write answers armed)
    by_conn_type c listen ok f e = elim (Bool-cases ev.is_read) [
      | inl g ↦ rw (on_event, e, f, g) (on_accept-IsArmed c answers.accepted s armed ok)
      | inr g ↦ rw (on_event, e, f, g) armed
    ]

module _ (s : SocketServer) (fd : ℕ) (armed : IsArmed s) where
  pub close_conn-IsArmed : IsArmed (close_conn s fd)
  unfolding close_conn close_fd remove_conn
  close_conn-IsArmed = elim (Option-cases (s.conns fd)) [
    | inr (c, e) ↦ rw (close_conn, e) (removed-IsArmed s fd c.is_bind armed)
    | inl e ↦
        let t = remove_conn s fd in
        rw (close_conn, e)
          (Elsewhere-IsArmed fd s (close_fd t fd)
            (Elsewhere-trans fd s t _ (remove_conn-Elsewhere s fd) (close_fd-Elsewhere t fd)) armed
            (rw
              (
                set_at_self s.conns fd none,
                set_at_self s.write_buffers fd none,
                set_at_self s.epoll fd none,
              )
              (refl, refl)))
  ]

  -- A round of CloseAll.
  closed-IsArmed :
      (is_bind : Bool) → IsArmed (close_own (remove_conn (remove_event s fd) fd) fd is_bind)
  unfolding close_fd remove_conn remove_event
  closed-IsArmed true =
      let t = remove_event s fd in
      Elsewhere-IsArmed fd s (remove_conn t fd)
        (Elsewhere-trans fd s t _ (remove_event-Elsewhere s fd) (remove_conn-Elsewhere t fd)) armed
        (rw
          (
            set_at_self s.conns fd none,
            set_at_self s.write_buffers fd none,
            set_at_self s.epoll fd none,
          )
          (refl, refl))
  closed-IsArmed false =
      let t = remove_event s fd in
      let u = remove_conn t fd in
      Elsewhere-IsArmed fd s (close_fd u fd)
        (Elsewhere-trans fd s t _ (remove_event-Elsewhere s fd)
          (Elsewhere-trans fd t u _ (remove_conn-Elsewhere t fd) (close_fd-Elsewhere u fd)))
        armed
        (rw
          (
            set_at_self s.conns fd none,
            set_at_self s.write_buffers fd none,
            set_at_self u.epoll fd none,
          )
          (refl, refl))

pub set_udp_address-IsArmed :
    (s : SocketServer) (fd : ℕ) (addr : Option (List ℕ))
    → IsArmed s
    → IsArmed (set_udp_address s fd addr).1
unfolding set_udp_address
set_udp_address-IsArmed s fd none armed = elim (Option-cases (s.conns fd)) [
  | inl e ↦ rw (set_udp_address, e) armed
  | inr (c, e) ↦ rw (set_udp_address, e) armed
]
set_udp_address-IsArmed s fd (some udp_addr) armed = elim (Option-cases (s.conns fd)) [
  | inl e ↦ rw (set_udp_address, e) armed
  | inr (c, e) ↦
      rw (set_udp_address, e)
        (changed_conn-IsArmed s fd c (record c { udp_addr = udp_addr }) armed e refl refl refl)
]

pub close_all-IsArmed : (fds : List ℕ) (s : SocketServer) → IsArmed s → IsArmed (close_all s fds)
unfolding close_all
close_all-IsArmed [] s armed = armed
close_all-IsArmed (fd ∷ fds) s armed = close_all-IsArmed fds _ (closed-IsArmed s fd armed _)
