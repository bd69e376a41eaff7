-- ===== src/Socket/Server/Fresh.antt =====
-- New connections in src/starnet_socket_server.cpp watch the events that they need.
use starnet.Common.{
  fun_ext, ℕ_discrete, ℕ, ◌≡◌, refl, sym, ap, subst, ◌∙◌, Bool, true, false, not, none, some,
  Option-cases, inl, inr, List, if◌then◌else◌,
}
use starnet.Socket.{Wire, Conn, ConnType, client, udp, SocketServer, set_at}
use starnet.Socket.Handlers.{add_watched}
use starnet.Socket.Server.{
  new_conn, add_conn, get_conn, set_conn, add_event, modify_event, on_socket_msg, update_conn,
}
use starnet.Socket.Server.Open.{watch_accepted, accept_one, bind, connect_fd}
use starnet.Socket.Server.Events.{set_at_self, set_at_other, IsWatched, IsArmed, Elsewhere}
use starnet.Socket.Server.Keeps.{kept-IsArmed, modified-IsArmed}

-- An fd that is not in use.
pub unused :
    (s : SocketServer) (fd : ℕ)
    → IsArmed s
    → s.conns fd ≡ none
    → (s.write_buffers fd ≡ none) × (s.epoll fd ≡ none)
unused s fd armed e = subst (λ x. IsWatched fd x (s.write_buffers fd) (s.epoll fd)) e (armed fd)

set_at_twice : {A : Type 0} (f : ℕ → A) (i : ℕ) (a b : A) → set_at (set_at f i a) i b ≡ set_at f i b
set_at_twice f i a b = fun_ext (λ j. elim (ℕ_discrete j i) [
  | yes e ↦ rw (e, set_at_self (set_at f i a) i b, set_at_self f i b) refl
  | no n ↦
      set_at_other (set_at f i a) i b j n ∙ set_at_other f i a j n ∙ sym (set_at_other f i b j n)
])

module _ (s : SocketServer) (fd : ℕ) (armed : IsArmed s) (e : s.conns fd ≡ none)
    (w : ℕ → Wire) where
  with_conn : Conn → SocketServer
  with_conn c = record s { conns = set_at s.conns fd (some c); wires = w }

  watched : Conn → Bool → SocketServer
  watched c epoll_in = record s {
    conns = set_at s.conns fd (some c);
    wires = w;
    epoll = set_at s.epoll fd (some (record { epoll_in = epoll_in; epoll_out = false }));
  }

  watched-Elsewhere : (c : Conn) (epoll_in : Bool) → Elsewhere fd s (watched c epoll_in)
  unfolding watched
  watched-Elsewhere c epoll_in = record {
    conns = λ j n. set_at_other s.conns fd (some c) j n;
    write_buffers = λ j n. refl;
    epoll = λ j n. set_at_other s.epoll fd _ j n;
  }

  watched-IsArmed :
      (c : Conn) (epoll_in : Bool)
      → c.fd ≡ fd
      → epoll_in ≡ not c.paused
      → c.connecting ≡ false
      → IsArmed (watched c epoll_in)
  unfolding watched
  watched-IsArmed c epoll_in same reads done =
      kept-IsArmed fd s (watched c epoll_in) c none
        (record { epoll_in = epoll_in; epoll_out = false }) (watched-Elsewhere c epoll_in) armed
        (set_at_self s.conns fd (some c)) (unused s fd armed e).0 (set_at_self s.epoll fd _) same
        (record {
          reads = reads;
          finishes = λ h. absurd (cc (h, done));
          waits = λ h. absurd (cc (h, done));
          writes = λ h. absurd (cc h);
        })

  add_conn-fresh :
      (id : ℕ) (type : ConnType)
      → add_conn (record s { wires = w }) fd id type ≡ with_conn (new_conn fd id type)
  unfolding add_conn with_conn
  add_conn-fresh id type = rw (add_conn, e) refl

  watch_accepted-fresh : (c : Conn) → watch_accepted (with_conn c) fd ≡ watched c true
  unfolding watch_accepted with_conn watched
  watch_accepted-fresh c = rw (watch_accepted, (unused s fd armed e).1) refl

  add_event-fresh : (c : Conn) → add_event (with_conn c) fd ≡ watched c (not c.paused)
  unfolding add_event with_conn watched
  add_event-fresh c = rw (add_event, (unused s fd armed e).1, set_at_self s.conns fd (some c)) refl

  update_conn-fresh :
      (c : Conn) (f : Conn → Conn) → update_conn (with_conn c) fd f ≡ with_conn (f c)
  unfolding with_conn get_conn set_conn
  update_conn-fresh c f =
      rw (update_conn, set_at_self s.conns fd (some c))
        (ap (λ m. record s { conns = m; wires = w })
          (set_at_twice s.conns fd (some c) (some (f c))))

module _ (s : SocketServer) (fd : ℕ) (armed : IsArmed s) (e : s.conns fd ≡ none) where
  pub accept_one-IsArmed : (listener : Conn) (w : Wire) → IsArmed (accept_one s listener fd w)
  unfolding accept_one on_socket_msg
  accept_one-IsArmed listener w =
      let wires = set_at s.wires fd w in
      let c = new_conn fd listener.service_id client in
      subst (λ t. IsArmed (watch_accepted t fd))
        (sym (add_conn-fresh s fd armed e wires listener.service_id client))
        (subst IsArmed (sym (watch_accepted-fresh s fd armed e wires c))
          (watched-IsArmed s fd armed e wires c true refl refl refl))

  pub add_watched-IsArmed : (id : ℕ) (type : ConnType) → IsArmed (add_watched s id fd type)
  unfolding add_watched
  add_watched-IsArmed id type =
      let c = new_conn fd id type in
      subst (λ t. IsArmed (add_event t fd)) (sym (add_conn-fresh s fd armed e s.wires id type))
        (subst IsArmed (sym (add_event-fresh s fd armed e s.wires c))
          (watched-IsArmed s fd armed e s.wires c true refl refl refl))

  -- A connection that is added, changed and watched.
  changed :
      (w : ℕ → Wire) (id : ℕ) (type : ConnType) (f : Conn → Conn)
      → add_event (update_conn (add_conn (record s { wires = w }) fd id type) fd f) fd
        ≡ watched s fd armed e w (f (new_conn fd id type)) (not (f (new_conn fd id type)).paused)
  changed w id type f =
      let c = new_conn fd id type in
      ap (λ t. add_event (update_conn t fd f) fd) (add_conn-fresh s fd armed e w id type)
      ∙ ap (λ t. add_event t fd) (update_conn-fresh s fd armed e w c f)
      ∙ add_event-fresh s fd armed e w (f c)

  pub connect_fd-IsArmed :
      (id : ℕ) (w : Wire) (at_once : Bool) (ip : List ℕ) → IsArmed (connect_fd s id fd w at_once ip)
  unfolding connect_fd on_socket_msg watched
  connect_fd-IsArmed id w true ip =
      let wires = set_at s.wires fd w in
      subst IsArmed (sym (changed wires id client (λ c. record c { connecting = false })))
        (watched-IsArmed s fd armed e wires _ true refl refl refl)
  connect_fd-IsArmed id w false ip =
      let wires = set_at s.wires fd w in
      let c' : Conn = record (new_conn fd id client) { connecting = true } in
      subst (λ t. IsArmed (modify_event t fd true))
        (sym (changed wires id client (λ c. record c { connecting = true })))
        (modified-IsArmed fd s (watched s fd armed e wires c' true) c' none _ true
          (watched-Elsewhere s fd armed e wires c' true) armed (set_at_self s.conns fd (some c'))
          (unused s fd armed e).0 (set_at_self s.epoll fd _) refl
          (record { reads = refl; finishes = λ h. refl; waits = λ h. refl; writes = λ h. refl }))

pub bind-IsArmed :
    (s : SocketServer) (id fd : ℕ) (is_dgram : Bool) → IsArmed s → IsArmed (bind s id fd is_dgram).1
unfolding bind
bind-IsArmed s id fd is_dgram armed = elim (Option-cases (s.conns fd)) [
  | inr (c, e) ↦ rw (bind, e) armed
  | inl e ↦
      let type = if is_dgram then udp else client in
      let f : Conn → Conn = λ c. record c { is_bind = true } in
      let done : IsArmed (add_event (update_conn (add_conn s fd id type) fd f) fd) =
        subst IsArmed (sym (changed s fd armed e s.wires id type f))
          (watched-IsArmed s fd armed e s.wires _ true refl refl refl) in
      rw (bind, e) done
]
