-- ===== src/Socket/Server/Events.antt =====
-- The epoll set of src/starnet_socket_server.cpp: what is watched for a connection.
use starnet.Common.{
  ℕ, ◌≡◌, ◌≢◌, inl, inr, refl, ◌∙◌, Bool, true, false, not, Option, none, some, Option-cases, ◌==◌,
  ==_iff, arith, ℕ_discrete,
}
use starnet.Socket.{ConnWriteBuffer, Conn, Interest, SocketServer, set_at}
use starnet.Socket.Server.{
  has_data, set_conn, remove_conn, add_event, remove_event, modify_event, close_fd,
}

module _ {A : Type 0} (f : ℕ → A) (i : ℕ) (a : A) where
  pub set_at_self : set_at f i a i ≡ a
  unfolding set_at
  set_at_self = let e = (==_iff i i).1 refl in rw e refl

  pub set_at_other : (j : ℕ) → j ≢ i → set_at f i a j ≡ f j
  unfolding set_at
  set_at_other j n = let e : (j == i) ≡ false = ground (arith, n) in rw e refl

-- EPOLLIN is watched unless reading is paused, and EPOLLOUT while a connection is not finished or
-- bytes wait; while it is not finished none wait.
pub record Watches (c : Conn) (wb : Option ConnWriteBuffer) (ev : Interest) : Type 0 where
  pub reads : ev.epoll_in ≡ not c.paused
  pub finishes : c.connecting ≡ true → ev.epoll_out ≡ true
  pub waits : c.connecting ≡ true → has_data wb ≡ false
  pub writes : has_data wb ≡ true → ev.epoll_out ≡ true

-- What stands in the maps for an fd.
abbrev pub IsWatched : ℕ → Option Conn → Option ConnWriteBuffer → Option Interest → Type 0
IsWatched fd none wb ev = (wb ≡ none) × (ev ≡ none)
IsWatched fd (some c) wb none = ⊥
IsWatched fd (some c) wb (some ev) = (c.fd ≡ fd) × Watches c wb ev

abbrev pub IsArmed : SocketServer → Type 0
IsArmed s = (fd : ℕ) → IsWatched fd (s.conns fd) (s.write_buffers fd) (s.epoll fd)

-- Two states agree on all fds but one.
pub record Elsewhere (fd : ℕ) (s s' : SocketServer) : Type 0 where
  pub conns : (j : ℕ) → j ≢ fd → s'.conns j ≡ s.conns j
  pub write_buffers : (j : ℕ) → j ≢ fd → s'.write_buffers j ≡ s.write_buffers j
  pub epoll : (j : ℕ) → j ≢ fd → s'.epoll j ≡ s.epoll j

pub Elsewhere-refl : (fd : ℕ) (s : SocketServer) → Elsewhere fd s s
Elsewhere-refl fd s = record {
  conns = λ j n. refl;
  write_buffers = λ j n. refl;
  epoll = λ j n. refl;
}

pub Elsewhere-trans :
    (fd : ℕ) (s t u : SocketServer) → Elsewhere fd s t → Elsewhere fd t u → Elsewhere fd s u
Elsewhere-trans fd s t u a b = record {
  conns = λ j n. b.conns j n ∙ a.conns j n;
  write_buffers = λ j n. b.write_buffers j n ∙ a.write_buffers j n;
  epoll = λ j n. b.epoll j n ∙ a.epoll j n;
}

pub Elsewhere-IsArmed :
    (fd : ℕ) (s s' : SocketServer)
    → Elsewhere fd s s'
    → IsArmed s
    → IsWatched fd (s'.conns fd) (s'.write_buffers fd) (s'.epoll fd)
    → IsArmed s'
Elsewhere-IsArmed fd s s' e armed here j = elim (ℕ_discrete j fd) [
  | yes f ↦ rw f here
  | no n ↦ rw (e.conns j n, e.write_buffers j n, e.epoll j n) (armed j)
]

module _ (s : SocketServer) (fd : ℕ) where
  pub set_conn-Elsewhere : (c : Conn) → Elsewhere fd s (set_conn s fd c)
  unfolding set_conn
  set_conn-Elsewhere c = record {
    conns = λ j n. set_at_other s.conns fd (some c) j n;
    write_buffers = λ j n. refl;
    epoll = λ j n. refl;
  }

  pub remove_conn-Elsewhere : Elsewhere fd s (remove_conn s fd)
  unfolding remove_conn
  remove_conn-Elsewhere = record {
    conns = λ j n. set_at_other s.conns fd none j n;
    write_buffers = λ j n. set_at_other s.write_buffers fd none j n;
    epoll = λ j n. refl;
  }

  pub remove_event-Elsewhere : Elsewhere fd s (remove_event s fd)
  unfolding remove_event
  remove_event-Elsewhere = record {
    conns = λ j n. refl;
    write_buffers = λ j n. refl;
    epoll = λ j n. set_at_other s.epoll fd none j n;
  }

  pub close_fd-Elsewhere : Elsewhere fd s (close_fd s fd)
  unfolding close_fd
  close_fd-Elsewhere = record {
    conns = λ j n. refl;
    write_buffers = λ j n. refl;
    epoll = λ j n. set_at_other s.epoll fd none j n;
  }

  pub modify_event-Elsewhere : (out : Bool) → Elsewhere fd s (modify_event s fd out)
  unfolding modify_event
  modify_event-Elsewhere out = elim (Option-cases (s.epoll fd)) [
    | inl e ↦ rw (modify_event, e) (Elsewhere-refl fd s)
    | inr (ev, e) ↦
        rw (modify_event, e)
          (record {
            conns = λ j n. refl;
            write_buffers = λ j n. refl;
            epoll = λ j n. set_at_other s.epoll fd _ j n;
          })
  ]

  pub add_event-Elsewhere : Elsewhere fd s (add_event s fd)
  unfolding add_event
  add_event-Elsewhere = elim (Option-cases (s.epoll fd)) [
    | inr (ev, e) ↦ rw (add_event, e) (Elsewhere-refl fd s)
    | inl e ↦
        rw (add_event, e)
          (record {
            conns = λ j n. refl;
            write_buffers = λ j n. refl;
            epoll = λ j n. set_at_other s.epoll fd _ j n;
          })
  ]

  pub modify_event-epoll :
      (out : Bool) (c : Conn) (ev : Interest)
      → s.conns fd ≡ some c
      → s.epoll fd ≡ some ev
      → (modify_event s fd out).epoll fd
        ≡ some (record { epoll_in = not c.paused; epoll_out = out })
  unfolding modify_event
  modify_event-epoll out c ev e f = rw (modify_event, f) (set_at_self s.epoll fd _ ∙ rw e refl)

  pub modify_event-rest :
      (out : Bool)
      → ((modify_event s fd out).conns ≡ s.conns)
        × ((modify_event s fd out).write_buffers ≡ s.write_buffers)
  unfolding modify_event
  modify_event-rest out = elim (Option-cases (s.epoll fd)) [
    | inl e ↦ rw (modify_event, e) (refl, refl)
    | inr (ev, e) ↦ rw (modify_event, e) (refl, refl)
  ]

  pub modify_event-wires : (out : Bool) → (modify_event s fd out).wires ≡ s.wires
  unfolding modify_event
  modify_event-wires out = elim (Option-cases (s.epoll fd)) [
    | inl e ↦ rw (modify_event, e) refl
    | inr (ev, e) ↦ rw (modify_event, e) refl
  ]
