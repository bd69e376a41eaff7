-- ===== src/Socket/Server/Keeps.antt =====
-- The operations of src/starnet_socket_server.cpp watch the events that a connection needs.
use starnet.Common.{
  ℕ, ◌≡◌, ◌⊎◌, inl, inr, refl, ap, subst, ◌∙◌, Bool, true, false, not, ◌&&◌, Bool-cases, Option,
  none, some, Option-cases, List,
}
use starnet.Socket.{Wire, ConnWriteBuffer, Conn, Interest, SocketServer, set_at}
use starnet.Socket.Buffer.{is_empty, writeable_locked}
use starnet.Socket.Server.{
  has_data, remove_conn, remove_event, modify_event, on_socket_msg, close_fd, close_own, buffer_of,
  send_to, send_result, after_flush, on_writeable,
}
use starnet.Socket.Server.Events.{
  set_at_self, set_at_other, Watches, IsWatched, IsArmed, Elsewhere, Elsewhere-trans,
  Elsewhere-IsArmed, remove_conn-Elsewhere, remove_event-Elsewhere, close_fd-Elsewhere,
  modify_event-Elsewhere, modify_event-epoll, modify_event-rest,
}
use starnet.Socket.Buffer.Waits.{send_locked-arms, writeable_locked-is_empty}

-- What is watched does not stand on the messages, the wires or the closed fds.
pub removed-IsArmed :
    (s : SocketServer) (fd : ℕ) (is_bind : Bool)
    → IsArmed s
    → IsArmed (remove_event (close_own (remove_conn s fd) fd is_bind) fd)
unfolding remove_event close_fd remove_conn
removed-IsArmed s fd true armed =
    let t = remove_conn s fd in
    Elsewhere-IsArmed fd s (remove_event t fd)
      (Elsewhere-trans fd s t _ (remove_conn-Elsewhere s fd) (remove_event-Elsewhere t fd)) armed
      (rw
        (
          set_at_self s.conns fd none,
          set_at_self s.write_buffers fd none,
          set_at_self s.epoll fd none,
        )
        (refl, refl))
removed-IsArmed s fd false armed =
    let t = remove_conn s fd in
    let u = close_fd t fd in
    Elsewhere-IsArmed fd s (remove_event u fd)
      (Elsewhere-trans fd s t _ (remove_conn-Elsewhere s fd)
        (Elsewhere-trans fd t u _ (close_fd-Elsewhere t fd) (remove_event-Elsewhere u fd)))
      armed
      (rw
        (
          set_at_self s.conns fd none,
          set_at_self s.write_buffers fd none,
          set_at_self u.epoll fd none,
        )
        (refl, refl))

IsWatched-same :
    (fd : ℕ) (s : SocketServer)
    → IsArmed s
    → {c : Option Conn} {ev : Option Interest} → s.conns fd ≡ c
    → s.epoll fd ≡ ev
    → IsWatched fd c (s.write_buffers fd) ev
IsWatched-same fd s armed {c} {ev} e f =
    subst (λ x. IsWatched fd x (s.write_buffers fd) ev) e
      (subst (λ x. IsWatched fd (s.conns fd) (s.write_buffers fd) x) f (armed fd))

-- For a connection in the map, its interest is in the epoll set.
pub IsArmed-at :
    (s : SocketServer) (fd : ℕ) (c : Conn)
    → IsArmed s
    → s.conns fd ≡ some c
    → (ev : Interest) × (s.epoll fd ≡ some ev) × (c.fd ≡ fd) × Watches c (s.write_buffers fd) ev
IsArmed-at s fd c armed e = elim (Option-cases (s.epoll fd)) [
  | inl f ↦
      let h : IsWatched fd (some c) (s.write_buffers fd) none = IsWatched-same fd s armed e f in
      absurd h
  | inr (ev, f) ↦
      let h : IsWatched fd (some c) (s.write_buffers fd) (some ev) =
        IsWatched-same fd s armed e f in
      (ev, f, h.0, h.1)
]

-- A change at one fd that leaves the right interest for its connection.
pub kept-IsArmed :
    (fd : ℕ) (s s' : SocketServer) (c : Conn) (wb : Option ConnWriteBuffer) (ev : Interest)
    → Elsewhere fd s s'
    → IsArmed s
    → s'.conns fd ≡ some c
    → s'.write_buffers fd ≡ wb
    → s'.epoll fd ≡ some ev
    → c.fd ≡ fd
    → Watches c wb ev
    → IsArmed s'
kept-IsArmed fd s s' c wb ev apart armed e f g same w =
    Elsewhere-IsArmed fd s s' apart armed (rw (e, f, g) (same, w))

pub stored-Elsewhere :
    (fd : ℕ) (s : SocketServer) (wb : ConnWriteBuffer) (w : ℕ → Wire)
    → Elsewhere fd s (record s { write_buffers = set_at s.write_buffers fd (some wb); wires = w })
stored-Elsewhere fd s wb w = record {
  conns = λ j n. refl;
  write_buffers = λ j n. set_at_other s.write_buffers fd (some wb) j n;
  epoll = λ j n. refl;
}

-- If a send leaves bytes waiting without asking for EPOLLOUT, some waited before.
waited_before :
    (wb : Option ConnWriteBuffer) (wb' : ConnWriteBuffer)
    → ((is_empty (buffer_of wb) ≡ false) ⊎ (false ≡ true) ⊎ (is_empty wb' ≡ true))
    → has_data (some wb') ≡ true
    → has_data wb ≡ true
waited_before wb wb' (inr (inl f)) waits = absurd (cc f)
waited_before wb wb' (inr (inr f)) waits = let h = rw f at waits in absurd (cc h)
waited_before (some wb) wb' (inl f) waits = rw f refl
waited_before none wb' (inl f) waits = absurd (cc f)

buffer_of-has_data :
    (wb : Option ConnWriteBuffer) → has_data (some (buffer_of wb)) ≡ true → has_data wb ≡ true
buffer_of-has_data (some wb) h = h
buffer_of-has_data none h = absurd (cc h)

flushed-has_data :
    (wb : ConnWriteBuffer) (w : Wire)
    → has_data (some (writeable_locked wb w).0) ≡ true
    → has_data (some wb) ≡ true
flushed-has_data wb w h = elim (Bool-cases (is_empty wb)) [
  | inl e ↦ let h' = rw (writeable_locked-is_empty wb w e) at h in absurd (cc h')
  | inr e ↦ rw e refl
]

-- ModifyEvent after a change at one fd.
pub modified-IsArmed :
    (fd : ℕ) (s t : SocketServer) (c : Conn) (wb : Option ConnWriteBuffer) (ev : Interest)
    (out : Bool)
    → Elsewhere fd s t
    → IsArmed s
    → t.conns fd ≡ some c
    → t.write_buffers fd ≡ wb
    → t.epoll fd ≡ some ev
    → c.fd ≡ fd
    → Watches c wb (record { epoll_in = not c.paused; epoll_out = out })
    → IsArmed (modify_event t fd out)
modified-IsArmed fd s t c wb ev out apart armed e f g =
    kept-IsArmed fd s (modify_event t fd out) c wb
      (record { epoll_in = not c.paused; epoll_out = out })
      (Elsewhere-trans fd s t _ apart (modify_event-Elsewhere t fd out)) armed
      (ap (λ m. m fd) (modify_event-rest t fd out).0 ∙ e)
      (ap (λ m. m fd) (modify_event-rest t fd out).1 ∙ f) (modify_event-epoll t fd out c ev e g)

module _ (s : SocketServer) (fd : ℕ) (c : Conn) (armed : IsArmed s) (e : s.conns fd ≡ some c)
    (done : c.connecting ≡ false) where
  -- A buffer that is put back, with no more to write than before.
  stored-IsArmed :
      (wb : ConnWriteBuffer) (w : ℕ → Wire)
      → (has_data (some wb) ≡ true → has_data (s.write_buffers fd) ≡ true)
      → IsArmed (record s { write_buffers = set_at s.write_buffers fd (some wb); wires = w })
  stored-IsArmed wb w less =
      let (ev, f, same, watch) = IsArmed-at s fd c armed e in
      kept-IsArmed fd s _ c (some wb) ev (stored-Elsewhere fd s wb w) armed e
        (set_at_self s.write_buffers fd (some wb)) f same
        (record {
          reads = watch.reads;
          finishes = watch.finishes;
          waits = λ h. absurd (cc (h, done));
          writes = λ h. watch.writes (less h);
        })

  -- The same with EPOLLOUT set or, where nothing is left to write, cleared.
  rearmed-IsArmed :
      (wb : ConnWriteBuffer) (w : ℕ → Wire) (out : Bool)
      → (has_data (some wb) ≡ true → out ≡ true)
      → IsArmed (
          modify_event
            (record s { write_buffers = set_at s.write_buffers fd (some wb); wires = w })
            fd
            out)
  rearmed-IsArmed wb w out writes =
      let (ev, f, same, watch) = IsArmed-at s fd c armed e in
      modified-IsArmed fd s _ c (some wb) ev out (stored-Elsewhere fd s wb w) armed e
        (set_at_self s.write_buffers fd (some wb)) f same
        (record {
          reads = refl;
          finishes = λ h. absurd (cc (h, done));
          waits = λ h. absurd (cc (h, done));
          writes = writes;
        })

  send_result-IsArmed :
      (wb : ConnWriteBuffer) (warn : Option ℕ) (arm : Bool) (w : Wire)
      → ((is_empty (buffer_of (s.write_buffers fd)) ≡ false) ⊎ (arm ≡ true) ⊎ (is_empty wb ≡ true))
      → IsArmed (send_result s fd c (wb, warn, arm, w))
  unfolding on_socket_msg
  send_result-IsArmed wb (some kb) true w arms =
      rearmed-IsArmed wb (set_at s.wires fd w) true (λ h. refl)
  send_result-IsArmed wb none true w arms =
      rearmed-IsArmed wb (set_at s.wires fd w) true (λ h. refl)
  send_result-IsArmed wb (some kb) false w arms =
      stored-IsArmed wb (set_at s.wires fd w) (waited_before (s.write_buffers fd) wb arms)
  send_result-IsArmed wb none false w arms =
      stored-IsArmed wb (set_at s.wires fd w) (waited_before (s.write_buffers fd) wb arms)

  pub send_to-IsArmed : (buff : List ℕ) (low : Bool) → IsArmed (send_to s fd c buff low).1
  unfolding send_to
  send_to-IsArmed buff low =
      let wb = buffer_of (s.write_buffers fd) in
      elim (Bool-cases wb.is_closing) [
        | inl g ↦
            rw (send_to, g)
              (stored-IsArmed wb s.wires (λ h. buffer_of-has_data (s.write_buffers fd) h))
        | inr g ↦
            rw (send_to, g)
              (send_result-IsArmed _ _ _ _ (send_locked-arms wb buff low (s.wires fd)))
      ]

  after_flush-IsArmed :
      (wb : ConnWriteBuffer) (w : Wire)
      → (has_data (some wb) ≡ true → has_data (s.write_buffers fd) ≡ true)
      → IsArmed (after_flush s fd c (wb, w))
  unfolding on_socket_msg
  after_flush-IsArmed wb w less = elim (Bool-cases (is_empty wb && wb.is_closing)) [
    | inl f ↦ rw (after_flush, f) (stored-IsArmed wb (set_at s.wires fd w) less)
    | inr f ↦ elim (Bool-cases (is_empty wb)) [
      | inl g ↦
          rw (after_flush, f, g)
            (rearmed-IsArmed wb (set_at s.wires fd w) false
              (λ h. let h' = rw g at h in absurd (cc h')))
      | inr g ↦ rw (after_flush, f, g) (stored-IsArmed wb (set_at s.wires fd w) less)
    ]
  ]

  pub on_writeable-IsArmed : IsArmed (on_writeable s fd)
  unfolding on_writeable
  on_writeable-IsArmed = elim (Option-cases (s.write_buffers fd)) [
    | inl f ↦ rw (on_writeable, e, f) armed
    | inr (wb, f) ↦
        rw (on_writeable, e, f)
          (after_flush-IsArmed _ _ (λ h. rw f (flushed-has_data wb (s.wires fd) h)))
  ]
