-- ===== src/Socket/Server/Asked.antt =====
-- What services ask of src/starnet_socket_server.cpp keeps the events watched.
use starnet.Common.{
  ℕ, ◌≡◌, inl, inr, refl, ap, subst, ◌∙◌, Bool, true, false, Bool-cases, Option, none, some,
  Option-cases, List,
}
use starnet.Socket.{ConnWriteBuffer, Conn, SocketServer, set_at}
use starnet.Socket.Buffer.{is_empty}
use starnet.Socket.Server.{
  has_data, set_conn, on_socket_msg, drop_conn, send_buffer, linger_close, on_connect_finish,
  set_paused, on_rw_write,
}
use starnet.Socket.Server.Ops.{is_connecting}
use starnet.Socket.Server.Events.{set_at_self, IsArmed, set_conn-Elsewhere}
use starnet.Socket.Server.Fresh.{unused}
use starnet.Socket.Server.Keeps.{
  removed-IsArmed, IsArmed-at, kept-IsArmed, modified-IsArmed, send_to-IsArmed,
  on_writeable-IsArmed, stored-Elsewhere,
}

module _ (s : SocketServer) (fd : ℕ) (armed : IsArmed s) where
  pub send_buffer-IsArmed :
      (buff : List ℕ) (low : Bool)
      → is_connecting (s.conns fd) ≡ false
      → IsArmed (send_buffer s fd buff low).1
  unfolding send_buffer
  send_buffer-IsArmed buff low done = elim (Option-cases (s.conns fd)) [
    | inl e ↦ rw (send_buffer, e) armed
    | inr (c, e) ↦
        let done' = rw e at done in
        rw (send_buffer, e) (send_to-IsArmed s fd c armed e done' buff low)
  ]

  pub set_paused-IsArmed :
      (paused : Bool) → is_connecting (s.conns fd) ≡ false → IsArmed (set_paused paused s fd).1
  unfolding set_paused
  set_paused-IsArmed paused done = elim (Option-cases (s.conns fd)) [
    | inl e ↦ rw (set_paused, e) armed
    | inr (c, e) ↦
        let done' : c.connecting ≡ false = rw e at done in
        let (ev, f, same, watch) = IsArmed-at s fd c armed e in
        let c' = record c { paused = paused } in
        rw (set_paused, e)
          (modified-IsArmed fd s (set_conn s fd c') c' (s.write_buffers fd) ev
            (has_data (s.write_buffers fd)) (set_conn-Elsewhere s fd c') armed
            (set_at_self s.conns fd (some c')) refl f same
            (record {
              reads = refl;
              finishes = λ h. absurd (cc (h, done'));
              waits = λ h. absurd (cc (h, done'));
              writes = λ h. h;
            }))
  ]

  pub on_rw_write-IsArmed :
      (so_error : Option (List ℕ)) (ip : List ℕ) → IsArmed (on_rw_write s fd so_error ip)
  unfolding on_rw_write on_connect_finish on_socket_msg
  on_rw_write-IsArmed so_error ip = elim (Option-cases (s.conns fd)) [
    | inl e ↦ rw (on_rw_write, e) armed
    | inr (c, e) ↦ elim (Bool-cases c.connecting) [
      | inr g ↦ rw (on_rw_write, e, g) (on_writeable-IsArmed s fd c armed e g)
      | inl g ↦ rw (on_rw_write, e, g) (by_error c e g so_error)
    ]
  ]
    where
      by_error :
          (c : Conn)
          → s.conns fd ≡ some c
          → c.connecting ≡ true
          → (so_error : Option (List ℕ)) → IsArmed (on_connect_finish s c so_error ip)
      by_error c e g (some err) = removed-IsArmed s c.fd false armed
      by_error c e g none =
          let (ev', f', same, watch') = IsArmed-at s fd c armed e in
          let e' : s.conns c.fd ≡ some c = ap s.conns same ∙ e in
          let (ev, f, same', watch) = IsArmed-at s c.fd c armed e' in
          let c' = record c { connecting = false } in
          modified-IsArmed c.fd s (set_conn s c.fd c') c' (s.write_buffers c.fd) ev false
            (set_conn-Elsewhere s c.fd c') armed (set_at_self s.conns c.fd (some c')) refl f refl
            (record {
              reads = refl;
              finishes = λ h. absurd (cc h);
              waits = λ h. absurd (cc h);
              writes = λ h. absurd (cc (h, watch.waits g));
            })

  -- A buffer that is closing has what it had.
  closing-IsArmed :
      (wb : ConnWriteBuffer)
      → s.write_buffers fd ≡ some wb
      → IsArmed (record s {
        write_buffers = set_at s.write_buffers fd (some (record wb { is_closing = true }));
      })
  closing-IsArmed wb f = elim (Option-cases (s.conns fd)) [
    | inl e ↦ let h : s.write_buffers fd ≡ none = (unused s fd armed e).0 in absurd (cc (h, f))
    | inr (c, e) ↦
        let (ev, g, same, watch) = IsArmed-at s fd c armed e in
        let wb' : ConnWriteBuffer = record wb { is_closing = true } in
        kept-IsArmed fd s _ c (some wb') ev (stored-Elsewhere fd s wb' s.wires) armed e
          (set_at_self s.write_buffers fd (some wb')) g same
          (record {
            reads = watch.reads;
            finishes = watch.finishes;
            waits = λ h. subst (λ x. has_data x ≡ false) f (watch.waits h);
            writes = λ h. watch.writes (rw f h);
          })
  ]

module _ (s : SocketServer) (fd : ℕ) (armed : IsArmed s) where
  drop_conn-IsArmed : IsArmed (drop_conn s fd)
  drop_conn-IsArmed = removed-IsArmed s fd _ armed

module _ (s : SocketServer) (fd : ℕ) (armed : IsArmed s) where
  pub linger_close-IsArmed : IsArmed (linger_close s fd)
  unfolding linger_close
  linger_close-IsArmed = elim (Option-cases (s.write_buffers fd)) [
    | inl f ↦ rw (linger_close, f) (drop_conn-IsArmed s fd armed)
    | inr (wb, f) ↦ elim (Bool-cases wb.is_closing) [
      | inl g ↦ rw (linger_close, f, g) armed
      | inr g ↦ elim (Bool-cases (is_empty wb)) [
        | inl h ↦
            rw (linger_close, f, g, h) (drop_conn-IsArmed _ fd (closing-IsArmed s fd armed wb f))
        | inr h ↦ rw (linger_close, f, g, h) (closing-IsArmed s fd armed wb f)
      ]
    ]
  ]
