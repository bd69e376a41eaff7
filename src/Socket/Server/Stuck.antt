-- ===== src/Socket/Server/Stuck.antt =====
-- A connection of src/starnet_socket_server.cpp whose data waits for an event that is not watched.
use starnet.Common.{
  ℕ, ◌≡◌, refl, ap, ◌∙◌, Bool, true, false, ◌&&◌, Option, none, some, List, [], ◌∷◌, ◌++◌,
  Bool-cases, inl, inr,
}
use starnet.Socket.{Wire, WriteObject, ConnWriteBuffer, Conn, Interest, SocketServer}
use starnet.Socket.Buffer.{
  is_nil, is_empty, send_locked, entire_write_when_not_empty, check_warning,
}
use starnet.Socket.Server.{send_to, send_buffer, send_result, buffer_of, on_socket_msg}
use starnet.Socket.Server.Events.{set_at_self}
use starnet.Socket.Buffer.Waits.{check_warning-is_empty}

-- What an fd has whose data waits for an event that nobody watches.
pub record Stuck (s : SocketServer) (fd : ℕ) (bytes : List ℕ) : Type 0 where
  pub conn : Conn
  pub buffer : ConnWriteBuffer
  pub is_conn : s.conns fd ≡ some conn
  pub is_buffer : s.write_buffers fd ≡ some buffer
  pub waits : is_empty buffer ≡ false
  pub written : (s.wires fd).bytes ≡ bytes
  pub unwatched : (ev : Interest) × (s.epoll fd ≡ some ev) × (ev.epoll_out ≡ false)

is_nil-append : (l : List WriteObject) (obj : WriteObject) → is_nil (l ++ (obj ∷ [])) ≡ false
is_nil-append [] obj = refl
is_nil-append (o ∷ l) obj = refl

and_false : (b : Bool) → (b && false) ≡ false
and_false true = refl
and_false false = refl

entire_write-waits :
    (wb : ConnWriteBuffer) (buff : List ℕ) (low : Bool)
    → is_empty (entire_write_when_not_empty wb buff low) ≡ false
unfolding entire_write_when_not_empty
entire_write-waits wb buff true = rw (is_nil-append wb.low _) (and_false (is_nil wb.objs))
entire_write-waits wb buff false = rw (is_nil-append wb.objs _) refl

-- A result that leaves data waiting and asks for nothing.
stored-Stuck :
    (s : SocketServer) (fd : ℕ) (c : Conn) (ev : Interest) (wb : ConnWriteBuffer) (warn : Option ℕ)
    (w : Wire)
    → s.conns fd ≡ some c
    → s.epoll fd ≡ some ev
    → ev.epoll_out ≡ false
    → is_empty wb ≡ false
    → Stuck (send_result s fd c (wb, warn, false, w)) fd w.bytes
unfolding on_socket_msg
stored-Stuck s fd c ev wb (some kb) w e f off waits = record {
  conn = c;
  buffer = wb;
  is_conn = e;
  is_buffer = set_at_self s.write_buffers fd (some wb);
  waits = waits;
  written = ap (λ x. x.bytes) (set_at_self s.wires fd w);
  unwatched = (ev, f, off);
}
stored-Stuck s fd c ev wb none w e f off waits = record {
  conn = c;
  buffer = wb;
  is_conn = e;
  is_buffer = set_at_self s.write_buffers fd (some wb);
  waits = waits;
  written = ap (λ x. x.bytes) (set_at_self s.wires fd w);
  unwatched = (ev, f, off);
}

pub send_locked-waiting :
    (wb : ConnWriteBuffer) (buff : List ℕ) (low : Bool) (w : Wire)
    → is_empty wb ≡ false
    → let (wb', warn) = check_warning (entire_write_when_not_empty wb buff low) in
      send_locked wb buff low w ≡ (wb', warn, false, w)
unfolding send_locked
send_locked-waiting wb buff low w e = rw (send_locked, e) refl

-- The part of SendBuffer after the test of isClosing.
pub send_to-open :
    (s : SocketServer) (fd : ℕ) (c : Conn) (wb : ConnWriteBuffer) (buff : List ℕ) (low : Bool)
    → buffer_of (s.write_buffers fd) ≡ wb
    → wb.is_closing ≡ false
    → (send_to s fd c buff low).1 ≡ send_result s fd c (send_locked wb buff low (s.wires fd))
unfolding send_to
send_to-open s fd c wb buff low f g = simp (f, g)

pub send_buffer-open :
    (s : SocketServer) (fd : ℕ) (c : Conn) (wb : ConnWriteBuffer) (buff : List ℕ) (low : Bool)
    → s.conns fd ≡ some c
    → buffer_of (s.write_buffers fd) ≡ wb
    → wb.is_closing ≡ false
    → (send_buffer s fd buff low).1 ≡ send_result s fd c (send_locked wb buff low (s.wires fd))
unfolding send_buffer
send_buffer-open s fd c wb buff low e f g =
    rw (send_buffer, e) (send_to-open s fd c wb buff low f g)

-- A send to it only adds to what waits.
pub send_buffer-Stuck :
    (s : SocketServer) (fd : ℕ) (bytes buff : List ℕ) (low : Bool)
    → Stuck s fd bytes
    → Stuck (send_buffer s fd buff low).1 fd bytes
unfolding send_buffer send_to
send_buffer-Stuck s fd bytes buff low stuck =
    let wb = stuck.buffer in
    let (ev, watch, off) = stuck.unwatched in
    elim (Bool-cases wb.is_closing) [
      | inl e ↦
          rw (send_buffer, stuck.is_conn, stuck.is_buffer, e)
            (record {
              conn = stuck.conn;
              buffer = _;
              is_conn = stuck.is_conn;
              is_buffer = set_at_self s.write_buffers fd _;
              waits = stuck.waits;
              written = stuck.written;
              unwatched = stuck.unwatched;
            })
      | inr e ↦
          let is_wb : buffer_of (s.write_buffers fd) ≡ wb = rw stuck.is_buffer refl in
          rw
            (
              send_buffer-open s fd stuck.conn wb buff low stuck.is_conn is_wb e,
              send_locked-waiting wb buff low (s.wires fd) stuck.waits,
              ← stuck.written,
            )
            (stored-Stuck s fd stuck.conn ev _ _ (s.wires fd) stuck.is_conn watch off (
              check_warning-is_empty (entire_write_when_not_empty wb buff low)
              ∙ entire_write-waits wb buff low))
    ]
