-- ===== src/Socket/Server/Connecting.antt =====
-- Data that is sent while a connection of src/starnet_socket_server.cpp is not finished.
use starnet.Common.{
  ℕ, ◌≡◌, refl, ap, subst, ◌∙◌, Bool, true, false, not, Option, none, some, List, [], ◌∷◌,
}
use starnet.Msg.{SocketMsg}
use starnet.Socket.{WriteResult, again, Wire, ConnWriteBuffer, Conn, Interest, SocketServer, set_at}
use starnet.Socket.Buffer.{
  new_buffer, is_empty, send_locked, write, entire_write_when_empty, check_warning, keep_rest,
}
use starnet.Socket.Server.{
  on_rw_write, send_buffer, send_result, buffer_of, on_connect_finish, has_data, set_conn,
  modify_event, on_socket_msg,
}
use starnet.Socket.Server.Events.{
  set_at_self, modify_event-epoll, modify_event-rest, modify_event-wires,
}
use starnet.Socket.Buffer.Waits.{check_warning-is_empty}
use starnet.Socket.Server.Stuck.{Stuck, send_buffer-open, send_buffer-Stuck}

-- What has data waiting, whatever is watched.
record Queued (s : SocketServer) (fd : ℕ) (c : Conn) (bytes : List ℕ) : Type 0 where
  is_conn : s.conns fd ≡ some c
  buffer : ConnWriteBuffer
  is_buffer : s.write_buffers fd ≡ some buffer
  waits : is_empty buffer ≡ false
  written : (s.wires fd).bytes ≡ bytes
  watched : (ev : Interest) × (s.epoll fd ≡ some ev)

armed-Queued :
    (s : SocketServer) (fd : ℕ) (c : Conn) (ev : Interest) (wb : ConnWriteBuffer) (w : Wire)
    → s.conns fd ≡ some c
    → s.epoll fd ≡ some ev
    → is_empty wb ≡ false
    → Queued (send_result s fd c (wb, none, true, w)) fd c w.bytes
unfolding on_socket_msg
armed-Queued s fd c ev wb w e f waits =
    let t : SocketServer = record s {
      write_buffers = set_at s.write_buffers fd (some wb);
      wires = set_at s.wires fd w;
    } in
    record {
      is_conn = ap (λ m. m fd) (modify_event-rest t fd true).0 ∙ e;
      buffer = wb;
      is_buffer =
          ap (λ m. m fd) (modify_event-rest t fd true).1 ∙ set_at_self s.write_buffers fd (some wb);
      waits = waits;
      written =
          ap (λ m. (m fd).bytes) (modify_event-wires t fd true)
          ∙ ap (λ x. x.bytes) (set_at_self s.wires fd w);
      watched = (_, modify_event-epoll t fd true c ev e f);
    }

pub send_locked-would_block :
    (buff : List ℕ) (low : Bool) (w : Wire) (rest : List WriteResult)
    → w.results ≡ again ∷ rest
    → let (wb, warn) = check_warning (keep_rest new_buffer buff 0) in
      send_locked new_buffer buff low w ≡ (wb, warn, true, record w { results = rest })
unfolding send_locked entire_write_when_empty write
send_locked-would_block buff low w rest e = rw (send_locked, e) refl

-- A message changes nothing of it.
told-Stuck :
    (s : SocketServer) (fd : ℕ) (bytes : List ℕ) (outbox : List (SocketMsg × ℕ))
    → Stuck s fd bytes
    → Stuck (record s { outbox = outbox }) fd bytes
told-Stuck s fd bytes outbox stuck = record {
  conn = stuck.conn;
  buffer = stuck.buffer;
  is_conn = stuck.is_conn;
  is_buffer = stuck.is_buffer;
  waits = stuck.waits;
  written = stuck.written;
  unwatched = stuck.unwatched;
}

-- OnConnectFinish leaves it unwatched.
finish-Stuck :
    (s : SocketServer) (fd : ℕ) (c : Conn) (bytes ip : List ℕ)
    → c.fd ≡ fd
    → c.connecting ≡ true
    → Queued s fd c bytes
    → Stuck (on_rw_write s fd none ip) fd bytes
unfolding on_rw_write on_connect_finish on_socket_msg
finish-Stuck s fd c bytes ip same g q =
    let c' : Conn = record c { connecting = false } in
    let t = set_conn s c.fd c' in
    let (ev, f) = q.watched in
    let f' : s.epoll c.fd ≡ some ev = ap s.epoll same ∙ f in
    let done : Stuck (modify_event t c.fd false) c.fd bytes = record {
      conn = c';
      buffer = q.buffer;
      is_conn =
          ap (λ m. m c.fd) (modify_event-rest t c.fd false).0 ∙ set_at_self s.conns c.fd (some c');
      is_buffer =
          ap (λ m. m c.fd) (modify_event-rest t c.fd false).1
          ∙ ap s.write_buffers same
          ∙ q.is_buffer;
      waits = q.waits;
      written =
          ap (λ m. (m c.fd).bytes) (modify_event-wires t c.fd false)
          ∙ ap (λ i. (s.wires i).bytes) same
          ∙ q.written;
      unwatched =
          (_, modify_event-epoll t c.fd false c' ev (set_at_self s.conns c.fd (some c')) f', refl);
    } in
    rw (on_rw_write, q.is_conn, g)
      (told-Stuck _ fd bytes _ (subst (λ i. Stuck (modify_event t c.fd false) i bytes) same done))

warned-Queued :
    (s : SocketServer) (fd : ℕ) (c : Conn) (ev : Interest) (wb : ConnWriteBuffer) (warn : Option ℕ)
    (w : Wire)
    → s.conns fd ≡ some c
    → s.epoll fd ≡ some ev
    → is_empty wb ≡ false
    → Queued (send_result s fd c (wb, warn, true, w)) fd c w.bytes
unfolding on_socket_msg
warned-Queued s fd c ev wb none w e f waits = armed-Queued s fd c ev wb w e f waits
warned-Queued s fd c ev wb (some kb) w e f waits =
    let q = armed-Queued s fd c ev wb w e f waits in
    record {
      is_conn = q.is_conn;
      buffer = q.buffer;
      is_buffer = q.is_buffer;
      waits = q.waits;
      written = q.written;
      watched = q.watched;
    }

-- Sends one after another.
unfoldable pub send_all : List (List ℕ × Bool) → SocketServer → ℕ → SocketServer
unfolding send_buffer
send_all [] s fd = s
send_all ((buff, low) ∷ sends) s fd = send_all sends (send_buffer s fd buff low).1 fd

pub send_all-Stuck :
    (sends : List (List ℕ × Bool)) (s : SocketServer) (fd : ℕ) (bytes : List ℕ)
    → Stuck s fd bytes
    → Stuck (send_all sends s fd) fd bytes
unfolding send_all
send_all-Stuck [] s fd bytes stuck = stuck
send_all-Stuck ((buff, low) ∷ sends) s fd bytes stuck =
    send_all-Stuck sends _ fd bytes (send_buffer-Stuck s fd bytes buff low stuck)

-- If the first data for a connection is sent before the connection is finished, so that `write`
-- would block, and then the connection is made, its data waits and EPOLLOUT is not watched: none of
-- it is written, whatever is sent after it.
pub send_all-unwatched :
    (s : SocketServer) (fd : ℕ) (c : Conn) (ev : Interest) (rest : List WriteResult)
    (buff ip : List ℕ) (low : Bool) (sends : List (List ℕ × Bool))
    → s.conns fd ≡ some c
    → c.fd ≡ fd
    → c.connecting ≡ true
    → s.write_buffers fd ≡ none
    → s.epoll fd ≡ some ev
    → (s.wires fd).results ≡ again ∷ rest
    → let s' = send_all sends (on_rw_write (send_buffer s fd buff low).1 fd none ip) fd in
      ((s'.wires fd).bytes ≡ (s.wires fd).bytes)
      × (has_data (s'.write_buffers fd) ≡ true)
      × (ev' : Interest) × (s'.epoll fd ≡ some ev')
      × (ev'.epoll_out ≡ false)
send_all-unwatched s fd c ev rest buff ip low sends e same connecting none_yet f blocks =
    let is_wb : buffer_of (s.write_buffers fd) ≡ new_buffer = rw none_yet refl in
    let wb = keep_rest new_buffer buff 0 in
    let q : Queued (send_buffer s fd buff low).1 fd c (s.wires fd).bytes =
      rw
        (
          send_buffer-open s fd c new_buffer buff low e is_wb refl,
          send_locked-would_block buff low (s.wires fd) rest blocks,
        )
        (warned-Queued s fd c ev (check_warning wb).0 (check_warning wb).1 _ e f
          (check_warning-is_empty wb)) in
    let stuck = send_all-Stuck sends _ fd _ (finish-Stuck _ fd c _ ip same connecting q) in
    let (ev', watch, off) = stuck.unwatched in
    (stuck.written, rw stuck.is_buffer (ap not stuck.waits), ev', watch, off)
