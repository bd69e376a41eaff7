-- ===== src/Socket/Server/Reuse.antt =====
-- An fd of src/starnet_socket_server.cpp that is closed while another thread sends to it.
use starnet.Common.{
  ℕ, ◌≡◌, refl, ap, subst, ◌∙◌, Bool, true, false, Option, none, some, List, ◌∷◌, append-nil,
}
use starnet.Socket.{WriteResult, again, Wire, ConnWriteBuffer, Conn, client, SocketServer, set_at}
use starnet.Msg.{SocketMsg, close}
use starnet.Socket.Buffer.{new_buffer, is_empty, keep_rest}
use starnet.Socket.Buffer.Sent.{waiting}
use starnet.Socket.Server.{
  new_conn, add_conn, remove_conn, remove_event, close_fd, on_socket_msg, socket_msg_of, send_to,
  send_result, get_conn, close_own, buffer_of,
}
use starnet.Socket.Server.Open.{accept_one, watch_accepted}
use starnet.Socket.Server.Events.{set_at_self, modify_event-rest}
use starnet.Socket.Buffer.Waits.{check_warning-is_empty, check_warning-objs}
use starnet.Socket.Server.Connecting.{send_all, send_all-Stuck, send_locked-would_block}
use starnet.Socket.Server.Stuck.{Stuck, send_to-open}

-- SendBuffer has found the connection when NotifyClose removes it, and goes on before NotifyClose
-- closes the fd; then `accept` gives the fd again.
unfoldable pub send_and_close : SocketServer → ℕ → List ℕ → Bool → Conn → Wire → SocketServer
unfolding get_conn on_socket_msg remove_conn send_to close_fd remove_event accept_one
send_and_close s fd buff low listener w = elim (get_conn s fd) [
  | none ↦ s
  | some c ↦
      let told = on_socket_msg s (socket_msg_of close fd) c.service_id in
      let sent = (send_to (remove_conn told fd) fd c buff low).1 in
      accept_one (remove_event (close_own sent fd c.is_bind) fd) listener fd w
]

-- What SendBuffer leaves of an fd that has been removed.
record Left (s : SocketServer) (fd : ℕ) (buff : List ℕ) : Type 0 where
  is_conn : s.conns fd ≡ none
  buffer : ConnWriteBuffer
  is_buffer : s.write_buffers fd ≡ some buffer
  waits : is_empty buffer ≡ false
  bytes : waiting buffer.objs ≡ buff

told-Left :
    (s : SocketServer) (fd : ℕ) (buff : List ℕ) (outbox : List (SocketMsg × ℕ))
    → Left s fd buff
    → Left (record s { outbox = outbox }) fd buff
told-Left s fd buff outbox left = record {
  is_conn = left.is_conn;
  buffer = left.buffer;
  is_buffer = left.is_buffer;
  waits = left.waits;
  bytes = left.bytes;
}

asked-Left :
    (s : SocketServer) (fd : ℕ) (c : Conn) (wb : ConnWriteBuffer) (w : Wire)
    → s.conns fd ≡ none
    → is_empty wb ≡ false
    → Left (send_result s fd c (wb, none, true, w)) fd (waiting wb.objs)
asked-Left s fd c wb w e waits =
    let t : SocketServer = record s {
      write_buffers = set_at s.write_buffers fd (some wb);
      wires = set_at s.wires fd w;
    } in
    record {
      is_conn = ap (λ m. m fd) (modify_event-rest t fd true).0 ∙ e;
      buffer = wb;
      is_buffer =
          ap (λ m. m fd) (modify_event-rest t fd true).1 ∙ set_at_self s.write_buffers fd (some wb);
      waits = waits;
      bytes = refl;
    }

result-Left :
    (s : SocketServer) (fd : ℕ) (c : Conn) (wb : ConnWriteBuffer) (warn : Option ℕ) (w : Wire)
    → s.conns fd ≡ none
    → is_empty wb ≡ false
    → Left (send_result s fd c (wb, warn, true, w)) fd (waiting wb.objs)
unfolding on_socket_msg
result-Left s fd c wb none w e waits = asked-Left s fd c wb w e waits
result-Left s fd c wb (some kb) w e waits =
    told-Left (send_result s fd c (wb, none, true, w)) fd _ _ (asked-Left s fd c wb w e waits)

sent-Left :
    (s : SocketServer) (fd : ℕ) (c : Conn) (buff : List ℕ) (low : Bool) (rest : List WriteResult)
    → (s.wires fd).results ≡ again ∷ rest
    → Left (send_to (remove_conn s fd) fd c buff low).1 fd buff
unfolding remove_conn
sent-Left s fd c buff low rest blocks =
    let t = remove_conn s fd in
    let f : buffer_of (t.write_buffers fd) ≡ new_buffer =
      ap buffer_of (set_at_self s.write_buffers fd none) in
    let wb = keep_rest new_buffer buff 0 in
    rw
      (
        send_to-open t fd c new_buffer buff low f refl,
        send_locked-would_block buff low (s.wires fd) rest blocks,
      )
      (subst (Left _ fd) (check_warning-objs wb ∙ append-nil buff)
        (result-Left t fd c _ _ _ (set_at_self s.conns fd none) (check_warning-is_empty wb)))

-- `accept` for an fd that is not in the maps but may have a write buffer.
accept_one-new :
    (s : SocketServer) (listener : Conn) (fd : ℕ) (w : Wire)
    → s.conns fd ≡ none
    → s.epoll fd ≡ none
    → let s' = accept_one s listener fd w in
      (s'.conns fd ≡ some (new_conn fd listener.service_id client))
      × (s'.write_buffers fd ≡ s.write_buffers fd)
      × (s'.epoll fd ≡ some (record { epoll_in = true; epoll_out = false }))
      × (s'.wires fd ≡ w)
unfolding accept_one on_socket_msg add_conn watch_accepted
accept_one-new s listener fd w e f =
    rw (accept_one, e, watch_accepted, f, add_conn, e)
      (set_at_self s.conns fd _, refl, set_at_self s.epoll fd _, set_at_self s.wires fd w)

-- A new connection on `fd` that has data which was sent before it, and what it is sent stays unwritten.
abbrev pub HasOldData : SocketServer → ℕ → Conn → List ℕ → Wire → List (List ℕ × Bool) → Type 0
HasOldData s fd listener buff w sends =
    (s.conns fd ≡ some (new_conn fd listener.service_id client))
    × (wb : ConnWriteBuffer) × (s.write_buffers fd ≡ some wb)
    × (waiting wb.objs ≡ buff)
    × (((send_all sends s fd).wires fd).bytes ≡ w.bytes)

accepted-HasOldData :
    (s : SocketServer) (fd : ℕ) (c listener : Conn) (buff : List ℕ) (low : Bool) (w : Wire)
    (rest : List WriteResult) (sends : List (List ℕ × Bool))
    → (s.wires fd).results ≡ again ∷ rest
    → let told = on_socket_msg s (socket_msg_of close fd) c.service_id in
      let sent = (send_to (remove_conn told fd) fd c buff low).1 in
      HasOldData
        (accept_one (remove_event (close_fd sent fd) fd) listener fd w)
        fd
        listener
        buff
        w
        sends
unfolding close_fd remove_event on_socket_msg
accepted-HasOldData s fd c listener buff low w rest sends blocks =
    let told = on_socket_msg s (socket_msg_of close fd) c.service_id in
    let sent = (send_to (remove_conn told fd) fd c buff low).1 in
    let left = sent-Left told fd c buff low rest blocks in
    let closed = remove_event (close_fd sent fd) fd in
    let (is_conn, same, watch, is_wire) =
      accept_one-new closed listener fd w left.is_conn
        (set_at_self (close_fd sent fd).epoll fd none) in
    let stuck : Stuck (accept_one closed listener fd w) fd w.bytes = record {
      conn = new_conn fd listener.service_id client;
      buffer = left.buffer;
      is_conn = is_conn;
      is_buffer = same ∙ left.is_buffer;
      waits = left.waits;
      written = ap (λ x. x.bytes) is_wire;
      unwatched = (_, watch, refl);
    } in
    (
      is_conn,
      left.buffer,
      same ∙ left.is_buffer,
      left.bytes,
      (send_all-Stuck sends _ fd w.bytes stuck).written,
    )

-- If a service sends while its connection is closed, at a time when `write` would block, and the fd
-- is given to a new connection, then the write buffer of the new connection has the data that was
-- sent to the old one, and nothing is written to the new connection, whatever is sent to it.
pub send_and_close-keeps :
    (s : SocketServer) (fd : ℕ) (c listener : Conn) (buff : List ℕ) (low : Bool) (w : Wire)
    (rest : List WriteResult) (sends : List (List ℕ × Bool))
    → s.conns fd ≡ some c
    → c.is_bind ≡ false
    → (s.wires fd).results ≡ again ∷ rest
    → HasOldData (send_and_close s fd buff low listener w) fd listener buff w sends
unfolding send_and_close
send_and_close-keeps s fd c listener buff low w rest sends e own blocks =
    rw (send_and_close, e, own) (accepted-HasOldData s fd c listener buff low w rest sends blocks)
