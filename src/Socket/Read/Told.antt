-- ===== src/Socket/Read/Told.antt =====
-- What ReadData of src/starnet_socket_server.cpp tells the service of a connection.
use starnet.Common.{
  ℕ, suc, ◌≡◌, refl, sym, ap, subst, ◌∙◌, Bool-cases, inl, inr, Option, none, some, List, [], ◌∷◌,
  ◌++◌, arith, All, append-nil, append_assoc,
}
use starnet.Msg.{SocketMsg, data_in, close}
use starnet.Socket.{Conn, SocketServer}
use starnet.Socket.Server.{
  get_conn, set_conn, update_conn, on_socket_msg, socket_msg_of, remove_conn, close_fd,
  remove_event, notify_close,
}
use starnet.Socket.Server.Events.{set_at_self}
use starnet.Socket.Read.{
  Incoming, ReadEnd, drained, waiting, closed, Reading, read_loop, to_read, tell_data, after_read,
  read_data,
}
use starnet.Socket.Read.Bounds.{IsReadSize}
use starnet.Socket.Read.Loop.{IsRead, Stopped, Fills, ReadsAll, read_loop-ReadsAll}

-- The messages of a connection: one of data for each buffer, and one when it is closed.
abbrev pub data_messages : Conn → List (List ℕ) → List (SocketMsg × ℕ)
data_messages c [] = []
data_messages c (buff ∷ buffs) =
    (record (socket_msg_of data_in c.fd) { buff = buff }, c.service_id) ∷ data_messages c buffs

abbrev pub end_messages : Conn → ReadEnd → List (SocketMsg × ℕ)
end_messages c drained = []
end_messages c waiting = []
end_messages c closed = (socket_msg_of close c.fd, c.service_id) ∷ []

abbrev pub IsSized : Option Conn → Type 0
IsSized none = Unit
IsSized (some c) = IsReadSize c.read_size

tell_data-outbox :
    (s : SocketServer) (c : Conn) (buffs : List (List ℕ))
    → (tell_data s c buffs).outbox ≡ s.outbox ++ data_messages c buffs
unfolding tell_data on_socket_msg
tell_data-outbox s c [] = sym (append-nil s.outbox)
tell_data-outbox s c (buff ∷ buffs) =
    tell_data-outbox
      (on_socket_msg s (record (socket_msg_of data_in c.fd) { buff = buff }) c.service_id) c buffs
    ∙ append_assoc s.outbox _ (data_messages c buffs)

tell_data-conns :
    (s : SocketServer) (c : Conn) (buffs : List (List ℕ)) → (tell_data s c buffs).conns ≡ s.conns
unfolding tell_data on_socket_msg
tell_data-conns s c [] = refl
tell_data-conns s c (buff ∷ buffs) =
    tell_data-conns
      (on_socket_msg s (record (socket_msg_of data_in c.fd) { buff = buff }) c.service_id) c buffs

module _ (s : SocketServer) (fd : ℕ) (c : Conn) (f : Conn → Conn) (e : s.conns fd ≡ some c) where
  update_conn-conns : (update_conn s fd f).conns fd ≡ some (f c)
  unfolding get_conn set_conn
  update_conn-conns = rw (update_conn, e) (set_at_self s.conns fd (some (f c)))

  update_conn-outbox : (update_conn s fd f).outbox ≡ s.outbox
  unfolding get_conn set_conn
  update_conn-outbox = rw (update_conn, e) refl

module _ (s : SocketServer) (c : Conn) where
  notify_close-outbox :
      (notify_close s c).outbox ≡ s.outbox ++ ((socket_msg_of close c.fd, c.service_id) ∷ [])
  unfolding notify_close on_socket_msg remove_conn close_fd remove_event
  notify_close-outbox = elim (Bool-cases c.is_bind) [
    | inl e ↦ rw (notify_close, e) refl
    | inr e ↦ rw (notify_close, e) refl
  ]

  notify_close-conns : (notify_close s c).conns c.fd ≡ none
  unfolding notify_close on_socket_msg remove_conn close_fd remove_event
  notify_close-conns = elim (Bool-cases c.is_bind) [
    | inl e ↦ rw (notify_close, e) (set_at_self s.conns c.fd none)
    | inr e ↦ rw (notify_close, e) (set_at_self s.conns c.fd none)
  ]

module _ (s : SocketServer) (c : Conn) (buffs : List (List ℕ)) (size : ℕ) (rest : List Incoming)
    (e : s.conns c.fd ≡ some c) where
  told : SocketServer
  told = tell_data s c buffs

  sized : Conn → Conn
  sized c' = record c' { read_size = size }

  told-conns : told.conns c.fd ≡ some c
  unfolding told
  told-conns = ap (λ m. m c.fd) (tell_data-conns s c buffs) ∙ e

  sized-outbox : (update_conn told c.fd sized).outbox ≡ s.outbox ++ data_messages c buffs
  unfolding told
  sized-outbox = update_conn-outbox told c.fd c sized told-conns ∙ tell_data-outbox s c buffs

  after_read-outbox :
      (end : ReadEnd)
      → (after_read s c (buffs, size, end, rest)).0.outbox
        ≡ (s.outbox ++ data_messages c buffs) ++ end_messages c end
  unfolding told sized
  after_read-outbox drained = sized-outbox ∙ sym (append-nil (s.outbox ++ data_messages c buffs))
  after_read-outbox waiting = sized-outbox ∙ sym (append-nil (s.outbox ++ data_messages c buffs))
  after_read-outbox closed =
      notify_close-outbox (update_conn told c.fd sized) c
      ∙ ap (λ x. x ++ end_messages c closed) sized-outbox

  after_read-IsSized :
      IsReadSize size
      → (end : ReadEnd) → IsSized ((after_read s c (buffs, size, end, rest)).0.conns c.fd)
  unfolding told sized
  after_read-IsSized h drained =
      subst IsSized (sym (update_conn-conns told c.fd c sized told-conns)) h
  after_read-IsSized h waiting =
      subst IsSized (sym (update_conn-conns told c.fd c sized told-conns)) h
  after_read-IsSized h closed =
      subst IsSized (sym (notify_close-conns (update_conn told c.fd sized) c)) tt

-- Whatever there is to read on a connection whose reading size is 8192 or was doubled up to seven
-- times: the loop of ReadData ends; it has read the bytes at the front, in order, and ends at the
-- end or an error (`closed`), where there is nothing for now (`waiting`), or after the one read that
-- does not fill its buffer (`drained`), each read before having filled its own; the service is sent
-- a message for each buffer, which has a byte and at most 1 MB, and one of close if and only if the
-- loop met the end or an error; and the reading size is again one of those.
pub read_data-tells_all :
    (s : SocketServer) (c : Conn) (incoming : List Incoming)
    → s.conns c.fd ≡ some c
    → IsReadSize c.read_size
    → let (s', rest) = read_data s c incoming in
      (buffs : List (List ℕ)) × (end : ReadEnd) × (size : ℕ) × (read_loop
          (suc (to_read incoming))
          c.read_size
          incoming
        ≡ some (buffs, size, end, rest))
      × Stopped incoming buffs end rest
      × Fills c.read_size buffs end
      × (s'.outbox ≡ (s.outbox ++ data_messages c buffs) ++ end_messages c end)
      × All IsRead buffs
      × IsSized (s'.conns c.fd)
unfolding read_data
read_data-tells_all s c incoming e sized =
    found (read_loop (suc (to_read incoming)) c.read_size incoming) refl
      (read_loop-ReadsAll (suc (to_read incoming)) c.read_size incoming (omega arith) sized)
  where
    found :
        (out : Option Reading)
        → read_loop (suc (to_read incoming)) c.read_size incoming ≡ out
        → ReadsAll c.read_size incoming out
        → let (s', rest) = read_data s c incoming in
          (buffs : List (List ℕ)) × (end : ReadEnd) × (size : ℕ) × (read_loop
              (suc (to_read incoming))
              c.read_size
              incoming
            ≡ some (buffs, size, end, rest))
          × Stopped incoming buffs end rest
          × Fills c.read_size buffs end
          × (s'.outbox ≡ (s.outbox ++ data_messages c buffs) ++ end_messages c end)
          × All IsRead buffs
          × IsSized (s'.conns c.fd)
    found none f h = elim h [ ]
    found (some (buffs, size, end, rest)) f (stopped, sized', all, fills) =
        rw (read_data, f)
          (
            buffs,
            end,
            size,
            refl,
            stopped,
            fills,
            after_read-outbox s c buffs size rest e end,
            all,
            after_read-IsSized s c buffs size rest e sized' end,
          )
