-- ===== src/Socket/Read.antt =====
-- Reading in src/starnet_socket_server.cpp: ReadData. The capacity of the buffer is left out: it is
-- grown to the size before each read. The listener is set.
mod Bounds
mod Loop
mod Told
mod Tests
use starnet.Common.{
  ℕ, zero, suc, ◌+◌, ◌*◌, ◌/◌, Bool, true, false, ◌&&◌, Option, none, some, List, [], ◌∷◌, ◌++◌,
  length, take, drop, ltb, ◌==◌, if◌then◌else◌,
}
use starnet.Msg.{data_in}
use starnet.Socket.{Conn, SocketServer}
use starnet.Socket.Server.{
  get_conn, set_conn, update_conn, on_socket_msg, socket_msg_of, notify_close,
}

-- What there is to read: a byte and more, the end, nothing for now (EAGAIN or EINTR), or another error.
pub data Incoming : Type 0 where
  gives : ℕ → List ℕ → Incoming
  ends : Incoming
  blocks : Incoming
  breaks : Incoming

-- What `read` returns.
pub data Got : Type 0 where
  got : List ℕ → Got
  eof : Got
  would_block : Got
  broke : Got

-- What is too long for the buffer is read the next time.
abbrev pub put_back : List ℕ → List Incoming → List Incoming
put_back [] rest = rest
put_back (b ∷ bs) rest = gives b bs ∷ rest

unfoldable pub read : ℕ → List Incoming → Got × List Incoming
read sz [] = (would_block, [])
read sz (gives b bs ∷ rest) = (got (take sz (b ∷ bs)), put_back (drop sz (b ∷ bs)) rest)
read sz (ends ∷ rest) = (eof, rest)
read sz (blocks ∷ rest) = (would_block, rest)
read sz (breaks ∷ rest) = (broke, rest)

-- READ_BUFFER_MIN and READ_BUFFER_MAX
abbrev pub read_buffer_min : ℕ
read_buffer_min = 8192

abbrev pub read_buffer_max : ℕ
read_buffer_max = 1048576

-- The size after a read that fills the buffer.
abbrev pub full_size : ℕ → ℕ
full_size size =
    if ltb size read_buffer_max
    then if ltb read_buffer_max (size * 2) then read_buffer_max else size * 2
    else size

-- The size after one that does not.
abbrev pub short_size : ℕ → ℕ → ℕ
short_size size len = if ltb read_buffer_min size && ltb (len * 2) size then size / 2 else size

-- Why the loop ends: a read that does not fill the buffer, nothing for now, or the end or an error.
pub data ReadEnd : Type 0 where
  drained waiting closed : ReadEnd

-- The buffers that are read, the size after them, why it ends, and what there still is to read.
abbrev pub Reading : Type 0
Reading = List (List ℕ) × ℕ × ReadEnd × List Incoming

abbrev pub with_buff : List ℕ → Option Reading → Option Reading
with_buff buff none = none
with_buff buff (some (buffs, size, end, incoming)) = some (buff ∷ buffs, size, end, incoming)

-- The loop `for(;;)`, on fuel.
unfoldable pub read_loop : ℕ → ℕ → List Incoming → Option Reading
unfolding read
read_loop zero size incoming = none
read_loop (suc fuel) size incoming =
    let (result, rest) = read size incoming in
    let again = read_loop fuel (full_size size) rest in
    elim result [
      | got buff ↦
          if length buff == size
          then with_buff buff again
          else some (buff ∷ [], short_size size (length buff), drained, rest)
      | eof ↦ some ([], size, closed, rest)
      | would_block ↦ some ([], size, waiting, rest)
      | broke ↦ some ([], size, closed, rest)
    ]

-- Each read takes a byte or a result.
abbrev pub to_read : List Incoming → ℕ
to_read [] = 0
to_read (gives b bs ∷ rest) = 2 + length bs + to_read rest
to_read (ends ∷ rest) = 1 + to_read rest
to_read (blocks ∷ rest) = 1 + to_read rest
to_read (breaks ∷ rest) = 1 + to_read rest

-- A message of data for each buffer.
unfoldable pub tell_data : SocketServer → Conn → List (List ℕ) → SocketServer
unfolding on_socket_msg
tell_data s c [] = s
tell_data s c (buff ∷ buffs) =
    tell_data (on_socket_msg s (record (socket_msg_of data_in c.fd) { buff = buff }) c.service_id) c
      buffs

-- The reading size of the connection, and NotifyClose after the end or an error.
abbrev pub after_read : SocketServer → Conn → Reading → SocketServer × List Incoming
after_read s c (buffs, size, end, incoming) =
    let sized = update_conn (tell_data s c buffs) c.fd (λ c'. record c' { read_size = size }) in
    let s' : SocketServer = elim end [
      | drained ↦ sized
      | waiting ↦ sized
      | closed ↦ notify_close sized c
    ] in
    (s', incoming)

unfoldable pub read_data : SocketServer → Conn → List Incoming → SocketServer × List Incoming
unfolding read_loop tell_data get_conn set_conn notify_close
read_data s c incoming = elim (read_loop (suc (to_read incoming)) c.read_size incoming) [
  | none ↦ (s, incoming)
  | some reading ↦ after_read s c reading
]
