-- ===== src/Socket/Read/Tests.antt =====
-- Reads of src/starnet_socket_server.cpp on a connection with the fd 5.
use starnet.Common.{ℕ, suc, ◌≡◌, refl, some, List, [], ◌∷◌, ◌++◌, All, arith}
use starnet.Socket.{Conn, client, SocketServer}
use starnet.Socket.Server.{new_conn, add_conn}
use starnet.Socket.Server.Ops.{started}
use starnet.Socket.Read.{
  Incoming, gives, ends, ReadEnd, drained, closed, to_read, read_loop, read_data,
}
use starnet.Socket.Read.Loop.{IsRead, Stopped, Fills}
use starnet.Socket.Read.Told.{data_messages, end_messages, IsSized, read_data-tells_all}

abbrev conn : Conn
conn = new_conn 5 1 client

abbrev engine : SocketServer
engine = add_conn (started (λ fd. record { bytes = []; results = [] })) 5 1 client

abbrev incoming : List Incoming
incoming = gives 1 (2 ∷ 3 ∷ []) ∷ ends ∷ []

-- The end that comes right after bytes that do not fill the buffer is not read.
read_loop_leaves_end :
    read_loop 9 8192 incoming ≡ some ((1 ∷ 2 ∷ 3 ∷ []) ∷ [], 8192, drained, ends ∷ [])
unfolding read_loop
read_loop_leaves_end = refl

-- A buffer that is filled is doubled, and the end is met.
read_loop_doubles :
    read_loop 9 2 (gives 1 (2 ∷ []) ∷ ends ∷ []) ≡ some ((1 ∷ 2 ∷ []) ∷ [], 4, closed, [])
unfolding read_loop
read_loop_doubles = refl

read_data-tells_all_example :
    let (s', rest) = read_data engine conn incoming in
    (buffs : List (List ℕ)) × (end : ReadEnd) × (size : ℕ) × (read_loop
        (suc (to_read incoming))
        8192
        incoming
      ≡ some (buffs, size, end, rest))
    × Stopped incoming buffs end rest
    × Fills 8192 buffs end
    × (s'.outbox ≡ (engine.outbox ++ data_messages conn buffs) ++ end_messages conn end)
    × All IsRead buffs
    × IsSized (s'.conns 5)
unfolding add_conn
read_data-tells_all_example = read_data-tells_all engine conn incoming refl (0, omega arith, refl)
