-- ===== src/Socket/Server/Tests.antt =====
-- Runs of src/starnet_socket_server.cpp on a connection with the fd 5.
use starnet.Common.{◌≡◌, refl, true, false, none, some, List, [], ◌∷◌}
use starnet.Socket.{WriteResult, takes, again, Wire, Conn, client, listen, Interest, SocketServer}
use starnet.Socket.Server.{has_data, new_conn, send_buffer, on_rw_write}
use starnet.Socket.Server.Open.{connect_fd}
use starnet.Socket.Handlers.{Answers}
use starnet.Socket.Server.Ops.{SocketOp, sending, pausing, handling, connecting_to, started}
use starnet.Socket.Server.Connecting.{send_all, send_all-unwatched}
use starnet.Socket.Server.Reuse.{send_and_close, HasOldData, send_and_close-keeps}

abbrev wire : List WriteResult → Wire
wire results = record { bytes = []; results = results }

-- The peer's address is 7.
abbrev answers : Answers
answers = record { so_error = none; ip = 7 ∷ []; incoming = []; datagrams = []; accepted = [] }

-- Connected, two of three bytes wait, and reading is paused.
abbrev ops : List SocketOp
ops =
    connecting_to 1 5 (wire (takes 0 ∷ [])) false []
    ∷ handling (record { fd = 5; is_read = false; is_write = true }) answers
    ∷ sending 5 (1 ∷ 2 ∷ 3 ∷ []) false
    ∷ pausing true 5
    ∷ []

abbrev paused_conn : Conn
paused_conn = record (new_conn 5 1 client) { paused = true }

-- The bytes of a service, a listener, and an fd on which `write` would block.
abbrev listener : Conn
listener = new_conn 3 1 listen

abbrev connecting_conn : Conn
connecting_conn = record (new_conn 5 1 client) { connecting = true }

abbrev blocked : SocketServer
blocked = connect_fd (started (λ fd. wire [])) 1 5 (wire (again ∷ [])) false []

send_all-unwatched_example :
    let s =
      send_all
        ((8 ∷ [], false) ∷ (9 ∷ [], true) ∷ [])
        (on_rw_write (send_buffer blocked 5 (1 ∷ 2 ∷ []) false).1 5 none (7 ∷ []))
        5 in
    ((s.wires 5).bytes ≡ [])
    × (has_data (s.write_buffers 5) ≡ true)
    × (ev : Interest) × (s.epoll 5 ≡ some ev)
    × (ev.epoll_out ≡ false)
unfolding connect_fd
send_all-unwatched_example =
    send_all-unwatched blocked 5 connecting_conn (record { epoll_in = true; epoll_out = true }) []
      (1 ∷ 2 ∷ []) (7 ∷ []) false ((8 ∷ [], false) ∷ (9 ∷ [], true) ∷ []) refl refl refl refl refl
      refl

send_and_close-keeps_example :
    HasOldData
      (send_and_close blocked 5 (1 ∷ 2 ∷ []) false listener (wire []))
      5
      listener
      (1 ∷ 2 ∷ [])
      (wire [])
      ((8 ∷ [], false) ∷ [])
unfolding connect_fd
send_and_close-keeps_example =
    send_and_close-keeps blocked 5 connecting_conn listener (1 ∷ 2 ∷ []) false (wire []) []
      ((8 ∷ [], false) ∷ []) refl refl refl
