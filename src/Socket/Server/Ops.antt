-- ===== src/Socket/Server/Ops.antt =====
-- Runs of the operations of src/starnet_socket_server.cpp, one after another.
use starnet.Common.{ℕ, ◌≡◌, Bool, false, Option, none, some, List, [], ◌∷◌}
use starnet.Socket.{Wire, Conn, ConnType, listen, client, udp, SocketServer}
use starnet.Socket.Server.{send_buffer, linger_close, set_paused}
use starnet.Socket.Server.Open.{accept_one, bind, connect_fd}
use starnet.Socket.Handlers.{
  EpollEvent, Answers, on_event, add_watched, close_conn, set_udp_address, close_all,
}

-- What a service asks for, or epoll tells of.
pub data SocketOp : Type 0 where
  sending : ℕ → List ℕ → Bool → SocketOp
  pausing : Bool → ℕ → SocketOp
  lingering : ℕ → SocketOp
  closing : ℕ → SocketOp
  handling : EpollEvent → Answers → SocketOp
  watching : ℕ → ℕ → ConnType → SocketOp
  addressing : ℕ → Option (List ℕ) → SocketOp
  binding : ℕ → ℕ → Bool → SocketOp
  connecting_to : ℕ → ℕ → Wire → Bool → List ℕ → SocketOp
  closing_all : List ℕ → SocketOp

unfoldable pub apply : SocketOp → SocketServer → SocketServer
unfolding send_buffer set_paused linger_close close_conn on_event add_watched set_udp_address bind
    connect_fd close_all
apply (sending fd buff low) s = (send_buffer s fd buff low).1
apply (pausing paused fd) s = (set_paused paused s fd).1
apply (lingering fd) s = linger_close s fd
apply (closing fd) s = close_conn s fd
apply (handling ev answers) s = on_event s ev answers
apply (watching id fd type) s = add_watched s id fd type
apply (addressing fd addr) s = (set_udp_address s fd addr).1
apply (binding id fd is_dgram) s = (bind s id fd is_dgram).1
apply (connecting_to id fd w at_once ip) s = connect_fd s id fd w at_once ip
apply (closing_all fds) s = close_all s fds

abbrev pub is_connecting : Option Conn → Bool
is_connecting none = false
is_connecting (some c) = c.connecting

-- Each fd that `accept` gives is not in use.
abbrev pub AreFree : SocketServer → Conn → List (ℕ × Wire) → Type 0
AreFree s listener [] = Unit {0}
AreFree s listener ((fd, w) ∷ fds) =
    (s.conns fd ≡ none) × AreFree (accept_one s listener fd w) listener fds

-- Only a listener accepts.
abbrev pub AreFreeAs : SocketServer → Conn → ConnType → List (ℕ × Wire) → Type 0
AreFreeAs s c listen fds = AreFree s c fds
AreFreeAs s c client fds = Unit {0}
AreFreeAs s c udp fds = Unit {0}

abbrev pub AreFreeFor : SocketServer → Option Conn → List (ℕ × Wire) → Type 0
AreFreeFor s none fds = Unit {0}
AreFreeFor s (some c) fds = AreFreeAs s c c.type fds

-- Nothing is sent and reading is not paused before a connection is finished, and the system gives
-- an fd that is not in use.
abbrev pub IsAllowed : SocketOp → SocketServer → Type 0
IsAllowed (sending fd buff low) s = is_connecting (s.conns fd) ≡ false
IsAllowed (pausing paused fd) s = is_connecting (s.conns fd) ≡ false
IsAllowed (lingering fd) s = Unit {0}
IsAllowed (closing fd) s = Unit {0}
IsAllowed (handling ev answers) s = AreFreeFor s (s.conns ev.fd) answers.accepted
IsAllowed (watching id fd type) s = s.conns fd ≡ none
IsAllowed (addressing fd addr) s = Unit {0}
IsAllowed (binding id fd is_dgram) s = Unit {0}
IsAllowed (connecting_to id fd w at_once ip) s = s.conns fd ≡ none
IsAllowed (closing_all fds) s = Unit {0}

-- What Init leaves.
abbrev pub started : (ℕ → Wire) → SocketServer
started wires = record {
  conns = λ fd. none;
  write_buffers = λ fd. none;
  epoll = λ fd. none;
  wires = wires;
  closed = [];
  outbox = [];
}

abbrev pub run_ops : List SocketOp → SocketServer → SocketServer
run_ops [] s = s
run_ops (op ∷ ops) s = run_ops ops (apply op s)

abbrev pub IsAllowedRun : List SocketOp → SocketServer → Type 0
IsAllowedRun [] s = Unit {0}
IsAllowedRun (op ∷ ops) s = IsAllowed op s × IsAllowedRun ops (apply op s)
