-- ===== src/Socket/Buffer/Sent.antt =====
-- Runs of the write buffer in src/starnet_socket_server.cpp, and the order of what was sent.
use starnet.Common.{ℕ, Bool, true, false, List, [], ◌∷◌, ◌++◌, drop, if◌then◌else◌}
use starnet.Socket.{Wire, WriteObject, ConnWriteBuffer}
use starnet.Socket.Buffer.{
  wrote, would_block, broke, write, is_empty, send_locked, writeable_locked,
}

-- What was sent: with low priority or not, and the bytes.
abbrev pub Sent : Type 0
Sent = Bool × List ℕ

abbrev pub bytes_of : List Sent → List ℕ
bytes_of [] = []
bytes_of ((low, buff) ∷ sents) = buff ++ bytes_of sents

-- Those of one priority.
abbrev pub of_priority : Bool → List Sent → List Sent
of_priority low [] = []
of_priority true ((true, buff) ∷ sents) = (true, buff) ∷ of_priority true sents
of_priority true ((false, buff) ∷ sents) = of_priority true sents
of_priority false ((true, buff) ∷ sents) = of_priority false sents
of_priority false ((false, buff) ∷ sents) = (false, buff) ∷ of_priority false sents

-- The bytes that wait in a list.
abbrev pub waiting : List WriteObject → List ℕ
waiting [] = []
waiting (obj ∷ lst) = drop obj.start obj.buff ++ waiting lst

pub data BufferOp : Type 0 where
  send : Bool → List ℕ → BufferOp
  writeable : BufferOp

-- A send is lost if nothing waits and `write` fails with another error than EAGAIN.
abbrev pub is_lost : ConnWriteBuffer → List ℕ → Wire → Bool
is_lost wb buff w = elim (write w buff).0 [
  | wrote n ↦ false
  | would_block ↦ false
  | broke ↦ is_empty wb
]

-- A run of `SendBuffer` and `OnWriteable`: what is left, and what was sent and not lost.
unfoldable pub run :
    List BufferOp → ConnWriteBuffer → List Sent → Wire → ConnWriteBuffer × List Sent × Wire
unfolding send_locked writeable_locked write
run [] wb sents w = (wb, sents, w)
run (send low buff ∷ ops) wb sents w =
    let (wb', warn, arm, w') = send_locked wb buff low w in
    run ops wb' (if is_lost wb buff w then sents else sents ++ ((low, buff) ∷ [])) w'
run (writeable ∷ ops) wb sents w = let (wb', w') = writeable_locked wb w in run ops wb' sents w'
