-- ===== src/Socket/Buffer.antt =====
-- The write buffer of a connection in src/starnet_socket_server.cpp: what is done under its lock.
-- The size of a buffer is an int, so it is below 2^31.
pub mod Sent
pub mod Flush
pub mod Order
pub mod Send
pub mod Runs
pub mod Waits
mod Tests
use starnet.Common.{
  ℕ, suc, ◌+◌, ◌-◌, ◌*◌, ◌/◌, Bool, true, false, ◌&&◌, Option, none, some, List, [], ◌∷◌, ◌++◌,
  length, take, drop, ltb, leb, ◌==◌, if◌then◌else◌,
}
use starnet.Socket.{WriteResult, takes, again, fails, Wire, WriteObject, ConnWriteBuffer}

-- What a call of `write` returns: a count, -1 with EAGAIN, or -1 with another error.
pub data Written : Type 0 where
  wrote : ℕ → Written
  would_block : Written
  broke : Written

-- Where the results end, `write` would block.
unfoldable pub write : Wire → List ℕ → Written × Wire
write w buff = elim w.results [
  | [] ↦ (would_block, w)
  | takes n ∷ rest ↦ (
    wrote (length (take (suc n) buff)),
    record w { bytes = w.bytes ++ take (suc n) buff; results = rest },
  )
  | again ∷ rest ↦ (would_block, record w { results = rest })
  | fails ∷ rest ↦ (broke, record w { results = rest })
]

abbrev pub new_buffer : ConnWriteBuffer
new_buffer = record { objs = []; low = []; is_closing = false; wb_size = 0; warn_size = 0 }

abbrev pub is_nil : List WriteObject → Bool
is_nil [] = true
is_nil (o ∷ os) = false

-- high and low are both empty.
abbrev pub is_empty : ConnWriteBuffer → Bool
is_empty wb = is_nil wb.objs && is_nil wb.low

-- The rest of a buffer that `write` has not taken is queued, and EPOLLOUT is asked for.
abbrev pub keep_rest : ConnWriteBuffer → List ℕ → ℕ → ConnWriteBuffer
keep_rest wb buff n = record wb {
  objs = wb.objs ++ (record { start = n; buff = buff } ∷ []);
  wb_size = wb.wb_size + (length buff - n);
}

-- The Boolean says that EPOLLOUT is asked for.
unfoldable pub entire_write_when_empty :
    ConnWriteBuffer → List ℕ → Wire → ConnWriteBuffer × Bool × Wire
unfolding write
entire_write_when_empty wb buff w =
    let (result, w') = write w buff in
    elim result [
      | wrote n ↦
          if n == length buff
          then (wb, false, w')
          else if ltb 0 n && ltb n (length buff)
          then (keep_rest wb buff n, true, w')
          else (wb, false, w')
      | would_block ↦ (keep_rest wb buff 0, true, w')
      | broke ↦ (wb, false, w')
    ]

unfoldable pub entire_write_when_not_empty : ConnWriteBuffer → List ℕ → Bool → ConnWriteBuffer
entire_write_when_not_empty wb buff low =
    let obj : WriteObject = record { start = 0; buff = buff } in
    if low
    then record wb { low = wb.low ++ (obj ∷ []); wb_size = wb.wb_size + length buff }
    else record wb { objs = wb.objs ++ (obj ∷ []); wb_size = wb.wb_size + length buff }

-- WARNING_SIZE
abbrev pub warning_size : ℕ
warning_size = 1048576

-- The next threshold and the KB of a warning, where one is due.
unfoldable pub check_warning : ConnWriteBuffer → ConnWriteBuffer × Option ℕ
check_warning wb =
    if leb warning_size wb.wb_size && leb wb.warn_size wb.wb_size
    then (
      record wb { warn_size = if wb.warn_size == 0 then warning_size * 2 else wb.warn_size * 2 },
      some ((wb.wb_size + 1023) / 1024),
    )
    else (wb, none)

-- The locked part of `SendBuffer`, if the buffer is not closing.
unfoldable pub send_locked :
    ConnWriteBuffer → List ℕ → Bool → Wire → ConnWriteBuffer × Option ℕ × Bool × Wire
unfolding entire_write_when_empty entire_write_when_not_empty check_warning
send_locked wb buff low w =
    if is_empty wb
    then (let (wb', arm, w') = entire_write_when_empty wb buff w in
        let (wb'', warn) = check_warning wb' in (wb'', warn, arm, w'))
    else (let (wb'', warn) = check_warning (entire_write_when_not_empty wb buff low) in
        (wb'', warn, false, w))

-- The results 1, 0 and -1 of `WriteFrontFromList`.
pub data FrontResult : Type 0 where
  whole partly broken : FrontResult

-- `WriteFrontFromList` for the first object: the result, and the bytes that were written.
unfoldable pub write_front : WriteObject → Wire → FrontResult × ℕ × Wire
unfolding write
write_front obj w =
    let rest = drop obj.start obj.buff in
    let (result, w') = write w rest in
    elim result [
      | wrote n ↦
          if n == length rest
          then (whole, n, w')
          else if ltb 0 n && ltb n (length rest)
          then (partly, n, w')
          else (broken, 0, w')
      | would_block ↦ (partly, 0, w')
      | broke ↦ (broken, 0, w')
    ]

-- The loop `while(WriteFrontFromList(...) == 1)`: the list that is left, and `written`.
unfoldable pub flush : List WriteObject → ℕ → Wire → List WriteObject × ℕ × Wire
unfolding write_front
flush [] written w = ([], written, w)
flush (obj ∷ lst) written w =
    let (result, n, w') = write_front obj w in
    elim result [
      | whole ↦ flush lst (written + n) w'
      | partly ↦ (record obj { start = obj.start + n } ∷ lst, written + n, w')
      | broken ↦ (obj ∷ lst, written, w')
    ]

-- The first of low that was not written whole goes to the end of high.
abbrev pub raise_uncomplete : ConnWriteBuffer → List WriteObject → ConnWriteBuffer
raise_uncomplete wb [] = record wb { objs = []; low = [] }
raise_uncomplete wb (obj ∷ rest) = record wb { objs = obj ∷ []; low = rest }

abbrev pub subtract_written : ConnWriteBuffer → ℕ → ConnWriteBuffer
subtract_written wb written = record wb {
  wb_size = wb.wb_size - (if ltb wb.wb_size written then wb.wb_size else written);
}

abbrev pub flush_low : ConnWriteBuffer → List WriteObject × ℕ × Wire → ConnWriteBuffer × Wire
flush_low wb ((o ∷ os), written, w) = (subtract_written (record wb { objs = o ∷ os }) written, w)
flush_low wb ([], written, w) =
    let (left, written', w') = flush wb.low written w in
    (subtract_written (raise_uncomplete wb left) written', w')

-- The locked part of `OnWriteable`.
unfoldable pub writeable_locked : ConnWriteBuffer → Wire → ConnWriteBuffer × Wire
unfolding flush
writeable_locked wb w = flush_low wb (flush wb.objs 0 w)
