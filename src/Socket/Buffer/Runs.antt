-- ===== src/Socket/Buffer/Runs.antt =====
-- Runs of SendBuffer and OnWriteable of src/starnet_socket_server.cpp keep the order.
use starnet.Common.{
  ℕ, ◌+◌, ◌≡◌, refl, sym, ap, ◌∙◌, Bool, false, List, [], ◌∷◌, ◌++◌, map, append-nil, append_assoc,
  drop, length, arith, length-append,
}
use starnet.Socket.{WriteResult, Wire, WriteObject, ConnWriteBuffer}
use starnet.Socket.Buffer.{
  subtract_written, raise_uncomplete, flush, flush_low, writeable_locked, new_buffer,
}
use starnet.Socket.Buffer.Sent.{
  Sent, bytes_of, of_priority, waiting, BufferOp, send, writeable, run,
}
use starnet.Socket.Buffer.Flush.{Keeps, flush-Keeps, fresh, Cuts, flush-Cuts}
use starnet.Socket.Buffer.Order.{IsOrdered, of_priority-append, bytes_of-append}
use starnet.Socket.Buffer.Send.{send_locked-IsOrdered}

subtract_size :
    (wb : ConnWriteBuffer) (k n : ℕ) → k + n ≡ wb.wb_size → (subtract_written wb k).wb_size ≡ n
subtract_size wb k n e = ground (arith, e)

append-nil_right : (a b : List Sent) → a ++ b ≡ [] → b ≡ []
append-nil_right [] b e = e
append-nil_right (s ∷ a) b e = absurd (cc e)

-- High is written, and low is flushed as far as it goes.
flush_low-IsOrdered :
    (wb : ConnWriteBuffer) (sents : List Sent) (w w' w'' : Wire) (k k' : ℕ) (lst : List WriteObject)
    (o : IsOrdered wb sents w)
    → w'.bytes ≡ bytes_of o.front
    → k + length (waiting wb.low) ≡ wb.wb_size
    → Keeps wb.low k w' (lst, k', w'')
    → Cuts o.back w' (lst, k', w'')
    → IsOrdered (subtract_written (raise_uncomplete wb lst) k') sents w''
flush_low-IsOrdered wb sents w w' w'' k k' [] o front total (bytes, count) cut =
    let size = subtract_size (raise_uncomplete wb []) k' 0 (omega (arith, count, total)) in
    record {
      front = o.front ++ o.back;
      back = [];
      bytes =
          append-nil w''.bytes
          ∙ cut
          ∙ ap (λ xs. xs ++ bytes_of o.back) front
          ∙ sym (bytes_of-append o.front o.back);
      unbegun = refl;
      no_high = refl;
      order = λ p. ap (of_priority p) (append-nil (o.front ++ o.back)) ∙ o.order p;
      size = size ∙ omega arith;
    }
flush_low-IsOrdered wb sents w w' w'' k k' (obj ∷ lst) o front total (bytes, count)
      (moved, kept, split, left, took) =
    let rest = drop obj.start obj.buff in
    let n = length (waiting (obj ∷ [])) + length (waiting lst) in
    let size =
      subtract_size (raise_uncomplete wb (obj ∷ lst)) k' n
        (omega (arith, count, total, length-append rest (waiting lst), length-append rest [])) in
    record {
      front = o.front ++ moved;
      back = kept;
      bytes =
          ap (λ xs. w''.bytes ++ xs) (append-nil rest)
          ∙ took
          ∙ ap (λ xs. xs ++ bytes_of moved) front
          ∙ sym (bytes_of-append o.front moved);
      unbegun = left;
      no_high = append-nil_right (of_priority false moved) (of_priority false kept) (
          sym (of_priority-append false moved kept)
          ∙ ap (of_priority false) (sym split)
          ∙ o.no_high);
      order = λ p.
          ap (of_priority p)
            (append_assoc o.front moved kept ∙ ap (λ xs. o.front ++ xs) (sym split))
          ∙ o.order p;
      size = size;
    }

writeable_locked-IsOrdered :
    (wb : ConnWriteBuffer) (sents : List Sent) (w : Wire)
    → IsOrdered wb sents w
    → IsOrdered (writeable_locked wb w).0 sents (writeable_locked wb w).1
unfolding writeable_locked
writeable_locked-IsOrdered wb sents w o =
    by_objs (flush wb.objs 0 w).0 (flush wb.objs 0 w).1 (flush wb.objs 0 w).2
      (flush-Keeps wb.objs 0 w) refl refl refl
  where
    by_objs :
        (lst : List WriteObject) (k : ℕ) (w' : Wire)
        → Keeps wb.objs 0 w (lst, k, w')
        → (flush wb.objs 0 w).0 ≡ lst
        → (flush wb.objs 0 w).1 ≡ k
        → (flush wb.objs 0 w).2 ≡ w'
        → IsOrdered (writeable_locked wb w).0 sents (writeable_locked wb w).1
    by_objs (obj ∷ lst) k w' (bytes, count) e f g =
        let rest = drop obj.start obj.buff in
        rw (writeable_locked, flush_low, e, f, g)
          (record {
            front = o.front;
            back = o.back;
            bytes = bytes ∙ o.bytes;
            unbegun = o.unbegun;
            no_high = o.no_high;
            order = o.order;
            size =
                subtract_size wb k (length (waiting (obj ∷ lst)) + length (waiting wb.low))
                  (omega (arith, count, o.size, length-append rest (waiting lst)));
          })
    by_objs [] k w' (bytes, count) e f g =
        let keeps = flush-Keeps wb.low k w' in
        let cuts : Cuts o.back w' (flush wb.low k w') = rw o.unbegun (flush-Cuts o.back k w') in
        rw (writeable_locked, flush_low, e, f, g)
          (flush_low-IsOrdered wb sents w w' (flush wb.low k w').2 k (flush wb.low k w').1
            (flush wb.low k w').0 o (sym (append-nil w'.bytes) ∙ bytes ∙ o.bytes)
            (omega (arith, count, o.size)) keeps cuts)

run-IsOrdered :
    (ops : List BufferOp) (wb : ConnWriteBuffer) (sents : List Sent) (w : Wire)
    → IsOrdered wb sents w
    → let (wb', sents', w') = run ops wb sents w in IsOrdered wb' sents' w'
unfolding run
run-IsOrdered [] wb sents w o = o
run-IsOrdered (send low buff ∷ ops) wb sents w o =
    run-IsOrdered ops _ _ _ (send_locked-IsOrdered wb sents w low buff o)
run-IsOrdered (writeable ∷ ops) wb sents w o =
    run-IsOrdered ops _ sents _ (writeable_locked-IsOrdered wb sents w o)

waiting-fresh : (back : List Sent) → waiting (map fresh back) ≡ bytes_of back
waiting-fresh [] = refl
waiting-fresh ((low, buff) ∷ back) = ap (λ xs. buff ++ xs) (waiting-fresh back)

IsOrdered-bytes :
    (wb : ConnWriteBuffer) (sents : List Sent) (w : Wire) (o : IsOrdered wb sents w)
    → w.bytes ++ waiting wb.objs ++ waiting wb.low ≡ bytes_of (o.front ++ o.back)
IsOrdered-bytes wb sents w o =
    ap (λ xs. xs ++ waiting wb.low) o.bytes
    ∙ ap (λ xs. bytes_of o.front ++ xs) (ap waiting o.unbegun ∙ waiting-fresh o.back)
    ∙ sym (bytes_of-append o.front o.back)

-- Whatever is sent with either priority and however `write` cuts it or blocks: the bytes written
-- and those that wait are whole buffers one after another, all that were sent and not lost, those
-- of each priority in the order in which they were sent, and wb_size counts the bytes that wait.
pub run-whole_buffers :
    (ops : List BufferOp) (results : List WriteResult)
    → let (wb, sents, w) = run ops new_buffer [] (record { bytes = []; results = results }) in
      (order : List Sent) × (w.bytes ++ waiting wb.objs ++ waiting wb.low ≡ bytes_of order)
      × ((p : Bool) → of_priority p order ≡ of_priority p sents)
      × (wb.wb_size ≡ length (waiting wb.objs) + length (waiting wb.low))
run-whole_buffers ops results =
    let start : Wire = record { bytes = []; results = results } in
    let o = run-IsOrdered ops new_buffer [] start (record {
      front = [];
      back = [];
      bytes = refl;
      unbegun = refl;
      no_high = refl;
      order = λ p. refl;
      size = omega arith;
    }) in
    (o.front ++ o.back, IsOrdered-bytes _ _ _ o, o.order, o.size)
