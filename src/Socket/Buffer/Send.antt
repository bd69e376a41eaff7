-- ===== src/Socket/Buffer/Send.antt =====
-- SendBuffer of src/starnet_socket_server.cpp keeps the order of what is sent.
use starnet.Common.{
  ℕ, ◌+◌, ◌≤◌, ◌≡◌, ◌≢◌, refl, sym, ap, ◌∙◌, Bool, true, false, ◌&&◌, Bool-cases, inl, inr, ltb,
  leb, ◌==◌, ==_iff, List, [], ◌∷◌, ◌++◌, map, append-nil, append_assoc, take, drop, length, arith,
  length-append, take-append-drop, take_whole, if◌then◌else◌, length-drop,
}
use starnet.Socket.{Wire, WriteObject, ConnWriteBuffer}
use starnet.Socket.Buffer.{
  warning_size, Written, wrote, would_block, broke, write, is_empty, is_nil, keep_rest,
  entire_write_when_empty, entire_write_when_not_empty, check_warning, send_locked,
}
use starnet.Socket.Buffer.Sent.{Sent, of_priority, waiting, is_lost}
use starnet.Socket.Buffer.Flush.{Writes, write-Writes, fresh}
use starnet.Socket.Buffer.Order.{
  IsOrdered, IsOrdered-same, IsOrdered-front, swap_high, map-nil, of_priority-append,
  waiting-append,
}

check_warning-same :
    (wb : ConnWriteBuffer) (sents : List Sent) (w : Wire)
    → IsOrdered wb sents w
    → IsOrdered (check_warning wb).0 sents w
unfolding check_warning
check_warning-same wb sents w o =
    elim (Bool-cases (leb warning_size wb.wb_size && leb wb.warn_size wb.wb_size)) [
      | inl e ↦ rw (check_warning, e) (IsOrdered-same wb _ sents w refl refl refl o)
      | inr e ↦ rw (check_warning, e) o
    ]

is_nil-eq : (l : List WriteObject) → is_nil l ≡ true → l ≡ []
is_nil-eq [] e = refl
is_nil-eq (obj ∷ l) e = absurd (cc e)

pub is_empty-nil : (wb : ConnWriteBuffer) → is_empty wb ≡ true → (wb.objs ≡ []) × (wb.low ≡ [])
is_empty-nil wb e = elim (Bool-cases (is_nil wb.objs)) [
  | inl f ↦ let g = rw f at e in (is_nil-eq wb.objs f, is_nil-eq wb.low g)
  | inr f ↦ let g = rw f at e in absurd (cc g)
]

IsOrdered-wire :
    (wb : ConnWriteBuffer) (sents : List Sent) (w w' : Wire)
    → w'.bytes ≡ w.bytes
    → IsOrdered wb sents w
    → IsOrdered wb sents w'
IsOrdered-wire wb sents w w' same o = record {
  front = o.front;
  back = o.back;
  bytes = ap (λ xs. xs ++ waiting wb.objs) same ∙ o.bytes;
  unbegun = o.unbegun;
  no_high = o.no_high;
  order = o.order;
  size = o.size;
}

-- Where nothing waits, what `write` leaves of a buffer is queued.
keep_rest-IsOrdered :
    (wb : ConnWriteBuffer) (sents : List Sent) (w w' : Wire) (low : Bool) (buff : List ℕ) (n : ℕ)
    → IsOrdered wb sents w
    → wb.objs ≡ []
    → wb.low ≡ []
    → n ≤ length buff
    → w'.bytes ≡ w.bytes ++ take n buff
    → IsOrdered (keep_rest wb buff n) (sents ++ ((low, buff) ∷ [])) w'
keep_rest-IsOrdered wb sents w w' low buff n o no_objs no_low le took =
    let rest = drop n buff in
    let no_back = map-nil o.back (sym o.unbegun ∙ no_low) in
    let waits : waiting (keep_rest wb buff n).objs ≡ rest =
      waiting-append wb.objs _ ∙ ap (λ l. waiting l ++ (rest ++ [])) no_objs ∙ append-nil rest in
    let none_waits : waiting wb.objs ≡ [] = ap waiting no_objs in
    let size : wb.wb_size ≡ 0 =
      o.size
      ∙ ap (λ l. length (waiting l) + length (waiting wb.low)) no_objs
      ∙ ap (λ l. 0 + length (waiting l)) no_low in
    IsOrdered-front wb (keep_rest wb buff n) sents w w' low buff o (λ p. rw no_back refl)
      (ap (λ xs. w'.bytes ++ xs) waits
        ∙ ap (λ xs. xs ++ rest) took
        ∙ append_assoc w.bytes (take n buff) rest
        ∙ ap (λ xs. w.bytes ++ xs) (take-append-drop n buff)
        ∙ ap (λ xs. xs ++ buff)
            (sym (append-nil w.bytes) ∙ ap (λ xs. w.bytes ++ xs) (sym none_waits)))
      refl
      (omega
        (arith, size, length-drop n buff, ap length waits, ap (λ l. length (waiting l)) no_low))

-- All of it was written.
written_IsOrdered :
    (wb : ConnWriteBuffer) (sents : List Sent) (w w' : Wire) (low : Bool) (buff : List ℕ)
    → IsOrdered wb sents w
    → wb.objs ≡ []
    → wb.low ≡ []
    → w'.bytes ≡ w.bytes ++ buff
    → IsOrdered wb (sents ++ ((low, buff) ∷ [])) w'
written_IsOrdered wb sents w w' low buff o no_objs no_low took =
    let no_back = map-nil o.back (sym o.unbegun ∙ no_low) in
    let none_waits : waiting wb.objs ≡ [] = ap waiting no_objs in
    IsOrdered-front wb wb sents w w' low buff o (λ p. rw no_back refl)
      (ap (λ xs. w'.bytes ++ xs) none_waits
        ∙ append-nil w'.bytes
        ∙ took
        ∙ ap (λ xs. xs ++ buff)
            (sym (append-nil w.bytes) ∙ ap (λ xs. w.bytes ++ xs) (sym none_waits)))
      refl o.size

map-append : (a b : List Sent) → map fresh (a ++ b) ≡ map fresh a ++ map fresh b
map-append [] b = refl
map-append (s ∷ a) b = ap (◌∷◌ (fresh s)) (map-append a b)

not_lost :
    (wb : ConnWriteBuffer) (buff : List ℕ) (w : Wire)
    → is_empty wb ≡ false
    → is_lost wb buff w ≡ false
not_lost wb buff w e = by_written (write w buff).0 refl
  where
    by_written : (r : Written) → (write w buff).0 ≡ r → is_lost wb buff w ≡ false
    by_written (wrote n) f = rw (is_lost, f) refl
    by_written would_block f = rw (is_lost, f) refl
    by_written broke f = rw (is_lost, f) e

-- What SendBuffer sends, if it is not lost.
abbrev pub recorded : ConnWriteBuffer → List Sent → Bool → List ℕ → Wire → List Sent
recorded wb sents low buff w = if is_lost wb buff w then sents else sents ++ ((low, buff) ∷ [])

when_empty-IsOrdered :
    (wb : ConnWriteBuffer) (sents : List Sent) (w : Wire) (low : Bool) (buff : List ℕ)
    → is_empty wb ≡ true
    → IsOrdered wb sents w
    → let (wb', arm, w') = entire_write_when_empty wb buff w in
      IsOrdered wb' (recorded wb sents low buff w) w'
unfolding entire_write_when_empty
when_empty-IsOrdered wb sents w low buff empty o =
    by_written (write w buff).0 (write w buff).1 (write-Writes w buff) refl refl
  where
    no_objs : wb.objs ≡ []
    no_objs = (is_empty-nil wb empty).0

    no_low : wb.low ≡ []
    no_low = (is_empty-nil wb empty).1

    by_written :
        (r : Written) (w' : Wire)
        → Writes w buff r w'
        → (write w buff).0 ≡ r
        → (write w buff).1 ≡ w'
        → let (wb', arm, w'') = entire_write_when_empty wb buff w in
          IsOrdered wb' (recorded wb sents low buff w) w''
    by_written would_block w' h e f =
        let kept : is_lost wb buff w ≡ false = rw (is_lost, e) refl in
        rw (kept, entire_write_when_empty, e, f)
          (keep_rest-IsOrdered wb sents w w' low buff 0 o no_objs no_low (omega arith)
            (h ∙ sym (append-nil w.bytes)))
    by_written broke w' h e f =
        let lost : is_lost wb buff w ≡ true = rw (is_lost, e) empty in
        rw (lost, entire_write_when_empty, e, f) (IsOrdered-wire wb sents w w' h o)
    by_written (wrote n) w' (took, le, some_n) e f =
        let kept : is_lost wb buff w ≡ false = rw (is_lost, e) refl in
        elim (Bool-cases (n == length buff)) [
          | inl all ↦
              let n_len = (==_iff n (length buff)).0 all in
              rw (kept, entire_write_when_empty, e, f, all)
                (written_IsOrdered wb sents w w' low buff o no_objs no_low
                  (took ∙ ap (λ xs. w.bytes ++ xs) (take_whole n buff (omega (arith, n_len)))))
          | inr short ↦
              let n_len : n ≢ length buff =
                λ g. let t = (==_iff n (length buff)).1 g in cc (t, short) in
              let positive : n ≢ 0 = λ g. n_len (omega (arith, g, some_n g)) in
              let part : (ltb 0 n && ltb n (length buff)) ≡ true =
                ground (arith, le, n_len, positive) in
              rw (kept, entire_write_when_empty, e, f, short, part)
                (keep_rest-IsOrdered wb sents w w' low buff n o no_objs no_low le took)
        ]

when_not_empty-IsOrdered :
    (wb : ConnWriteBuffer) (sents : List Sent) (w : Wire) (low : Bool) (buff : List ℕ)
    → IsOrdered wb sents w
    → IsOrdered (entire_write_when_not_empty wb buff low) (sents ++ ((low, buff) ∷ [])) w
unfolding entire_write_when_not_empty
when_not_empty-IsOrdered wb sents w false buff o =
    let obj = fresh (false, buff) in
    let waits : waiting (wb.objs ++ (obj ∷ [])) ≡ waiting wb.objs ++ buff =
      waiting-append wb.objs (obj ∷ []) ∙ ap (λ xs. waiting wb.objs ++ xs) (append-nil buff) in
    IsOrdered-front wb (entire_write_when_not_empty wb buff false) sents w w false buff o
      (swap_high buff o.back o.no_high)
      (ap (λ xs. w.bytes ++ xs) waits ∙ sym (append_assoc w.bytes (waiting wb.objs) buff)) refl
      (omega (arith, o.size, ap length waits, length-append (waiting wb.objs) buff))
when_not_empty-IsOrdered wb sents w true buff o =
    let obj = fresh (true, buff) in
    let s = (true, buff) ∷ [] in
    let waits : waiting (wb.low ++ (obj ∷ [])) ≡ waiting wb.low ++ buff =
      waiting-append wb.low (obj ∷ []) ∙ ap (λ xs. waiting wb.low ++ xs) (append-nil buff) in
    record {
      front = o.front;
      back = o.back ++ s;
      bytes = o.bytes;
      unbegun = ap (λ l. l ++ (obj ∷ [])) o.unbegun ∙ sym (map-append o.back s);
      no_high = of_priority-append false o.back s ∙ ap (λ xs. xs ++ []) o.no_high;
      order = λ p.
          ap (of_priority p) (sym (append_assoc o.front o.back s))
          ∙ of_priority-append p (o.front ++ o.back) s
          ∙ ap (λ xs. xs ++ of_priority p s) (o.order p)
          ∙ sym (of_priority-append p sents s);
      size = omega (arith, o.size, ap length waits, length-append (waiting wb.low) buff);
    }

pub send_locked-IsOrdered :
    (wb : ConnWriteBuffer) (sents : List Sent) (w : Wire) (low : Bool) (buff : List ℕ)
    → IsOrdered wb sents w
    → let (wb', warn, arm, w') = send_locked wb buff low w in
      IsOrdered wb' (recorded wb sents low buff w) w'
unfolding send_locked
send_locked-IsOrdered wb sents w low buff o = elim (Bool-cases (is_empty wb)) [
  | inl e ↦
      let h = when_empty-IsOrdered wb sents w low buff e o in
      rw (send_locked, e)
        (check_warning-same (entire_write_when_empty wb buff w).0 (recorded wb sents low buff w)
          (entire_write_when_empty wb buff w).2 h)
  | inr e ↦
      let kept : is_lost wb buff w ≡ false = not_lost wb buff w e in
      rw (send_locked, e, kept)
        (check_warning-same (entire_write_when_not_empty wb buff low) (sents ++ ((low, buff) ∷ []))
          w (when_not_empty-IsOrdered wb sents w low buff o))
]
