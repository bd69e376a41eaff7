-- ===== src/Socket/Buffer/Order.antt =====
-- The order of the bytes that src/starnet_socket_server.cpp writes for one connection.
use starnet.Common.{
  ℕ, ◌+◌, ◌≡◌, refl, sym, ap, ◌∙◌, Bool, true, false, List, [], ◌∷◌, ◌++◌, map, append-nil,
  append_assoc, drop, length,
}
use starnet.Socket.{Wire, WriteObject, ConnWriteBuffer}
use starnet.Socket.Buffer.Sent.{Sent, bytes_of, of_priority, waiting}
use starnet.Socket.Buffer.Flush.{fresh}

pub bytes_of-append : (a b : List Sent) → bytes_of (a ++ b) ≡ bytes_of a ++ bytes_of b
bytes_of-append [] b = refl
bytes_of-append ((low, buff) ∷ a) b =
    ap (λ xs. buff ++ xs) (bytes_of-append a b) ∙ sym (append_assoc buff (bytes_of a) (bytes_of b))

pub of_priority-append :
    (p : Bool) (a b : List Sent) → of_priority p (a ++ b) ≡ of_priority p a ++ of_priority p b
of_priority-append true [] b = refl
of_priority-append false [] b = refl
of_priority-append true ((true, buff) ∷ a) b = ap (◌∷◌ (true, buff)) (of_priority-append true a b)
of_priority-append true ((false, buff) ∷ a) b = of_priority-append true a b
of_priority-append false ((true, buff) ∷ a) b = of_priority-append false a b
of_priority-append false ((false, buff) ∷ a) b =
    ap (◌∷◌ (false, buff)) (of_priority-append false a b)

pub waiting-append : (a b : List WriteObject) → waiting (a ++ b) ≡ waiting a ++ waiting b
waiting-append [] b = refl
waiting-append (obj ∷ a) b =
    ap (λ xs. drop obj.start obj.buff ++ xs) (waiting-append a b)
    ∙ sym (append_assoc (drop obj.start obj.buff) (waiting a) (waiting b))

-- Whole buffers in an order that keeps the order of each priority: first those that are written
-- or in high, where the bytes join up, then those in low, none of which is begun.
pub record IsOrdered (wb : ConnWriteBuffer) (sents : List Sent) (w : Wire) : Type 0 where
  pub front : List Sent
  pub back : List Sent
  pub bytes : w.bytes ++ waiting wb.objs ≡ bytes_of front
  pub unbegun : wb.low ≡ map fresh back
  pub no_high : of_priority false back ≡ []
  pub order : (p : Bool) → of_priority p (front ++ back) ≡ of_priority p sents
  pub size : wb.wb_size ≡ length (waiting wb.objs) + length (waiting wb.low)

-- Only high, low and the size matter.
pub IsOrdered-same :
    (wb wb' : ConnWriteBuffer) (sents : List Sent) (w : Wire)
    → wb'.objs ≡ wb.objs
    → wb'.low ≡ wb.low
    → wb'.wb_size ≡ wb.wb_size
    → IsOrdered wb sents w
    → IsOrdered wb' sents w
IsOrdered-same wb wb' sents w objs low size o = record {
  front = o.front;
  back = o.back;
  bytes = ap (λ l. w.bytes ++ waiting l) objs ∙ o.bytes;
  unbegun = low ∙ o.unbegun;
  no_high = o.no_high;
  order = o.order;
  size =
      size
      ∙ o.size
      ∙ ap (λ l. length (waiting l) + length (waiting wb.low)) (sym objs)
      ∙ ap (λ l. length (waiting wb'.objs) + length (waiting l)) (sym low);
}

-- One more buffer that comes before those in low.
pub IsOrdered-front :
    (wb wb' : ConnWriteBuffer) (sents : List Sent) (w w' : Wire) (low : Bool) (buff : List ℕ)
    (o : IsOrdered wb sents w)
    → ((p : Bool)
        → of_priority p ((low, buff) ∷ o.back) ≡ of_priority p (o.back ++ ((low, buff) ∷ [])))
    → w'.bytes ++ waiting wb'.objs ≡ (w.bytes ++ waiting wb.objs) ++ buff
    → wb'.low ≡ wb.low
    → wb'.wb_size ≡ length (waiting wb'.objs) + length (waiting wb'.low)
    → IsOrdered wb' (sents ++ ((low, buff) ∷ [])) w'
IsOrdered-front wb wb' sents w w' low buff o swap bytes same size =
    let s = (low, buff) ∷ [] in
    record {
      front = o.front ++ s;
      back = o.back;
      bytes =
          bytes
          ∙ ap (λ xs. xs ++ buff) o.bytes
          ∙ ap (λ xs. bytes_of o.front ++ xs) (sym (append-nil buff))
          ∙ sym (bytes_of-append o.front s);
      unbegun = same ∙ o.unbegun;
      no_high = o.no_high;
      order = λ p.
          ap (of_priority p) (append_assoc o.front s o.back)
          ∙ of_priority-append p o.front (s ++ o.back)
          ∙ ap (λ xs. of_priority p o.front ++ xs) (swap p ∙ of_priority-append p o.back s)
          ∙ sym (append_assoc (of_priority p o.front) (of_priority p o.back) (of_priority p s))
          ∙ ap (λ xs. xs ++ of_priority p s) (sym (of_priority-append p o.front o.back) ∙ o.order p)
          ∙ sym (of_priority-append p sents s);
      size = size;
    }

pub swap_high :
    (buff : List ℕ) (back : List Sent)
    → of_priority false back ≡ []
    → (p : Bool)
    → of_priority p ((false, buff) ∷ back) ≡ of_priority p (back ++ ((false, buff) ∷ []))
swap_high buff back e true =
    sym (append-nil (of_priority true back))
    ∙ sym (of_priority-append true back ((false, buff) ∷ []))
swap_high buff back e false =
    ap (◌∷◌ (false, buff)) e
    ∙ ap (λ xs. xs ++ ((false, buff) ∷ [])) (sym e)
    ∙ sym (of_priority-append false back ((false, buff) ∷ []))

pub map-nil : (back : List Sent) → map fresh back ≡ [] → back ≡ []
map-nil [] e = refl
map-nil (s ∷ back) e = absurd (cc e)
