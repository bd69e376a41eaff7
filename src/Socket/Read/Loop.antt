-- ===== src/Socket/Read/Loop.antt =====
-- The loop of ReadData in src/starnet_socket_server.cpp ends, and reads everything in order.
use starnet.Common.{
  ℕ, zero, suc, ◌+◌, ◌≤◌, ◌<◌, ◌≡◌, refl, sym, ap, ◌∙◌, Bool-cases, inl, inr, Option, none, some,
  List, [], ◌∷◌, ◌++◌, map, append-nil, ◌⊎◌, length, take, drop, ◌==◌, arith, All, take-append-drop,
  append_assoc, length-take, length-drop,
}
use starnet.Socket.Read.{
  Incoming, gives, ends, blocks, breaks, read, put_back, full_size, ReadEnd, drained, waiting,
  closed, Reading, with_buff, read_loop, to_read,
}
use starnet.Socket.Read.Bounds.{
  IsReadSize, IsReadSize-bounds, full_size-IsReadSize, short_size-IsReadSize,
}

-- What there is to read, as bytes and as results of `read` that have none.
pub data Item : Type 0 where
  byte : ℕ → Item
  at_end at_nothing at_error : Item

abbrev pub items : List Incoming → List Item
items [] = []
items (gives b bs ∷ rest) = map byte (b ∷ bs) ++ items rest
items (ends ∷ rest) = at_end ∷ items rest
items (blocks ∷ rest) = at_nothing ∷ items rest
items (breaks ∷ rest) = at_error ∷ items rest

abbrev pub joined : List (List ℕ) → List ℕ
joined [] = []
joined (buff ∷ buffs) = buff ++ joined buffs

-- Neither empty nor longer than 1 MB.
abbrev pub IsRead : List ℕ → Type 0
IsRead buff = (1 ≤ length buff) × (length buff ≤ 1048576)

-- What stood behind the bytes that were read: for `closed` the end or an error, for `waiting` nothing
-- to read for now, and for `drained` whatever is left.
abbrev pub After : ReadEnd → List Item → List Incoming → Type 0
After closed behind rest = (behind ≡ at_end ∷ items rest) ⊎ (behind ≡ at_error ∷ items rest)
After waiting behind rest = (behind ≡ at_nothing ∷ items rest) ⊎ ((behind ≡ []) × (rest ≡ []))
After drained behind rest = behind ≡ items rest

-- The buffers hold the bytes at the front, in order, and the loop ends where it does for a reason.
pub record Stopped (incoming : List Incoming) (buffs : List (List ℕ)) (end : ReadEnd)
    (rest : List Incoming) : Type 0 where
  pub behind : List Item
  pub same : items incoming ≡ map byte (joined buffs) ++ behind
  pub after : After end behind rest

abbrev pub GoesOn : ReadEnd → Type 0
GoesOn drained = ⊥
GoesOn waiting = Unit
GoesOn closed = Unit

-- From a reading size on: a buffer that is filled is followed by another read, of the size after a
-- full one; a buffer that is not filled is the last one, and the only way to `drained`.
abbrev pub Fills : ℕ → List (List ℕ) → ReadEnd → Type 0
Fills size [] end = GoesOn end
Fills size (buff ∷ buffs) end =
    ((length buff ≡ size) × Fills (full_size size) buffs end)
    ⊎ ((length buff < size) × (buffs ≡ []) × (end ≡ drained))

abbrev pub ReadsAll : ℕ → List Incoming → Option Reading → Type 0
ReadsAll size incoming none = ⊥
ReadsAll size incoming (some (buffs, size', end, rest)) =
    Stopped incoming buffs end rest × IsReadSize size' × All IsRead buffs × Fills size buffs end

map-append : (xs ys : List ℕ) → map byte (xs ++ ys) ≡ map byte xs ++ map byte ys
map-append [] ys = refl
map-append (x ∷ xs) ys = ap (λ zs. byte x ∷ zs) (map-append xs ys)

items-put_back :
    (xs : List ℕ) (rest : List Incoming) → items (put_back xs rest) ≡ map byte xs ++ items rest
items-put_back [] rest = refl
items-put_back (x ∷ xs) rest = refl

to_read-put_back :
    (xs : List ℕ) (rest : List Incoming) → to_read (put_back xs rest) ≤ 1 + length xs + to_read rest
to_read-put_back [] rest = omega arith
to_read-put_back (x ∷ xs) rest = omega arith

with_buff-ReadsAll :
    (size : ℕ) (buff : List ℕ) (incoming next : List Incoming) (out : Option Reading)
    → items incoming ≡ map byte buff ++ items next
    → IsRead buff
    → length buff ≡ size
    → ReadsAll (full_size size) next out
    → ReadsAll size incoming (with_buff buff out)
with_buff-ReadsAll size buff incoming next none e b full h = h
with_buff-ReadsAll size buff incoming next (some (buffs, size', end, rest)) e b full h = (
  record {
    behind = h.0.behind;
    same =
        e
        ∙ ap (λ x. map byte buff ++ x) h.0.same
        ∙ sym (append_assoc (map byte buff) (map byte (joined buffs)) h.0.behind)
        ∙ ap (λ x. x ++ h.0.behind) (sym (map-append buff (joined buffs)));
    after = h.0.after;
  },
  h.1,
  (b, h.2),
  inl (full, h.3),
)

module _ (size b : ℕ) (bs : List ℕ) (rest : List Incoming) (sized : IsReadSize size) where
  taken-IsRead : IsRead (take size (b ∷ bs))
  taken-IsRead =
      let (lo, hi) = IsReadSize-bounds size sized in
      let e = length-take size (b ∷ bs) in (ground (arith, e, lo), ground (arith, e, hi))

  taken-items :
      items (gives b bs ∷ rest)
      ≡ map byte (take size (b ∷ bs)) ++ items (put_back (drop size (b ∷ bs)) rest)
  taken-items = rw (items-put_back (drop size (b ∷ bs)) rest) (
      ap (λ x. map byte x ++ items rest) (sym (take-append-drop size (b ∷ bs)))
      ∙ ap (λ x. x ++ items rest) (map-append (take size (b ∷ bs)) (drop size (b ∷ bs)))
      ∙ append_assoc (map byte (take size (b ∷ bs))) (map byte (drop size (b ∷ bs))) (items rest))

  taken-fuel :
      (fuel : ℕ)
      → 2 + length bs + to_read rest ≤ fuel
      → to_read (put_back (drop size (b ∷ bs)) rest) < fuel
  taken-fuel fuel h =
      let (lo, hi) = IsReadSize-bounds size sized in
      let e = length-drop size (b ∷ bs) in
      let g = to_read-put_back (drop size (b ∷ bs)) rest in omega (arith, lo, e, g, h)

append_nil_of : (buff : List ℕ) → buff ≡ joined (buff ∷ [])
append_nil_of buff = sym (append-nil buff)

pub read_loop-ReadsAll :
    (fuel size : ℕ) (incoming : List Incoming)
    → to_read incoming < fuel
    → IsReadSize size
    → ReadsAll size incoming (read_loop fuel size incoming)
unfolding read_loop read
read_loop-ReadsAll zero size incoming h sized = elim h [ ]
read_loop-ReadsAll (suc fuel) size [] h sized =
    (record { behind = []; same = refl; after = inr (refl, refl) }, sized, tt, tt)
read_loop-ReadsAll (suc fuel) size (ends ∷ rest) h sized =
    (record { behind = at_end ∷ items rest; same = refl; after = inl refl }, sized, tt, tt)
read_loop-ReadsAll (suc fuel) size (blocks ∷ rest) h sized =
    (record { behind = at_nothing ∷ items rest; same = refl; after = inl refl }, sized, tt, tt)
read_loop-ReadsAll (suc fuel) size (breaks ∷ rest) h sized =
    (record { behind = at_error ∷ items rest; same = refl; after = inr refl }, sized, tt, tt)
read_loop-ReadsAll (suc fuel) size (gives b bs ∷ rest) h sized =
    let buff = take size (b ∷ bs) in
    let next = put_back (drop size (b ∷ bs)) rest in
    let again =
      read_loop-ReadsAll fuel (full_size size) next
        (taken-fuel size b bs rest sized fuel (omega (arith, h)))
        (full_size-IsReadSize size sized) in
    let split = taken-items size b bs rest sized in
    elim (Bool-cases (length buff == size)) [
      | inl e ↦
          let full : length buff ≡ size = ground (arith, e) in
          rw (read_loop, e)
            (with_buff-ReadsAll size buff (gives b bs ∷ rest) next _ split
              (taken-IsRead size b bs rest sized) full again)
      | inr e ↦
          let cut = length-take size (b ∷ bs) in
          let short : length buff < size = ground (arith, e, cut) in
          rw (read_loop, e)
            (
              record {
                behind = items next;
                same = split ∙ ap (λ x. map byte x ++ items next) (append_nil_of buff);
                after = refl;
              },
              short_size-IsReadSize size (length buff) sized,
              (taken-IsRead size b bs rest sized, tt),
              inr (short, refl, refl),
            )
    ]
