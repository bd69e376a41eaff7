-- ===== src/Netpack/RoundTrip.antt =====
-- lpack at the sender and any run of reads at the receiver, in lua-netpack.cpp.
use starnet.Common.{
  ℕ, ◌+◌, ◌*◌, ◌/◌, ◌%◌, ◌≤◌, ◌<◌, ◌≡◌, ◌⊎◌, refl, sym, ap, subst, ◌∙◌, none, some, List, [], ◌∷◌,
  ◌++◌, append_assoc, length, length-append, append_same_length, arith, leb, head-eq_of_cons-eq,
  tail-eq_of_cons-eq, Bool-cases, Option-cases, inl, inr,
}
use starnet.Common.Bits.{bit_and_255}
use starnet.Common.Int.{ℤ, pos, negsuc}
use starnet.Netpack.{Pack, Uncomplete, lcreate, lpack}
use starnet.Netpack.Dispatch.{on_reads, pack_all}
use starnet.Netpack.Ring.{IsRing, lcreate-contents}
use starnet.Netpack.Partial.{table, held}
use starnet.Netpack.Stream.{IsHalf, IsPending, half_bytes, frame, frames, pending_bytes}
use starnet.Netpack.Filter.{IsSane}
use starnet.Netpack.Reads.{of_fd, stream_of, AreBytes}
use starnet.Netpack.Chunks.{Accounts, on_reads-Accounts}

-- Less than a packet.
abbrev IsShort : List ℕ → Type 0
IsShort [] = Unit
IsShort (b ∷ []) = Unit
IsShort (b0 ∷ b1 ∷ bs) = length bs < b0 * 256 + b1

half_shape :
    (pack : Pack) (read : ℤ) (header : ℕ)
    → let uc : Uncomplete = record { pack = pack; read = read; header = header } in
      IsHalf uc → IsShort (half_bytes uc)
unfolding IsHalf half_bytes
half_shape pack (negsuc r) header h = tt
half_shape pack (pos r) header h = omega (arith, h.0, h.1)

half_bytes-IsShort : (uc : Uncomplete) → IsHalf uc → IsShort (half_bytes uc)
half_bytes-IsShort uc h = half_shape uc.pack uc.read uc.header h

pending_bytes-IsShort : (fd : ℕ) (t : List Uncomplete) → IsPending fd t → IsShort (pending_bytes t)
unfolding IsPending pending_bytes
pending_bytes-IsShort fd [] p = tt
pending_bytes-IsShort fd (uc ∷ rest) p = half_bytes-IsShort uc p.2

frames_unique :
    (ms ns : List (List ℕ)) (p : List ℕ)
    → IsShort p
    → frames ms ++ p ≡ frames ns
    → (ms ≡ ns) × (p ≡ [])
frames_unique [] [] p short e = (refl, e)
frames_unique [] (n ∷ ns) p short e =
    let bad = subst IsShort e short in
    let impossible : 1 ≤ 0 = omega (arith, bad, length-append n (frames ns)) in elim impossible [ ]
frames_unique (m ∷ ms) [] p short e =
    let impossible : 1 ≤ 0 = omega (arith, ap length e) in elim impossible [ ]
frames_unique (m ∷ ms) (n ∷ ns) p short e =
    let hi = head-eq_of_cons-eq e in
    let lo = head-eq_of_cons-eq (tail-eq_of_cons-eq e) in
    let same : length m ≡ length n = omega (arith, hi, lo) in
    let body = sym (append_assoc m (frames ms) p) ∙ tail-eq_of_cons-eq (tail-eq_of_cons-eq e) in
    let parts = append_same_length m n (frames ms ++ p) (frames ns) same body in
    let ih = frames_unique ms ns p short parts.1 in (rw (parts.0, ih.0) refl, ih.1)

-- lpack puts the length in two bytes, the high one first, before the message; a message of 65536
-- bytes or more is refused.
pub lpack-frame :
    (m : List ℕ)
    → ((length m < 65536) × (lpack m ≡ some (frame m))) ⊎ ((65536 ≤ length m) × (lpack m ≡ none))
unfolding lpack
lpack-frame m = elim (Bool-cases (leb 65536 (length m))) [
  | inl e ↦ inr (ground (arith, e), rw e refl)
  | inr e ↦
      let lt : length m < 65536 = ground (arith, e) in
      let hi : length m / 256 % 256 ≡ length m / 256 = omega (arith, lt) in
      inl (lt, rw (e, bit_and_255 (length m), hi) refl)
]

pack_all-frames : (ms : List (List ℕ)) (bs : List ℕ) → pack_all ms ≡ some bs → bs ≡ frames ms
unfolding pack_all
pack_all-frames [] bs e = grind (arith, e)
pack_all-frames (m ∷ ms) bs e = elim (lpack-frame m) [
  | inr (le, fails) ↦ let bad = rw (pack_all, fails) at e in grind (arith, bad)
  | inl (lt, packs) ↦
      let e1 = rw (pack_all, packs) at e in
      elim (Option-cases (pack_all ms)) [
        | inl none_left ↦ let bad = rw none_left at e1 in grind (arith, bad)
        | inr (rest, r) ↦
            let e2 = rw r at e1 in let ih = pack_all-frames ms rest r in grind (arith, e2, ih)
      ]
]

pub lcreate-IsSane : (blank : ℕ → Pack) → IsSane (lcreate blank)
unfolding IsSane IsRing IsPending table lcreate held
lcreate-IsSane blank = ((omega arith, omega arith), (λ fd. tt))

-- Whatever the cuts between the reads, and whatever is read from other connections in between: if
-- the bytes read from a connection into a new queue are the lpacked messages of its sender, one
-- after another, then exactly these messages are dispatched for it, in order, and nothing is kept.
pub on_reads-pack_all :
    (blank : ℕ → Pack) (reads : List (ℕ × List ℕ)) (fd : ℕ) (msgs : List (List ℕ))
    → AreBytes reads
    → pack_all msgs ≡ some (stream_of fd reads)
    → let out = on_reads blank (lcreate blank) reads in
      (of_fd fd out.0 ≡ msgs) × (pending_bytes (table out.1 fd) ≡ [])
unfolding Accounts IsSane table lcreate held pending_bytes
on_reads-pack_all blank reads fd msgs ok packed =
    let run =
      on_reads-Accounts blank reads (lcreate blank) fd (lcreate-IsSane blank)
        (lcreate-contents blank) ok in
    frames_unique _ msgs _ (pending_bytes-IsShort fd _ (run.1.1 fd))
      (run.0 ∙ pack_all-frames msgs _ packed)
