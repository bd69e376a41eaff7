-- ===== src/Seri/Frame.antt =====
-- Whole calls of lualib-src/lua-seri.cpp: there and back, and the length before a framed string.
use starnet.Common.{
  ℕ, zero, suc, ◌+◌, ◌*◌, ◌/◌, ◌%◌, ◌^◌, ◌≤◌, ◌<◌, ◌≡◌, refl, subst, ◌∙◌, List, [], ◌∷◌, ◌++◌, map,
  some, max, length, length-append, take_whole, ltb, leb, true, false, All, bit_or, arith,
}
use starnet.Common.Bits.{bit_or-shifted, shifted, bit_or_byte}
use starnet.Seri.{ok, ◌>>=◌}
use starnet.Seri.Value.{Value}
use starnet.Seri.Write.{max_depth}
use starnet.Seri.Read.{unpack_one}
use starnet.Seri.Call.{
  pack_all, reader_fuel, unpack_loop, unpack_buffer, serialize, unserialize, pack_string,
  frame_length, framed, unpack_string,
}
use starnet.Seri.Spec.{encode, height, IsPackable, stored, IsLua, IsSome, IsKey}
use starnet.Seri.Pack.{Bounded, Bounded_two, pack_one-Bounded}
use starnet.Seri.RoundTrip.{unpack_one-encode}
use starnet.Seri.Rounds.{encode_some}

-- All values of a call.
abbrev pub encode_all : List Value → List ℕ
encode_all [] = []
encode_all (v ∷ vs) = encode v ++ encode_all vs

abbrev pub height_all : List Value → ℕ
height_all [] = 0
height_all (v ∷ vs) = max (height v) (height_all vs)

-- Values that can be written: what Lua grants of them, and no type without a byte. With a key that
-- is NaN they can not be read again.
abbrev pub AreWritable : (Value → Type 0) → List Value → Type 0
AreWritable K vs = All (λ v. IsPackable v × IsLua K v) vs

pack_all-IsPackable :
    (K : Value → Type 0) (vs : List Value)
    → AreWritable K vs
    → pack_all vs ≡ Bounded (height_all vs) 0 (encode_all vs)
unfolding pack_all
pack_all-IsPackable K [] w = refl
pack_all-IsPackable K (v ∷ vs) w =
    rw (pack_one-Bounded v 0 w.0.0, pack_all-IsPackable K vs w.1)
      (Bounded_two (height v) 0 (height_all vs) 0 _ 0 _ _ (λ a b. a ++ b) (omega arith))

-- Serialize on values that can be written gives the bytes of all of them, one after another, if
-- none is deeper than 32 tables, and otherwise raises the error for a table that is too deep.
pub pack_all-Bounded :
    (vs : List Value)
    → AreWritable IsSome vs
    → pack_all vs ≡ Bounded (height_all vs) 0 (encode_all vs)
pack_all-Bounded vs w = pack_all-IsPackable IsSome vs w

pack_all-encode_all :
    (vs : List Value)
    → AreWritable IsKey vs
    → height_all vs ≤ max_depth
    → pack_all vs ≡ ok (encode_all vs)
pack_all-encode_all vs w low =
    pack_all-IsPackable IsKey vs w
    ∙ (let e : leb (height_all vs + 0) max_depth ≡ true = ground (arith, low) in rw e refl)

unpack_loop_round :
    (bytes : List ℕ) (n : ℕ)
    → 1 ≤ length bytes
    → unpack_loop (suc n) bytes
      ≡ (unpack_one (reader_fuel bytes) bytes >>= λ v. unpack_loop n v.1 >>= λ vs. ok (v.0 ∷ vs))
unfolding unpack_loop
unpack_loop_round [] n le = absurd (omega (arith, le))
unpack_loop_round (b ∷ bs) n le = refl

unpack_loop-encode_all :
    (vs : List Value) (n : ℕ)
    → AreWritable IsKey vs
    → length (encode_all vs) ≤ n
    → unpack_loop n (encode_all vs) ≡ ok (map stored vs)
unfolding unpack_loop
unpack_loop-encode_all [] n w le = refl
unpack_loop-encode_all (v ∷ vs) zero w le =
    absurd (omega (arith, le, encode_some v w.0.0, length-append (encode v) (encode_all vs)))
unpack_loop-encode_all (v ∷ vs) (suc n) w le =
    let size = length-append (encode v) (encode_all vs) in
    let some = encode_some v w.0.0 in
    rw
      (
        unpack_loop_round (encode v ++ encode_all vs) n (omega (arith, size, some)),
        unpack_one-encode v (encode_all vs) (reader_fuel (encode v ++ encode_all vs)) w.0.0 w.0.1
            (omega (arith, size)),
        unpack_loop-encode_all vs n w.1 (omega (arith, le, size, some)),
      )
      refl

-- Serialize and Unserialize on values that can be written, none deeper than 32 tables, none with a
-- key that is NaN, and together of fewer than 2^31 bytes: the values come back, each table as its
-- array and the other pairs.
pub unserialize-serialize :
    (vs : List Value)
    → AreWritable IsKey vs
    → height_all vs ≤ max_depth
    → length (encode_all vs) < 2 ^ 31
    → (serialize vs >>= λ bytes. unserialize (some bytes)) ≡ ok (map stored vs)
unfolding serialize unserialize unpack_buffer
unserialize-serialize vs w low small =
    let size = length (encode_all vs) in
    let fits : size % 2 ^ 32 ≡ size = omega (arith, small) in
    let int : leb (2 ^ 31) size ≡ false = ground (arith, small) in
    rw (pack_all-encode_all vs w low, fits, int, take_whole size (encode_all vs) (omega arith))
      (unpack_loop-encode_all vs size w (omega arith))

or_24 : (x l : ℕ) → l < 2 ^ 24 → bit_or (x * 2 ^ 24) l ≡ x * 2 ^ 24 + l
or_24 x l h =
    let e : shifted 24 x ≡ x * 2 ^ 24 = omega arith in
    subst (λ y. bit_or y l ≡ y + l) e (bit_or-shifted 24 x l h)

or_16 : (x l : ℕ) → l < 2 ^ 16 → bit_or (x * 2 ^ 16) l ≡ x * 2 ^ 16 + l
or_16 x l h =
    let e : shifted 16 x ≡ x * 2 ^ 16 = omega arith in
    subst (λ y. bit_or y l ≡ y + l) e (bit_or-shifted 16 x l h)

frame_length-sum :
    (b0 b1 b2 b3 : ℕ)
    → b1 < 256
    → b2 < 256
    → b3 < 256
    → frame_length b0 b1 b2 b3 ≡ ((b0 * 256 + b1) * 256 + b2) * 256 + b3
unfolding frame_length
frame_length-sum b0 b1 b2 b3 h1 h2 h3 =
    let e1 : b0 * 2 ^ 24 + b1 * 2 ^ 16 ≡ (b0 * 256 + b1) * 2 ^ 16 = omega arith in
    let e2 : (b0 * 256 + b1) * 2 ^ 16 + b2 * 2 ^ 8 ≡ ((b0 * 256 + b1) * 256 + b2) * 256 =
      omega arith in
    rw
      (
        or_24 b0 (b1 * 2 ^ 16) (omega (arith, h1)),
        e1,
        or_16 (b0 * 256 + b1) (b2 * 2 ^ 8) (omega (arith, h2)),
        e2,
        bit_or_byte ((b0 * 256 + b1) * 256 + b2) b3 h3,
      )
      refl

frame_length-bytes :
    (len : ℕ)
    → len < 2 ^ 32
    → frame_length (len / 2 ^ 24 % 256) (len / 2 ^ 16 % 256) (len / 2 ^ 8 % 256) (len % 256) ≡ len
frame_length-bytes len h = omega (
  arith,
  h,
  frame_length-sum (len / 2 ^ 24 % 256) (len / 2 ^ 16 % 256) (len / 2 ^ 8 % 256) (len % 256)
      (omega arith) (omega arith) (omega arith),
)

framed-whole : (out : List ℕ) → length out < 2 ^ 31 → framed (length out) out ≡ unpack_buffer out
unfolding framed
framed-whole out small =
    let fits : ltb (4 + length out) ((4 + length out) % 2 ^ 32) ≡ false = ground (arith, small) in
    let int : leb (2 ^ 31) (length out) ≡ false = ground (arith, small) in
    rw (fits, int, take_whole (length out) out (omega arith)) refl

-- PackString and UnpackString on values that can be written, none deeper than 32 tables, none with
-- a key that is NaN, and together of fewer than 2^31 bytes: the values come back, each table as its
-- array and the other pairs.
pub unpack_string-pack_string :
    (vs : List Value)
    → AreWritable IsKey vs
    → height_all vs ≤ max_depth
    → length (encode_all vs) < 2 ^ 31
    → (pack_string vs >>= unpack_string) ≡ ok (map stored vs)
unfolding pack_string unpack_string unpack_buffer
unpack_string-pack_string vs w low small =
    let out = encode_all vs in
    let len : length out % 2 ^ 32 ≡ length out = omega (arith, small) in
    rw
      (
        pack_all-encode_all vs w low,
        len,
        frame_length-bytes (length out) (omega (arith, small)),
        framed-whole out small,
      )
      (unpack_loop-encode_all vs (length out) w (omega arith))

-- A length of 2^32 - 4 or more is not refused by UnpackString, whatever follows: the sum with the
-- four bytes wraps around, and no value is returned.
pub unpack_string-wraps :
    (b3 : ℕ) (rest : List ℕ)
    → 252 ≤ b3
    → b3 < 256
    → unpack_string (255 ∷ 255 ∷ 255 ∷ b3 ∷ rest) ≡ ok []
unfolding unpack_string framed
unpack_string-wraps b3 rest lo hi =
    let len = frame_length-sum 255 255 255 b3 (omega arith) (omega arith) hi in
    let passes : ltb (4 + length rest) ((4 + frame_length 255 255 255 b3) % 2 ^ 32) ≡ false =
      ground (arith, len, lo, hi) in
    let negative : leb (2 ^ 31) (frame_length 255 255 255 b3) ≡ true = ground (arith, len) in
    rw (passes, negative) refl
