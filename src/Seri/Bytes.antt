-- ===== src/Seri/Bytes.antt =====
-- Bytes of lualib-src/lua-seri.cpp: numbers in memory, and the type and cookie of a first byte.
use starnet.Common.{
  ℕ, zero, suc, ◌*◌, ◌/◌, ◌%◌, ◌^◌, ◌<◌, ◌≡◌, refl, ap, List, [], ◌∷◌, ◌++◌, length, take, drop,
  ltb, bit_or, arith, false,
}
use starnet.Common.Bits.{bit_and_7, bit_or_3}
use starnet.Common.Int.{ℤ, pos, negsuc}
use starnet.Seri.{ok}
use starnet.Seri.Write.{combine_type, memory, two_complement}
use starnet.Seri.Read.{
  rb_read, read_bytes, from_memory, signed, read_unsigned, byte_type, byte_cookie,
}
use starnet.Seri.Spec.{IsInt64}

-- The number has n bytes at most.
abbrev pub FitsIn : ℕ → ℕ → Type 0
FitsIn zero v = v ≡ 0
FitsIn (suc n) v = FitsIn n (v / 256)

pub from_memory-memory : (n v : ℕ) → FitsIn n v → from_memory (memory n v) ≡ v
from_memory-memory zero v h = omega (arith, h)
from_memory-memory (suc n) v h = omega (arith, from_memory-memory n (v / 256) h)

pub length-memory : (n v : ℕ) → length (memory n v) ≡ n
length-memory zero v = refl
length-memory (suc n) v = ap suc (length-memory n (v / 256))

module _ {ℓ} {A : Type ℓ} where
  take_front : (xs ys : List A) → take (length xs) (xs ++ ys) ≡ xs
  take_front [] ys = refl
  take_front (x ∷ xs) ys = ap (◌∷◌ x) (take_front xs ys)

  drop_front : (xs ys : List A) → drop (length xs) (xs ++ ys) ≡ ys
  drop_front [] ys = refl
  drop_front (x ∷ xs) ys = drop_front xs ys

  long_front : (xs ys : List A) → ltb (length (xs ++ ys)) (length xs) ≡ false
  long_front [] ys = ground arith
  long_front (x ∷ xs) ys = ground (arith, long_front xs ys)

pub read_bytes-append :
    (xs rest : List ℕ) (n : ℕ) → length xs ≡ n → read_bytes (xs ++ rest) n ≡ ok (xs, rest)
unfolding read_bytes rb_read
read_bytes-append xs rest n e =
    rw⁻¹ e
      (rw (read_bytes, rb_read, long_front xs rest, take_front xs rest, drop_front xs rest) refl)

pub read_unsigned-memory :
    (n v : ℕ) (rest : List ℕ) → FitsIn n v → read_unsigned (memory n v ++ rest) n ≡ ok (v, rest)
unfolding read_unsigned
read_unsigned-memory n v rest h =
    rw (read_bytes-append (memory n v) rest n (length-memory n v), from_memory-memory n v h) refl

pub byte_type-combine_type : (t v : ℕ) → t < 8 → v < 32 → byte_type (combine_type t v) ≡ t
unfolding byte_type combine_type
byte_type-combine_type t v ht hv =
    omega (arith, bit_or_3 v t ht, bit_and_7 (bit_or t (v * 2 ^ 3) % 256))

pub byte_cookie-combine_type : (t v : ℕ) → t < 8 → v < 32 → byte_cookie (combine_type t v) ≡ v
unfolding byte_cookie combine_type
byte_cookie-combine_type t v ht hv = omega (arith, bit_or_3 v t ht)

pub signed-two_complement_64 : (v : ℤ) → IsInt64 v → signed 64 (two_complement 64 v) ≡ v
signed-two_complement_64 (pos n) h = ground (arith, h)
signed-two_complement_64 (negsuc n) h = ground (arith, h)

-- An integer of 32 bits.
abbrev pub IsInt32 : ℤ → Type 0
IsInt32 (pos n) = n < 2 ^ 31
IsInt32 (negsuc n) = n < 2 ^ 31

pub signed-two_complement_32 : (v : ℤ) → IsInt32 v → signed 32 (two_complement 32 v) ≡ v
signed-two_complement_32 (pos n) h = ground (arith, h)
signed-two_complement_32 (negsuc n) h = ground (arith, h)
