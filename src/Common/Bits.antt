-- ===== src/Common/Bits.antt =====
-- Masks of k ones as arithmetic, from the digits that the native bit operations stand for.
use Prim.Native.Nat.{
  ℕ, zero, suc, ◌+◌, ◌*◌, ◌/◌, ◌%◌, ◌≤◌, ◌<◌, min, max, bit_and, bit_or, digits, bit_and-bitwise,
  bit_or-bitwise,
}
use mathlib.Core.Path.{◌≡◌, refl, sym, ◌∙◌}
use native.Mathlib.Decide.{dec_le}
use native.Mathlib.Omega.{arith}

-- `digits` recurs on a fuel: with the first number as fuel it has run to the end.
module _ (rest : ℕ → ℕ) (op : ℕ → ℕ → ℕ) where
  one_more : (n a b : ℕ) → a ≤ n → digits rest op (suc n) a b ≡ digits rest op n a b
  one_more zero zero b h = refl
  one_more (suc n) zero b h = refl
  one_more zero (suc a) b h = elim h [ ]
  one_more (suc n) (suc a) b h = omega (arith, one_more n (suc a / 2) (b / 2) (omega arith))

  settled : (n a b : ℕ) → a ≤ n → digits rest op n a b ≡ digits rest op a a b
  settled zero zero b h = refl
  settled zero (suc a) b h = elim h [ ]
  settled (suc n) a b h = elim (dec_le a n) [
    | yes le ↦ one_more n a b le ∙ settled n a b le
    | no gt ↦ let e : a ≡ suc n = omega arith in rw e refl
  ]

  lowest_digit :
      (a b : ℕ)
      → digits rest op (suc a) (suc a) b
        ≡ digits rest op (suc a / 2) (suc a / 2) (b / 2) * 2 + op (suc a % 2) (b % 2)
  lowest_digit a b = omega (arith, settled a (suc a / 2) (b / 2) (omega arith))

and_nothing : (b : ℕ) → bit_and 0 b ≡ 0
and_nothing b = bit_and-bitwise 0 b

or_nothing : (b : ℕ) → bit_or 0 b ≡ b
or_nothing b = bit_or-bitwise 0 b

and_halves : (a b : ℕ) → bit_and a b ≡ bit_and (a / 2) (b / 2) * 2 + min (a % 2) (b % 2)
and_halves zero b = omega (arith, and_nothing b, and_nothing (b / 2))
and_halves (suc a) b = omega (
  arith,
  lowest_digit (λ _. zero) min a b,
  bit_and-bitwise (suc a) b,
  bit_and-bitwise (suc a / 2) (b / 2),
)

or_halves : (a b : ℕ) → bit_or a b ≡ bit_or (a / 2) (b / 2) * 2 + max (a % 2) (b % 2)
or_halves zero b = omega (arith, or_nothing b, or_nothing (b / 2))
or_halves (suc a) b = omega (
  arith,
  lowest_digit (λ x. x) max a b,
  bit_or-bitwise (suc a) b,
  bit_or-bitwise (suc a / 2) (b / 2),
)

-- The mask with k ones; the low k digits of a number; and the number with those all set.
abbrev ones : ℕ → ℕ
ones zero = 0
ones (suc k) = ones k * 2 + 1

abbrev low : ℕ → ℕ → ℕ
low zero a = 0
low (suc k) a = low k (a / 2) * 2 + a % 2

abbrev filled : ℕ → ℕ → ℕ
filled zero a = a
filled (suc k) a = filled k (a / 2) * 2 + 1

and_empty_mask : (n a : ℕ) → a ≤ n → bit_and a 0 ≡ 0
and_empty_mask n zero h = refl
and_empty_mask zero (suc a) h = elim h [ ]
and_empty_mask (suc n) (suc a) h =
    omega (arith, and_halves (suc a) 0, and_empty_mask n (suc a / 2) (omega arith))

or_empty_mask : (n a : ℕ) → a ≤ n → bit_or a 0 ≡ a
or_empty_mask n zero h = refl
or_empty_mask zero (suc a) h = elim h [ ]
or_empty_mask (suc n) (suc a) h =
    omega (arith, or_halves (suc a) 0, or_empty_mask n (suc a / 2) (omega arith))

bit_and-low : (k a : ℕ) → bit_and a (ones k) ≡ low k a
bit_and-low zero a = and_empty_mask a a (omega arith)
bit_and-low (suc k) a =
    let half : (ones k * 2 + 1) / 2 ≡ ones k = omega arith in
    let ih : bit_and (a / 2) ((ones k * 2 + 1) / 2) ≡ low k (a / 2) =
      rw half (bit_and-low k (a / 2)) in
    omega (arith, and_halves a (ones k * 2 + 1))

bit_or-filled : (k a : ℕ) → bit_or a (ones k) ≡ filled k a
bit_or-filled zero a = or_empty_mask a a (omega arith)
bit_or-filled (suc k) a =
    let half : (ones k * 2 + 1) / 2 ≡ ones k = omega arith in
    let ih : bit_or (a / 2) ((ones k * 2 + 1) / 2) ≡ filled k (a / 2) =
      rw half (bit_or-filled k (a / 2)) in
    omega (arith, or_halves a (ones k * 2 + 1))

pub bit_and_63 : (a : ℕ) → bit_and a 63 ≡ a % 64
bit_and_63 a = omega (arith, bit_and-low 6 a)

pub bit_and_255 : (a : ℕ) → bit_and a 255 ≡ a % 256
bit_and_255 a = omega (arith, bit_and-low 8 a)

pub bit_or_255 : (a : ℕ) → bit_or a 255 ≡ a / 256 * 256 + 255
bit_or_255 a = omega (arith, bit_or-filled 8 a)

pub bit_or_16383 : (a : ℕ) → bit_or a 16383 ≡ a / 16384 * 16384 + 16383
bit_or_16383 a = omega (arith, bit_or-filled 14 a)

pub bit_and_16383 : (a : ℕ) → bit_and a 16383 ≡ a % 16384
bit_and_16383 a = omega (arith, bit_and-low 14 a)

pub bit_or_1048575 : (a : ℕ) → bit_or a 1048575 ≡ a / 1048576 * 1048576 + 1048575
bit_or_1048575 a = omega (arith, bit_or-filled 20 a)

pub bit_and_1048575 : (a : ℕ) → bit_and a 1048575 ≡ a % 1048576
bit_and_1048575 a = omega (arith, bit_and-low 20 a)

pub bit_or_67108863 : (a : ℕ) → bit_or a 67108863 ≡ a / 67108864 * 67108864 + 67108863
bit_or_67108863 a = omega (arith, bit_or-filled 26 a)

pub bit_and_67108863 : (a : ℕ) → bit_and a 67108863 ≡ a % 67108864
bit_and_67108863 a = omega (arith, bit_and-low 26 a)

-- A number below 2^8 beside one shifted up by 8.
or_double : (a b : ℕ) → bit_or (a * 2) b ≡ bit_or a (b / 2) * 2 + b % 2
or_double a b =
    let half : a * 2 / 2 ≡ a = omega arith in
    let e = or_halves (a * 2) b in let f = rw half at e in omega (arith, f)

pub bit_or_byte : (h l : ℕ) → l < 256 → bit_or (h * 256) l ≡ h * 256 + l
bit_or_byte h l lt =
    let e : h * 256 ≡ h * 2 * 2 * 2 * 2 * 2 * 2 * 2 * 2 = omega arith in
    let z : l / 2 / 2 / 2 / 2 / 2 / 2 / 2 / 2 ≡ 0 = omega arith in
    let f = or_double h (l / 2 / 2 / 2 / 2 / 2 / 2 / 2) in
    let g = rw (z, or_empty_mask h h (omega arith)) at f in
    rw e (
      omega (
        arith,
        or_double (h * 2 * 2 * 2 * 2 * 2 * 2 * 2) l,
        or_double (h * 2 * 2 * 2 * 2 * 2 * 2) (l / 2),
        or_double (h * 2 * 2 * 2 * 2 * 2) (l / 2 / 2),
        or_double (h * 2 * 2 * 2 * 2) (l / 2 / 2 / 2),
        or_double (h * 2 * 2 * 2) (l / 2 / 2 / 2 / 2),
        or_double (h * 2 * 2) (l / 2 / 2 / 2 / 2 / 2),
        or_double (h * 2) (l / 2 / 2 / 2 / 2 / 2 / 2),
        g,
      ))

bit_or_comm : (n a b : ℕ) → a ≤ n → bit_or a b ≡ bit_or b a
bit_or_comm n zero b h = or_nothing b ∙ sym (or_empty_mask b b (omega arith))
bit_or_comm zero (suc a) b h = elim h [ ]
bit_or_comm (suc n) (suc a) b h = omega (
  arith,
  or_halves (suc a) b,
  or_halves b (suc a),
  bit_or_comm n (suc a / 2) (b / 2) (omega arith),
)

pub bit_or_byte_first : (h l : ℕ) → l < 256 → bit_or l (h * 256) ≡ h * 256 + l
bit_or_byte_first h l lt = bit_or_comm l l (h * 256) (omega arith) ∙ bit_or_byte h l lt

pub bit_and_7 : (a : ℕ) → bit_and a 7 ≡ a % 8
bit_and_7 a = omega (arith, bit_and-low 3 a)

-- A number below 2^3 beside one shifted up by 3.
pub bit_or_3 : (h l : ℕ) → l < 8 → bit_or l (h * 8) ≡ h * 8 + l
bit_or_3 h l lt =
    let e : h * 8 ≡ h * 2 * 2 * 2 = omega arith in
    let z : l / 2 / 2 / 2 ≡ 0 = omega arith in
    let f = or_double h (l / 2 / 2) in
    let g = rw (z, or_empty_mask h h (omega arith)) at f in
    bit_or_comm l l (h * 8) (omega arith)
    ∙ rw e (omega (arith, or_double (h * 2 * 2) l, or_double (h * 2) (l / 2), g))

-- A number below 2^k beside one shifted up by k.
abbrev pub power : ℕ → ℕ
power zero = 1
power (suc k) = power k * 2

abbrev pub shifted : ℕ → ℕ → ℕ
shifted zero h = h
shifted (suc k) h = shifted k h * 2

pub bit_or-shifted : (k h l : ℕ) → l < power k → bit_or (shifted k h) l ≡ shifted k h + l
bit_or-shifted zero h l lt =
    let z : l ≡ 0 = omega arith in rw z (omega (arith, or_empty_mask h h (omega arith)))
bit_or-shifted (suc k) h l lt =
    omega (arith, or_double (shifted k h) l, bit_or-shifted k h (l / 2) (omega arith))
