-- ===== src/Seri/Scalar.antt =====
-- The values of lualib-src/lua-seri.cpp that hold no other: written and read back.
use starnet.Common.{
  ℕ, ◌^◌, ◌<◌, ◌≡◌, refl, List, [], ◌∷◌, ◌++◌, length, ltb, leb, ◌==◌, Bool, true, false, if-both,
  ltb→lt, append_assoc, arith,
}
use starnet.Common.Int.{ℤ, pos, negsuc}
use starnet.Seri.{Result, ok}
use starnet.Seri.Value.{Value, boolean, integer, real, light_userdata, string}
use starnet.Seri.Write.{
  combine_type, memory, two_complement, wb_boolean, wb_integer, wb_real, wb_pointer, wb_string,
  wb_qword, wb_dword,
}
use starnet.Seri.Read.{
  byte_type, byte_cookie, get_integer, push_value, push_number, get_real, get_pointer, get_buffer,
  get_long_string, push_long_string,
}
use starnet.Seri.Spec.{IsInt64}
use starnet.Seri.Bytes.{
  FitsIn, read_bytes-append, read_unsigned-memory, byte_type-combine_type, byte_cookie-combine_type,
  signed-two_complement_64, signed-two_complement_32, IsInt32,
}

-- The bytes of an integer: a first byte of its type, and what `get_integer` reads it from.
unfoldable pub Holds : ℤ → List ℕ → Type 0
Holds v bytes =
    (b : ℕ) × (bs : List ℕ) × (bytes ≡ b ∷ bs)
    × (byte_type b ≡ 2)
    × ((byte_cookie b == 8) ≡ false)
    × ((rest : List ℕ) → get_integer (bs ++ rest) (byte_cookie b) ≡ ok (v, rest))

fits_64 : (v : ℤ) → IsInt64 v → FitsIn 8 (two_complement 64 v)
fits_64 (pos n) h = omega (arith, h)
fits_64 (negsuc n) h = omega (arith, h)

fits_32 : (v : ℤ) → IsInt32 v → FitsIn 4 (two_complement 32 v)
fits_32 (pos n) h = omega (arith, h)
fits_32 (negsuc n) h = omega (arith, h)

qword-Holds : (v : ℤ) → IsInt64 v → Holds v (wb_qword v)
unfolding Holds wb_qword combine_type byte_type byte_cookie get_integer
qword-Holds v h = (
  50,
  memory 8 (two_complement 64 v),
  refl,
  refl,
  refl,
  (λ rest.
      rw
        (
          read_unsigned-memory 8 (two_complement 64 v) rest (fits_64 v h),
          signed-two_complement_64 v h,
        )
        refl),
)

dword-Holds : (v : ℤ) → IsInt32 v → Holds v (wb_dword v)
unfolding Holds wb_dword combine_type byte_type byte_cookie get_integer
dword-Holds v h = (
  34,
  memory 4 (two_complement 32 v),
  refl,
  refl,
  refl,
  (λ rest.
      rw
        (
          read_unsigned-memory 4 (two_complement 32 v) rest (fits_32 v h),
          signed-two_complement_32 v h,
        )
        refl),
)

byte-Holds : (n : ℕ) → n < 256 → Holds (pos n) (combine_type 2 1 ∷ memory 1 n)
unfolding Holds combine_type byte_type byte_cookie get_integer
byte-Holds n h = (
  10,
  memory 1 n,
  refl,
  refl,
  refl,
  (λ rest. rw (read_unsigned-memory 1 n rest (omega (arith, h))) refl),
)

word-Holds : (n : ℕ) → n < 65536 → Holds (pos n) (combine_type 2 2 ∷ memory 2 n)
unfolding Holds combine_type byte_type byte_cookie get_integer
word-Holds n h = (
  18,
  memory 2 n,
  refl,
  refl,
  refl,
  (λ rest. rw (read_unsigned-memory 2 n rest (omega (arith, h))) refl),
)

zero-Holds : Holds (pos 0) (combine_type 2 0 ∷ [])
unfolding Holds combine_type byte_type byte_cookie get_integer
zero-Holds = (2, [], refl, refl, refl, (λ rest. refl))

-- The bytes of wb_integer hold the integer.
pub wb_integer-Holds : (v : ℤ) → IsInt64 v → Holds v (wb_integer v)
unfolding wb_integer
wb_integer-Holds (negsuc n) h =
    if-both (Holds (negsuc n)) (leb (2 ^ 31) n) _ _ (λ e. qword-Holds (negsuc n) h)
      (λ e. dword-Holds (negsuc n) (ground (arith, e)))
wb_integer-Holds (pos n) h =
    let P = Holds (pos n) in
    if-both P (n == 0) _ _ (λ e. let z : n ≡ 0 = ground (arith, e) in rw z zero-Holds)
      (λ nonzero.
        if-both P (leb (2 ^ 31) n) _ _ (λ e. qword-Holds (pos n) h)
          (λ int.
            if-both P (ltb n 0x100) _ _ (λ e. byte-Holds n (ltb→lt n 256 e))
              (λ wide.
                if-both P (ltb n 0x10000) _ _ (λ e. word-Holds n (ltb→lt n 65536 e))
                  (λ wider. dword-Holds (pos n) (ground (arith, int))))))

-- A first byte, and the bytes from which `push_value` then reads the value.
unfoldable pub Reads : Value → List ℕ → Type 0
Reads v bytes =
    (b : ℕ) × (bs : List ℕ) × (bytes ≡ b ∷ bs)
    × ((unpack_table : List ℕ → ℕ → Result (Value × List ℕ)) (rest : List ℕ)
        → push_value unpack_table (bs ++ rest) (byte_cookie b) (byte_type b) ≡ ok (v, rest))

pub integer-Reads : (v : ℤ) → IsInt64 v → Reads (integer v) (wb_integer v)
unfolding Reads Holds push_value push_number
integer-Reads v h =
    let (b, bs, e, type, cookie, get) = wb_integer-Holds v h in
    (b, bs, e, (λ t rest. rw (type, cookie, get rest) refl))

pub boolean-Reads : (b : Bool) → Reads (boolean b) (wb_boolean b)
unfolding Reads wb_boolean combine_type byte_type byte_cookie push_value
boolean-Reads true = (9, [], refl, (λ t rest. refl))
boolean-Reads false = (1, [], refl, (λ t rest. refl))

pub real-Reads : (v : List ℕ) → length v ≡ 8 → Reads (real v) (wb_real v)
unfolding Reads wb_real combine_type byte_type byte_cookie push_value push_number get_real
real-Reads v h = (66, v, refl, (λ t rest. rw (read_bytes-append v rest 8 h) refl))

pub pointer-Reads : (v : List ℕ) → length v ≡ 8 → Reads (light_userdata v) (wb_pointer v)
unfolding Reads wb_pointer byte_type byte_cookie push_value get_pointer
pointer-Reads v h = (3, v, refl, (λ t rest. rw (read_bytes-append v rest 8 h) refl))

buffer-Reads :
    (str rest : List ℕ)
    → length str < 2 ^ 31
    → get_buffer (str ++ rest) (length str) ≡ ok (string str, rest)
unfolding get_buffer
buffer-Reads str rest h =
    let small : leb (2 ^ 31) (length str) ≡ false = ground (arith, h) in
    rw (small, read_bytes-append str rest (length str) refl) refl

long_string-Reads :
    (width : ℕ) (str rest : List ℕ)
    → FitsIn width (length str)
    → length str < 2 ^ 31
    → get_long_string ((memory width (length str) ++ str) ++ rest) width ≡ ok (string str, rest)
unfolding get_long_string
long_string-Reads width str rest fits h =
    rw
      (
        append_assoc (memory width (length str)) str rest,
        read_unsigned-memory width (length str) (str ++ rest) fits,
      )
      (buffer-Reads str rest h)

short_string :
    (str : List ℕ)
    → length str < 2 ^ 31
    → ltb (length str) 32 ≡ true
    → Reads (string str) (combine_type 4 (length str) ∷ str)
unfolding Reads push_value
short_string str h short =
    let lt = ltb→lt (length str) 32 short in
    (
      combine_type 4 (length str),
      str,
      refl,
      (λ t rest.
          rw
            (
              byte_type-combine_type 4 (length str) (omega arith) lt,
              byte_cookie-combine_type 4 (length str) (omega arith) lt,
            )
            (buffer-Reads str rest h)),
    )

word_string :
    (str : List ℕ)
    → length str < 2 ^ 31
    → ltb (length str) 0x10000 ≡ true
    → Reads (string str) (combine_type 5 2 ∷ (memory 2 (length str) ++ str))
unfolding Reads combine_type byte_type byte_cookie push_value push_long_string
word_string str h e =
    let lt = ltb→lt (length str) 65536 e in
    (
      21,
      memory 2 (length str) ++ str,
      refl,
      (λ t rest. long_string-Reads 2 str rest (omega (arith, lt)) h),
    )

dword_string :
    (str : List ℕ)
    → length str < 2 ^ 31
    → Reads (string str) (combine_type 5 4 ∷ (memory 4 (length str) ++ str))
unfolding Reads combine_type byte_type byte_cookie push_value push_long_string
dword_string str h = (
  37,
  memory 4 (length str) ++ str,
  refl,
  (λ t rest. long_string-Reads 4 str rest (omega (arith, h)) h),
)

pub string-Reads : (str : List ℕ) → length str < 2 ^ 31 → Reads (string str) (wb_string str)
unfolding wb_string
string-Reads str h =
    if-both (Reads (string str)) (ltb (length str) 32) _ _ (short_string str h) (λ long.
      if-both (Reads (string str)) (ltb (length str) 0x10000) _ _ (word_string str h)
        (λ e. dword_string str h))
