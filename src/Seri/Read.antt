-- ===== src/Seri/Read.antt =====
-- The reader of lualib-src/lua-seri.cpp. A `read_block` is the list of the bytes not yet read.
use starnet.Common.{
  ℕ, zero, suc, ◌+◌, ◌-◌, ◌*◌, ◌/◌, ◌%◌, ◌^◌, Bool, true, false, Option, none, some, List, [], ◌∷◌,
  ltb, leb, ◌==◌, length, take, drop, if◌then◌else◌, bit_and,
}
use starnet.Common.Int.{ℤ, pos, negsuc}
use starnet.Seri.{Result, ok, err, invalid_stream, too_big, nan_key, unfinished, ◌>>=◌}
use starnet.Seri.Value.{
  Value, nil, boolean, integer, real, light_userdata, string, table, Values, no_values, value,
  Pairs, no_pairs, pair,
}
use starnet.Seri.Write.{number_real, max_cookie, type_number}

-- With a size that is not negative; `none` is NULL.
unfoldable pub rb_read : List ℕ → ℕ → Option (List ℕ × List ℕ)
rb_read rb sz = if ltb (length rb) sz then none else some (take sz rb, drop sz rb)

-- `rb_read`, and `invalid_stream` for NULL.
unfoldable pub read_bytes : List ℕ → ℕ → Result (List ℕ × List ℕ)
unfolding rb_read
read_bytes rb sz = elim (rb_read rb sz) [ none ↦ err invalid_stream | some r ↦ ok r ]

-- The number in memory, and as a signed integer of w bits.
abbrev pub from_memory : List ℕ → ℕ
from_memory [] = 0
from_memory (b ∷ bs) = b + from_memory bs * 256

abbrev pub signed : ℕ → ℕ → ℤ
signed w n = if ltb n (2 ^ (w - 1)) then pos n else negsuc (2 ^ w - 1 - n)

unfoldable pub read_unsigned : List ℕ → ℕ → Result (ℕ × List ℕ)
unfolding read_bytes
read_unsigned rb sz = do r ← read_bytes rb sz; ok (from_memory r.0, r.1)

unfoldable pub get_integer : List ℕ → ℕ → Result (ℤ × List ℕ)
unfolding read_unsigned
get_integer rb zero = ok (pos 0, rb)
get_integer rb (suc zero) = do r ← read_unsigned rb 1; ok (pos r.0, r.1)
get_integer rb (suc (suc zero)) = do r ← read_unsigned rb 2; ok (pos r.0, r.1)
get_integer rb (suc (suc (suc (suc zero)))) = do r ← read_unsigned rb 4; ok (signed 32 r.0, r.1)
get_integer rb (suc (suc (suc (suc (suc (suc zero)))))) = do
  r ← read_unsigned rb 8
  ok (signed 64 r.0, r.1)
get_integer rb _ = err invalid_stream

unfoldable pub get_real : List ℕ → Result (Value × List ℕ)
unfolding read_bytes
get_real rb = do r ← read_bytes rb 8; ok (real r.0, r.1)

unfoldable pub get_pointer : List ℕ → Result (Value × List ℕ)
unfolding read_bytes
get_pointer rb = do r ← read_bytes rb 8; ok (light_userdata r.0, r.1)

-- The length comes to an `int`. A negative one passes `rb_read`, and is too long for a Lua string.
unfoldable pub get_buffer : List ℕ → ℕ → Result (Value × List ℕ)
unfolding read_bytes
get_buffer rb len =
    if leb (2 ^ 31) len then err too_big else (do r ← read_bytes rb len; ok (string r.0, r.1))

unfoldable pub get_long_string : List ℕ → ℕ → Result (Value × List ℕ)
unfolding read_unsigned get_buffer
get_long_string rb width = do len ← read_unsigned rb width; get_buffer len.1 len.0

-- The rounds of `for (i=1; i<=array_size; i++)` after the conversion to an `int`.
unfoldable pub to_int_rounds : ℤ → ℕ
to_int_rounds (pos n) = let m = n % 2 ^ 32 in if ltb m (2 ^ 31) then m else 0
to_int_rounds (negsuc n) = let m = 2 ^ 32 - 1 - n % 2 ^ 32 in if ltb m (2 ^ 31) then m else 0

-- A first byte as its type and its cookie.
unfoldable pub byte_type : ℕ → ℕ
byte_type b = bit_and b 0x7

unfoldable pub byte_cookie : ℕ → ℕ
byte_cookie b = b / 2 ^ 3

-- The array size that stands as a number of its own.
unfoldable pub long_array_size : List ℕ → Result (ℕ × List ℕ)
unfolding get_integer to_int_rounds byte_type byte_cookie
long_array_size [] = err invalid_stream
long_array_size (b ∷ rb) =
    let size = (do r ← get_integer rb (byte_cookie b); ok (to_int_rounds r.0, r.1)) in
    if byte_type b == type_number
    then (if byte_cookie b == number_real then err invalid_stream else size)
    else err invalid_stream

unfoldable pub array_size_of : List ℕ → ℕ → Result (ℕ × List ℕ)
unfolding long_array_size
array_size_of rb cookie = if cookie == max_cookie - 1 then long_array_size rb else ok (cookie, rb)

-- The value that is no table; for a table, what reads one.
unfoldable pub push_number : List ℕ → ℕ → Result (Value × List ℕ)
unfolding get_real get_integer
push_number rb cookie =
    if cookie == number_real
    then get_real rb
    else (do r ← get_integer rb cookie; ok (integer r.0, r.1))

unfoldable pub push_long_string : List ℕ → ℕ → Result (Value × List ℕ)
unfolding get_long_string
push_long_string rb cookie =
    if cookie == 2
    then get_long_string rb 2
    else if cookie == 4
    then get_long_string rb 4
    else err invalid_stream

unfoldable pub push_value :
    (List ℕ → ℕ → Result (Value × List ℕ)) → List ℕ → ℕ → ℕ → Result (Value × List ℕ)
unfolding push_number push_long_string get_pointer get_buffer
push_value unpack_table rb cookie zero = ok (nil, rb)
push_value unpack_table rb cookie (suc zero) =
    ok (boolean (if cookie == 0 then false else true), rb)
push_value unpack_table rb cookie (suc (suc zero)) = push_number rb cookie
push_value unpack_table rb cookie (suc (suc (suc zero))) = get_pointer rb
push_value unpack_table rb cookie (suc (suc (suc (suc zero)))) = get_buffer rb cookie
push_value unpack_table rb cookie (suc (suc (suc (suc (suc zero))))) = push_long_string rb cookie
push_value unpack_table rb cookie (suc (suc (suc (suc (suc (suc zero)))))) = unpack_table rb cookie
push_value unpack_table rb cookie _ = err invalid_stream

unfoldable pub is_nil : Value → Bool
is_nil nil = true
is_nil _ = false

-- The key with which `lua_rawset` raises an error: a double whose exponent has all bits set and
-- whose fraction is not 0.
unfoldable pub is_nan : Value → Bool
is_nan (real v) = ltb (2047 * 2 ^ 52) (from_memory v % 2 ^ 63)
is_nan _ = false

-- The fuel falls with every call and every round of a loop.
unfoldable mutual
  unfolding push_value array_size_of byte_type byte_cookie is_nil is_nan

  pub unpack_one : ℕ → List ℕ → Result (Value × List ℕ)
  unpack_one zero rb = err unfinished
  unpack_one (suc n) [] = err invalid_stream
  unpack_one (suc n) (b ∷ rb) = push_value (unpack_table n) rb (byte_cookie b) (byte_type b)

  pub unpack_table : ℕ → List ℕ → ℕ → Result (Value × List ℕ)
  unpack_table zero rb cookie = err unfinished
  unpack_table (suc n) rb cookie = do
    size ← array_size_of rb cookie
    items ← unpack_items n size.0 size.1
    pairs ← unpack_pairs n items.1
    ok (table items.0 pairs.0, pairs.1)

  pub unpack_items : ℕ → ℕ → List ℕ → Result (Values × List ℕ)
  unpack_items zero array_size rb = err unfinished
  unpack_items (suc n) zero rb = ok (no_values, rb)
  unpack_items (suc n) (suc k) rb = do
    v ← unpack_one n rb
    vs ← unpack_items n k v.1
    ok (value v.0 vs.0, vs.1)

  pub unpack_pairs : ℕ → List ℕ → Result (Pairs × List ℕ)
  unpack_pairs zero rb = err unfinished
  unpack_pairs (suc n) rb = do
    k ← unpack_one n rb
    if is_nil k.0 then ok (no_pairs, k.1) else (do
      v ← unpack_one n k.1
      if is_nan k.0
          then err nan_key
          else (do pairs ← unpack_pairs n v.1; ok (pair k.0 v.0 pairs.0, pairs.1)))
