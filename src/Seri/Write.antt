-- ===== src/Seri/Write.antt =====
-- The writer of lualib-src/lua-seri.cpp: each function gives the bytes that it appends.
-- Numbers lie in memory with the lowest byte first.
use starnet.Common.{
  ℕ, zero, suc, ◌-◌, ◌*◌, ◌/◌, ◌%◌, ◌^◌, Bool, false, ◌&&◌, List, [], ◌∷◌, ◌++◌, ltb, leb, ◌==◌,
  length, if◌then◌else◌, bit_or,
}
use starnet.Common.Int.{ℤ, pos, negsuc}
use starnet.Seri.{Result, ok, err, too_deep, bad_type, pairs_failed, ◌>>=◌, guard}
use starnet.Seri.Value.{
  Value, nil, boolean, integer, real, light_userdata, string, table, meta_table, unsupported,
  Values, no_values, value, Pairs, no_pairs, pair, values_length,
}

abbrev pub type_nil : ℕ
type_nil = 0

abbrev pub type_boolean : ℕ
type_boolean = 1

abbrev pub type_number : ℕ
type_number = 2

abbrev pub number_zero : ℕ
number_zero = 0

abbrev pub number_byte : ℕ
number_byte = 1

abbrev pub number_word : ℕ
number_word = 2

abbrev pub number_dword : ℕ
number_dword = 4

abbrev pub number_qword : ℕ
number_qword = 6

abbrev pub number_real : ℕ
number_real = 8

abbrev pub type_userdata : ℕ
type_userdata = 3

abbrev pub type_short_string : ℕ
type_short_string = 4

abbrev pub type_long_string : ℕ
type_long_string = 5

abbrev pub type_table : ℕ
type_table = 6

abbrev pub max_cookie : ℕ
max_cookie = 32

abbrev pub max_depth : ℕ
max_depth = 32

-- `COMBINE_TYPE`, kept in a `uint8_t`.
unfoldable pub combine_type : ℕ → ℕ → ℕ
combine_type t v = bit_or t (v * 2 ^ 3) % 2 ^ 8

-- The n bytes of a number in memory.
abbrev pub memory : ℕ → ℕ → List ℕ
memory zero v = []
memory (suc n) v = v % 256 ∷ memory n (v / 256)

-- The number that a signed integer of w bits is in memory.
abbrev pub two_complement : ℕ → ℤ → ℕ
two_complement w (pos n) = n % 2 ^ w
two_complement w (negsuc n) = 2 ^ w - 1 - n % 2 ^ w

abbrev pub wb_nil : List ℕ
wb_nil = type_nil ∷ []

unfoldable pub wb_boolean : Bool → List ℕ
unfolding combine_type
wb_boolean b = combine_type type_boolean (if b then 1 else 0) ∷ []

unfoldable pub wb_qword : ℤ → List ℕ
unfolding combine_type
wb_qword v = combine_type type_number number_qword ∷ memory 8 (two_complement 64 v)

unfoldable pub wb_dword : ℤ → List ℕ
unfolding combine_type
wb_dword v = combine_type type_number number_dword ∷ memory 4 (two_complement 32 v)

-- The tests from the top: zero, outside of 32 bits, negative, and by the size.
unfoldable pub wb_integer : ℤ → List ℕ
unfolding wb_qword wb_dword combine_type
wb_integer (negsuc n) = if leb (2 ^ 31) n then wb_qword (negsuc n) else wb_dword (negsuc n)
wb_integer (pos n) =
    if n == 0
    then combine_type type_number number_zero ∷ []
    else if leb (2 ^ 31) n
    then wb_qword (pos n)
    else if ltb n 0x100
    then combine_type type_number number_byte ∷ memory 1 n
    else if ltb n 0x10000
    then combine_type type_number number_word ∷ memory 2 n
    else wb_dword (pos n)

unfoldable pub wb_real : List ℕ → List ℕ
unfolding combine_type
wb_real v = combine_type type_number number_real ∷ v

unfoldable pub wb_pointer : List ℕ → List ℕ
wb_pointer v = type_userdata ∷ v

-- The length is an `int`.
unfoldable pub wb_string : List ℕ → List ℕ
unfolding combine_type
wb_string str =
    let len = length str in
    if ltb len max_cookie
    then combine_type type_short_string len ∷ str
    else if ltb len 0x10000
    then combine_type type_long_string 2 ∷ (memory 2 len ++ str)
    else combine_type type_long_string 4 ∷ (memory 4 len ++ str)

-- The head of `wb_table_array`.
unfoldable pub wb_table_head : ℕ → List ℕ
unfolding combine_type wb_integer
wb_table_head array_size =
    if leb (max_cookie - 1) array_size
    then combine_type type_table (max_cookie - 1) ∷ wb_integer (pos array_size)
    else combine_type type_table array_size ∷ []

-- A key that `wb_table_hash` passes over, as it stands in the array.
abbrev pub is_array_key : ℕ → Value → Bool
is_array_key array_size (integer (pos x)) = ltb 0 x && leb x array_size
is_array_key array_size _ = false

-- `wb_table` passes `depth + 1` to what it writes. With `__pairs` no key is passed over, as with
-- an array of size 0, and a failing iterator raises its error after the pairs before it.
unfoldable mutual
  unfolding wb_boolean wb_integer wb_real wb_pointer wb_string wb_table_head

  pub pack_one : Value → ℕ → Result (List ℕ)
  pack_one nil depth = guard (leb depth max_depth) too_deep (ok wb_nil)
  pack_one (boolean b) depth = guard (leb depth max_depth) too_deep (ok (wb_boolean b))
  pack_one (integer v) depth = guard (leb depth max_depth) too_deep (ok (wb_integer v))
  pack_one (real v) depth = guard (leb depth max_depth) too_deep (ok (wb_real v))
  pack_one (light_userdata v) depth = guard (leb depth max_depth) too_deep (ok (wb_pointer v))
  pack_one (string str) depth = guard (leb depth max_depth) too_deep (ok (wb_string str))
  pack_one (table array pairs) depth = guard (leb depth max_depth) too_deep (do
    items ← wb_table_items array (suc depth)
    hash ← wb_table_hash (values_length array) pairs (suc depth)
    ok (wb_table_head (values_length array) ++ (items ++ (hash ++ wb_nil))))
  pack_one (meta_table pairs ends) depth = guard (leb depth max_depth) too_deep (do
    hash ← wb_table_hash 0 pairs (suc depth)
    guard ends pairs_failed (ok (wb_table_head 0 ++ (hash ++ wb_nil))))
  pack_one unsupported depth = guard (leb depth max_depth) too_deep (err bad_type)

  -- The loop of `wb_table_array`.
  pub wb_table_items : Values → ℕ → Result (List ℕ)
  wb_table_items no_values depth = ok []
  wb_table_items (value v vs) depth = do
    item ← pack_one v depth
    items ← wb_table_items vs depth
    ok (item ++ items)

  pub wb_table_hash : ℕ → Pairs → ℕ → Result (List ℕ)
  wb_table_hash array_size no_pairs depth = ok []
  wb_table_hash array_size (pair k v pairs) depth =
      let rest = wb_table_hash array_size pairs depth in
      let written = (do
        key ← pack_one k depth
        item ← pack_one v depth
        hash ← rest
        ok (key ++ (item ++ hash))) in
      if is_array_key array_size k then rest else written
