-- ===== src/Seri/Rounds.antt =====
-- One call of each reader of lualib-src/lua-seri.cpp, with fuel left.
use starnet.Common.{
  ℕ, zero, suc, ◌-◌, ◌%◌, ◌^◌, ◌≤◌, ◌<◌, ◌≡◌, refl, List, [], ◌∷◌, ◌++◌, length, length-append, ltb,
  leb, ◌==◌, true, false, if-both, append_assoc, if◌then◌else◌, arith,
}
use starnet.Common.Int.{ℤ, pos, negsuc}
use starnet.Seri.{ok, err, nan_key, ◌>>=◌}
use starnet.Seri.Value.{
  Value, nil, boolean, integer, real, light_userdata, string, table, meta_table, unsupported,
  no_values, value, no_pairs, pair, values_length,
}
use starnet.Seri.Write.{
  combine_type, wb_nil, wb_boolean, wb_real, wb_pointer, wb_string, wb_qword, wb_dword, wb_integer,
  wb_table_head,
}
use starnet.Seri.Read.{
  byte_type, byte_cookie, array_size_of, long_array_size, to_int_rounds, push_value, unpack_one,
  unpack_table, unpack_items, unpack_pairs, is_nil, is_nan,
}
use starnet.Seri.Spec.{encode, encode_items, encode_pairs, IsPackable, stored, IsKey}
use starnet.Seri.Bytes.{byte_type-combine_type, byte_cookie-combine_type}
use starnet.Seri.Scalar.{Holds, wb_integer-Holds, Reads}

-- The head of a table: a first byte, and what its array size is read from.
Heads : ℕ → List ℕ → Type 0
Heads size head =
    (b : ℕ) × (bs : List ℕ) × (head ≡ b ∷ bs)
    × (byte_type b ≡ 6)
    × ((rest : List ℕ) → array_size_of (bs ++ rest) (byte_cookie b) ≡ ok (size, rest))

long_head : (size : ℕ) → size < 2 ^ 31 → Heads size (combine_type 6 31 ∷ wb_integer (pos size))
unfolding Heads combine_type byte_type byte_cookie array_size_of long_array_size to_int_rounds Holds
long_head size h =
    let (b, bs, e, type, cookie, get) = wb_integer-Holds (pos size) (omega (arith, h)) in
    let int : size % 2 ^ 32 ≡ size = omega (arith, h) in
    let fits : ltb size (2 ^ 31) ≡ true = ground (arith, h) in
    (
      254,
      wb_integer (pos size),
      refl,
      refl,
      (λ rest. rw (e, type, cookie, get rest, int, fits) refl),
    )

short_head : (size : ℕ) → size < 31 → Heads size (combine_type 6 size ∷ [])
unfolding Heads array_size_of
short_head size h =
    let type = byte_type-combine_type 6 size (omega arith) (omega (arith, h)) in
    let cookie = byte_cookie-combine_type 6 size (omega arith) (omega (arith, h)) in
    let short : (size == 31) ≡ false = ground (arith, h) in
    (combine_type 6 size, [], refl, type, (λ rest. rw (cookie, short) refl))

wb_table_head-Heads : (size : ℕ) → size < 2 ^ 31 → Heads size (wb_table_head size)
unfolding wb_table_head
wb_table_head-Heads size h =
    if-both (Heads size) (leb 31 size) _ _ (λ e. long_head size h)
      (λ e. short_head size (ground (arith, e)))

pub scalar-unpack_one :
    (v : Value) (bytes rest : List ℕ) (n : ℕ)
    → Reads v bytes
    → 1 ≤ n
    → unpack_one n (bytes ++ rest) ≡ ok (v, rest)
unfolding Reads unpack_one
scalar-unpack_one v bytes rest zero r le = elim le [ ]
scalar-unpack_one v bytes rest (suc n) r le =
    let (b, bs, e, get) = r in rw (e, get (unpack_table n) rest) refl

-- From the head of a table on.
pub table-unpack_one :
    (size : ℕ) (bytes rest : List ℕ) (n : ℕ)
    → size < 2 ^ 31
    → 2 ≤ n
    → unpack_one n ((wb_table_head size ++ bytes) ++ rest) ≡ (
        unpack_items (n - 2) size (bytes ++ rest) >>= λ items.
        unpack_pairs (n - 2) items.1 >>= λ pairs. ok (table items.0 pairs.0, pairs.1))
unfolding Heads unpack_one push_value
table-unpack_one size bytes rest zero h le = elim le [ ]
table-unpack_one size bytes rest (suc zero) h le = absurd (omega (arith, le))
table-unpack_one size bytes rest (suc (suc n)) h le =
    let (b, bs, e, type, get) = wb_table_head-Heads size h in
    let less : suc (suc n) - 2 ≡ n = omega arith in
    rw (e, type, append_assoc bs bytes rest, get (bytes ++ rest), less) refl

-- Something is written for every value, and a key is read as a key.
some_before : (xs ys : List ℕ) → 1 ≤ length (xs ++ (ys ++ wb_nil))
some_before xs ys = omega (arith, length-append xs (ys ++ wb_nil), length-append ys wb_nil)

wb_integer_some : (v : ℤ) → 1 ≤ length (wb_integer v)
unfolding wb_integer wb_qword wb_dword
wb_integer_some (negsuc n) = ground arith
wb_integer_some (pos n) = ground arith

pub wb_table_head_some : (size : ℕ) → 1 ≤ length (wb_table_head size)
unfolding wb_table_head
wb_table_head_some size = ground arith

pub encode_some : (v : Value) → IsPackable v → 1 ≤ length (encode v)
unfolding encode IsPackable wb_boolean wb_real wb_pointer wb_string
encode_some nil p = omega arith
encode_some (boolean b) p = omega arith
encode_some (integer v) p = wb_integer_some v
encode_some (real v) p = omega arith
encode_some (light_userdata v) p = omega arith
encode_some (string str) p = ground arith
encode_some (table array pairs) p =
    let n = values_length array in
    omega (
      arith,
      wb_table_head_some n,
      length-append (wb_table_head n) (encode_items array ++ (encode_pairs n pairs ++ wb_nil)),
    )
encode_some (meta_table pairs ends) p = some_before (wb_table_head 0) (encode_pairs 0 pairs)
encode_some unsupported p = elim p [ ]

pub stored-IsKey : (v : Value) → IsKey v → is_nil (stored v) ≡ false
unfolding stored is_nil
stored-IsKey nil h = elim h [ ]
stored-IsKey (boolean b) h = refl
stored-IsKey (integer v) h = refl
stored-IsKey (real v) h = refl
stored-IsKey (light_userdata v) h = refl
stored-IsKey (string str) h = refl
stored-IsKey (table array pairs) h = refl
stored-IsKey (meta_table pairs ends) h = refl
stored-IsKey unsupported h = refl

pub stored-is_nan : (v : Value) → IsKey v → is_nan (stored v) ≡ false
unfolding stored is_nan
stored-is_nan nil h = elim h [ ]
stored-is_nan (boolean b) h = refl
stored-is_nan (integer v) h = refl
stored-is_nan (real v) h = h
stored-is_nan (light_userdata v) h = refl
stored-is_nan (string str) h = refl
stored-is_nan (table array pairs) h = refl
stored-is_nan (meta_table pairs ends) h = refl
stored-is_nan unsupported h = refl

-- One call of each reader, with fuel left.
pub items_none : (rb : List ℕ) (n : ℕ) → 1 ≤ n → unpack_items n zero rb ≡ ok (no_values, rb)
unfolding unpack_one
items_none rb zero le = absurd (omega (arith, le))
items_none rb (suc n) le = refl

pub items_round :
    (rb : List ℕ) (k n : ℕ)
    → 1 ≤ n
    → unpack_items n (suc k) rb ≡ (
        unpack_one (n - 1) rb >>= λ v.
        unpack_items (n - 1) k v.1 >>= λ vs. ok (value v.0 vs.0, vs.1))
unfolding unpack_one
items_round rb k zero le = absurd (omega (arith, le))
items_round rb k (suc n) le = let e : suc n - 1 ≡ n = omega arith in rw e refl

pub pairs_round :
    (rb : List ℕ) (n : ℕ)
    → 1 ≤ n
    → unpack_pairs n rb ≡ (
        unpack_one (n - 1) rb >>= λ k.
        if is_nil k.0
        then ok (no_pairs, k.1)
        else (unpack_one (n - 1) k.1 >>= λ v.
            if is_nan k.0
            then err nan_key
            else (unpack_pairs (n - 1) v.1 >>= λ pairs. ok (pair k.0 v.0 pairs.0, pairs.1))))
unfolding unpack_one
pairs_round rb zero le = absurd (omega (arith, le))
pairs_round rb (suc n) le = let e : suc n - 1 ≡ n = omega arith in rw e refl

pub nil-unpack_one : (rest : List ℕ) (n : ℕ) → 1 ≤ n → unpack_one n (0 ∷ rest) ≡ ok (nil, rest)
unfolding unpack_one
nil-unpack_one rest zero le = absurd (omega (arith, le))
nil-unpack_one rest (suc n) le = refl

pub pairs_none : (rest : List ℕ) (n : ℕ) → 2 ≤ n → unpack_pairs n (0 ∷ rest) ≡ ok (no_pairs, rest)
unfolding is_nil
pairs_none rest n le =
    rw
      (
        pairs_round (0 ∷ rest) n (omega (arith, le)),
        nil-unpack_one rest (n - 1) (omega (arith, le)),
      )
      refl
