-- ===== src/Seri/RoundTrip.antt =====
-- The reader of lualib-src/lua-seri.cpp on what the writer wrote, with any bytes behind it.
use starnet.Common.{
  ℕ, ◌+◌, ◌-◌, ◌*◌, ◌≤◌, ◌≡◌, refl, List, ◌∷◌, ◌++◌, length, length-append, Bool-cases, inl, inr,
  append_assoc, arith,
}
use starnet.Seri.{ok}
use starnet.Seri.Value.{
  Value, nil, boolean, integer, real, light_userdata, string, table, meta_table, unsupported,
  Values, no_values, value, Pairs, no_pairs, pair, values_length,
}
use starnet.Seri.Write.{wb_nil, wb_table_head, is_array_key}
use starnet.Seri.Read.{unpack_one, unpack_items, unpack_pairs}
use starnet.Seri.Spec.{
  encode, encode_items, encode_pairs, IsPackable, ArePackable, ArePackablePairs, stored,
  stored_items, stored_pairs, IsLua, AreLua, AreLuaPairs, IsKey,
}
use starnet.Seri.Scalar.{integer-Reads, boolean-Reads, real-Reads, pointer-Reads, string-Reads}
use starnet.Seri.Rounds.{
  table-unpack_one, scalar-unpack_one, encode_some, wb_table_head_some, stored-IsKey, stored-is_nan,
  items_none, items_round, pairs_round, nil-unpack_one, pairs_none,
}

mutual
  unfolding encode stored IsPackable IsLua

  pub unpack_one-encode :
      (v : Value) (rest : List ℕ) (n : ℕ)
      → IsPackable v
      → IsLua IsKey v
      → 3 * length (encode v) + 1 ≤ n
      → unpack_one n (encode v ++ rest) ≡ ok (stored v, rest)
  unpack_one-encode nil rest n p l le = nil-unpack_one rest n (omega (arith, le))
  unpack_one-encode (boolean b) rest n p l le =
      scalar-unpack_one (boolean b) _ rest n (boolean-Reads b) (omega (arith, le))
  unpack_one-encode (integer v) rest n p l le =
      scalar-unpack_one (integer v) _ rest n (integer-Reads v l) (omega (arith, le))
  unpack_one-encode (real v) rest n p l le =
      scalar-unpack_one (real v) _ rest n (real-Reads v l) (omega (arith, le))
  unpack_one-encode (light_userdata v) rest n p l le =
      scalar-unpack_one (light_userdata v) _ rest n (pointer-Reads v l) (omega (arith, le))
  unpack_one-encode (string str) rest n p l le =
      scalar-unpack_one (string str) _ rest n (string-Reads str l) (omega (arith, le))
  unpack_one-encode (table array pairs) rest n p l le =
      let k = values_length array in
      let items = encode_items array in
      let hash = encode_pairs k pairs in
      let a = length-append (wb_table_head k) (items ++ (hash ++ wb_nil)) in
      let b = length-append items (hash ++ wb_nil) in
      let c = length-append hash wb_nil in
      let d = wb_table_head_some k in
      rw
        (
          table-unpack_one k (items ++ (hash ++ wb_nil)) rest n l.0 (omega (arith, le, a, d)),
          append_assoc items (hash ++ wb_nil) rest,
          append_assoc hash wb_nil rest,
          unpack_items-encode array (hash ++ (0 ∷ rest)) (n - 2) p.0 l.1
              (omega (arith, le, a, b, c, d)),
          unpack_pairs-encode k pairs rest (n - 2) p.1 l.2 (omega (arith, le, a, b, c, d)),
        )
        refl
  unpack_one-encode (meta_table pairs ends) rest n p l le =
      let hash = encode_pairs 0 pairs in
      let a = length-append (wb_table_head 0) (hash ++ wb_nil) in
      let c = length-append hash wb_nil in
      let d = wb_table_head_some 0 in
      rw
        (
          table-unpack_one 0 (hash ++ wb_nil) rest n (omega arith) (omega (arith, le, a, d)),
          append_assoc hash wb_nil rest,
          items_none (hash ++ (0 ∷ rest)) (n - 2) (omega (arith, le, a, c, d)),
          unpack_pairs-encode 0 pairs rest (n - 2) p.0 l (omega (arith, le, a, c, d)),
        )
        refl
  unpack_one-encode unsupported rest n p l le = elim p [ ]

  unpack_items-encode :
      (vs : Values) (rest : List ℕ) (n : ℕ)
      → ArePackable vs
      → AreLua IsKey vs
      → 3 * length (encode_items vs) + 2 ≤ n
      → unpack_items n (values_length vs) (encode_items vs ++ rest) ≡ ok (stored_items vs, rest)
  unpack_items-encode no_values rest n p l le = items_none rest n (omega (arith, le))
  unpack_items-encode (value v vs) rest n p l le =
      let size = length-append (encode v) (encode_items vs) in
      let some = encode_some v p.0 in
      rw
        (
          items_round ((encode v ++ encode_items vs) ++ rest) (values_length vs) n
              (omega (arith, le)),
          append_assoc (encode v) (encode_items vs) rest,
          unpack_one-encode v (encode_items vs ++ rest) (n - 1) p.0 l.0 (omega (arith, le, size)),
          unpack_items-encode vs rest (n - 1) p.1 l.1 (omega (arith, le, size, some)),
        )
        refl

  unpack_pairs-encode :
      (k : ℕ) (pairs : Pairs) (rest : List ℕ) (n : ℕ)
      → ArePackablePairs k pairs
      → AreLuaPairs IsKey pairs
      → 3 * length (encode_pairs k pairs) + 2 ≤ n
      → unpack_pairs n (encode_pairs k pairs ++ (0 ∷ rest)) ≡ ok (stored_pairs k pairs, rest)
  unpack_pairs-encode k no_pairs rest n p l le = pairs_none rest n (omega (arith, le))
  unpack_pairs-encode k (pair key v pairs) rest n p l le = elim (Bool-cases (is_array_key k key)) [
    | inl e ↦
        let p' = rw (ArePackablePairs, e) at p in
        let le' = rw (encode_pairs, e) at le in rw e (unpack_pairs-encode k pairs rest n p' l.3 le')
    | inr e ↦
        let p' = rw (ArePackablePairs, e) at p in
        let le' = rw (encode_pairs, e) at le in
        let hash = encode_pairs k pairs in
        let a = length-append (encode key) (encode v ++ hash) in
        let b = length-append (encode v) hash in
        let c = encode_some key p'.0 in
        rw
          (
            e,
            pairs_round ((encode key ++ (encode v ++ hash)) ++ (0 ∷ rest)) n (omega (arith, le')),
            append_assoc (encode key) (encode v ++ hash) (0 ∷ rest),
            append_assoc (encode v) hash (0 ∷ rest),
            unpack_one-encode key (encode v ++ (hash ++ (0 ∷ rest))) (n - 1) p'.0 l.1
                (omega (arith, le', a)),
            stored-IsKey key l.0,
            stored-is_nan key l.0,
            unpack_one-encode v (hash ++ (0 ∷ rest)) (n - 1) p'.1 l.2 (omega (arith, le', a, b, c)),
            unpack_pairs-encode k pairs rest (n - 1) p'.2 l.3 (omega (arith, le', a, b, c)),
          )
          refl
  ]
