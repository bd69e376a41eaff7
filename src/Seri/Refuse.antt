-- ===== src/Seri/Refuse.antt =====
-- What the writer of lualib-src/lua-seri.cpp refuses.
use starnet.Common.{ℕ, suc, ◌≡◌, refl, true, false, List, leb, Bool, Bool-cases, inl, inr}
use starnet.Seri.{Result, ok, err, Error, too_deep, pairs_failed, ◌>>=◌, guard}
use starnet.Seri.Value.{
  Value, nil, boolean, integer, real, light_userdata, string, table, meta_table, unsupported,
  Values, no_values, value, Pairs, no_pairs, pair, values_length,
}
use starnet.Seri.Write.{pack_one, wb_table_items, wb_table_hash, is_array_key, max_depth}
use starnet.Seri.Spec.{IsPackable, ArePackable, ArePackablePairs}

bind_ok :
    {A B : Type 0} (m : Result A) (f : A → Result B) (b : B)
    → (m >>= f) ≡ ok b
    → (a : A) × (m ≡ ok a) × (f a ≡ ok b)
bind_ok (ok a) f b h = (a, refl, h)
bind_ok (err e) f b h = cc

guard_ok :
    {A : Type 0} (t : Bool) (e : Error) (r : Result A) (a : A)
    → guard t e r ≡ ok a
    → (t ≡ true) × (r ≡ ok a)
guard_ok true e r a h = (refl, h)
guard_ok false e r a h = cc

mutual
  unfolding pack_one IsPackable

  written-IsPackable : (v : Value) (d : ℕ) (bytes : List ℕ) → pack_one v d ≡ ok bytes → IsPackable v
  written-IsPackable nil d bytes e = tt
  written-IsPackable (boolean b) d bytes e = tt
  written-IsPackable (integer v) d bytes e = tt
  written-IsPackable (real v) d bytes e = tt
  written-IsPackable (light_userdata v) d bytes e = tt
  written-IsPackable (string str) d bytes e = tt
  written-IsPackable (table array pairs) d bytes e =
      let inside = guard_ok (leb d max_depth) too_deep _ bytes e in
      let items = bind_ok (wb_table_items array (suc d)) _ bytes inside.1 in
      let hash = bind_ok (wb_table_hash (values_length array) pairs (suc d)) _ bytes items.2 in
      (
        items-ArePackable array (suc d) items.0 items.1,
        pairs-ArePackable (values_length array) pairs (suc d) hash.0 hash.1,
      )
  written-IsPackable (meta_table pairs ends) d bytes e =
      let inside = guard_ok (leb d max_depth) too_deep _ bytes e in
      let hash = bind_ok (wb_table_hash 0 pairs (suc d)) _ bytes inside.1 in
      let ended = guard_ok ends pairs_failed _ bytes hash.2 in
      (pairs-ArePackable 0 pairs (suc d) hash.0 hash.1, ended.0)
  written-IsPackable unsupported d bytes e =
      let inside = guard_ok (leb d max_depth) too_deep _ bytes e in cc inside.1

  items-ArePackable :
      (vs : Values) (d : ℕ) (bytes : List ℕ) → wb_table_items vs d ≡ ok bytes → ArePackable vs
  items-ArePackable no_values d bytes e = tt
  items-ArePackable (value v vs) d bytes e =
      let item = bind_ok (pack_one v d) _ bytes e in
      let items = bind_ok (wb_table_items vs d) _ bytes item.2 in
      (written-IsPackable v d item.0 item.1, items-ArePackable vs d items.0 items.1)

  pairs-ArePackable :
      (n : ℕ) (pairs : Pairs) (d : ℕ) (bytes : List ℕ)
      → wb_table_hash n pairs d ≡ ok bytes
      → ArePackablePairs n pairs
  pairs-ArePackable n no_pairs d bytes e = tt
  pairs-ArePackable n (pair k v pairs) d bytes e = elim (Bool-cases (is_array_key n k)) [
    | inl skip ↦
        let e' = rw (wb_table_hash, skip) at e in
        rw (ArePackablePairs, skip) (pairs-ArePackable n pairs d bytes e')
    | inr write ↦
        let e' = rw (wb_table_hash, write) at e in
        let key = bind_ok (pack_one k d) _ bytes e' in
        let item = bind_ok (pack_one v d) _ bytes key.2 in
        let hash = bind_ok (wb_table_hash n pairs d) _ bytes item.2 in
        rw (ArePackablePairs, write)
          (
            written-IsPackable k d key.0 key.1,
            written-IsPackable v d item.0 item.1,
            pairs-ArePackable n pairs d hash.0 hash.1,
          )
  ]

-- If pack_one gives bytes for a value at some depth, then every value that it writes has a type
-- that can be written, and every `__pairs` iterator in it ends without an error.
pub pack_one-IsPackable :
    (v : Value) (depth : ℕ) (bytes : List ℕ) → pack_one v depth ≡ ok bytes → IsPackable v
pack_one-IsPackable v depth bytes e = written-IsPackable v depth bytes e
