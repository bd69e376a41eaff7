-- ===== src/Seri/Pack.antt =====
-- The writer of lualib-src/lua-seri.cpp against its specification, with the limit on the depth.
use starnet.Common.{
  ℕ, suc, ◌+◌, ◌≤◌, ◌≡◌, refl, max, List, ◌++◌, leb, if◌then◌else◌, arith, Bool-cases, inl, inr,
  dec_le, ◌∙◌,
}
use starnet.Seri.{Result, ok, err, too_deep, ◌>>=◌, guard}
use starnet.Seri.Value.{
  Value, nil, boolean, integer, real, light_userdata, string, table, meta_table, unsupported,
  Values, no_values, value, Pairs, no_pairs, pair, values_length,
}
use starnet.Seri.Write.{
  pack_one, wb_table_items, wb_table_hash, wb_table_head, wb_nil, is_array_key, max_depth,
}
use starnet.Seri.Spec.{
  encode, encode_items, encode_pairs, height, height_items, height_pairs, IsPackable, ArePackable,
  ArePackablePairs,
}

-- What a writer gives for a height below a depth.
abbrev pub Bounded : ℕ → ℕ → List ℕ → Result (List ℕ)
Bounded h d bytes = if leb (h + d) max_depth then ok bytes else err too_deep

module _ (h1 d1 h2 d2 h d : ℕ) (x y : List ℕ) where
  pub Bounded_two :
      (f : List ℕ → List ℕ → List ℕ)
      → h + d ≡ max (h1 + d1) (h2 + d2)
      → (Bounded h1 d1 x >>= λ a. Bounded h2 d2 y >>= λ b. ok (f a b)) ≡ Bounded h d (f x y)
  Bounded_two f e = ground arith

  Bounded_three :
      (h3 d3 : ℕ) (z : List ℕ) (f : List ℕ → List ℕ → List ℕ → List ℕ)
      → h + d ≡ max (h1 + d1) (max (h2 + d2) (h3 + d3))
      → (Bounded h1 d1 x >>= λ a. Bounded h2 d2 y >>= λ b. Bounded h3 d3 z >>= λ c. ok (f a b c))
        ≡ Bounded h d (f x y z)
  Bounded_three h3 d3 z f e = ground arith

Bounded_guard :
    (h d : ℕ) (x : List ℕ) → guard (leb d max_depth) too_deep (Bounded h d x) ≡ Bounded h d x
Bounded_guard h d x = ground arith

guard_deep :
    (d : ℕ) (r r' : Result (List ℕ))
    → (d ≤ max_depth → r ≡ r')
    → guard (leb d max_depth) too_deep r ≡ guard (leb d max_depth) too_deep r'
guard_deep d r r' e = elim (dec_le d max_depth) [
  | yes le ↦ rw (e le) refl
  | no gt ↦ ground (arith, gt)
]

mutual
  unfolding pack_one encode height IsPackable

  pub pack_one-Bounded :
      (v : Value) (d : ℕ) → IsPackable v → pack_one v d ≡ Bounded (height v) d (encode v)
  pack_one-Bounded nil d p = ground arith
  pack_one-Bounded (boolean b) d p = ground arith
  pack_one-Bounded (integer v) d p = ground arith
  pack_one-Bounded (real v) d p = ground arith
  pack_one-Bounded (light_userdata v) d p = ground arith
  pack_one-Bounded (string str) d p = ground arith
  pack_one-Bounded (table array pairs) d p =
      let n = values_length array in
      guard_deep d _ (Bounded (height (table array pairs)) d (encode (table array pairs))) (λ le.
        rw (items-Bounded array d p.0 le, pairs-Bounded n pairs d p.1 le)
          (Bounded_two (height_items array) d (height_pairs n pairs) d _ d _ _
            (λ a b. wb_table_head n ++ (a ++ (b ++ wb_nil))) (omega arith)))
      ∙ Bounded_guard _ d _
  pack_one-Bounded (meta_table pairs ends) d p =
      guard_deep d _ (Bounded (height_pairs 0 pairs) d (encode (meta_table pairs ends)))
        (λ le. rw (pairs-Bounded 0 pairs d p.0 le, p.1) (ground arith))
      ∙ Bounded_guard _ d _
  pack_one-Bounded unsupported d p = elim p [ ]

  items-Bounded :
      (vs : Values) (d : ℕ)
      → ArePackable vs
      → d ≤ max_depth
      → wb_table_items vs (suc d) ≡ Bounded (height_items vs) d (encode_items vs)
  items-Bounded no_values d p le = ground arith
  items-Bounded (value v vs) d p le =
      rw (pack_one-Bounded v (suc d) p.0, items-Bounded vs d p.1 le)
        (Bounded_two (height v) (suc d) (height_items vs) d _ d _ _ (λ a b. a ++ b) (omega arith))

  pairs-Bounded :
      (n : ℕ) (pairs : Pairs) (d : ℕ)
      → ArePackablePairs n pairs
      → d ≤ max_depth
      → wb_table_hash n pairs (suc d) ≡ Bounded (height_pairs n pairs) d (encode_pairs n pairs)
  pairs-Bounded n no_pairs d p le = ground arith
  pairs-Bounded n (pair k v pairs) d p le = elim (Bool-cases (is_array_key n k)) [
    | inl e ↦ let p' = rw (ArePackablePairs, e) at p in rw e (pairs-Bounded n pairs d p' le)
    | inr e ↦
        let p' = rw (ArePackablePairs, e) at p in
        rw
          (
            e,
            pack_one-Bounded k (suc d) p'.0,
            pack_one-Bounded v (suc d) p'.1,
            pairs-Bounded n pairs d p'.2 le,
          )
          (Bounded_three (height k) (suc d) (height v) (suc d) _ d _ _ (height_pairs n pairs) d _
            (λ a b c. a ++ (b ++ c)) (omega arith))
  ]
