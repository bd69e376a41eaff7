-- ===== src/Sharedata/Parts/Conv.antt =====
-- The loop of conv_table in src/lualib-src/lua-sharedata.cpp: what goes to which part.
use starnet.Common.{
  Bool-cases, ltb, ℕ, ◌-◌, ◌≤◌, ◌≡◌, refl, ◌∙◌, Bool, true, false, ◌&&◌, inl, inr, Option, none,
  some, Option-cases, List, [], ◌∷◌, leb, ◌==◌, if◌then◌else◌, arith,
}
use starnet.Common.Int.{pos, negsuc}
use starnet.Sharedata.Table.{SharedKey, integer_key, string_key, Items}
use starnet.Sharedata.Parts.{
  SharedTable, LuaKey, integer, string, other, resize, set_array, add_hash, add_integer,
  conv_entries,
}

-- The keys of the array part.
unfoldable pub in_array : ℕ → SharedKey → Bool
in_array sizearray (integer_key (pos n)) = leb 1 n && leb n sizearray
in_array sizearray (integer_key (negsuc n)) = false
in_array sizearray (string_key s) = false

module _ {V : Type 0} where
  unfoldable pub outside : ℕ → Items V → Items V
  outside sizearray [] = []
  outside sizearray ((k, v) ∷ items) =
      let rest = outside sizearray items in if in_array sizearray k then rest else (k, v) ∷ rest

  -- The array's value of the key n, from 1 on.
  unfoldable pub cell : SharedTable V → ℕ → Option V
  cell t n = if leb n t.array_size then t.array (n - 1) else none

  unfoldable pub place : ℕ → SharedKey → V → SharedTable V → SharedTable V
  place sizearray (integer_key n) v t = add_integer sizearray n v t
  place sizearray (string_key s) v t = add_hash (string_key s) v t

  unfoldable pub place_all : ℕ → Items V → SharedTable V → SharedTable V
  place_all sizearray [] t = t
  place_all sizearray ((k, v) ∷ items) t = place_all sizearray items (place sizearray k v t)

  abbrev join : SharedKey × V → Option (Items V) → Option (Items V)
  join kv none = none
  join kv (some items) = some (kv ∷ items)

  module _ {A : Type 0} (conv_value : A → Option V) where
    -- The entries as items, if every key is an integer or a string and every value converts.
    unfoldable pub convert : List (LuaKey × A) → Option (Items V)
    convert [] = some []
    convert ((integer n, a) ∷ entries) = elim (conv_value a) [
      | none ↦ none
      | some v ↦ join (integer_key n, v) (convert entries)
    ]
    convert ((string s, a) ∷ entries) = elim (conv_value a) [
      | none ↦ none
      | some v ↦ join (string_key s, v) (convert entries)
    ]
    convert ((other, a) ∷ entries) = none

    -- The loop converts, and places what it has converted.
    pub conv_entries-place_all :
        (sizearray : ℕ) (entries : List (LuaKey × A)) (t : SharedTable V)
        → conv_entries conv_value sizearray entries t
          ≡ elim (convert entries) [ none ↦ none | some items ↦ some (place_all sizearray items t) ]
    unfolding conv_entries convert place_all place
    conv_entries-place_all sizearray [] t = refl
    conv_entries-place_all sizearray ((other, a) ∷ entries) t = refl
    conv_entries-place_all sizearray ((integer n, a) ∷ entries) t =
        elim (Option-cases (conv_value a)) [
          | inl e ↦ rw (conv_entries, convert, e) refl
          | inr (v, e) ↦
              let ih = conv_entries-place_all sizearray entries (add_integer sizearray n v t) in
              rw (conv_entries, convert, e)
                (ih ∙ elim (Option-cases (convert entries)) [
                  | inl f ↦ rw f refl
                  | inr (items, f) ↦ rw f refl
                ])
        ]
    conv_entries-place_all sizearray ((string s, a) ∷ entries) t =
        elim (Option-cases (conv_value a)) [
          | inl e ↦ rw (conv_entries, convert, e) refl
          | inr (v, e) ↦
              let ih = conv_entries-place_all sizearray entries (add_hash (string_key s) v t) in
              rw (conv_entries, convert, e)
                (ih ∙ elim (Option-cases (convert entries)) [
                  | inl f ↦ rw f refl
                  | inr (items, f) ↦ rw f refl
                ])
        ]

  pub place-inside :
      (sizearray : ℕ) (k : SharedKey) (v : V) (t : SharedTable V)
      → in_array sizearray k ≡ true
      → (n : ℕ) × (k ≡ integer_key (pos n)) × (1 ≤ n) × (place sizearray k v t ≡ set_array n v t)
  unfolding in_array place add_integer
  place-inside sizearray (integer_key (pos n)) v t e = (n, refl, ground (arith, e), rw e refl)
  place-inside sizearray (integer_key (negsuc n)) v t e = absurd (cc e)
  place-inside sizearray (string_key s) v t e = absurd (cc e)

  pub place-outside :
      (sizearray : ℕ) (k : SharedKey) (v : V) (t : SharedTable V)
      → in_array sizearray k ≡ false
      → place sizearray k v t ≡ add_hash k v t
  unfolding in_array place add_integer
  place-outside sizearray (integer_key (pos n)) v t e = rw e refl
  place-outside sizearray (integer_key (negsuc n)) v t e = refl
  place-outside sizearray (string_key s) v t e = refl

  pub set_array-rest :
      (n : ℕ) (v : V) (t : SharedTable V)
      → ((set_array n v t).pending ≡ t.pending)
        × ((set_array n v t).hash_size ≡ t.hash_size)
        × ((set_array n v t).hash ≡ t.hash)
  unfolding set_array resize
  set_array-rest n v t = elim (Bool-cases (leb 1 n)) [
    | inr e ↦ rw (set_array, e) (refl, refl, refl)
    | inl e ↦ elim (Bool-cases (ltb t.array_size n)) [
      | inl f ↦ rw (set_array, e, f) (refl, refl, refl)
      | inr f ↦ rw (set_array, e, f) (refl, refl, refl)
    ]
  ]

  pub set_array-cell :
      (n : ℕ) (v : V) (t : SharedTable V) (m : ℕ)
      → 1 ≤ n
      → 1 ≤ m
      → cell (set_array n v t) m ≡ (if m == n then some v else cell t m)
  unfolding set_array resize cell
  set_array-cell n v t m pos_n pos_m = ground arith

  pub set_array-size :
      (n : ℕ) (v : V) (t : SharedTable V) (bound : ℕ)
      → n ≤ bound
      → t.array_size ≤ bound
      → (set_array n v t).array_size ≤ bound
  unfolding set_array resize
  set_array-size n v t bound n_le le = ground (arith, n_le, le)
