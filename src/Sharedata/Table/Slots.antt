-- ===== src/Sharedata/Table/Slots.antt =====
-- The empty slots of the hash part in src/starnet_sharedata.cpp, and the loop that looks for one.
use starnet.Common.{
  List, ap, ==_iff, ◌==◌, ℕ, zero, suc, ◌+◌, ◌-◌, ◌≤◌, ◌<◌, ◌≡◌, ◌≢◌, inl, inr, refl, true, false,
  Bool-cases, Option, none, some, [], ◌∷◌, if◌then◌else◌, arith, ℕ_discrete,
}
use starnet.Common.Int.{ℤ, pos, negsuc}
use starnet.Sharedata.Table.{
  integer_key, string_key, same_integer, same_str, SharedKey, same_key, Nodes, Items, is_empty,
  main_slot, find_empty,
}

same_integer-eq : (a b : ℤ) → same_integer a b ≡ true → a ≡ b
same_integer-eq (pos a) (pos b) e = ap pos ((==_iff a b).0 e)
same_integer-eq (negsuc a) (negsuc b) e = ap negsuc ((==_iff a b).0 e)
same_integer-eq (pos a) (negsuc b) e = absurd (cc e)
same_integer-eq (negsuc a) (pos b) e = absurd (cc e)

same_str-eq : (a b : List ℕ) → same_str a b ≡ true → a ≡ b
same_str-eq [] [] e = refl
same_str-eq [] (y ∷ ys) e = absurd (cc e)
same_str-eq (x ∷ xs) [] e = absurd (cc e)
same_str-eq (x ∷ xs) (y ∷ ys) e = elim (Bool-cases (x == y)) [
  | inl f ↦ let g = rw f at e in rw ((==_iff x y).0 f, same_str-eq xs ys g) refl
  | inr f ↦ let g = rw f at e in absurd (cc g)
]

pub same_key-eq : (a b : SharedKey) → same_key a b ≡ true → a ≡ b
unfolding same_key
same_key-eq (integer_key a) (integer_key b) e = ap integer_key (same_integer-eq a b e)
same_key-eq (string_key a) (string_key b) e = ap string_key (same_str-eq a b e)
same_key-eq (integer_key a) (string_key b) e = absurd (cc e)
same_key-eq (string_key a) (integer_key b) e = absurd (cc e)

same_str_self : (a : List ℕ) → same_str a a ≡ true
same_str_self [] = refl
same_str_self (x ∷ xs) = let f = (==_iff x x).1 refl in rw (f, same_str_self xs) refl

pub same_key_self : (a : SharedKey) → same_key a a ≡ true
unfolding same_key
same_key_self (integer_key (pos n)) = (==_iff n n).1 refl
same_key_self (integer_key (negsuc n)) = (==_iff n n).1 refl
same_key_self (string_key s) = same_str_self s

pub same_key-ne : (a b : SharedKey) → a ≢ b → same_key a b ≡ false
same_key-ne a b n = elim (Bool-cases (same_key a b)) [
  | inl e ↦ absurd (n (same_key-eq a b e))
  | inr e ↦ e
]

module _ {V : Type 0} where
  -- The empty slots among n from i on.
  unfoldable pub empties : ℕ → ℕ → Nodes V → ℕ
  empties zero i hash = 0
  empties (suc n) i hash =
      let rest = empties n (suc i) hash in if is_empty (hash i) then suc rest else rest

  -- The items that are not in their main slot.
  unfoldable pub absent : ℕ → Nodes V → Items V → ℕ
  absent size hash [] = 0
  absent size hash ((k, v) ∷ items) =
      let rest = absent size hash items in
      if same_key (hash (main_slot size k)).key k then rest else suc rest

  pub empties-cong :
      (n i : ℕ) (a b : Nodes V)
      → ((x : ℕ) → i ≤ x → is_empty (a x) ≡ is_empty (b x))
      → empties n i a ≡ empties n i b
  unfolding empties
  empties-cong zero i a b same = refl
  empties-cong (suc n) i a b same =
      rw (same i (omega arith), empties-cong n (suc i) a b (λ x le. same x (omega (arith, le))))
        refl

  -- One slot that was empty is not any more.
  pub empties-fewer :
      (n i j : ℕ) (a b : Nodes V)
      → i ≤ j
      → j < i + n
      → is_empty (a j) ≡ true
      → is_empty (b j) ≡ false
      → ((x : ℕ) → x ≢ j → is_empty (a x) ≡ is_empty (b x))
      → empties n i a ≡ suc (empties n i b)
  unfolding empties
  empties-fewer zero i j a b lo hi was is same = absurd (omega (arith, lo, hi))
  empties-fewer (suc n) i j a b lo hi was is same = elim (ℕ_discrete i j) [
    | yes e ↦
        let rest =
          empties-cong n (suc i) a b (λ x le. same x (λ f. absurd (omega (arith, le, f, e)))) in
        rw (e, was, is) (ap suc (rw⁻¹ e rest))
    | no d ↦
        let ih =
          empties-fewer n (suc i) j a b (omega (arith, lo, d)) (omega (arith, hi)) was is same in
        rw (same i d, ih) (ground arith)
  ]

  -- find_empty finds the first empty slot, if there is one.
  unfoldable pub Found : ℕ → ℕ → Nodes V → Option ℕ → Type 0
  Found n i hash none = empties n i hash ≡ 0
  Found n i hash (some j) =
      (i ≤ j)
      × (j < i + n)
      × (is_empty (hash j) ≡ true)
      × (empties n i hash ≡ suc (empties (i + n - suc j) (suc j) hash))

  Found-step :
      (n i : ℕ) (hash : Nodes V) (o : Option ℕ)
      → is_empty (hash i) ≡ false
      → Found n (suc i) hash o
      → Found (suc n) i hash o
  unfolding empties Found
  Found-step n i hash none full f = rw full f
  Found-step n i hash (some j) full f =
      let width : i + suc n - suc j ≡ suc i + n - suc j = omega arith in
      (omega (arith, f.0), omega (arith, f.1), f.2, rw (full, width) f.3)

  pub find_empty-Found : (n i : ℕ) (hash : Nodes V) → Found n i hash (find_empty n i hash)
  unfolding find_empty empties Found
  find_empty-Found zero i hash = refl
  find_empty-Found (suc n) i hash = elim (Bool-cases (is_empty (hash i))) [
    | inl e ↦
        let width : i + suc n - suc i ≡ n = omega arith in
        rw e (omega arith, omega arith, e, rw (e, width) refl)
    | inr e ↦ rw e (Found-step n i hash _ e (find_empty-Found n (suc i) hash))
  ]
