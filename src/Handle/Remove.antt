-- ===== src/Handle/Remove.antt =====
-- What starnet_handle_removename of src/starnet_handle.cpp leaves.
use Prim.Native.String.{String}
use text.Mathlib.Text.{◌==◌ as str_eq}
use starnet.Common.{
  ℕ, ◌≡◌, ◌≢◌, ◌⊎◌, sym, ap, refl, ◌∙◌, true, false, [], ◌∷◌, none, some, Option-cases,
  none-ne-some, ℕ_discrete, ◌==◌, arith, Bool-cases, inl, inr,
}
use starnet.Handle.{NameMap, find, starnet_handle_removename}

module _ (name k : String) (h : ℕ) (m : NameMap) where
  find_own : str_eq k name ≡ true → find name ((k, h) ∷ m) ≡ some h
  unfolding find
  find_own e = rw e refl

  find_apart : str_eq k name ≡ false → find name ((k, h) ∷ m) ≡ find name m
  unfolding find
  find_apart e = rw e refl

module _ (handle : ℕ) (k : String) (h : ℕ) (m : NameMap) where
  drops :
      (h == handle) ≡ true
      → starnet_handle_removename handle ((k, h) ∷ m) ≡ starnet_handle_removename handle m
  unfolding starnet_handle_removename
  drops e = rw e refl

  keeps :
      (h == handle) ≡ false
      → starnet_handle_removename handle ((k, h) ∷ m) ≡ (k, h) ∷ starnet_handle_removename handle m
  unfolding starnet_handle_removename
  keeps e = rw e refl

kept :
    (handle g : ℕ) (name : String) (m : NameMap)
    → g ≢ handle
    → find name m ≡ some g
    → find name (starnet_handle_removename handle m) ≡ some g
unfolding find starnet_handle_removename
kept handle g name [] n e = e
kept handle g name ((k, h) ∷ m) n e = elim (Bool-cases (h == handle)) [
  | inl same ↦ rw (drops handle k h m same) (elim (Bool-cases (str_eq k name)) [
    | inl own ↦ let f = sym (find_own name k h m own) ∙ e in grind (arith, f, n, same)
    | inr apart ↦ kept handle g name m n (sym (find_apart name k h m apart) ∙ e)
  ])
  | inr other ↦ rw (keeps handle k h m other) (elim (Bool-cases (str_eq k name)) [
    | inl own ↦ find_own name k h _ own ∙ sym (find_own name k h m own) ∙ e
    | inr apart ↦
        find_apart name k h _ apart ∙ kept handle g name m n (sym (find_apart name k h m apart) ∙ e)
  ])
]

gone :
    (handle : ℕ) (name : String) (m : NameMap)
    → find name (starnet_handle_removename handle m) ≢ some handle
unfolding find starnet_handle_removename
gone handle name [] e = grind (arith, e)
gone handle name ((k, h) ∷ m) e = elim (Bool-cases (h == handle)) [
  | inl same ↦ gone handle name m (rw (drops handle k h m same) at e)
  | inr other ↦
      let e' = rw (keeps handle k h m other) at e in
      elim (Bool-cases (str_eq k name)) [
        | inl own ↦ let f = sym (find_own name k h _ own) ∙ e' in grind (arith, f, other)
        | inr apart ↦ gone handle name m (sym (find_apart name k h _ apart) ∙ e')
      ]
]

absent :
    (handle : ℕ) (name : String) (m : NameMap)
    → find name m ≡ none
    → find name (starnet_handle_removename handle m) ≡ none
unfolding find starnet_handle_removename
absent handle name [] e = refl
absent handle name ((k, h) ∷ m) e = elim (Bool-cases (str_eq k name)) [
  | inl own ↦ absurd (none-ne-some h (sym e ∙ find_own name k h m own))
  | inr apart ↦
      let rest = absent handle name m (sym (find_apart name k h m apart) ∙ e) in
      elim (Bool-cases (h == handle)) [
        | inl same ↦ rw (drops handle k h m same) rest
        | inr other ↦ rw (keeps handle k h m other) (find_apart name k h _ apart ∙ rest)
      ]
]

-- After starnet_handle_removename no name at all leads to the handle that was removed, and a name
-- that led to another handle, or to none, still does.
pub find-removename :
    (handle : ℕ) (name : String) (m : NameMap)
    → (find name (starnet_handle_removename handle m) ≢ some handle)
      × ((find name (starnet_handle_removename handle m) ≡ find name m)
          ⊎ (find name m ≡ some handle))
find-removename handle name m = (gone handle name m, by_found (Option-cases (find name m)))
  where
    by_found :
        (find name m ≡ none) ⊎ ((g : ℕ) × (find name m ≡ some g))
        → (find name (starnet_handle_removename handle m) ≡ find name m)
          ⊎ (find name m ≡ some handle)
    by_found (inl e) = inl (absent handle name m e ∙ sym e)
    by_found (inr (g, e)) = elim (ℕ_discrete g handle) [
      | yes f ↦ inr (e ∙ ap some f)
      | no n ↦ inl (kept handle g name m n e ∙ sym e)
    ]
