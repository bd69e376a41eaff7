-- ===== src/Sharedata/Nested/Entries.antt =====
-- The pairs of a Lua table that src/lualib-src/lua-sharedata.cpp can convert, one by one.
use starnet.Common.{
  ◌≡◌, ◌⊎◌, inl, inr, refl, Bool-cases, Option, none, some, List, [], ◌∷◌, if◌then◌else◌,
}
use starnet.Sharedata.Table.{SharedKey, integer_key, string_key, same_key, Items}
use starnet.Sharedata.Table.Chain.{assoc, AreDistinct}
use starnet.Sharedata.Parts.{LuaKey}
use starnet.Sharedata.Parts.Conv.{convert}
use starnet.Sharedata.Nested.{raw_get, IsNew, AreShareable}

module _ {A V : Type 0} (conv : A → Option V) (P : A → Type 0) where
  -- A key is missing in both, or both have it, and the value in one is converted from the other.
  abbrev pub Corresponds : List (LuaKey × A) → Items V → SharedKey → Type 0
  Corresponds entries items k =
      ((raw_get entries k ≡ none) × (assoc k items ≡ none))
      ⊎ ((a : A) × (v : V) × (raw_get entries k ≡ some a)
          × P a
          × (conv a ≡ some v)
          × (assoc k items ≡ some v))

  pub record IsConverted (entries : List (LuaKey × A)) : Type 0 where
    pub items : Items V
    pub converts : convert conv entries ≡ some items
    pub distinct : AreDistinct items
    pub corresponds : (k : SharedKey) → Corresponds entries items k

  entry-Corresponds :
      (k' k : SharedKey) (a : A) (v : V) (got : Option A) (stored : Option V)
      → P a
      → conv a ≡ some v
      → ((got ≡ none) × (stored ≡ none))
        ⊎ ((b : A) × (w : V) × (got ≡ some b) × P b × (conv b ≡ some w) × (stored ≡ some w))
      → (((if same_key k' k then some a else got) ≡ none)
          × ((if same_key k' k then some v else stored) ≡ none))
        ⊎ ((b : A) × (w : V) × ((if same_key k' k then some a else got) ≡ some b)
            × P b
            × (conv b ≡ some w)
            × ((if same_key k' k then some v else stored) ≡ some w))
  entry-Corresponds k' k a v got stored p c other = elim (Bool-cases (same_key k' k)) [
    | inl e ↦ rw e (inr (a, v, refl, p, c, refl))
    | inr e ↦ rw e other
  ]

  missing :
      (got : Option A) (stored : Option V)
      → got ≡ none
      → ((got ≡ none) × (stored ≡ none))
        ⊎ ((b : A) × (w : V) × (got ≡ some b) × P b × (conv b ≡ some w) × (stored ≡ some w))
      → stored ≡ none
  missing got stored e (inl (f, g)) = g
  missing got stored e (inr (b, w, f, p, c, g)) = absurd (cc (e, f))

  pub entries-IsConverted :
      ((a : A) → P a → (v : V) × (conv a ≡ some v))
      → (entries : List (LuaKey × A)) → AreShareable P entries
      → IsConverted entries
  unfolding AreShareable IsNew convert assoc AreDistinct
  entries-IsConverted share [] s = record {
    items = [];
    converts = refl;
    distinct = tt;
    corresponds = λ k. inl (refl, refl);
  }
  entries-IsConverted share ((LuaKey.integer n, a) ∷ entries) s =
      let (v, c) = share a s.1 in
      let ih = entries-IsConverted share entries s.2 in
      record {
        items = (integer_key n, v) ∷ ih.items;
        converts = rw (convert, c, ih.converts) refl;
        distinct = (missing _ _ s.0 (ih.corresponds (integer_key n)), ih.distinct);
        corresponds = λ k. entry-Corresponds (integer_key n) k a v _ _ s.1 c (ih.corresponds k);
      }
  entries-IsConverted share ((LuaKey.string b, a) ∷ entries) s =
      let (v, c) = share a s.1 in
      let ih = entries-IsConverted share entries s.2 in
      record {
        items = (string_key b, v) ∷ ih.items;
        converts = rw (convert, c, ih.converts) refl;
        distinct = (missing _ _ s.0 (ih.corresponds (string_key b)), ih.distinct);
        corresponds = λ k. entry-Corresponds (string_key b) k a v _ _ s.1 c (ih.corresponds k);
      }
  entries-IsConverted share ((LuaKey.other, a) ∷ entries) s = elim s.0 [ ]
