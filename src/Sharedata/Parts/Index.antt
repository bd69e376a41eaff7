-- ===== src/Sharedata/Parts/Index.antt =====
-- A table that src/lualib-src/lua-sharedata.cpp makes of a Lua table, against the Lua table.
use starnet.Common.{
  ℕ, ◌≤◌, ◌≡◌, ◌↔◌, ◌⊎◌, refl, sym, ◌∙◌, true, false, ◌&&◌, Bool-cases, inl, inr, none-ne-some,
  Option, none, some, Option-cases, List, [], ◌∷◌, leb, if◌then◌else◌, arith, length,
}
use starnet.Common.Int.{pos, negsuc}
use starnet.Sharedata.Table.{SharedKey, integer_key, string_key, Items, Nodes, finish, lookup_hash}
use starnet.Sharedata.Table.Chain.{assoc, AreDistinct}
use starnet.Sharedata.Table.Lookup.{value_at, finish-lookup_hash}
use starnet.Sharedata.Parts.{
  SharedTable, LuaKey, create, finish_table, lookup_array, lookup_node, lookup, index_value, flat,
  conv_table,
}
use starnet.Sharedata.Parts.Conv.{
  in_array, outside, cell, place_all, convert, conv_entries-place_all,
}
use starnet.Sharedata.Parts.Place.{place_all-IsPlaced, assoc-outside, outside-AreDistinct}

pub list-cases : {A : Type 0} (xs : List A) → (xs ≡ []) ⊎ ((x : A) × (ys : List A) × (xs ≡ x ∷ ys))
list-cases [] = inl refl
list-cases (x ∷ xs) = inr (x, xs, refl)

module _ {V : Type 0} where
  pub finish_table-array :
      (t : SharedTable V)
      → ((finish_table t).array_size ≡ t.array_size) × ((finish_table t).array ≡ t.array)
  unfolding finish_table
  finish_table-array t = elim (list-cases t.pending) [
    | inl e ↦ rw (finish_table, e) (refl, refl)
    | inr (kv, items, e) ↦ rw (finish_table, e) (refl, refl)
  ]

module _ {V : Type 0} (k : SharedKey) where
  lookup_hash-empty : (hash : Nodes V) → lookup_hash 0 hash k ≡ none
  unfolding lookup_hash
  lookup_hash-empty hash = refl

  lookup_node-agrees :
      (o : Items V) (t : SharedTable V)
      → t.pending ≡ o
      → t.hash_size ≡ 0
      → AreDistinct o
      → flat (lookup_node (finish_table t) k) ≡ assoc k o
  unfolding lookup_node finish_table assoc value_at
  lookup_node-agrees [] t e none_yet d =
      rw (finish_table, e, none_yet, flat, lookup_node, lookup_hash-empty t.hash) refl
  lookup_node-agrees (kv ∷ items) t e none_yet d =
      let all = kv ∷ items in
      let found = finish-lookup_hash all k d in
      rw (finish_table, e)
        (elim (Option-cases (lookup_hash (length all) (finish all) k)) [
          | inl f ↦ let g = rw f at found in rw (flat, lookup_node, f) g
          | inr (i, f) ↦ let g = rw f at found in rw (flat, lookup_node, f) g
        ])

module _ {V : Type 0} (sizearray : ℕ) (items : Items V) (d : AreDistinct items) where
  placed_table : SharedTable V
  placed_table = place_all sizearray items create

  placed_node :
      (k : SharedKey)
      → flat (lookup_node (finish_table placed_table) k)
        ≡ (if in_array sizearray k then none else assoc k items)
  unfolding placed_table
  placed_node k =
      let p = place_all-IsPlaced sizearray items create d in
      lookup_node-agrees k (outside sizearray items) placed_table p.pending p.hash_size
        (outside-AreDistinct sizearray items d)
      ∙ assoc-outside sizearray k items

  placed_size : placed_table.array_size ≤ sizearray
  unfolding placed_table
  placed_size = (place_all-IsPlaced sizearray items create d).array_size (omega arith)

  placed_cell :
      (n : ℕ) → 1 ≤ n → n ≤ sizearray → cell placed_table n ≡ assoc (integer_key (pos n)) items
  unfolding placed_table cell
  placed_cell n pos_n n_le =
      let p = place_all-IsPlaced sizearray items create d in
      let blank : leb n 0 ≡ false = ground (arith, pos_n) in
      let e = rw blank at (p.cells n pos_n n_le) in
      e ∙ elim (Option-cases (assoc (integer_key (pos n)) items)) [
        | inl f ↦ rw f refl
        | inr (v, f) ↦ rw f refl
      ]

  placed-integer :
      (n : ℕ)
      → index_value (finish_table placed_table) (integer_key (pos n))
        ≡ assoc (integer_key (pos n)) items
  unfolding index_value lookup lookup_array in_array cell
  placed-integer n =
      let t = placed_table in
      let (size, array) = finish_table-array t in
      elim (Bool-cases (leb 1 n && leb n t.array_size)) [
        | inl hit ↦
            let pos_n : 1 ≤ n = ground (arith, hit) in
            let within : leb n t.array_size ≡ true = ground (arith, hit) in
            let bound = placed_size in
            let le : n ≤ sizearray = ground (arith, within, bound) in
            let stored = rw (cell, within) at (placed_cell n pos_n le) in
            rw (flat, lookup, lookup_array, size, array, hit) stored
        | inr miss ↦
            let node = placed_node (integer_key (pos n)) in
            rw (flat, lookup, lookup_array, size, miss)
              (node ∙ elim (Bool-cases (leb 1 n && leb n sizearray)) [
                | inr away ↦ rw away refl
                | inl inside ↦
                    let pos_n : 1 ≤ n = ground (arith, inside) in
                    let le : n ≤ sizearray = ground (arith, inside) in
                    let short : leb n t.array_size ≡ false = ground (arith, miss, pos_n) in
                    let blank = rw (cell, short) at (placed_cell n pos_n le) in rw inside blank
              ])
      ]

  -- The array part answers for the keys that are in it, and the hash part for all others.
  pub parts-agree :
      (k : SharedKey)
      → index_value (finish_table (place_all sizearray items create)) k ≡ assoc k items
  unfolding placed_table index_value lookup lookup_array in_array
  parts-agree (string_key s) = placed_node (string_key s)
  parts-agree (integer_key (negsuc n)) = placed_node (integer_key (negsuc n))
  parts-agree (integer_key (pos n)) = placed-integer n

module _ {A V : Type 0} (conv_value : A → Option V) (rawlen : ℕ) (entries : List (LuaKey × A)) where
  -- conv_table gives no table exactly if a key is no integer and no string, or a value is of a
  -- type that conv_value refuses.
  pub conv_table_refuses :
      (conv_table conv_value rawlen entries ≡ none) ↔ (convert conv_value entries ≡ none)
  unfolding conv_table
  conv_table_refuses =
      let e = conv_entries-place_all conv_value rawlen entries create in
      elim (Option-cases (convert conv_value entries)) [
        | inl f ↦ let g = rw f at e in (λ h. f, (λ h. rw (conv_table, g) refl))
        | inr (items, f) ↦
            let g = rw f at e in
            (
              (λ h.
                  let some_table = rw (conv_table, g) at h in
                  absurd (none-ne-some _ (sym some_table))),
              (λ h. absurd (none-ne-some items (sym h ∙ f))),
            )
      ]

  pub conv_table-finish_table :
      (items : Items V)
      → convert conv_value entries ≡ some items
      → conv_table conv_value rawlen entries ≡ some (finish_table (place_all rawlen items create))
  unfolding conv_table
  conv_table-finish_table items f =
      let e = conv_entries-place_all conv_value rawlen entries create in
      let g = rw f at e in rw (conv_table, g) refl

  -- If the keys of a Lua table are integers and strings, none twice, and its values convert, then
  -- conv_table makes a table of it, whatever lua_rawlen says, that answers every key with the
  -- converted value that the Lua table has under it, and with nil if it has none.
  pub conv_table-index_value :
      (items : Items V)
      → convert conv_value entries ≡ some items
      → AreDistinct items
      → (t : SharedTable V) × (conv_table conv_value rawlen entries ≡ some t)
        × ((k : SharedKey) → index_value t k ≡ assoc k items)
  conv_table-index_value items f d =
      let t = finish_table (place_all rawlen items create) in
      (t, conv_table-finish_table items f, parts-agree rawlen items d)
