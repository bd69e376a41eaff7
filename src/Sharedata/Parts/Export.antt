-- ===== src/Sharedata/Parts/Export.antt =====
-- conv_table, then push_table, of src/lualib-src/lua-sharedata.cpp: a Lua table goes in and comes out.
use starnet.Common.{
  ℕ, suc, ◌+◌, ◌≤◌, ◌<◌, ◌≡◌, refl, sym, ap, subst, ◌∙◌, true, false, Bool-cases, inl, inr,
  none-ne-some, Option, none, some, List, [], ◌∷◌, arith, length,
}
use starnet.Common.Int.{pos, negsuc}
use starnet.Sharedata.Table.{
  SharedKey, integer_key, string_key, Items, is_empty, lookup_hash, finish,
}
use starnet.Sharedata.Table.Chain.{assoc, AreDistinct}
use starnet.Sharedata.Table.Second.{is_empty-full}
use starnet.Sharedata.Table.Finish.{IsFinished, finish-IsFinished}
use starnet.Sharedata.Table.Lookup.{lookup_hash-key, lookup_hash-finds, AreDistinct-known}
use starnet.Sharedata.Parts.{SharedTable, LuaKey, create, finish_table, conv_table}
use starnet.Sharedata.Parts.Conv.{in_array, outside, place_all, convert}
use starnet.Sharedata.Parts.Place.{place_all-IsPlaced, assoc-outside, outside-AreDistinct}
use starnet.Sharedata.Parts.Index.{parts-agree, conv_table-finish_table}
use starnet.Sharedata.Parts.Iterate.{push_table}
use starnet.Sharedata.Parts.Copy.{IsOrdered, IsIterable, push_table-settled, length-push_table}
use starnet.Sharedata.Parts.Deepcopy.{push_table-index_value}

in_array_mono : (a b : ℕ) (k : SharedKey) → a ≤ b → in_array b k ≡ false → in_array a k ≡ false
unfolding in_array
in_array_mono a b (string_key s) le e = refl
in_array_mono a b (integer_key (negsuc n)) le e = refl
in_array_mono a b (integer_key (pos n)) le e = ground (arith, le, e)

module _ {V : Type 0} where
  -- Keys are found in their own slots.
  finish-own :
      (all : Items V) (size i : ℕ)
      → 0 < size
      → IsFinished all size (finish all)
      → is_empty (finish all i) ≡ false
      → lookup_hash size (finish all) (finish all i).key ≡ some i
  finish-own all size i some_size f full =
      let (w, value) = is_empty-full (finish all i) full in
      let stored = f.built.sound i w value in
      let (j, found, full_j) =
        lookup_hash-finds (finish all) (finish all i).key all size w some_size f stored in
      let key = lookup_hash-key (finish all) (finish all i).key size j found in
      found ∙ ap some (f.built.unique j i full_j full key)

  outside-key :
      (sizearray : ℕ) (items : Items V) (k : SharedKey) (v : V)
      → assoc k (outside sizearray items) ≡ some v
      → (in_array sizearray k ≡ false) × (assoc k items ≡ some v)
  unfolding in_array
  outside-key sizearray items k v e =
      let f = sym (assoc-outside sizearray k items) ∙ e in
      elim (Bool-cases (in_array sizearray k)) [
        | inl inside ↦ let g = rw inside at f in absurd (none-ne-some v g)
        | inr away ↦ let g = rw away at f in (away, g)
      ]

  -- A table in order, the values of whose hash part are known.
  record IsSorted (items : Items V) (t : SharedTable V) : Type 0 where
    ordered : IsOrdered t
    known : (i : ℕ) → is_empty (t.hash i) ≡ false → (w : V) × (assoc (t.hash i).key items ≡ some w)

  finish_table-IsSorted :
      (sizearray : ℕ) (items o : Items V) (t : SharedTable V)
      → o ≡ outside sizearray items
      → AreDistinct o
      → t.pending ≡ o
      → ((i : ℕ) → is_empty (t.hash i) ≡ true)
      → t.array_size ≤ sizearray
      → IsSorted items (finish_table t)
  unfolding finish_table
  finish_table-IsSorted sizearray items [] t e d pending blank le =
      rw (finish_table, pending)
        (record {
          ordered = record {
            inside = λ i full. absurd (cc (full, blank i));
            own = λ i full. absurd (cc (full, blank i));
            apart = λ i full. absurd (cc (full, blank i));
          };
          known = λ i full. absurd (cc (full, blank i));
        })
  finish_table-IsSorted sizearray items (kv ∷ o) t e d pending blank le =
      let all = kv ∷ o in
      let some_size : 0 < length all = omega arith in
      let f = finish-IsFinished all some_size (AreDistinct-known all d) d in
      let keys : ((i : ℕ)
          → is_empty (finish all i) ≡ false
          → (w : V) × (in_array sizearray (finish all i).key ≡ false)
            × (assoc (finish all i).key items ≡ some w)) =
        λ i full.
          let (w, value) = is_empty-full (finish all i) full in
          let stored = f.built.sound i w value in
          let (away, given) =
            outside-key sizearray items (finish all i).key w
              (subst (λ x. assoc (finish all i).key x ≡ some w) e stored) in
          (w, away, given) in
      rw (finish_table, pending)
        (record {
          ordered = record {
            inside = f.built.inside;
            own = λ i full. finish-own all (length all) i some_size f full;
            apart = λ i full.
                in_array_mono t.array_size sizearray (finish all i).key le (keys i full).1;
          };
          known = λ i full. ((keys i full).0, (keys i full).2);
        })

  conv-IsSorted :
      (rawlen : ℕ) (items : Items V)
      → AreDistinct items
      → IsSorted items (finish_table (place_all rawlen items create))
  conv-IsSorted rawlen items d =
      let p = place_all-IsPlaced rawlen items create d in
      finish_table-IsSorted rawlen items (outside rawlen items) (place_all rawlen items create) refl
        (outside-AreDistinct rawlen items d) p.pending (λ i. ap (λ h. is_empty (h i)) p.hash)
        (p.array_size (omega arith))

  pub conv-IsOrdered :
      (rawlen : ℕ) (items : Items V)
      → AreDistinct items
      → IsOrdered (finish_table (place_all rawlen items create))
  conv-IsOrdered rawlen items d = (conv-IsSorted rawlen items d).ordered

  conv-IsIterable :
      (rawlen : ℕ) (items : Items V)
      → AreDistinct items
      → assoc (integer_key (pos 0)) items ≡ none
      → IsIterable (finish_table (place_all rawlen items create))
  conv-IsIterable rawlen items d no_zero =
      let s = conv-IsSorted rawlen items d in
      record {
        ordered = s.ordered;
        nonzero = λ i full key.
            let (w, stored) = s.known i full in
            none-ne-some w (sym no_zero ∙ subst (λ x. assoc x items ≡ some w) key stored);
      }

module _ {A V : Type 0} (conv_value : A → Option V) (rawlen : ℕ) (entries : List (LuaKey × A)) where
  -- If the keys of a Lua table are integers other than 0 and strings, none twice, and its values
  -- convert, then the loop of push_table on the table that conv_table makes ends: it sets no more
  -- than array_size + hash_size pairs, and one round more than that is enough for it, since
  -- further rounds change nothing; and the copy has under every key the converted value of the
  -- Lua table, and no other keys.
  pub push_table-conv_table :
      (items : Items V)
      → convert conv_value entries ≡ some items
      → AreDistinct items
      → assoc (integer_key (pos 0)) items ≡ none
      → (t : SharedTable V) × (conv_table conv_value rawlen entries ≡ some t)
        × ((more : ℕ)
            → push_table (suc (t.array_size + t.hash_size) + more) t
              ≡ push_table (suc (t.array_size + t.hash_size)) t)
        × ((more : ℕ)
            → length (push_table (suc (t.array_size + t.hash_size) + more) t)
              ≤ t.array_size + t.hash_size)
        × ((more : ℕ) (k : SharedKey)
            → assoc k (push_table (suc (t.array_size + t.hash_size) + more) t) ≡ assoc k items)
  push_table-conv_table items f d no_zero =
      let t = finish_table (place_all rawlen items create) in
      (
        t,
        conv_table-finish_table conv_value rawlen entries items f,
        push_table-settled t (conv-IsIterable rawlen items d no_zero),
        length-push_table t (conv-IsIterable rawlen items d no_zero),
        (λ more k.
            push_table-index_value t (conv-IsIterable rawlen items d no_zero) k
              (suc (t.array_size + t.hash_size) + more) (omega arith)
            ∙ parts-agree rawlen items d k),
      )
