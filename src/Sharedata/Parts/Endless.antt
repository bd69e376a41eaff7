-- ===== src/Sharedata/Parts/Endless.antt =====
-- The loop over NextKey of src/starnet_sharedata.cpp on a table with the integer key 0.
use starnet.Common.{
  ℕ, zero, suc, ◌+◌, ◌≤◌, ◌≡◌, ◌≢◌, refl, sym, ap, subst, ◌∙◌, false, inl, inr, some-injective,
  none-ne-some, Option, some, Option-cases, List, arith, length, ℕ_discrete,
}
use starnet.Common.Int.{pos}
use starnet.Sharedata.Table.{SharedKey, integer_key, Items, is_empty, lookup_hash}
use starnet.Sharedata.Table.Chain.{assoc, AreDistinct}
use starnet.Sharedata.Table.Lookup.{lookup_hash-key}
use starnet.Sharedata.Parts.{
  SharedTable, LuaKey, create, finish_table, conv_table, flat, lookup_node,
}
use starnet.Sharedata.Parts.Conv.{in_array, place_all, convert}
use starnet.Sharedata.Parts.Index.{parts-agree, conv_table-finish_table}
use starnet.Sharedata.Parts.Iterate.{
  next_hash_slot, next_array, next_parts, next_key, push_loop, push_table,
}
use starnet.Sharedata.Parts.Copy.{IsOrdered, next_key-slot, next_key-element}
use starnet.Sharedata.Parts.Deepcopy.{index_value-outside}
use starnet.Sharedata.Parts.Export.{conv-IsOrdered}

module _ {V : Type 0} (t : SharedTable V) (ordered : IsOrdered t) (z : ℕ) where
  -- What NextKey gives while it has not got past the slot z.
  data Going : Option (SharedKey × V) → Type 0 where
    in_slots : (m i : ℕ) → i + m ≡ t.hash_size → i ≤ z → Going (next_hash_slot m i t.hash)
    in_elements : (m i : ℕ) → i + m ≡ t.array_size → Going (next_parts m i t)

  abbrev GoesOn : Option (SharedKey × V) → Type 0
  GoesOn o = (k : SharedKey) × (v : V) × (o ≡ some (k, v)) × Going (next_key t k)

  module _ (full : is_empty (t.hash z) ≡ false) (key : (t.hash z).key ≡ integer_key (pos 0)) where
    restart : Going (next_key t (integer_key (pos 0)))
    unfolding next_key
    restart = in_elements t.array_size 0 (omega arith)

    -- Only the slot z has the key 0.
    other_key : (i : ℕ) → is_empty (t.hash i) ≡ false → i ≢ z → (t.hash i).key ≢ integer_key (pos 0)
    other_key i full_i n same =
        let own_i =
          subst (λ x. lookup_hash t.hash_size t.hash x ≡ some i) (same ∙ sym key)
            (ordered.own i full_i) in
        n (some-injective i z (sym own_i ∙ ordered.own z full))

    in_slots-GoesOn : (m i : ℕ) → i + m ≡ t.hash_size → i ≤ z → GoesOn (next_hash_slot m i t.hash)
    unfolding next_hash_slot
    in_slots-GoesOn zero i e le = absurd (omega (arith, e, le, ordered.inside z full))
    in_slots-GoesOn (suc m) i e le = elim (Option-cases (t.hash i).value) [
      | inl empty ↦
          let n : i ≢ z = λ f.
            let g = subst (λ x. is_empty (t.hash x) ≡ false) (sym f) full in
            let h = rw empty at g in cc h in
          rw (next_hash_slot, empty)
            (in_slots-GoesOn m (suc i) (omega (arith, e)) (omega (arith, le, n)))
      | inr (v, value) ↦
          let full_i : is_empty (t.hash i) ≡ false = rw value refl in
          rw (next_hash_slot, value)
            (
              (t.hash i).key,
              v,
              refl,
              (elim (ℕ_discrete i z) [
                | yes f ↦
                    let zero_key : (t.hash i).key ≡ integer_key (pos 0) =
                      ap (λ x. (t.hash x).key) f ∙ key in
                    subst (λ x. Going (next_key t x)) (sym zero_key) restart
                | no n ↦
                    let next =
                      next_key-slot t i m ordered (omega (arith, e)) full_i
                        (other_key i full_i n) in
                    subst Going (sym next)
                      (in_slots m (suc i) (omega (arith, e)) (omega (arith, le, n)))
              ]),
            )
    ]

    in_elements-GoesOn : (m i : ℕ) → i + m ≡ t.array_size → GoesOn (next_parts m i t)
    unfolding next_parts next_array
    in_elements-GoesOn zero i e = in_slots-GoesOn t.hash_size 0 (omega arith) (omega arith)
    in_elements-GoesOn (suc m) i e = elim (Option-cases (t.array i)) [
      | inl empty ↦
          rw (next_parts, next_array, empty) (in_elements-GoesOn m (suc i) (omega (arith, e)))
      | inr (v, value) ↦
          let next = next_key-element t i m (omega (arith, e)) in
          rw (next_parts, next_array, value)
            (
              integer_key (pos (i + 1)),
              v,
              refl,
              subst Going (sym next) (in_elements m (suc i) (omega (arith, e))),
            )
    ]

    Going-GoesOn : (o : Option (SharedKey × V)) → Going o → GoesOn o
    Going-GoesOn o (in_slots m i e le) = in_slots-GoesOn m i e le
    Going-GoesOn o (in_elements m i e) = in_elements-GoesOn m i e

    push_loop-length :
        (n : ℕ) (prev : SharedKey) → Going (next_key t prev) → length (push_loop n t prev) ≡ n
    unfolding push_loop
    push_loop-length zero prev going = refl
    push_loop-length (suc n) prev going =
        let (k, v, next, further) = Going-GoesOn (next_key t prev) going in
        rw (push_loop, next) (ap suc (push_loop-length n k further))

module _ {A V : Type 0} (conv_value : A → Option V) (rawlen : ℕ) (entries : List (LuaKey × A)) where
  -- If the keys of a Lua table are integers and strings, none twice, one of them is the integer 0,
  -- and its values convert, then the loop of push_table on the table that conv_table makes goes
  -- on for any number of rounds.
  pub push_table-endless :
      (items : Items V) (v : V)
      → convert conv_value entries ≡ some items
      → AreDistinct items
      → assoc (integer_key (pos 0)) items ≡ some v
      → (t : SharedTable V) × (conv_table conv_value rawlen entries ≡ some t)
        × ((n : ℕ) → length (push_table n t) ≡ n)
  unfolding push_table in_array lookup_node
  push_table-endless items v f d given =
      let t = finish_table (place_all rawlen items create) in
      let ordered = conv-IsOrdered rawlen items d in
      let zero_key = integer_key (pos 0) in
      let outside : in_array t.array_size zero_key ≡ false = ground arith in
      let node =
        sym (index_value-outside t zero_key outside)
        ∙ parts-agree rawlen items d zero_key
        ∙ given in
      (
        t,
        conv_table-finish_table conv_value rawlen entries items f,
        (elim (Option-cases (lookup_hash t.hash_size t.hash zero_key)) [
          | inl gone ↦ let g = rw (flat, lookup_node, gone) at node in absurd (none-ne-some v g)
          | inr (z, found) ↦
              let value = rw (flat, lookup_node, found) at node in
              let key = lookup_hash-key t.hash zero_key t.hash_size z found in
              let full : is_empty (t.hash z) ≡ false = rw (is_empty, value) refl in
              (λ n. push_loop-length t ordered z full key n zero_key (restart t ordered z full key))
        ]),
      )
