-- ===== src/Sharedata/Parts/Tests.antt =====
-- conv_table, Finish and LookupHash of the shared tables on small tables.
use starnet.Common.{ℕ, suc, ◌+◌, ◌≤◌, ◌≡◌, ◌↔◌, refl, Option, none, some, List, [], ◌∷◌, length}
use starnet.Common.Int.{pos}
use starnet.Sharedata.Table.{
  SharedKey, integer_key, string_key, same_key, Items, finish, lookup_hash, key_hash,
}
use starnet.Sharedata.Table.Chain.{assoc, AreDistinct}
use starnet.Sharedata.Table.Lookup.{value_at, finish-lookup_hash}
use starnet.Sharedata.Parts.{LuaKey, integer, string, other, SharedTable, conv_table, index_value}
use starnet.Sharedata.Parts.Conv.{convert}
use starnet.Sharedata.Parts.Index.{conv_table-index_value, conv_table_refuses}
use starnet.Sharedata.Parts.Iterate.{push_table}
use starnet.Sharedata.Parts.Endless.{push_table-endless}
use starnet.Sharedata.Parts.Export.{push_table-conv_table}

-- The keys 1, 5 and 9 share a main slot.
abbrev shop : Items ℕ
shop =
    (integer_key (pos 1), 10)
    ∷ (string_key (97 ∷ []), 20)
    ∷ (integer_key (pos 5), 30)
    ∷ (integer_key (pos 9), 40)
    ∷ []

abbrev entries : List (LuaKey × ℕ)
entries =
    (integer (pos 1), 10)
    ∷ (string (97 ∷ []), 20)
    ∷ (integer (pos 5), 30)
    ∷ (integer (pos 9), 40)
    ∷ []

abbrev odd_entries : List (LuaKey × ℕ)
odd_entries = (integer (pos 1), 10) ∷ (other, 20) ∷ []

abbrev keep : ℕ → Option ℕ
keep n = some n

shop-AreDistinct : AreDistinct shop
unfolding AreDistinct assoc same_key
shop-AreDistinct = (refl, (refl, (refl, (refl, tt))))

shop_new : assoc (integer_key (pos 0)) shop ≡ none
unfolding assoc same_key
shop_new = refl

entries-convert : convert keep entries ≡ some shop
unfolding convert
entries-convert = refl

slots_found : lookup_hash (length shop) (finish shop) (integer_key (pos 9)) ≡ some 3
unfolding lookup_hash finish same_key key_hash
slots_found = refl

finish-lookup_hash_example :
    value_at
      (finish shop)
      (integer_key (pos 9))
      (lookup_hash (length shop) (finish shop) (integer_key (pos 9)))
    ≡ assoc (integer_key (pos 9)) shop
finish-lookup_hash_example = finish-lookup_hash shop (integer_key (pos 9)) shop-AreDistinct

conv_table_refuses_example :
    (conv_table keep 1 odd_entries ≡ none) ↔ (convert keep odd_entries ≡ none)
conv_table_refuses_example = conv_table_refuses keep 1 odd_entries

conv_table-index_value_example :
    (t : SharedTable ℕ) × (conv_table keep 1 entries ≡ some t)
    × ((k : SharedKey) → index_value t k ≡ assoc k shop)
conv_table-index_value_example =
    conv_table-index_value keep 1 entries shop entries-convert shop-AreDistinct

push_table-conv_table_example :
    (t : SharedTable ℕ) × (conv_table keep 1 entries ≡ some t)
    × ((more : ℕ)
        → push_table (suc (t.array_size + t.hash_size) + more) t
          ≡ push_table (suc (t.array_size + t.hash_size)) t)
    × ((more : ℕ)
        → length (push_table (suc (t.array_size + t.hash_size) + more) t)
          ≤ t.array_size + t.hash_size)
    × ((more : ℕ) (k : SharedKey)
        → assoc k (push_table (suc (t.array_size + t.hash_size) + more) t) ≡ assoc k shop)
push_table-conv_table_example =
    push_table-conv_table keep 1 entries shop entries-convert shop-AreDistinct shop_new

abbrev zero_shop : Items ℕ
zero_shop = (integer_key (pos 1), 10) ∷ (integer_key (pos 0), 50) ∷ []

abbrev zero_entries : List (LuaKey × ℕ)
zero_entries = (integer (pos 1), 10) ∷ (integer (pos 0), 50) ∷ []

zero_shop-AreDistinct : AreDistinct zero_shop
unfolding AreDistinct assoc same_key
zero_shop-AreDistinct = (refl, (refl, tt))

zero_shop_old : assoc (integer_key (pos 0)) zero_shop ≡ some 50
unfolding assoc same_key
zero_shop_old = refl

zero_entries-convert : convert keep zero_entries ≡ some zero_shop
unfolding convert
zero_entries-convert = refl

push_table-endless_example :
    (t : SharedTable ℕ) × (conv_table keep 1 zero_entries ≡ some t)
    × ((n : ℕ) → length (push_table n t) ≡ n)
push_table-endless_example =
    push_table-endless keep 1 zero_entries zero_shop 50 zero_entries-convert zero_shop-AreDistinct
      zero_shop_old
