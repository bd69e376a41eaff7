-- ===== src/Sharedata/Tests.antt =====
-- The store of src/starnet_sharedata.cpp and its cached clients on concrete runs.
use starnet.Common.{ℕ, ◌≡◌, refl, arith, true, some, List, [], ◌∷◌}
use starnet.Sharedata.{
  TableState, Store, StoreOp, update_op, delete_op, query, update, delete, cached_query, run_ops,
}
use starnet.Sharedata.Fresh.{cached_query-fresh, cached_query-stale}

-- A table stands for itself by a number.
abbrev first : TableState ℕ
first = record { name = "shop"; table = 1; version = 0; dirty = true }

abbrev both : Store ℕ
both n = some first

abbrev ops : List (StoreOp ℕ)
ops = update_op "shop" 2 ∷ delete_op "other" ∷ update_op "shop" 3 ∷ []

cached_query-fresh_example :
    (cached_query both (run_ops both ops) "shop").0 ≡ query (run_ops both ops) "shop"
cached_query-fresh_example =
    cached_query-fresh "shop" ops first both both refl refl (omega arith) (refl, tt) (omega arith)

cached_query-stale_example :
    let later = update (delete both "shop") "shop" 9 in
    ((cached_query both later "shop").0 ≡ some first)
    × (query later "shop" ≡ some (record { name = "shop"; table = 9; version = 0; dirty = true }))
cached_query-stale_example = cached_query-stale "shop" first both both 9 refl refl
