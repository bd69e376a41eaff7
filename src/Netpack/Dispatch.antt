-- ===== src/Netpack/Dispatch.antt =====
-- The dispatch of what comes from a socket in lualib/starnet.lua, with lua-netpack.cpp below it.
use starnet.Common.{ℕ, zero, suc, Option, none, some, List, [], ◌∷◌, ◌++◌}
use starnet.Netpack.{Pack, Queue, Filtered, nothing, data_pack, more_pack, filter_data, lpop, lpack}

-- `lpop` until there is none; the count of a ring is below `cap`, which is fuel enough.
unfoldable pub drain : ℕ → Queue → List (ℕ × List ℕ) × Queue
drain zero q = ([], q)
drain (suc n) q =
    let popped = lpop q in
    elim popped.0 [ none ↦ ([], q) | some m ↦ let rest = drain n popped.1 in (m ∷ rest.0, rest.1) ]

-- The dispatch of a read in lualib/starnet.lua: the packets in the order of their dispatch.
unfoldable pub after_data : Filtered × Queue → List (ℕ × List ℕ) × Queue
after_data (nothing, q) = ([], q)
after_data (data_pack f m, q) = ((f, m) ∷ [], q)
after_data (more_pack f m, q) = let rest = drain q.cap q in ((f, m) ∷ rest.0, rest.1)

unfoldable pub on_data : (ℕ → Pack) → Queue → ℕ → List ℕ → List (ℕ × List ℕ) × Queue
unfolding after_data
on_data blank q fd bytes = after_data (filter_data blank q fd bytes)

-- A run of reads, of any connections.
unfoldable pub on_reads : (ℕ → Pack) → Queue → List (ℕ × List ℕ) → List (ℕ × List ℕ) × Queue
on_reads blank q [] = ([], q)
on_reads blank q ((fd, bytes) ∷ reads) =
    let now = on_data blank q fd bytes in
    let rest = on_reads blank now.1 reads in (now.0 ++ rest.0, rest.1)

-- The packed messages of a sender, one after another.
unfoldable pub pack_all : List (List ℕ) → Option (List ℕ)
pack_all [] = some []
pack_all (m ∷ ms) = elim (lpack m) [
  | none ↦ none
  | some packed ↦ elim (pack_all ms) [ none ↦ none | some rest ↦ some (packed ++ rest) ]
]
