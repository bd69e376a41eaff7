-- ===== src/Netpack/Tests.antt =====
-- The packets of lua-netpack.cpp on concrete reads.
use starnet.Common.{ℕ, arith, ◌≡◌, refl, List, [], ◌∷◌, ◌++◌, some}
use starnet.Netpack.{Pack, Queue, lcreate, push_data, filter_data, lpop, lpack}
use starnet.Netpack.Dispatch.{on_reads, pack_all}
use starnet.Netpack.Ring.{
  contents, IsRing, Pushed, push_data-Pushed, Popped, lpop-Popped, lcreate-contents,
}
use starnet.Netpack.Partial.{table}
use starnet.Netpack.Stream.{pending_bytes}
use starnet.Netpack.Resume.{Filters}
use starnet.Netpack.Filter.{IsSane, filter_data-Filters}
use starnet.Netpack.Reads.{of_fd, stream_of, AreBytes}
use starnet.Netpack.Chunks.{Accounts, on_reads-Accounts}
use starnet.Netpack.RoundTrip.{on_reads-pack_all, lcreate-IsSane}

abbrev blank : ℕ → Pack
blank i = record { id = 0; size = 0; buffer = [] }

-- A full ring of two that starts at its second entry.
abbrev small : Queue
small = record {
  cap = 2;
  head = 1;
  tail = 0;
  hash = λ h. [];
  queue = λ i. record { id = i; size = 1; buffer = 65 ∷ [] };
}

abbrev grown : Pack
grown = record { id = 7; size = 2; buffer = 66 ∷ 67 ∷ [] }

small-IsRing : IsRing small
unfolding IsRing
small-IsRing = (omega arith, omega arith)

push_data-Pushed_example : Pushed small grown (push_data blank small 7 (66 ∷ 67 ∷ []) 2)
push_data-Pushed_example = push_data-Pushed blank small 7 2 (66 ∷ 67 ∷ []) small-IsRing

lpop-Popped_example :
    Popped (contents small) (lpop small)
    × IsRing (lpop small).1
    × ((lpop small).1.hash ≡ small.hash)
lpop-Popped_example = lpop-Popped small small-IsRing

-- "AB" and "" for 7, cut inside the first length, with a packet of 9 in between.
abbrev reads : List (ℕ × List ℕ)
reads = (7, 0 ∷ []) ∷ (9, 0 ∷ 1 ∷ 67 ∷ []) ∷ (7, 2 ∷ 65 ∷ []) ∷ (7, 66 ∷ 0 ∷ 0 ∷ []) ∷ []

reads_bytes : AreBytes reads
reads_bytes = ground arith

msgs : pack_all ((65 ∷ 66 ∷ []) ∷ [] ∷ []) ≡ some (stream_of 7 reads)
unfolding pack_all lpack
msgs = refl

abbrev fresh : Queue
fresh = lcreate blank

filter_data-Filters_example :
    let out = filter_data blank fresh 7 (0 ∷ 1 ∷ 65 ∷ 0 ∷ []) in
    Filters 7 fresh (pending_bytes (table fresh 7) ++ (0 ∷ 1 ∷ 65 ∷ 0 ∷ [])) out × IsSane out.1
filter_data-Filters_example =
    filter_data-Filters blank 7 fresh (lcreate-IsSane blank) (0 ∷ 1 ∷ 65 ∷ 0 ∷ []) (ground arith)

on_reads-Accounts_example :
    Accounts 9 fresh (stream_of 9 reads) (on_reads blank fresh reads)
    × IsSane (on_reads blank fresh reads).1
on_reads-Accounts_example =
    on_reads-Accounts blank reads fresh 9 (lcreate-IsSane blank) (lcreate-contents blank)
      reads_bytes

on_reads-pack_all_example :
    let out = on_reads blank (lcreate blank) reads in
    (of_fd 7 out.0 ≡ (65 ∷ 66 ∷ []) ∷ [] ∷ []) × (pending_bytes (table out.1 7) ≡ [])
on_reads-pack_all_example =
    on_reads-pack_all blank reads 7 ((65 ∷ 66 ∷ []) ∷ [] ∷ []) reads_bytes msgs
