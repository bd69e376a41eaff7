-- ===== src/Netpack/Reads.antt =====
-- The reads of all connections through lua-netpack.cpp, as lualib/starnet.lua takes the packets out.
use starnet.Common.{
  ℕ, zero, suc, ◌≡◌, ◌≢◌, ◌≤◌, refl, sym, ap, subst, ◌∙◌, List, [], ◌∷◌, ◌++◌, map, append_assoc,
  length, take_whole, All, arith, false, ◌==◌, ==_iff, if◌then◌else◌,
}
use starnet.Netpack.{
  Pack, Queue, Filtered, nothing, data_pack, more_pack, hash_fd, filter_data, lpop,
}
use starnet.Netpack.Dispatch.{drain, after_data, on_data}
use starnet.Netpack.Ring.{contents, IsRing, Popped, lpop-Popped, length-contents}
use starnet.Netpack.Partial.{table, held}
use starnet.Netpack.Stream.{IsPending, IsByte, frame, frames, pending_bytes, entry}
use starnet.Netpack.Resume.{Returned, Filters}
use starnet.Netpack.Filter.{IsSane, filter_data-Filters}

abbrev pub from : ℕ → List ℕ → ℕ × List ℕ
from fd m = (fd, m)

-- The ring has been emptied and nothing else has changed.
unfoldable Drained : ℕ → List (List ℕ) → Queue → List (ℕ × List ℕ) × Queue → Type 0
Drained fd ms q out =
    (out.0 ≡ map (from fd) ms)
    × IsRing out.1
    × (contents out.1 ≡ [])
    × ((other : ℕ) → table out.1 other ≡ table q other)

Drained-cons :
    (fd : ℕ) (m : List ℕ) (ms : List (List ℕ)) (q q1 : Queue) (out : List (ℕ × List ℕ) × Queue)
    → q1.hash ≡ q.hash
    → Drained fd ms q1 out
    → Drained fd (m ∷ ms) q ((fd, m) ∷ out.0, out.1)
unfolding Drained table
Drained-cons fd m ms q q1 out same d = (
  ap (◌∷◌ (fd, m)) d.0,
  d.1,
  d.2,
  (λ other. d.3 other ∙ ap (λ h. held other (h (hash_fd other))) same),
)

drain-Drained :
    (n fd : ℕ) (ms : List (List ℕ)) (q : Queue)
    → IsRing q
    → contents q ≡ map (entry fd) ms
    → length ms ≤ n
    → Drained fd ms q (drain n q)
unfolding drain Popped Drained
drain-Drained zero fd [] q ring e le = (refl, ring, e, (λ other. refl))
drain-Drained zero fd (m ∷ ms) q ring e le = elim le [ ]
drain-Drained (suc n) fd [] q ring e le =
    let p = lpop-Popped q ring in
    let popped = rw e at p.0 in rw (drain, popped.0) (refl, ring, e, (λ other. refl))
drain-Drained (suc n) fd (m ∷ ms) q ring e le =
    let p = lpop-Popped q ring in
    let popped = rw e at p.0 in
    rw (drain, popped.0, take_whole (length m) m (omega arith))
      (Drained-cons fd m ms q (lpop q).1 _ p.2
        (drain-Drained n fd ms (lpop q).1 p.1 popped.1 (omega (arith, le))))

length-entries : (fd : ℕ) (ms : List (List ℕ)) → length (map (entry fd) ms) ≡ length ms
length-entries fd [] = refl
length-entries fd (m ∷ ms) = ap suc (length-entries fd ms)

Drained-IsSane :
    (fd : ℕ) (ms : List (List ℕ)) (q : Queue) (out : List (ℕ × List ℕ) × Queue)
    → IsSane q
    → Drained fd ms q out
    → IsSane out.1
unfolding Drained IsSane
Drained-IsSane fd ms q out sane d =
    (d.1, (λ other. subst (IsPending other) (sym (d.3 other)) (sane.1 other)))

-- What a read gives: `ms` are its packets, and the ring is empty again.
unfoldable pub Read : ℕ → Queue → List ℕ → List (ℕ × List ℕ) × Queue → Type 0
Read fd q stream out =
    (ms : List (List ℕ)) × (out.0 ≡ map (from fd) ms)
    × IsSane out.1
    × (contents out.1 ≡ [])
    × ((other : ℕ) → other ≢ fd → table out.1 other ≡ table q other)
    × (frames ms ++ pending_bytes (table out.1 fd) ≡ stream)

module _ (fd : ℕ) (q : Queue) (stream : List ℕ) (clear : contents q ≡ []) where
  queued :
      (rest : List (List ℕ)) (q' : Queue)
      → contents q' ≡ contents q ++ map (entry fd) rest
      → contents q' ≡ map (entry fd) rest
  queued rest q' e = e ∙ rw clear refl

  after_data-Read :
      (filtered : Filtered) (q' : Queue)
      → Filters fd q stream (filtered, q')
      → IsSane q'
      → Read fd q stream (after_data (filtered, q'))
  unfolding Filters Returned Read after_data Drained
  after_data-Read nothing q' f sane =
      (f.0, rw f.2.0 refl, sane, queued f.1 q' f.4 ∙ rw f.2.1 refl, f.5, f.7)
  after_data-Read (data_pack g m) q' f sane =
      (f.0, rw (f.2.0, f.2.1) refl, sane, queued f.1 q' f.4 ∙ rw f.2.2 refl, f.5, f.7)
  after_data-Read (more_pack g m) q' f sane =
      let at = queued f.1 q' f.4 in
      let room : length f.1 ≤ q'.cap =
        omega (arith, length-contents q' f.3, ap length at, length-entries fd f.1) in
      let d = drain-Drained q'.cap fd f.1 q' f.3 at room in
      (
        f.0,
        rw (f.2.0, f.2.1) (ap (◌∷◌ (fd, m)) d.0),
        Drained-IsSane fd f.1 q' _ sane d,
        d.2,
        (λ other n. d.3 other ∙ f.5 other n),
        ap (λ t. frames f.0 ++ pending_bytes t) (d.3 fd) ∙ f.7,
      )

module _ (blank : ℕ → Pack) where
  pub on_data-Read :
      (q : Queue) (fd : ℕ) (bytes : List ℕ)
      → IsSane q
      → contents q ≡ []
      → All IsByte bytes
      → Read fd q (pending_bytes (table q fd) ++ bytes) (on_data blank q fd bytes)
  unfolding on_data
  on_data-Read q fd bytes sane clear ok =
      let f = filter_data-Filters blank fd q sane bytes ok in
      let out = filter_data blank q fd bytes in after_data-Read fd q _ clear out.0 out.1 f.0 f.1

-- What was dispatched for one connection, and what was read from it.
abbrev pub of_fd : ℕ → List (ℕ × List ℕ) → List (List ℕ)
of_fd fd [] = []
of_fd fd ((g, m) ∷ ms) = let rest = of_fd fd ms in if g == fd then m ∷ rest else rest

abbrev pub stream_of : ℕ → List (ℕ × List ℕ) → List ℕ
stream_of fd [] = []
stream_of fd ((g, bytes) ∷ reads) =
    let rest = stream_of fd reads in if g == fd then bytes ++ rest else rest

abbrev pub AreBytes : List (ℕ × List ℕ) → Type 0
AreBytes reads = All (λ r. All IsByte r.1) reads

pub of_fd-own :
    (fd : ℕ) (ms : List (List ℕ)) (rest : List (ℕ × List ℕ))
    → of_fd fd (map (from fd) ms ++ rest) ≡ ms ++ of_fd fd rest
of_fd-own fd [] rest = refl
of_fd-own fd (m ∷ ms) rest = rw ((==_iff fd fd).1 refl) (ap (◌∷◌ m) (of_fd-own fd ms rest))

pub of_fd-other :
    (fd g : ℕ) (ms : List (List ℕ)) (rest : List (ℕ × List ℕ))
    → (g == fd) ≡ false
    → of_fd fd (map (from g) ms ++ rest) ≡ of_fd fd rest
of_fd-other fd g [] rest e = refl
of_fd-other fd g (m ∷ ms) rest e = rw e (of_fd-other fd g ms rest e)

pub frames-append : (ms ns : List (List ℕ)) → frames (ms ++ ns) ≡ frames ms ++ frames ns
frames-append [] ns = refl
frames-append (m ∷ ms) ns =
    ap (λ r. frame m ++ r) (frames-append ms ns)
    ∙ sym (append_assoc (frame m) (frames ms) (frames ns))
