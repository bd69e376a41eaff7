-- ===== src/Netpack/Filter.antt =====
-- filter_data of lua-netpack.cpp: what one call returns, and what it leaves behind.
use starnet.Common.{
  ℕ, ◌≡◌, refl, sym, subst, ◌∙◌, Option, some, List, [], ◌∷◌, ◌++◌, append-nil, All, ℕ_discrete,
}
use starnet.Netpack.{
  Pack, Uncomplete, Queue, Filtered, nothing, find_uncomplete, with_found, filter_data,
}
use starnet.Netpack.Ring.{contents, IsRing}
use starnet.Netpack.Partial.{table, Unlinked, find_uncomplete-Unlinked, find_uncomplete-other}
use starnet.Netpack.Stream.{IsByte, IsPending, half_bytes, pending_bytes}
use starnet.Netpack.Resume.{Returned, Filters, begin-Filters, with_half-Filters}

-- The queue between two calls.
unfoldable pub IsSane : Queue → Type 0
IsSane q = IsRing q × ((fd : ℕ) → IsPending fd (table q fd))

IsSane-IsPending : (q : Queue) (fd : ℕ) → IsSane q → IsPending fd (table q fd)
unfolding IsSane
IsSane-IsPending q fd sane = sane.1 fd

IsSane-Filters :
    (q : Queue) (fd : ℕ) → IsSane q → Filters fd q (pending_bytes (table q fd) ++ []) (nothing, q)
unfolding IsSane Filters Returned
IsSane-Filters q fd sane = (
  [],
  [],
  (refl, refl),
  sane.0,
  sym (append-nil (contents q)),
  (λ other n. refl),
  sane.1 fd,
  sym (append-nil (pending_bytes (table q fd))),
)

Filters-IsSane :
    (fd : ℕ) (q : Queue) (stream : List ℕ) (out : Filtered × Queue)
    → IsSane q
    → Filters fd q stream out
    → IsSane out.1
unfolding IsSane Filters
Filters-IsSane fd q stream out sane f = (
  f.3,
  (λ other. elim (ℕ_discrete other fd) [
    | yes e ↦ subst (λ o. IsPending o (table out.1 o)) (sym e) f.6
    | no n ↦ subst (IsPending other) (sym (f.5 other n)) (sane.1 other)
  ]),
)

module _ (blank : ℕ → Pack) (fd : ℕ) (q : Queue) (sane : IsSane q) where
  -- After the half packet of this fd has been taken out.
  find_uncomplete-IsRing : IsRing (find_uncomplete q fd).1
  unfolding find_uncomplete IsRing IsSane
  find_uncomplete-IsRing = sane.0

  find_uncomplete-contents : contents (find_uncomplete q fd).1 ≡ contents q
  unfolding find_uncomplete contents
  find_uncomplete-contents = refl

  find_uncomplete-Filters :
      (stream : List ℕ) (out : Filtered × Queue)
      → Filters fd (find_uncomplete q fd).1 stream out
      → Filters fd q stream out
  unfolding Filters find_uncomplete contents
  find_uncomplete-Filters stream out f = (
    f.0,
    f.1,
    f.2,
    f.3,
    f.4,
    (λ other n. f.5 other n ∙ find_uncomplete-other q fd other n),
    f.6,
    f.7,
  )

  abbrev own_id : Uncomplete → ℕ → Uncomplete
  own_id uc i = record {
    pack = record { id = i; size = uc.pack.size; buffer = uc.pack.buffer };
    read = uc.read;
    header = uc.header;
  }

  found-Filters :
      (t : List Uncomplete) (o : Option Uncomplete) (q' : Queue) (b : ℕ) (bs : List ℕ)
      → IsRing q'
      → IsPending fd t
      → Unlinked t o (table q' fd)
      → All IsByte (b ∷ bs)
      → Filters fd q' (pending_bytes t ++ (b ∷ bs)) (with_found blank (o, q') fd (b ∷ bs))
  unfolding Unlinked IsPending pending_bytes with_found
  found-Filters [] o q' b bs ring p u ok = rw u.0 (begin-Filters blank fd q' ring u.1 (b ∷ bs) ok)
  found-Filters (uc ∷ rest) o q' b bs ring p u ok =
      let clean = u.1 ∙ p.0 in
      let own = p.1 in
      let half = p.2 in
      rw u.0 (
        subst
          (λ i.
            Filters fd q' (half_bytes uc ++ (b ∷ bs))
              (with_found blank (some (own_id uc i), q') fd (b ∷ bs)))
          (sym own)
          (with_half-Filters blank fd q' ring clean uc.pack.size uc.header uc.pack.buffer uc.read b
            bs half ok))

  -- For a queue within its bounds, whose table holds at most one half packet of each connection,
  -- and any bytes of a connection: the packets that filter_data returns and queues, framed one
  -- after another, and the bytes that it keeps are the bytes that were kept before and those that
  -- came.  What is kept is less than a packet, the packets wait behind the others in their order,
  -- the half packets of other connections stay, and the queue is again such a queue.
  pub filter_data-Filters :
      (bytes : List ℕ)
      → All IsByte bytes
      → let out = filter_data blank q fd bytes in
        Filters fd q (pending_bytes (table q fd) ++ bytes) out × IsSane out.1
  unfolding filter_data
  filter_data-Filters [] ok = let f = IsSane-Filters q fd sane in (f, sane)
  filter_data-Filters (b ∷ bs) ok =
      let f = find_uncomplete-Filters _ _ (
        found-Filters (table q fd) (find_uncomplete q fd).0 (find_uncomplete q fd).1 b bs
          find_uncomplete-IsRing (IsSane-IsPending q fd sane) (find_uncomplete-Unlinked q fd) ok) in
      (f, Filters-IsSane fd q _ _ sane f)
