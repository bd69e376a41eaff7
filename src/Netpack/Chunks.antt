-- ===== src/Netpack/Chunks.antt =====
-- Any run of reads through lua-netpack.cpp: the cuts between reads make no difference.
use starnet.Common.{
  ℕ, ◌≡◌, ◌≢◌, sym, ap, subst, ◌∙◌, false, List, [], ◌∷◌, ◌++◌, append_assoc, append-nil, arith,
  ◌==◌, ==_iff, Bool-cases, inl, inr,
}
use starnet.Netpack.{Pack, Queue}
use starnet.Netpack.Dispatch.{on_data, on_reads}
use starnet.Netpack.Ring.{contents}
use starnet.Netpack.Partial.{table}
use starnet.Netpack.Stream.{frames, pending_bytes}
use starnet.Netpack.Filter.{IsSane}
use starnet.Netpack.Reads.{
  Read, on_data-Read, of_fd, stream_of, AreBytes, of_fd-own, of_fd-other, frames-append,
}

-- What one connection is owed: its packets and what is left make up its stream.
unfoldable pub Accounts : ℕ → Queue → List ℕ → List (ℕ × List ℕ) × Queue → Type 0
Accounts fd q stream out =
    frames (of_fd fd out.0) ++ pending_bytes (table out.1 fd) ≡ pending_bytes (table q fd) ++ stream

module _ (fd : ℕ) (q : Queue) (bytes stream : List ℕ) (now rest : List (ℕ × List ℕ) × Queue)
    (later : Accounts fd now.1 stream rest) where
  own-Accounts :
      Read fd q (pending_bytes (table q fd) ++ bytes) now
      → Accounts fd q (bytes ++ stream) (now.0 ++ rest.0, rest.1)
  unfolding Accounts Read
  own-Accounts read =
      let ms = read.0 in
      let split : of_fd fd (now.0 ++ rest.0) ≡ ms ++ of_fd fd rest.0 =
        rw read.1 (of_fd-own fd ms rest.0) in
      let p = pending_bytes (table rest.1 fd) in
      ap (λ l. frames l ++ p) split
      ∙ ap (λ l. l ++ p) (frames-append ms (of_fd fd rest.0))
      ∙ append_assoc (frames ms) (frames (of_fd fd rest.0)) p
      ∙ ap (λ l. frames ms ++ l) later
      ∙ sym (append_assoc (frames ms) (pending_bytes (table now.1 fd)) stream)
      ∙ ap (λ l. l ++ stream) read.5
      ∙ append_assoc (pending_bytes (table q fd)) bytes stream

  other-Accounts :
      (g : ℕ)
      → (g == fd) ≡ false
      → Read g q (pending_bytes (table q g) ++ bytes) now
      → Accounts fd q stream (now.0 ++ rest.0, rest.1)
  unfolding Accounts Read
  other-Accounts g e read =
      let skip : of_fd fd (now.0 ++ rest.0) ≡ of_fd fd rest.0 =
        rw read.1 (of_fd-other fd g read.0 rest.0 e) in
      let apart : fd ≢ g = λ f. grind (arith, e, f) in
      ap (λ l. frames l ++ pending_bytes (table rest.1 fd)) skip
      ∙ later
      ∙ ap (λ t. pending_bytes t ++ stream) (read.4 fd apart)

Read-IsSane :
    (g : ℕ) (q : Queue) (stream : List ℕ) (out : List (ℕ × List ℕ) × Queue)
    → Read g q stream out
    → IsSane out.1
unfolding Read
Read-IsSane g q stream out r = r.2

Read-clear :
    (g : ℕ) (q : Queue) (stream : List ℕ) (out : List (ℕ × List ℕ) × Queue)
    → Read g q stream out
    → contents out.1 ≡ []
unfolding Read
Read-clear g q stream out r = r.3

-- For a queue as filter_data keeps it, with an empty ring, and any reads of any connections: for
-- each connection the packets dispatched for it, framed one after another, and the bytes kept for
-- it are the bytes kept before and those that were read from it.
pub on_reads-Accounts :
    (blank : ℕ → Pack) (reads : List (ℕ × List ℕ)) (q : Queue) (fd : ℕ)
    → IsSane q
    → contents q ≡ []
    → AreBytes reads
    → Accounts fd q (stream_of fd reads) (on_reads blank q reads)
      × IsSane (on_reads blank q reads).1
unfolding on_reads Accounts
on_reads-Accounts blank [] q fd sane clear ok =
    (sym (append-nil (pending_bytes (table q fd))), sane)
on_reads-Accounts blank ((g, bytes) ∷ reads) q fd sane clear ok =
    let now = on_data blank q g bytes in
    let read = on_data-Read blank q g bytes sane clear ok.0 in
    let ih =
      on_reads-Accounts blank reads now.1 fd (Read-IsSane g q _ now read)
        (Read-clear g q _ now read) ok.1 in
    let later = on_reads blank now.1 reads in
    (
      elim (Bool-cases (g == fd)) [
        | inl e ↦
            let same = (==_iff g fd).0 e in
            let own = subst (λ h. Read h q (pending_bytes (table q h) ++ bytes) now) same read in
            rw e (own-Accounts fd q bytes (stream_of fd reads) now later ih.0 own)
        | inr e ↦ rw e (other-Accounts fd q bytes (stream_of fd reads) now later ih.0 g e read)
      ],
      ih.1,
    )
