-- ===== src/Netpack/Partial.antt =====
-- The table of half packets in lua-netpack.cpp: what `hash` holds for each fd.
use starnet.Common.{
  ℕ, ◌≡◌, ◌≢◌, refl, sym, ap, ◌∙◌, Option, none, some, List, [], ◌∷◌, ◌==◌, ==_iff, if◌then◌else◌,
  Bool-cases, inl, inr,
}
use starnet.Netpack.{Uncomplete, Queue, hash_fd, unlink, set_hash, find_uncomplete, save_uncomplete}

-- The half packets of an fd in a chain, and in the table.
unfoldable pub held : ℕ → List Uncomplete → List Uncomplete
held fd [] = []
held fd (uc ∷ next) = let rest = held fd next in if uc.pack.id == fd then uc ∷ rest else rest

unfoldable pub table : Queue → ℕ → List Uncomplete
unfolding held
table q fd = held fd (q.hash (hash_fd fd))

held-hit :
    (fd : ℕ) (uc : Uncomplete) (next : List Uncomplete)
    → uc.pack.id ≡ fd
    → held fd (uc ∷ next) ≡ uc ∷ held fd next
unfolding held
held-hit fd uc next e = rw ((==_iff uc.pack.id fd).1 e) refl

held-miss :
    (fd : ℕ) (uc : Uncomplete) (next : List Uncomplete)
    → uc.pack.id ≢ fd
    → held fd (uc ∷ next) ≡ held fd next
unfolding held
held-miss fd uc next n = elim (Bool-cases (uc.pack.id == fd)) [
  | inl e ↦ elim (n ((==_iff uc.pack.id fd).0 e)) [ ]
  | inr e ↦ rw e refl
]

held-cong :
    (fd : ℕ) (uc : Uncomplete) (c next : List Uncomplete)
    → held fd c ≡ held fd next
    → held fd (uc ∷ c) ≡ held fd (uc ∷ next)
unfolding held
held-cong fd uc c next e = rw e refl

-- What `unlink` does for the half packets of its fd.
unfoldable pub Unlinked : List Uncomplete → Option Uncomplete → List Uncomplete → Type 0
Unlinked [] found left = (found ≡ none) × (left ≡ [])
Unlinked (uc ∷ rest) found left = (found ≡ some uc) × (left ≡ rest)

unlink-Unlinked :
    (fd : ℕ) (c : List Uncomplete) → Unlinked (held fd c) (unlink fd c).0 (held fd (unlink fd c).1)
unfolding held unlink Unlinked
unlink-Unlinked fd [] = (refl, refl)
unlink-Unlinked fd (uc ∷ next) = elim (Bool-cases (uc.pack.id == fd)) [
  | inl e ↦ rw e (refl, refl)
  | inr e ↦ rw (e, e) (unlink-Unlinked fd next)
]

unlink-other :
    (fd other : ℕ) (c : List Uncomplete) → other ≢ fd → held other (unlink fd c).1 ≡ held other c
unfolding held unlink
unlink-other fd other [] h = refl
unlink-other fd other (uc ∷ next) h = elim (Bool-cases (uc.pack.id == fd)) [
  | inl e ↦
      let same = (==_iff uc.pack.id fd).0 e in
      rw e (sym (held-miss other uc next (λ f. h (sym f ∙ same))))
  | inr e ↦ rw e (held-cong other uc _ next (unlink-other fd other next h))
]

set_hash-table :
    (q : Queue) (fd : ℕ) (c : List Uncomplete) → table (set_hash q (hash_fd fd) c) fd ≡ held fd c
unfolding table set_hash
set_hash-table q fd c = rw ((==_iff (hash_fd fd) (hash_fd fd)).1 refl) refl

set_hash-other :
    (q : Queue) (fd other : ℕ) (c : List Uncomplete)
    → held other c ≡ held other (q.hash (hash_fd fd))
    → table (set_hash q (hash_fd fd) c) other ≡ table q other
unfolding table set_hash
set_hash-other q fd other c same = elim (Bool-cases (hash_fd other == hash_fd fd)) [
  | inl e ↦
      let at = (==_iff (hash_fd other) (hash_fd fd)).0 e in
      rw e (same ∙ ap (λ h. held other (q.hash h)) (sym at))
  | inr e ↦ rw e refl
]

pub find_uncomplete-Unlinked :
    (q : Queue) (fd : ℕ)
    → Unlinked (table q fd) (find_uncomplete q fd).0 (table (find_uncomplete q fd).1 fd)
unfolding find_uncomplete table
find_uncomplete-Unlinked q fd =
    rw (set_hash-table q fd (unlink fd (q.hash (hash_fd fd))).1)
      (unlink-Unlinked fd (q.hash (hash_fd fd)))

pub find_uncomplete-other :
    (q : Queue) (fd other : ℕ) → other ≢ fd → table (find_uncomplete q fd).1 other ≡ table q other
unfolding find_uncomplete
find_uncomplete-other q fd other n =
    set_hash-other q fd other _ (unlink-other fd other (q.hash (hash_fd fd)) n)

pub save_uncomplete-table :
    (q : Queue) (fd : ℕ) (uc : Uncomplete)
    → uc.pack.id ≡ fd
    → table (save_uncomplete q fd uc) fd ≡ uc ∷ table q fd
unfolding save_uncomplete table
save_uncomplete-table q fd uc e =
    set_hash-table q fd (uc ∷ q.hash (hash_fd fd)) ∙ held-hit fd uc (q.hash (hash_fd fd)) e

pub save_uncomplete-other :
    (q : Queue) (fd other : ℕ) (uc : Uncomplete)
    → uc.pack.id ≡ fd
    → other ≢ fd
    → table (save_uncomplete q fd uc) other ≡ table q other
unfolding save_uncomplete
save_uncomplete-other q fd other uc e n =
    set_hash-other q fd other _ (held-miss other uc (q.hash (hash_fd fd)) (λ f. n (sym f ∙ e)))
