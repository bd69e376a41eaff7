-- ===== src/Netpack/Stream.antt =====
-- What filter_data of lua-netpack.cpp makes of the bytes of one connection.
use starnet.Common.{
  ℕ, zero, suc, ◌+◌, ◌*◌, ◌/◌, ◌%◌, ◌≤◌, ◌<◌, ◌≡◌, ◌≢◌, refl, sym, ap, subst, ◌∙◌, true, false,
  List, [], ◌∷◌, ◌++◌, map, append-nil, append_assoc, ltb, length, take, drop, length-take,
  length-drop, take-append-drop, All, All-drop, arith, Bool-cases, inl, inr, ltb→lt,
}
use starnet.Common.Bits.{bit_or_byte}
use starnet.Common.Int.{pos, negsuc}
use starnet.Netpack.{
  Pack, Uncomplete, Queue, hash_fd, save_uncomplete, read_size, push_data, push_more, half_header,
  half_pack,
}
use starnet.Netpack.Ring.{contents, IsRing, Pushed, push_data-Pushed}
use starnet.Netpack.Partial.{table, held, save_uncomplete-table, save_uncomplete-other}

abbrev pub IsByte : ℕ → Type 0
IsByte b = b < 256

-- A packet as it is sent, and a row of them.
abbrev pub frame : List ℕ → List ℕ
frame m = length m / 256 ∷ length m % 256 ∷ m

abbrev pub frames : List (List ℕ) → List ℕ
frames [] = []
frames (m ∷ ms) = frame m ++ frames ms

-- A half packet that has its length may be whole while `filter_data` is at work, not in the table.
unfoldable pub IsHalf : Uncomplete → Type 0
IsHalf uc = elim uc.read [
  | negsuc r ↦ IsByte uc.header
  | pos r ↦ (r ≡ length uc.pack.buffer) × (r < uc.pack.size)
]

unfoldable pub IsPending : ℕ → List Uncomplete → Type 0
unfolding IsHalf
IsPending fd [] = Unit
IsPending fd (uc ∷ rest) = (rest ≡ []) × (uc.pack.id ≡ fd) × IsHalf uc

-- The bytes that came and are not yet a packet.
unfoldable pub half_bytes : Uncomplete → List ℕ
half_bytes uc = elim uc.read [
  | negsuc r ↦ uc.header ∷ []
  | pos r ↦ uc.pack.size / 256 ∷ uc.pack.size % 256 ∷ uc.pack.buffer
]

unfoldable pub pending_bytes : List Uncomplete → List ℕ
unfolding half_bytes
pending_bytes [] = []
pending_bytes (uc ∷ rest) = half_bytes uc

abbrev pub entry : ℕ → List ℕ → Pack
entry fd m = record { id = fd; size = length m; buffer = m }

-- The bytes of this fd are cut into the packets `ms`, which wait behind the others, and a half
-- packet; the half packets of other connections stay.
unfoldable pub Cuts : ℕ → Queue → List ℕ → List (List ℕ) → Queue → Type 0
Cuts fd q bytes ms q' =
    IsRing q'
    × (contents q' ≡ contents q ++ map (entry fd) ms)
    × ((other : ℕ) → other ≢ fd → table q' other ≡ table q other)
    × IsPending fd (table q' fd)
    × (frames ms ++ pending_bytes (table q' fd) ≡ bytes)

module _ (fd : ℕ) (q : Queue) (ring : IsRing q) (clean : table q fd ≡ []) where
  save-IsRing : (uc : Uncomplete) → IsRing (save_uncomplete q fd uc)
  unfolding save_uncomplete IsRing
  save-IsRing uc = ring

  save-contents : (uc : Uncomplete) → contents (save_uncomplete q fd uc) ≡ contents q
  unfolding save_uncomplete contents
  save-contents uc = refl

  pub save-Cuts :
      (uc : Uncomplete)
      → uc.pack.id ≡ fd
      → IsHalf uc
      → Cuts fd q (half_bytes uc) [] (save_uncomplete q fd uc)
  unfolding Cuts IsPending pending_bytes
  save-Cuts uc e half =
      let at : table (save_uncomplete q fd uc) fd ≡ uc ∷ [] =
        save_uncomplete-table q fd uc e ∙ ap (◌∷◌ uc) clean in
      (
        save-IsRing uc,
        save-contents uc ∙ sym (append-nil (contents q)),
        (λ other n. save_uncomplete-other q fd other uc e n),
        rw at (refl, e, half),
        rw at refl,
      )

  pub nothing-Cuts : Cuts fd q [] [] q
  unfolding Cuts IsPending pending_bytes
  nothing-Cuts =
      (ring, sym (append-nil (contents q)), (λ other n. refl), rw clean tt, rw clean refl)

pub read_size-bytes : (b0 b1 : ℕ) → IsByte b1 → read_size b0 b1 ≡ b0 * 256 + b1
unfolding read_size
read_size-bytes b0 b1 h = bit_or_byte b0 b1 h

pub half_pack-IsHalf :
    (fd size : ℕ) (bs : List ℕ) → ltb (length bs) size ≡ true → IsHalf (half_pack fd size bs)
unfolding IsHalf half_pack
half_pack-IsHalf fd size bs e = (refl, ltb→lt (length bs) size e)

module _ (b0 b1 : ℕ) (bs : List ℕ) (first : IsByte b0) (second : IsByte b1) where
  pub half_pack-bytes : (fd : ℕ) → half_bytes (half_pack fd (read_size b0 b1) bs) ≡ b0 ∷ b1 ∷ bs
  unfolding half_bytes half_pack
  half_pack-bytes fd =
      let e = read_size-bytes b0 b1 second in
      let hi : read_size b0 b1 / 256 ≡ b0 = omega arith in
      let lo : read_size b0 b1 % 256 ≡ b1 = omega arith in rw (hi, lo) refl

  module _ (whole : ltb (length bs) (read_size b0 b1) ≡ false) where
    pub length_packet : length (take (read_size b0 b1) bs) ≡ read_size b0 b1
    length_packet = ground (arith, length-take (read_size b0 b1) bs, whole)

    pub frame_packet :
        (rest : List ℕ)
        → rest ≡ drop (read_size b0 b1) bs
        → frame (take (read_size b0 b1) bs) ++ rest ≡ b0 ∷ b1 ∷ bs
    frame_packet rest r =
        let e = read_size-bytes b0 b1 second in
        let hi : length (take (read_size b0 b1) bs) / 256 ≡ b0 = omega (arith, length_packet) in
        let lo : length (take (read_size b0 b1) bs) % 256 ≡ b1 = omega (arith, length_packet) in
        rw (hi, lo, r, take-append-drop (read_size b0 b1) bs) refl

    push_packet :
        (blank : ℕ → Pack) (q : Queue) (fd : ℕ)
        → IsRing q
        → let m = take (read_size b0 b1) bs in
          Pushed q (entry fd m) (push_data blank q fd m (read_size b0 b1))
    push_packet blank q fd ring =
        let m = take (read_size b0 b1) bs in
        subst
          (λ k.
            Pushed q (record { id = fd; size = k; buffer = m })
              (push_data blank q fd m (read_size b0 b1)))
          (sym length_packet) (push_data-Pushed blank q fd (read_size b0 b1) m ring)

Pushed-IsRing : (q q1 : Queue) (np : Pack) → Pushed q np q1 → IsRing q1
unfolding Pushed
Pushed-IsRing q q1 np p = p.0

Pushed-table : (q q1 : Queue) (np : Pack) (fd : ℕ) → Pushed q np q1 → table q1 fd ≡ table q fd
unfolding Pushed table
Pushed-table q q1 np fd p = ap (λ h. held fd (h (hash_fd fd))) p.2

-- One packet more at the front.
Cuts-cons :
    (fd : ℕ) (q q1 q' : Queue) (m bytes all : List ℕ) (ms : List (List ℕ))
    → Pushed q (entry fd m) q1
    → Cuts fd q1 bytes ms q'
    → frame m ++ bytes ≡ all
    → Cuts fd q all (m ∷ ms) q'
unfolding Cuts Pushed table
Cuts-cons fd q q1 q' m bytes all ms pushed cuts e = (
  cuts.0,
  cuts.1
      ∙ ap (λ c. c ++ map (entry fd) ms) pushed.1
      ∙ append_assoc (contents q) (entry fd m ∷ []) (map (entry fd) ms),
  (λ other n. cuts.2 other n ∙ ap (λ h. held other (h (hash_fd other))) pushed.2),
  cuts.3,
  append_assoc (frame m) (frames ms) _ ∙ ap (λ r. frame m ++ r) cuts.4 ∙ e,
)

module _ (blank : ℕ → Pack) where
  pub push_more-Cuts :
      (n fd : ℕ) (q : Queue) (bytes : List ℕ)
      → IsRing q
      → table q fd ≡ []
      → All IsByte bytes
      → length bytes ≤ n
      → (ms : List (List ℕ)) × Cuts fd q bytes ms (push_more blank n q fd bytes)
  unfolding push_more half_header half_pack half_bytes IsHalf
  push_more-Cuts zero fd q [] ring clean ok le = ([], nothing-Cuts fd q ring clean)
  push_more-Cuts zero fd q (b ∷ bs) ring clean ok le = elim le [ ]
  push_more-Cuts (suc n) fd q [] ring clean ok le = ([], nothing-Cuts fd q ring clean)
  push_more-Cuts (suc n) fd q (b ∷ []) ring clean ok le =
      ([], save-Cuts fd q ring clean (half_header fd b) refl ok.0)
  push_more-Cuts (suc n) fd q (b0 ∷ b1 ∷ bs) ring clean ok le =
      elim (Bool-cases (ltb (length bs) (read_size b0 b1))) [
        | inl e ↦
            let cut =
              save-Cuts fd q ring clean (half_pack fd (read_size b0 b1) bs) refl
                (half_pack-IsHalf fd (read_size b0 b1) bs e) in
            rw e (
              [],
              subst (λ r. Cuts fd q r [] (save_uncomplete q fd (half_pack fd (read_size b0 b1) bs)))
                  (half_pack-bytes b0 b1 bs ok.0 ok.1.0 fd) cut,
            )
        | inr e ↦
            let m = take (read_size b0 b1) bs in
            let pushed : Pushed q (entry fd m) (push_data blank q fd m (read_size b0 b1)) =
              push_packet b0 b1 bs ok.0 ok.1.0 e blank q fd ring in
            let ih =
              push_more-Cuts n fd (push_data blank q fd m (read_size b0 b1))
                (drop (read_size b0 b1) bs) (Pushed-IsRing q _ _ pushed)
                (Pushed-table q _ _ fd pushed ∙ clean) (All-drop IsByte (read_size b0 b1) bs ok.1.1)
                (omega (arith, le, length-drop (read_size b0 b1) bs)) in
            rw e (
              m ∷ ih.0,
              Cuts-cons fd q _ _ m _ _ ih.0 pushed ih.1
                  (frame_packet b0 b1 bs ok.0 ok.1.0 e _ refl),
            )
      ]
