-- ===== src/Netpack/Resume.antt =====
-- filter_data of lua-netpack.cpp on a clean table: with no half packet, and with one taken out.
use starnet.Common.{
  ℕ, suc, ◌+◌, ◌-◌, ◌*◌, ◌/◌, ◌%◌, ◌≤◌, ◌≡◌, ◌≢◌, refl, sym, ap, subst, ◌∙◌, true, false, some,
  List, [], ◌∷◌, ◌++◌, map, append-nil, append_assoc, ltb, length, take, drop, length-append,
  length-take, take_whole, drop_whole, take-append-drop, All, All-drop, arith, Bool-cases, inl, inr,
  bit_or,
}
use starnet.Common.Bits.{bit_or_byte_first}
use starnet.Common.Int.{ℤ, pos, negsuc}
use starnet.Netpack.{
  Pack, Uncomplete, Queue, Filtered, nothing, data_pack, more_pack, save_uncomplete, read_size,
  half_header, half_pack, write_at, complete_header, read_count, add_bytes, deliver, resume, begin,
  with_found,
}
use starnet.Netpack.Ring.{contents, IsRing}
use starnet.Netpack.Partial.{table}
use starnet.Netpack.Stream.{
  IsByte, frame, frames, IsHalf, IsPending, half_bytes, pending_bytes, entry, Cuts, save-Cuts,
  nothing-Cuts, push_more-Cuts, half_pack-bytes, half_pack-IsHalf, frame_packet,
}

-- The packets of one call, the returned one first, and those that it queued.
unfoldable pub Returned : ℕ → Filtered → List (List ℕ) → List (List ℕ) → Type 0
Returned fd nothing ms rest = (ms ≡ []) × (rest ≡ [])
Returned fd (data_pack f m) ms rest = (f ≡ fd) × (ms ≡ m ∷ []) × (rest ≡ [])
Returned fd (more_pack f m) ms rest = (f ≡ fd) × (ms ≡ m ∷ rest)

unfoldable pub Filters : ℕ → Queue → List ℕ → Filtered × Queue → Type 0
unfolding Returned
Filters fd q stream out =
    (ms : List (List ℕ)) × (rest : List (List ℕ)) × Returned fd out.0 ms rest
    × IsRing out.1
    × (contents out.1 ≡ contents q ++ map (entry fd) rest)
    × ((other : ℕ) → other ≢ fd → table out.1 other ≡ table q other)
    × IsPending fd (table out.1 fd)
    × (frames ms ++ pending_bytes (table out.1 fd) ≡ stream)

nothing-Filters :
    (fd : ℕ) (q q' : Queue) (stream : List ℕ)
    → Cuts fd q stream [] q'
    → Filters fd q stream (nothing, q')
unfolding Filters Cuts Returned
nothing-Filters fd q q' stream c = ([], [], (refl, refl), c.0, c.1, c.2, c.3, c.4)

write_at_end : (buffer bytes : List ℕ) → write_at buffer (length buffer) bytes ≡ buffer ++ bytes
unfolding write_at
write_at_end buffer bytes =
    rw
      (
        take_whole (length buffer) buffer (omega arith),
        drop_whole (length buffer + length bytes) buffer (omega arith),
        append-nil bytes,
      )
      refl

-- The bytes that were missing make the half packet whole.
frame_filled :
    (size : ℕ) (buffer bytes : List ℕ)
    → length buffer ≤ size
    → ltb (length bytes) (size - length buffer) ≡ false
    → let need = size - length buffer in
      frame (take size (write_at buffer (length buffer) (take need bytes))) ++ drop need bytes
      ≡ size / 256 ∷ size % 256 ∷ (buffer ++ bytes)
frame_filled size buffer bytes le e =
    let need = size - length buffer in
    let long : length (buffer ++ take need bytes) ≡ size =
      ground (arith, e, length-append buffer (take need bytes), length-take need bytes) in
    rw
      (
        write_at_end buffer (take need bytes),
        take_whole size (buffer ++ take need bytes) (omega (arith, long)),
        long,
        append_assoc buffer (take need bytes) (drop need bytes),
        take-append-drop need bytes,
      )
      refl

module _ (blank : ℕ → Pack) (fd : ℕ) (q : Queue) (ring : IsRing q) (clean : table q fd ≡ []) where
  deliver-Filters :
      (m bytes stream : List ℕ)
      → All IsByte bytes
      → frame m ++ bytes ≡ stream
      → Filters fd q stream (deliver blank q fd m bytes)
  unfolding deliver Filters Cuts Returned
  deliver-Filters m [] stream ok e =
      let c = nothing-Cuts fd q ring clean in
      (
        m ∷ [],
        [],
        (refl, refl, refl),
        c.0,
        c.1,
        c.2,
        c.3,
        append_assoc (frame m) [] _ ∙ ap (λ r. frame m ++ r) c.4 ∙ e,
      )
  deliver-Filters m (b ∷ bs) stream ok e =
      let found =
        push_more-Cuts blank (suc (length bs)) fd q (b ∷ bs) ring clean ok (omega arith) in
      let c = found.1 in
      (
        m ∷ found.0,
        found.0,
        (refl, refl),
        c.0,
        c.1,
        c.2,
        c.3,
        append_assoc (frame m) (frames found.0) _ ∙ ap (λ r. frame m ++ r) c.4 ∙ e,
      )

  save-Filters :
      (uc : Uncomplete) (stream : List ℕ)
      → uc.pack.id ≡ fd
      → IsHalf uc
      → half_bytes uc ≡ stream
      → Filters fd q stream (nothing, save_uncomplete q fd uc)
  save-Filters uc stream e half same = nothing-Filters fd q _ stream (
      subst (λ r. Cuts fd q r [] (save_uncomplete q fd uc)) same
        (save-Cuts fd q ring clean uc e half))

  pub begin-Filters :
      (bytes : List ℕ) → All IsByte bytes → Filters fd q bytes (begin blank q fd bytes)
  unfolding begin half_header half_pack IsHalf half_bytes
  begin-Filters [] ok = nothing-Filters fd q q [] (nothing-Cuts fd q ring clean)
  begin-Filters (b ∷ []) ok = save-Filters (half_header fd b) _ refl ok.0 refl
  begin-Filters (b0 ∷ b1 ∷ bs) ok = elim (Bool-cases (ltb (length bs) (read_size b0 b1))) [
    | inl e ↦ rw e (
        save-Filters (half_pack fd (read_size b0 b1) bs) _ refl
          (half_pack-IsHalf fd (read_size b0 b1) bs e) (half_pack-bytes b0 b1 bs ok.0 ok.1.0 fd))
    | inr e ↦ rw e (
        deliver-Filters (take (read_size b0 b1) bs) (drop (read_size b0 b1) bs) _
          (All-drop IsByte (read_size b0 b1) bs ok.1.1)
          (frame_packet b0 b1 bs ok.0 ok.1.0 e _ refl))
  ]

  -- A half packet with its length, where it may be whole.
  module _ (size header : ℕ) (buffer : List ℕ) (le : length buffer ≤ size) where
    abbrev measured : Uncomplete
    measured = record {
      pack = record { id = fd; size = size; buffer = buffer };
      read = pos (length buffer);
      header = header;
    }

    add_bytes-IsHalf :
        (bytes : List ℕ)
        → ltb (length bytes) (size - length buffer) ≡ true
        → IsHalf (add_bytes measured bytes)
    unfolding IsHalf add_bytes read_count
    add_bytes-IsHalf bytes e =
        let l = length-append buffer bytes in
        rw (write_at_end buffer bytes) (sym l, ground (arith, e, le))

    resume-Filters :
        (bytes : List ℕ)
        → All IsByte bytes
        → Filters fd q (half_bytes measured ++ bytes) (resume blank q fd measured bytes)
    unfolding resume half_bytes read_count add_bytes
    resume-Filters bytes ok = elim (Bool-cases (ltb (length bytes) (size - length buffer))) [
      | inl e ↦ rw e (
          save-Filters (add_bytes measured bytes) _ refl (add_bytes-IsHalf bytes e)
            (ap (λ b. size / 256 ∷ size % 256 ∷ b) (write_at_end buffer bytes)))
      | inr e ↦ rw e (
          deliver-Filters _ (drop (size - length buffer) bytes) _ (All-drop IsByte _ bytes ok)
            (frame_filled size buffer bytes le e))
    ]

  -- With a half packet taken from the table, whose length may lack its second byte.
  pub with_half-Filters :
      (size header : ℕ) (buffer : List ℕ) (read : ℤ) (b : ℕ) (bs : List ℕ)
      → let uc : Uncomplete = record {
        pack = record { id = fd; size = size; buffer = buffer };
        read = read;
        header = header;
      } in
        IsHalf uc
        → All IsByte (b ∷ bs)
        → Filters fd q (half_bytes uc ++ (b ∷ bs)) (with_found blank (some uc, q) fd (b ∷ bs))
  unfolding with_found complete_header IsHalf half_bytes
  with_half-Filters size header buffer (pos r) b bs half ok =
      let same = half.0 in
      rw same (resume-Filters size header buffer (omega (arith, half.0, half.1)) (b ∷ bs) ok)
  with_half-Filters size header buffer (negsuc r) b bs half ok =
      let e = bit_or_byte_first header b ok.0 in
      let hi : (header * 256 + b) / 256 ≡ header = omega (arith, ok.0) in
      let lo : (header * 256 + b) % 256 ≡ b = omega (arith, ok.0) in
      let uc : Uncomplete = record {
        pack = record { id = fd; size = size; buffer = buffer };
        read = negsuc r;
        header = header;
      } in
      subst (λ s. Filters fd q s (with_found blank (some uc, q) fd (b ∷ bs)))
        (ap (λ h. h / 256 ∷ h % 256 ∷ bs) e ∙ rw (hi, lo) refl)
        (resume-Filters (bit_or b (header * 256)) header [] (omega arith) bs ok.1)
