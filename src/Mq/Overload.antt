-- ===== src/Mq/Overload.antt =====
-- The overload mark of `StarnetMQ::Pop`.
use starnet.Common.{
  Bool-cases, inl, inr, ltb, ℕ, zero, suc, ◌+◌, ◌*◌, ◌%◌, ◌^◌, ◌≤◌, ◌<◌, ◌≡◌, ◌⊎◌, refl, Option,
  none, some, List, [], ◌∷◌, length, arith,
}
use starnet.Msg.{Msg}
use starnet.Mq.{Mq, int_above, overload_loop, pop, mq_overload}

-- What the loop leaves: the mark is the length exactly when the threshold was passed.
abbrev Marks : ℕ → ℕ → ℕ → ℕ × ℕ → Type 0
Marks len over threshold (over', threshold') =
    (len ≤ threshold')
    × (((len ≤ threshold) × (over' ≡ over) × (threshold' ≡ threshold))
        ⊎ ((threshold < len) × (over' ≡ len) × (threshold' < 2 * len)))

int_above_small : (a b : ℕ) → a < 2 ^ 31 → b < 2 ^ 31 → int_above a b ≡ ltb b a
int_above_small a b h k =
    let e : (a + 2 ^ 31) % 2 ^ 32 ≡ a + 2 ^ 31 = omega (arith, h) in
    let f : (b + 2 ^ 31) % 2 ^ 32 ≡ b + 2 ^ 31 = omega (arith, k) in rw (e, f) (ground arith)

overload_loop-Marks :
    (f len over threshold : ℕ)
    → 0 < threshold
    → threshold < 2 ^ 31
    → len ≤ 2 ^ 30
    → len ≤ threshold + f
    → Marks len over threshold (overload_loop f len over threshold)
unfolding overload_loop
overload_loop-Marks zero len over threshold p q l h = ground arith
overload_loop-Marks (suc f) len over threshold p q l h =
    let small = int_above_small len threshold (omega (arith, l)) q in
    elim (Bool-cases (ltb threshold len)) [
      | inr e ↦ rw (overload_loop, small, e) (ground (arith, e))
      | inl e ↦
          let less : threshold < len = ground (arith, e) in
          let d : threshold * 2 % 2 ^ 32 ≡ threshold * 2 = omega (arith, less, l) in
          let rest =
            overload_loop-Marks f len len (threshold * 2) (omega (arith, p))
              (omega (arith, less, l)) l (omega (arith, h, p, less)) in
          rw (overload_loop, small, e, d) (ground (arith, rest, less))
    ]

-- What `Pop` is to do with a queue that holds the given messages.
abbrev pub Pops : Mq → List Msg → Option Msg × Mq → Type 0
Pops q [] (r, q') = (r ≡ none) × (q' ≡ record q { overload_threshold = mq_overload })
Pops q (m ∷ rest) (r, q') =
    (r ≡ some m)
    × (q'.msg_queue ≡ rest)
    × (q'.in_global ≡ q.in_global)
    × Marks (length rest) q.overload q.overload_threshold (q'.overload, q'.overload_threshold)

pop-list :
    (q : Mq) (l : List Msg)
    → 0 < q.overload_threshold
    → q.overload_threshold < 2 ^ 31
    → length l ≤ 2 ^ 30
    → q.msg_queue ≡ l
    → Pops q l (pop q)
unfolding pop
pop-list q [] h k n e = ground (arith, e)
pop-list q (m ∷ rest) h k n e =
    let d : length rest % 2 ^ 32 ≡ length rest = omega (arith, n) in
    rw (pop, e, d)
      (
        refl,
        refl,
        refl,
        overload_loop-Marks (length rest) (length rest) q.overload q.overload_threshold h k
            (omega (arith, n)) (omega arith),
      )

-- `Pop` on a queue of at most 2^30 messages with a positive threshold, which is an int.
-- On an empty queue it returns nothing and only resets the threshold. Otherwise it returns the
-- oldest message and leaves the others in order; the threshold then bounds their number, and
-- the mark is that number if it was above the old threshold (the threshold then stays below
-- twice that number), and mark and threshold are kept if not. `in_global` never changes.
pub pop-Pops :
    (q : Mq)
    → 0 < q.overload_threshold
    → q.overload_threshold < 2 ^ 31
    → length q.msg_queue ≤ 2 ^ 30
    → Pops q q.msg_queue (pop q)
pop-Pops q h k n = pop-list q q.msg_queue h k n refl
