-- ===== src/Netpack/Ring.antt =====
-- The ring of lua-netpack.cpp as a list: what waits in it, oldest first.
use starnet.Common.{
  ℕ, zero, suc, ◌+◌, ◌-◌, ◌*◌, ◌<◌, ◌≡◌, ◌≢◌, ◌⊎◌, refl, ap, sym, ◌∙◌, true, false, Option, none,
  some, List, [], ◌∷◌, ◌++◌, ltb, leb, ◌==◌, take, length, if◌then◌else◌, arith, Bool-cases, inl,
  inr,
}
use starnet.Netpack.{
  Pack, Queue, advance, set_tail_entry, expand_queue, copy_entries, push_data, lpop, lcreate,
}

pub collect : ℕ → (ℕ → Pack) → List Pack
collect zero f = []
collect (suc n) f = f 0 ∷ collect n (λ i. f (suc i))

collect-snoc : (n : ℕ) (f : ℕ → Pack) → collect (suc n) f ≡ collect n f ++ (f n ∷ [])
unfolding collect
collect-snoc zero f = refl
collect-snoc (suc n) f = ap (◌∷◌ (f 0)) (collect-snoc n (λ i. f (suc i)))

collect-cong : (n : ℕ) (f g : ℕ → Pack) → ((i : ℕ) → i < n → f i ≡ g i) → collect n f ≡ collect n g
unfolding collect
collect-cong zero f g h = refl
collect-cong (suc n) f g h = rw (h 0 (omega arith)) (
    ap (◌∷◌ (g 0))
      (collect-cong n (λ i. f (suc i)) (λ i. g (suc i)) (λ i lt. h (suc i) (omega arith))))

zero_or_suc : (n : ℕ) → (n ≡ 0) ⊎ ((m : ℕ) × (n ≡ suc m))
zero_or_suc zero = inl refl
zero_or_suc (suc n) = inr (n, refl)

-- The number of entries, the place of the i-th, and the entries.
unfoldable count : Queue → ℕ
count q = if ltb q.tail q.head then q.cap - q.head + q.tail else q.tail - q.head

unfoldable place : Queue → ℕ → ℕ
place q i = if ltb (q.head + i) q.cap then q.head + i else q.head + i - q.cap

unfoldable pub contents : Queue → List Pack
unfolding count place
contents q = collect (count q) (λ i. q.queue (place q i))

unfoldable pub IsRing : Queue → Type 0
IsRing q = (q.head < q.cap) × (q.tail < q.cap)

IsFree : Queue → Type 0
unfolding advance
IsFree q = advance q.cap q.tail ≢ q.head

module _ (q : Queue) (np : Pack) (ring : IsRing q) (free : IsFree q) where
  set_tail_entry-IsRing : IsRing (set_tail_entry q np)
  unfolding set_tail_entry advance IsRing
  set_tail_entry-IsRing = ground arith

  set_tail_entry-count : count (set_tail_entry q np) ≡ suc (count q)
  unfolding set_tail_entry advance IsRing IsFree count
  set_tail_entry-count = ground arith

  set_tail_entry-old :
      (i : ℕ)
      → i < count q
      → (set_tail_entry q np).queue (place (set_tail_entry q np) i) ≡ q.queue (place q i)
  unfolding set_tail_entry advance IsRing IsFree count place
  set_tail_entry-old i lt = ground arith

  set_tail_entry-new : (set_tail_entry q np).queue (place (set_tail_entry q np) (count q)) ≡ np
  unfolding set_tail_entry advance IsRing IsFree count place
  set_tail_entry-new = ground arith

  set_tail_entry-contents : contents (set_tail_entry q np) ≡ contents q ++ (np ∷ [])
  unfolding contents
  set_tail_entry-contents = rw set_tail_entry-count (
      collect-snoc (count q) _
      ∙ rw (set_tail_entry-new, collect-cong (count q) _ _ set_tail_entry-old) refl)

module _ (blank : ℕ → Pack) (q : Queue) (sz : ℕ) (ring : IsRing q) (more : q.cap < sz) where
  expand_queue-IsRing : IsRing (expand_queue blank q sz)
  unfolding expand_queue IsRing
  expand_queue-IsRing = ground arith

  expand_queue-IsFree : IsFree (expand_queue blank q sz)
  unfolding expand_queue IsRing IsFree advance
  expand_queue-IsFree = ground arith

  expand_queue-count : count (expand_queue blank q sz) ≡ count q
  unfolding expand_queue IsRing count
  expand_queue-count = ground arith

  expand_queue-old :
      (i : ℕ)
      → i < count q
      → (expand_queue blank q sz).queue (place (expand_queue blank q sz) i) ≡ q.queue (place q i)
  unfolding expand_queue copy_entries IsRing count place
  expand_queue-old i lt = ground arith

  expand_queue-contents : contents (expand_queue blank q sz) ≡ contents q
  unfolding contents
  expand_queue-contents = rw expand_queue-count (collect-cong (count q) _ _ expand_queue-old)

expand_queue-more : (q : Queue) → IsRing q → q.cap < q.cap * 2
unfolding IsRing
expand_queue-more q ring = omega arith

-- What `push_data` does for the list.
unfoldable pub Pushed : Queue → Pack → Queue → Type 0
Pushed q np q' = IsRing q' × (contents q' ≡ contents q ++ (np ∷ [])) × (q'.hash ≡ q.hash)

set_tail_entry-Pushed :
    (q : Queue) (np : Pack) → IsRing q → IsFree q → Pushed q np (set_tail_entry q np)
unfolding Pushed set_tail_entry
set_tail_entry-Pushed q np ring free =
    (set_tail_entry-IsRing q np ring free, set_tail_entry-contents q np ring free, refl)

expand_queue-hash :
    (blank : ℕ → Pack) (q : Queue) (sz : ℕ) → (expand_queue blank q sz).hash ≡ q.hash
unfolding expand_queue
expand_queue-hash blank q sz = elim (Bool-cases (ltb q.tail q.head)) [
  | inl e ↦ rw e refl
  | inr e ↦ rw e refl
]

expanded-Pushed :
    (blank : ℕ → Pack) (q : Queue) (np : Pack)
    → IsRing q
    → Pushed q np (set_tail_entry (expand_queue blank q (q.cap * 2)) np)
unfolding Pushed
expanded-Pushed blank q np ring =
    let more = expand_queue-more q ring in
    let p =
      set_tail_entry-Pushed _ np (expand_queue-IsRing blank q (q.cap * 2) ring more)
        (expand_queue-IsFree blank q (q.cap * 2) ring more) in
    (
      p.0,
      p.1 ∙ rw (expand_queue-contents blank q (q.cap * 2) ring more) refl,
      p.2 ∙ expand_queue-hash blank q (q.cap * 2),
    )

-- push_data on a ring puts the packet behind those that wait, in their order, whether or not the
-- array has to grow; the ring stays in its bounds and the half packets stay as they are.
pub push_data-Pushed :
    (blank : ℕ → Pack) (q : Queue) (fd size : ℕ) (buffer : List ℕ)
    → IsRing q
    → Pushed q (record { id = fd; size = size; buffer = buffer }) (push_data blank q fd buffer size)
unfolding push_data IsFree
push_data-Pushed blank q fd size buffer ring = elim (Bool-cases (advance q.cap q.tail == q.head)) [
  | inl e ↦ rw e (expanded-Pushed blank q _ ring)
  | inr e ↦ rw e (set_tail_entry-Pushed q _ ring (λ f. grind (arith, e, f)))
]

-- What `lpop` does for the list.
unfoldable pub Popped : List Pack → Option (ℕ × List ℕ) × Queue → Type 0
Popped [] out = (out.0 ≡ none) × (contents out.1 ≡ [])
Popped (np ∷ rest) out = (out.0 ≡ some (np.id, take np.size np.buffer)) × (contents out.1 ≡ rest)

lpop-head : (q : Queue) → IsRing q → count q ≢ 0 → (q.head == q.tail) ≡ false
unfolding IsRing count
lpop-head q ring h = ground arith

-- The ring behind its oldest entry.
behind : Queue → Queue
behind q = record q { head = if leb q.cap (q.head + 1) then 0 else q.head + 1 }

module _ (q : Queue) (ring : IsRing q) (n : ℕ) (e : count q ≡ suc n) where
  behind-IsRing : IsRing (behind q)
  unfolding behind IsRing
  behind-IsRing = ground arith

  behind-count : count (behind q) ≡ n
  unfolding behind IsRing count
  behind-count = ground arith

  behind-old : (i : ℕ) → i < n → (behind q).queue (place (behind q) i) ≡ q.queue (place q (suc i))
  unfolding behind IsRing count place
  behind-old i lt = ground arith

  oldest : q.queue (place q 0) ≡ q.queue q.head
  unfolding IsRing place
  oldest = ground arith

  contents-behind : contents q ≡ q.queue q.head ∷ contents (behind q)
  unfolding contents collect
  contents-behind =
      rw (e, behind-count, oldest) (ap (◌∷◌ (q.queue q.head)) (sym (collect-cong n _ _ behind-old)))

  lpop-some :
      lpop q
      ≡ (some ((q.queue q.head).id, take (q.queue q.head).size (q.queue q.head).buffer), behind q)
  unfolding lpop behind
  lpop-some = rw (lpop-head q ring (λ z. ground (arith, e, z))) refl

contents_none : (q : Queue) → count q ≡ 0 → contents q ≡ []
unfolding contents collect
contents_none q e = rw e refl

lpop-none : (q : Queue) → IsRing q → count q ≡ 0 → lpop q ≡ (none, q)
unfolding lpop IsRing count
lpop-none q ring e = let f : (q.head == q.tail) ≡ true = ground arith in rw f refl

-- lpop on a ring gives nothing exactly if nothing waits, and else the fd and the bytes of the
-- oldest packet, after which the others wait in their order; the ring stays in its bounds and
-- the half packets stay as they are.
pub lpop-Popped :
    (q : Queue)
    → IsRing q
    → Popped (contents q) (lpop q) × IsRing (lpop q).1 × ((lpop q).1.hash ≡ q.hash)
unfolding Popped behind
lpop-Popped q ring = elim (zero_or_suc (count q)) [
  | inl e ↦ rw (lpop-none q ring e, contents_none q e) ((refl, contents_none q e), ring, refl)
  | inr (n, e) ↦
      rw (lpop-some q ring n e, contents-behind q ring n e)
        ((refl, refl), behind-IsRing q ring n e, refl)
]

length-collect : (n : ℕ) (f : ℕ → Pack) → length (collect n f) ≡ n
unfolding collect
length-collect zero f = refl
length-collect (suc n) f = ap suc (length-collect n (λ i. f (suc i)))

pub length-contents : (q : Queue) → IsRing q → length (contents q) < q.cap
unfolding contents count IsRing
length-contents q ring = ground (arith, length-collect (count q) (λ i. q.queue (place q i)))

pub lcreate-contents : (blank : ℕ → Pack) → contents (lcreate blank) ≡ []
unfolding contents count collect lcreate
lcreate-contents blank = refl
