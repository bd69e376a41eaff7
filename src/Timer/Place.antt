-- ===== src/Timer/Place.antt =====
-- Where `add_node` of src/starnet_timer.cpp puts a node, in plain arithmetic.
use starnet.Common.{
  ℕ, ◌+◌, ◌*◌, ◌/◌, ◌%◌, ◌^◌, bit_or, ◌≡◌, refl, ◌∙◌, inl, inr, ite, Bool-cases, List, [], ◌∷◌,
  ◌++◌, ◌==◌, if◌then◌else◌, arith, ℕ_discrete,
}
use starnet.Common.Bits.{
  bit_and_63, bit_and_255, bit_or_255, bit_or_16383, bit_or_1048575, bit_or_67108863,
}
use starnet.Timer.{Timer, Node, add_node, find_level, set_near, set_level}

-- A place in the wheel: `near[k]` or `t[i][k]`.
pub data Slot : Type 0 where
  near_slot : ℕ → Slot
  level_slot : ℕ → ℕ → Slot

unfoldable pub Slot-discrete : Discrete Slot
Slot-discrete = hlevel ℕ_discrete

abbrev pub at : Timer → Slot → List Node
at T (near_slot k) = T.near k
at T (level_slot i k) = T.t i k

-- The level on which expiry `e` waits at time `now`: 0 is `near`, `i + 1` is `t[i]`.
unfoldable pub slot_of : ℕ → ℕ → Slot
slot_of e now =
    if e / 256 == now / 256
    then near_slot (e % 256)
    else if e / 16384 == now / 16384
    then level_slot 0 (e / 256 % 64)
    else if e / 1048576 == now / 1048576
    then level_slot 1 (e / 16384 % 64)
    else if e / 67108864 == now / 67108864
    then level_slot 2 (e / 1048576 % 64)
    else level_slot 3 (e / 67108864 % 64)

abbrev put_at : Timer → Slot → Node → Timer
put_at T (near_slot k) n = set_near T k (T.near k ++ (n ∷ []))
put_at T (level_slot i k) n = set_level T i k (T.t i k ++ (n ∷ []))

-- The masked comparisons compare blocks.
same_256 : (a b : ℕ) → (bit_or a 255 == bit_or b 255) ≡ (a / 256 == b / 256)
same_256 a b = ground (arith, bit_or_255 a, bit_or_255 b)

same_16384 : (a b : ℕ) → (bit_or a 16383 == bit_or b 16383) ≡ (a / 16384 == b / 16384)
same_16384 a b = ground (arith, bit_or_16383 a, bit_or_16383 b)

same_1048576 : (a b : ℕ) → (bit_or a 1048575 == bit_or b 1048575) ≡ (a / 1048576 == b / 1048576)
same_1048576 a b = ground (arith, bit_or_1048575 a, bit_or_1048575 b)

same_67108864 :
    (a b : ℕ) → (bit_or a 67108863 == bit_or b 67108863) ≡ (a / 67108864 == b / 67108864)
same_67108864 a b = ground (arith, bit_or_67108863 a, bit_or_67108863 b)

-- The level that the loop finds.
level_of : ℕ → ℕ → ℕ
level_of e now =
    if e / 16384 == now / 16384
    then 0
    else if e / 1048576 == now / 1048576
    then 1
    else if e / 67108864 == now / 67108864
    then 2
    else 3

find_level-level_of : (e now : ℕ) → find_level 3 0 16384 e now ≡ level_of e now
unfolding find_level level_of
find_level-level_of e now = rw (same_16384 e now, same_1048576 e now, same_67108864 e now) refl

add_to_level : Timer → Node → ℕ → Timer
add_to_level T n i =
    set_level T i (n.expire / 2 ^ (8 + i * 6) % 64)
      (T.t i (n.expire / 2 ^ (8 + i * 6) % 64) ++ (n ∷ []))

add_node-levels :
    (T : Timer) (n : Node)
    → add_node T n ≡ (
        if n.expire / 256 == T.time / 256
        then set_near T (n.expire % 256) (T.near (n.expire % 256) ++ (n ∷ []))
        else add_to_level T n (level_of n.expire T.time))
unfolding add_node add_to_level
add_node-levels T n =
    rw (same_256 n.expire T.time, find_level-level_of n.expire T.time, bit_and_255 n.expire)
      (simp bit_and_63)

add_node-put_at : (T : Timer) (n : Node) → add_node T n ≡ put_at T (slot_of n.expire T.time) n
unfolding slot_of level_of add_to_level
add_node-put_at T n = add_node-levels T n ∙ elim (Bool-cases (n.expire / 256 == T.time / 256)) [
  | inl e ↦ rw (e, slot_of) refl
  | inr e ↦ elim (Bool-cases (n.expire / 16384 == T.time / 16384)) [
    | inl f ↦ rw (e, f) refl
    | inr f ↦ elim (Bool-cases (n.expire / 1048576 == T.time / 1048576)) [
      | inl g ↦ rw (e, f, g) refl
      | inr g ↦ elim (Bool-cases (n.expire / 67108864 == T.time / 67108864)) [
        | inl h ↦ rw (e, f, g, h) refl
        | inr h ↦ rw (e, f, g, h) refl
      ]
    ]
  ]
]

at-put_at :
    (T : Timer) (r s : Slot) (n : Node)
    → at (put_at T r n) s ≡ ite (Slot-discrete r s) (at T s ++ (n ∷ [])) (at T s)
at-put_at T (near_slot j) (near_slot k) n = ground arith
at-put_at T (near_slot j) (level_slot i k) n = ground arith
at-put_at T (level_slot i k) (near_slot j) n = ground arith
at-put_at T (level_slot h j) (level_slot i k) n = ground arith

-- A node is appended to its own slot, and no other slot changes.
pub at-add_node :
    (T : Timer) (n : Node) (s : Slot)
    → at (add_node T n) s
      ≡ ite (Slot-discrete (slot_of n.expire T.time) s) (at T s ++ (n ∷ [])) (at T s)
at-add_node T n s = rw (add_node-put_at T n) (at-put_at T (slot_of n.expire T.time) s n)
