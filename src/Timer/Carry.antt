-- ===== src/Timer/Carry.antt =====
-- How the place of a waiting node changes when the clock of src/starnet_timer.cpp moves on by one.
use starnet.Common.{ℕ, suc, ◌+◌, ◌-◌, ◌/◌, ◌%◌, ◌^◌, ◌≤◌, ◌<◌, ◌≡◌, ◌≢◌, arith}
use starnet.Timer.Place.{Slot, near_slot, level_slot, slot_of}

-- Ticks left until `e`, on the 32-bit clock.
abbrev pub ticks_left : ℕ → ℕ → ℕ
ticks_left e now = (e + 2 ^ 32 - now) % 2 ^ 32

-- A node that waits: its delay was a positive `int`.
pub record IsWaiting (now e : ℕ) : Type 0 where
  pub now_fits : now < 2 ^ 32
  pub fits : e < 2 ^ 32
  pub ahead : 0 < ticks_left e now
  pub bounded : ticks_left e now < 2 ^ 31

abbrev pub next_tick : ℕ → ℕ
next_tick now = (now + 1) % 2 ^ 32

abbrev pub rank : Slot → ℕ
rank (near_slot k) = 0
rank (level_slot i k) = suc i

-- At time `ct` the lower digits carry into digit `k` of level `i`.
pub data Carry (i k ct : ℕ) : Type 0 where
  carry_0 : i ≡ 0 → ct % 256 ≡ 0 → k ≡ ct / 256 % 64 → k ≢ 0 → Carry i k ct
  carry_1 : i ≡ 1 → ct % 16384 ≡ 0 → k ≡ ct / 16384 % 64 → k ≢ 0 → Carry i k ct
  carry_2 : i ≡ 2 → ct % 1048576 ≡ 0 → k ≡ ct / 1048576 % 64 → k ≢ 0 → Carry i k ct
  carry_3 : i ≡ 3 → ct % 67108864 ≡ 0 → k ≡ ct / 67108864 % 64 → Carry i k ct

pub slot_of_quiet :
    (e now : ℕ)
    → IsWaiting now e
    → next_tick now % 256 ≢ 0
    → slot_of e (next_tick now) ≡ slot_of e now
unfolding slot_of
slot_of_quiet e now w q = ground arith

pub rank_waiting :
    (e now i k : ℕ) → IsWaiting now e → Carry i k (next_tick now) → suc i ≤ rank (slot_of e now)
unfolding slot_of
rank_waiting e now i k w (carry_0 p q r s) = ground arith
rank_waiting e now i k w (carry_1 p q r s) = ground arith
rank_waiting e now i k w (carry_2 p q r s) = ground arith
rank_waiting e now i k w (carry_3 p q r) = ground arith

pub rank_moved :
    (e now i k : ℕ)
    → IsWaiting now e
    → Carry i k (next_tick now)
    → slot_of e now ≡ level_slot i k
    → rank (slot_of e (next_tick now)) < suc i
unfolding slot_of
rank_moved e now i k w (carry_0 p q r s) h = ground arith
rank_moved e now i k w (carry_1 p q r s) h = ground arith
rank_moved e now i k w (carry_2 p q r s) h = ground arith
rank_moved e now i k w (carry_3 p q r) h = ground arith

pub slot_of_unmoved :
    (e now i k : ℕ)
    → IsWaiting now e
    → Carry i k (next_tick now)
    → slot_of e now ≢ level_slot i k
    → slot_of e (next_tick now) ≡ slot_of e now
unfolding slot_of
slot_of_unmoved e now i k w (carry_0 p q r s) h = ground arith
slot_of_unmoved e now i k w (carry_1 p q r s) h = ground arith
slot_of_unmoved e now i k w (carry_2 p q r s) h = ground arith
slot_of_unmoved e now i k w (carry_3 p q r) h = ground arith
