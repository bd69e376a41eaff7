-- ===== src/Socket/Read/Bounds.antt =====
-- The reading sizes of src/starnet_socket_server.cpp: 8192, doubled up to seven times.
use starnet.Common.{
  dec_lt, ℕ, zero, suc, ◌+◌, ◌-◌, ◌*◌, ◌/◌, ◌≤◌, ◌≡◌, refl, true, false, ◌&&◌, Bool-cases, inl, inr,
  ltb, arith,
}
use starnet.Socket.Read.{read_buffer_min, full_size, short_size}

abbrev pub doubled : ℕ → ℕ
doubled zero = 8192
doubled (suc k) = doubled k * 2

-- A size that has been doubled so often, at most seven times.
abbrev pub IsReadSize : ℕ → Type 0
IsReadSize size = (k : ℕ) × (k ≤ 7) × (size ≡ doubled k)

doubled_mono : (k d : ℕ) → doubled k ≤ doubled (d + k)
doubled_mono k zero = let e : 0 + k ≡ k = omega arith in rw e (omega arith)
doubled_mono k (suc d) =
    let h = doubled_mono k d in
    let e : suc d + k ≡ suc (d + k) = omega arith in rw e (omega (arith, h))

doubled_le : (k n : ℕ) → k ≤ n → doubled k ≤ doubled n
doubled_le k n h =
    let e : (n - k) + k ≡ n = omega (arith, h) in let g = doubled_mono k (n - k) in rw e at g

pub IsReadSize-bounds : (size : ℕ) → IsReadSize size → (8192 ≤ size) × (size ≤ 1048576)
IsReadSize-bounds size (k, le, e) = rw e (doubled_le 0 k (omega arith), doubled_le k 7 le)

pub full_size-IsReadSize : (size : ℕ) → IsReadSize size → IsReadSize (full_size size)
full_size-IsReadSize size (k, le, e) = elim (dec_lt k 7) [
  | no n ↦ let f : k ≡ 7 = omega (arith, le, n) in (7, omega arith, rw (e, f) refl)
  | yes l ↦
      let g = doubled_le k 6 (omega (arith, l)) in
      let a : ltb (doubled k) 1048576 ≡ true = ground (arith, g) in
      let b : ltb 1048576 (doubled k * 2) ≡ false = ground (arith, g) in
      (suc k, l, rw (e, a, b) refl)
]

pub short_size-IsReadSize : (size len : ℕ) → IsReadSize size → IsReadSize (short_size size len)
short_size-IsReadSize size len (zero, le, e) = (zero, le, rw e refl)
short_size-IsReadSize size len (suc k, le, e) =
    elim (Bool-cases (ltb read_buffer_min size && ltb (len * 2) size)) [
      | inl f ↦
          let half : size / 2 ≡ doubled k = rw e (omega arith) in (k, omega (arith, le), rw f half)
      | inr f ↦ (suc k, le, rw f e)
    ]
