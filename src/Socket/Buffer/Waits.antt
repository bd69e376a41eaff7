-- ===== src/Socket/Buffer/Waits.antt =====
-- When bytes wait in the write buffer of src/starnet_socket_server.cpp.
use starnet.Common.{
  ℕ, ◌≡◌, ◌⊎◌, inl, inr, refl, ◌∙◌, Bool, true, false, ◌&&◌, Bool-cases, leb, List, ◌==◌, ltb,
  length,
}
use starnet.Socket.{Wire, ConnWriteBuffer}
use starnet.Socket.Buffer.{
  Written, wrote, would_block, broke, write, is_empty, entire_write_when_empty, check_warning,
  warning_size, send_locked, writeable_locked, flush, flush_low,
}
use starnet.Socket.Buffer.Sent.{waiting}
use starnet.Socket.Buffer.Send.{is_empty-nil}

pub check_warning-is_empty : (wb : ConnWriteBuffer) → is_empty (check_warning wb).0 ≡ is_empty wb
unfolding check_warning
check_warning-is_empty wb =
    elim (Bool-cases (leb warning_size wb.wb_size && leb wb.warn_size wb.wb_size)) [
      | inl e ↦ rw (check_warning, e) refl
      | inr e ↦ rw (check_warning, e) refl
    ]

pub check_warning-objs :
    (wb : ConnWriteBuffer) → waiting (check_warning wb).0.objs ≡ waiting wb.objs
unfolding check_warning
check_warning-objs wb =
    elim (Bool-cases (leb warning_size wb.wb_size && leb wb.warn_size wb.wb_size)) [
      | inl e ↦ rw (check_warning, e) refl
      | inr e ↦ rw (check_warning, e) refl
    ]

entire_write-arms :
    (wb : ConnWriteBuffer) (buff : List ℕ) (w : Wire)
    → is_empty wb ≡ true
    → let (wb', arm, w') = entire_write_when_empty wb buff w in (arm ≡ true) ⊎ (is_empty wb' ≡ true)
unfolding entire_write_when_empty
entire_write-arms wb buff w empty = by_written (write w buff).0 refl
  where
    by_written :
        (r : Written)
        → (write w buff).0 ≡ r
        → let (wb', arm, w') = entire_write_when_empty wb buff w in
          (arm ≡ true) ⊎ (is_empty wb' ≡ true)
    by_written would_block e = rw (entire_write_when_empty, e) (inl refl)
    by_written broke e = rw (entire_write_when_empty, e) (inr empty)
    by_written (wrote n) e = elim (Bool-cases (n == length buff)) [
      | inl f ↦ rw (entire_write_when_empty, e, f) (inr empty)
      | inr f ↦ elim (Bool-cases (ltb 0 n && ltb n (length buff))) [
        | inl g ↦ rw (entire_write_when_empty, e, f, g) (inl refl)
        | inr g ↦ rw (entire_write_when_empty, e, f, g) (inr empty)
      ]
    ]

-- Bytes wait after a send only if some waited before or EPOLLOUT is asked for.
pub send_locked-arms :
    (wb : ConnWriteBuffer) (buff : List ℕ) (low : Bool) (w : Wire)
    → let (wb', warn, arm, w') = send_locked wb buff low w in
      (is_empty wb ≡ false) ⊎ (arm ≡ true) ⊎ (is_empty wb' ≡ true)
unfolding send_locked
send_locked-arms wb buff low w = elim (Bool-cases (is_empty wb)) [
  | inr e ↦ inl e
  | inl e ↦ elim (entire_write-arms wb buff w e) [
    | inl f ↦ inr (inl (rw (send_locked, e) f))
    | inr f ↦ inr (
        inr
          (rw (send_locked, e) (check_warning-is_empty (entire_write_when_empty wb buff w).0 ∙ f)))
  ]
]

-- A buffer in which nothing waits is left so.
pub writeable_locked-is_empty :
    (wb : ConnWriteBuffer) (w : Wire)
    → is_empty wb ≡ true
    → is_empty (writeable_locked wb w).0 ≡ true
unfolding writeable_locked flush
writeable_locked-is_empty wb w e =
    let (f, g) = is_empty-nil wb e in rw (writeable_locked, f, flush_low, g) refl
