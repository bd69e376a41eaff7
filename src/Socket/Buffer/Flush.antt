-- ===== src/Socket/Buffer/Flush.antt =====
-- Writing out a list of the write buffer in src/starnet_socket_server.cpp: no byte is lost.
use starnet.Common.{
  ℕ, zero, suc, ◌+◌, ◌≤◌, ◌≡◌, ◌≢◌, refl, sym, ap, ◌∙◌, true, ◌&&◌, Bool-cases, inl, inr, ltb, ◌==◌,
  ==_iff, List, [], ◌∷◌, ◌++◌, map, append-nil, append_assoc, take, drop, length, arith,
  length-append, take-append-drop, take_whole, length-take, length-drop,
}
use starnet.Socket.{WriteResult, takes, again, fails, Wire, WriteObject}
use starnet.Socket.Buffer.{
  Written, wrote, would_block, broke, write, FrontResult, whole, partly, broken, write_front, flush,
}
use starnet.Socket.Buffer.Sent.{Sent, bytes_of, waiting}

take-length-take : (n : ℕ) (xs : List ℕ) → take (length (take n xs)) xs ≡ take n xs
take-length-take zero xs = refl
take-length-take (suc n) [] = refl
take-length-take (suc n) (x ∷ xs) = ap (◌∷◌ x) (take-length-take n xs)

drop-nil : (n : ℕ) → ◌≡◌ {A = List ℕ} (drop n []) []
drop-nil zero = refl
drop-nil (suc n) = refl

drop-drop : (m n : ℕ) (xs : List ℕ) → drop (m + n) xs ≡ drop n (drop m xs)
drop-drop zero n xs = let e : 0 + n ≡ n = omega arith in rw e refl
drop-drop (suc m) n [] = let e : suc m + n ≡ suc (m + n) = omega arith in rw e (sym (drop-nil n))
drop-drop (suc m) n (x ∷ xs) =
    let e : suc m + n ≡ suc (m + n) = omega arith in rw e (drop-drop m n xs)

-- A call of `write` takes a part that is not empty, if it takes any of something.
abbrev pub Writes : Wire → List ℕ → Written → Wire → Type 0
Writes w buff (wrote n) w' =
    (w'.bytes ≡ w.bytes ++ take n buff) × (n ≤ length buff) × (n ≡ 0 → length buff ≡ 0)
Writes w buff would_block w' = w'.bytes ≡ w.bytes
Writes w buff broke w' = w'.bytes ≡ w.bytes

pub write-Writes : (w : Wire) (buff : List ℕ) → Writes w buff (write w buff).0 (write w buff).1
unfolding write
write-Writes w buff = by_results w.results refl
  where
    by_results :
        (rs : List WriteResult) → w.results ≡ rs → Writes w buff (write w buff).0 (write w buff).1
    by_results [] e = rw (write, e) refl
    by_results (takes n ∷ rs) e =
        rw (write, e)
          (
            ap (λ xs. w.bytes ++ xs) (sym (take-length-take (suc n) buff)),
            omega (arith, length-take (suc n) buff),
            (λ f. omega (arith, f, length-take (suc n) buff)),
          )
    by_results (again ∷ rs) e = rw (write, e) refl
    by_results (fails ∷ rs) e = rw (write, e) refl

-- What an object's `write` does to the bytes that wait in it.
abbrev Fronts : WriteObject → Wire → FrontResult → ℕ → Wire → Type 0
Fronts obj w whole n w' =
    (w'.bytes ≡ w.bytes ++ drop obj.start obj.buff) × (n ≡ length (drop obj.start obj.buff))
Fronts obj w partly n w' =
    (w'.bytes ++ drop (obj.start + n) obj.buff ≡ w.bytes ++ drop obj.start obj.buff)
    × (n + length (drop (obj.start + n) obj.buff) ≡ length (drop obj.start obj.buff))
Fronts obj w broken n w' = w'.bytes ≡ w.bytes

write_front-Fronts :
    (obj : WriteObject) (w : Wire) → let (r, n, w') = write_front obj w in Fronts obj w r n w'
unfolding write_front
write_front-Fronts obj w =
    by_written (write w rest).0 (write w rest).1 (write-Writes w rest) refl refl
  where
    rest : List ℕ
    rest = drop obj.start obj.buff

    by_written :
        (r : Written) (w' : Wire)
        → Writes w rest r w'
        → (write w rest).0 ≡ r
        → (write w rest).1 ≡ w'
        → let (r, n, w'') = write_front obj w in Fronts obj w r n w''
    by_written would_block w' h e f =
        let z : obj.start + 0 ≡ obj.start = omega arith in
        rw (write_front, e, f, z, h) (refl, omega arith)
    by_written broke w' h e f = rw (write_front, e, f) h
    by_written (wrote n) w' (took, le, some_n) e f = elim (Bool-cases (n == length rest)) [
      | inl all ↦
          let n_len = (==_iff n (length rest)).0 all in
          rw (write_front, e, f, all)
            (took ∙ ap (λ xs. w.bytes ++ xs) (take_whole n rest (omega (arith, n_len))), n_len)
      | inr short ↦
          let n_len : n ≢ length rest =
            λ g. let t = (==_iff n (length rest)).1 g in cc (t, short) in
          let positive : n ≢ 0 = λ g. n_len (omega (arith, g, some_n g)) in
          let part : (ltb 0 n && ltb n (length rest)) ≡ true =
            ground (arith, le, n_len, positive) in
          let left = drop-drop obj.start n obj.buff in
          rw (write_front, e, f, short, part, left)
            (
              ap (λ xs. xs ++ drop n rest) took
                  ∙ append_assoc w.bytes (take n rest) (drop n rest)
                  ∙ ap (λ xs. w.bytes ++ xs) (take-append-drop n rest),
              omega (arith, le, length-drop n rest),
            )
    ]

-- The bytes written and those that wait are the same as before, and `written` counts.
abbrev pub Keeps : List WriteObject → ℕ → Wire → List WriteObject × ℕ × Wire → Type 0
Keeps lst k w (lst', k', w') =
    (w'.bytes ++ waiting lst' ≡ w.bytes ++ waiting lst)
    × (k' + length (waiting lst') ≡ k + length (waiting lst))

pub flush-Keeps : (lst : List WriteObject) (k : ℕ) (w : Wire) → Keeps lst k w (flush lst k w)
unfolding flush
flush-Keeps [] k w = (refl, refl)
flush-Keeps (obj ∷ lst) k w =
    by_front (flush-Keeps lst) (write_front obj w).0 (write_front obj w).1 (write_front obj w).2
      (write_front-Fronts obj w) refl refl refl
  where
    rest : List ℕ
    rest = drop obj.start obj.buff

    by_front :
        ((k : ℕ) (w : Wire) → Keeps lst k w (flush lst k w))
        → (r : FrontResult) (n : ℕ) (w' : Wire) → Fronts obj w r n w'
        → (write_front obj w).0 ≡ r
        → (write_front obj w).1 ≡ n
        → (write_front obj w).2 ≡ w'
        → Keeps (obj ∷ lst) k w (flush (obj ∷ lst) k w)
    by_front ih whole n w' (took, len) e f g =
        let (bytes, count) = ih (k + n) w' in
        rw (flush, e, f, g)
          (
            bytes ∙ ap (λ xs. xs ++ waiting lst) took ∙ append_assoc w.bytes rest (waiting lst),
            omega (arith, count, len, length-append rest (waiting lst)),
          )
    by_front ih partly n w' (took, len) e f g =
        let left = drop (obj.start + n) obj.buff in
        rw (flush, e, f, g)
          (
            sym (append_assoc w'.bytes left (waiting lst))
                ∙ ap (λ xs. xs ++ waiting lst) took
                ∙ append_assoc w.bytes rest (waiting lst),
            omega (arith, len, length-append rest (waiting lst), length-append left (waiting lst)),
          )
    by_front ih broken n w' took e f g =
        rw (flush, e, g) (ap (λ xs. xs ++ waiting (obj ∷ lst)) took, refl)

abbrev pub fresh : Sent → WriteObject
fresh (low, buff) = record { start = 0; buff = buff }

-- Of a list of whole objects one at most is left in part, the first that is left.
abbrev pub Cuts : List Sent → Wire → List WriteObject × ℕ × Wire → Type 0
Cuts back w ([], k, w') = w'.bytes ≡ w.bytes ++ bytes_of back
Cuts back w ((obj ∷ lst), k, w') =
    (moved : List Sent) × (kept : List Sent) × (back ≡ moved ++ kept)
    × (lst ≡ map fresh kept)
    × (w'.bytes ++ drop obj.start obj.buff ≡ w.bytes ++ bytes_of moved)

Cuts-cons :
    (sent : Sent) (back : List Sent) (w w' : Wire)
    → w'.bytes ≡ w.bytes ++ sent.1
    → (out : List WriteObject × ℕ × Wire) → Cuts back w' out
    → Cuts (sent ∷ back) w out
Cuts-cons (low, buff) back w w' took ([], k, w'') cut =
    cut ∙ ap (λ xs. xs ++ bytes_of back) took ∙ append_assoc w.bytes buff (bytes_of back)
Cuts-cons (low, buff) back w w' took ((obj ∷ lst), k, w'') (moved, kept, split, left, bytes) = (
  (low, buff) ∷ moved,
  kept,
  ap (◌∷◌ (low, buff)) split,
  left,
  bytes ∙ ap (λ xs. xs ++ bytes_of moved) took ∙ append_assoc w.bytes buff (bytes_of moved),
)

pub flush-Cuts : (back : List Sent) (k : ℕ) (w : Wire) → Cuts back w (flush (map fresh back) k w)
unfolding flush
flush-Cuts [] k w = sym (append-nil w.bytes)
flush-Cuts ((low, buff) ∷ back) k w =
    by_front (flush-Cuts back) (write_front obj w).0 (write_front obj w).1 (write_front obj w).2
      (write_front-Fronts obj w) refl refl refl
  where
    obj : WriteObject
    obj = fresh (low, buff)

    by_front :
        ((k : ℕ) (w : Wire) → Cuts back w (flush (map fresh back) k w))
        → (r : FrontResult) (n : ℕ) (w' : Wire) → Fronts obj w r n w'
        → (write_front obj w).0 ≡ r
        → (write_front obj w).1 ≡ n
        → (write_front obj w).2 ≡ w'
        → Cuts ((low, buff) ∷ back) w (flush (map fresh ((low, buff) ∷ back)) k w)
    by_front ih whole n w' (took, len) e f g =
        rw (flush, e, f, g) (Cuts-cons (low, buff) back w w' took _ (ih (k + n) w'))
    by_front ih partly n w' (took, len) e f g =
        rw (flush, e, f, g)
          (
            (low, buff) ∷ [],
            back,
            refl,
            refl,
            took ∙ ap (λ xs. w.bytes ++ xs) (sym (append-nil buff)),
          )
    by_front ih broken n w' took e f g =
        rw (flush, e, g)
          (
            (low, buff) ∷ [],
            back,
            refl,
            refl,
            ap (λ xs. xs ++ buff) took ∙ ap (λ xs. w.bytes ++ xs) (sym (append-nil buff)),
          )
