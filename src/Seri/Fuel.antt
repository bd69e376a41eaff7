-- ===== src/Seri/Fuel.antt =====
-- The reader of lualib-src/lua-seri.cpp ends on every stream, and reads a byte for every value.
use starnet.Common.{
  ℕ, zero, suc, ◌+◌, ◌*◌, ◌^◌, ◌≤◌, ◌<◌, ◌≢◌, subst, List, [], ◌∷◌, length, length-drop, ltb, leb,
  ◌==◌, Bool-cases, if-both, inl, inr, arith,
}
use starnet.Seri.{
  Result, ok, err, too_deep, bad_type, pairs_failed, invalid_stream, too_big, nan_key, unfinished,
  ◌>>=◌,
}
use starnet.Seri.Value.{Value}
use starnet.Seri.Read.{
  rb_read, read_bytes, read_unsigned, get_integer, get_real, get_pointer, get_buffer,
  get_long_string, long_array_size, array_size_of, byte_type, byte_cookie, push_number,
  push_long_string, push_value, unpack_one, unpack_table, unpack_items, unpack_pairs, is_nil,
  is_nan,
}
use starnet.Seri.Call.{reader_fuel, unpack_loop, unpack_buffer}

-- A reader that ends: with less than k bytes left, or with an error of the program.
abbrev pub Ends {ℓ} : {A : Type ℓ} → ℕ → Result (A × List ℕ) → Type 0
Ends k (ok (a, rest)) = length rest < k
Ends k (err unfinished) = ⊥
Ends k (err _) = Unit

Ends-bind {ℓ κ} :
    {A : Type ℓ} {B : Type κ} (k j : ℕ) (m : Result (A × List ℕ))
    (f : A × List ℕ → Result (B × List ℕ))
    → Ends k m
    → ((a : A) (rest : List ℕ) → length rest < k → Ends j (f (a, rest)))
    → Ends j (m >>= f)
Ends-bind k j (ok (a, rest)) f h g = g a rest h
Ends-bind k j (err too_deep) f h g = tt
Ends-bind k j (err bad_type) f h g = tt
Ends-bind k j (err pairs_failed) f h g = tt
Ends-bind k j (err invalid_stream) f h g = tt
Ends-bind k j (err too_big) f h g = tt
Ends-bind k j (err nan_key) f h g = tt
Ends-bind k j (err unfinished) f h g = h

Ends-le {ℓ} : {A : Type ℓ} (k j : ℕ) (m : Result (A × List ℕ)) → k ≤ j → Ends k m → Ends j m
Ends-le k j (ok (a, rest)) le h = omega (arith, le, h)
Ends-le k j (err too_deep) le h = tt
Ends-le k j (err bad_type) le h = tt
Ends-le k j (err pairs_failed) le h = tt
Ends-le k j (err invalid_stream) le h = tt
Ends-le k j (err too_big) le h = tt
Ends-le k j (err nan_key) le h = tt
Ends-le k j (err unfinished) le h = h

read_bytes-Ends : (rb : List ℕ) (n : ℕ) → Ends (suc (length rb)) (read_bytes rb n)
unfolding read_bytes rb_read
read_bytes-Ends rb n = elim (Bool-cases (ltb (length rb) n)) [
  | inl e ↦ rw (read_bytes, rb_read, e) tt
  | inr e ↦ rw (read_bytes, rb_read, e) (omega (arith, length-drop n rb))
]

read_unsigned-Ends : (rb : List ℕ) (n : ℕ) → Ends (suc (length rb)) (read_unsigned rb n)
unfolding read_unsigned
read_unsigned-Ends rb n =
    Ends-bind (suc (length rb)) _ (read_bytes rb n) _ (read_bytes-Ends rb n) (λ a rest h. h)

get_integer-Ends : (rb : List ℕ) (cookie : ℕ) → Ends (suc (length rb)) (get_integer rb cookie)
unfolding get_integer
get_integer-Ends rb zero = omega arith
get_integer-Ends rb (suc zero) =
    Ends-bind _ _ (read_unsigned rb 1) _ (read_unsigned-Ends rb 1) (λ a rest h. h)
get_integer-Ends rb (suc (suc zero)) =
    Ends-bind _ _ (read_unsigned rb 2) _ (read_unsigned-Ends rb 2) (λ a rest h. h)
get_integer-Ends rb (suc (suc (suc zero))) = tt
get_integer-Ends rb (suc (suc (suc (suc zero)))) =
    Ends-bind _ _ (read_unsigned rb 4) _ (read_unsigned-Ends rb 4) (λ a rest h. h)
get_integer-Ends rb (suc (suc (suc (suc (suc zero))))) = tt
get_integer-Ends rb (suc (suc (suc (suc (suc (suc zero)))))) =
    Ends-bind _ _ (read_unsigned rb 8) _ (read_unsigned-Ends rb 8) (λ a rest h. h)
get_integer-Ends rb (suc (suc (suc (suc (suc (suc (suc c))))))) = tt

get_buffer-Ends : (rb : List ℕ) (len : ℕ) → Ends (suc (length rb)) (get_buffer rb len)
unfolding get_buffer
get_buffer-Ends rb len =
    if-both (Ends (suc (length rb))) (leb (2 ^ 31) len) _ _ (λ e. tt)
      (λ e. Ends-bind _ _ (read_bytes rb len) _ (read_bytes-Ends rb len) (λ a rest h. h))

get_long_string-Ends : (rb : List ℕ) (n : ℕ) → Ends (suc (length rb)) (get_long_string rb n)
unfolding get_long_string
get_long_string-Ends rb n =
    Ends-bind (suc (length rb)) _ (read_unsigned rb n) _ (read_unsigned-Ends rb n) (λ len rest h.
      Ends-le (suc (length rest)) _ (get_buffer rest len) h (get_buffer-Ends rest len))

push_number-Ends : (rb : List ℕ) (cookie : ℕ) → Ends (suc (length rb)) (push_number rb cookie)
unfolding push_number get_real
push_number-Ends rb cookie =
    if-both (Ends (suc (length rb))) (cookie == 8) _ _
      (λ e. Ends-bind _ _ (read_bytes rb 8) _ (read_bytes-Ends rb 8) (λ a rest h. h))
      (λ e. Ends-bind _ _ (get_integer rb cookie) _ (get_integer-Ends rb cookie) (λ a rest h. h))

push_long_string-Ends :
    (rb : List ℕ) (cookie : ℕ) → Ends (suc (length rb)) (push_long_string rb cookie)
unfolding push_long_string
push_long_string-Ends rb cookie =
    if-both (Ends (suc (length rb))) (cookie == 2) _ _ (λ e. get_long_string-Ends rb 2)
      (λ e.
        if-both (Ends (suc (length rb))) (cookie == 4) _ _ (λ e. get_long_string-Ends rb 4)
          (λ e. tt))

push_value-Ends :
    (reader : List ℕ → ℕ → Result (Value × List ℕ)) (rb : List ℕ) (cookie type : ℕ)
    → Ends (suc (length rb)) (reader rb cookie)
    → Ends (suc (length rb)) (push_value reader rb cookie type)
unfolding push_value get_pointer
push_value-Ends reader rb cookie zero h = omega arith
push_value-Ends reader rb cookie (suc zero) h = omega arith
push_value-Ends reader rb cookie (suc (suc zero)) h = push_number-Ends rb cookie
push_value-Ends reader rb cookie (suc (suc (suc zero))) h =
    Ends-bind _ _ (read_bytes rb 8) _ (read_bytes-Ends rb 8) (λ a rest h. h)
push_value-Ends reader rb cookie (suc (suc (suc (suc zero)))) h = get_buffer-Ends rb cookie
push_value-Ends reader rb cookie (suc (suc (suc (suc (suc zero))))) h =
    push_long_string-Ends rb cookie
push_value-Ends reader rb cookie (suc (suc (suc (suc (suc (suc zero)))))) h = h
push_value-Ends reader rb cookie (suc (suc (suc (suc (suc (suc (suc t))))))) h = tt

long_array_size-Ends : (rb : List ℕ) → Ends (suc (length rb)) (long_array_size rb)
unfolding long_array_size
long_array_size-Ends [] = tt
long_array_size-Ends (b ∷ rb) =
    let P : Result (ℕ × List ℕ) → Type 0 = Ends (suc (suc (length rb))) in
    if-both P (byte_type b == 2) _ _
      (λ e.
        if-both P (byte_cookie b == 8) _ _ (λ e. tt)
          (λ e.
            Ends-bind (suc (length rb)) _ (get_integer rb (byte_cookie b)) _
              (get_integer-Ends rb (byte_cookie b)) (λ a rest h. omega (arith, h))))
      (λ e. tt)

array_size_of-Ends : (rb : List ℕ) (cookie : ℕ) → Ends (suc (length rb)) (array_size_of rb cookie)
unfolding array_size_of
array_size_of-Ends rb cookie =
    if-both (Ends (suc (length rb))) (cookie == 31) _ _ (λ e. long_array_size-Ends rb)
      (λ e. omega arith)

mutual
  unfolding unpack_one

  one-Ends : (n : ℕ) (rb : List ℕ) → 3 * length rb + 1 ≤ n → Ends (length rb) (unpack_one n rb)
  one-Ends zero rb le = absurd (omega (arith, le))
  one-Ends (suc n) [] le = tt
  one-Ends (suc n) (b ∷ rb) le =
      push_value-Ends (unpack_table n) rb (byte_cookie b) (byte_type b)
        (unpack_table-Ends n rb (byte_cookie b) (omega (arith, le)))

  unpack_table-Ends :
      (n : ℕ) (rb : List ℕ) (cookie : ℕ)
      → 3 * length rb + 3 ≤ n
      → Ends (suc (length rb)) (unpack_table n rb cookie)
  unpack_table-Ends zero rb cookie le = absurd (omega (arith, le))
  unpack_table-Ends (suc n) rb cookie le =
      Ends-bind (suc (length rb)) _ (array_size_of rb cookie) _ (array_size_of-Ends rb cookie)
        (λ size rb1 h1.
          Ends-bind (suc (length rb1)) _ (unpack_items n size rb1) _
            (unpack_items-Ends n size rb1 (omega (arith, le, h1)))
            (λ items rb2 h2.
              Ends-bind (suc (length rb2)) _ (unpack_pairs n rb2) _
                (unpack_pairs-Ends n rb2 (omega (arith, le, h1, h2)))
                (λ pairs rb3 h3. omega (arith, h1, h2, h3))))

  unpack_items-Ends :
      (n k : ℕ) (rb : List ℕ) → 3 * length rb + 2 ≤ n → Ends (suc (length rb)) (unpack_items n k rb)
  unpack_items-Ends zero k rb le = absurd (omega (arith, le))
  unpack_items-Ends (suc n) zero rb le = omega arith
  unpack_items-Ends (suc n) (suc k) rb le =
      Ends-bind (length rb) _ (unpack_one n rb) _ (one-Ends n rb (omega (arith, le))) (λ v rb1 h1.
        Ends-bind (suc (length rb1)) _ (unpack_items n k rb1) _
          (unpack_items-Ends n k rb1 (omega (arith, le, h1))) (λ vs rb2 h2. omega (arith, h1, h2)))

  unpack_pairs-Ends :
      (n : ℕ) (rb : List ℕ) → 3 * length rb + 2 ≤ n → Ends (suc (length rb)) (unpack_pairs n rb)
  unpack_pairs-Ends zero rb le = absurd (omega (arith, le))
  unpack_pairs-Ends (suc n) rb le =
      Ends-bind (length rb) _ (unpack_one n rb) _ (one-Ends n rb (omega (arith, le))) (λ k rb1 h1.
        if-both (Ends (suc (length rb))) (is_nil k) _ _ (λ e. omega (arith, h1))
          (λ e.
            Ends-bind (length rb1) _ (unpack_one n rb1) _ (one-Ends n rb1 (omega (arith, le, h1)))
              (λ v rb2 h2.
                if-both (Ends (suc (length rb))) (is_nan k) _ _ (λ e. tt)
                  (λ e.
                    Ends-bind (suc (length rb2)) _ (unpack_pairs n rb2) _
                      (unpack_pairs-Ends n rb2 (omega (arith, le, h1, h2)))
                      (λ pairs rb3 h3. omega (arith, h1, h2, h3))))))

-- The reader of one value ends on every stream, with an error of the program or with a value and
-- fewer bytes left.
pub unpack_one-Ends : (rb : List ℕ) → Ends (length rb) (unpack_one (reader_fuel rb) rb)
unpack_one-Ends rb = one-Ends (reader_fuel rb) rb (omega arith)

-- An answer of the program.
abbrev IsAnswer {ℓ} : {A : Type ℓ} → Result A → Type 0
IsAnswer (ok a) = Unit
IsAnswer (err unfinished) = ⊥
IsAnswer (err _) = Unit

bind-IsAnswer {ℓ κ} :
    {A : Type ℓ} {B : Type κ} (k : ℕ) (m : Result (A × List ℕ)) (f : A × List ℕ → Result B)
    → Ends k m
    → ((a : A) (rest : List ℕ) → length rest < k → IsAnswer (f (a, rest)))
    → IsAnswer (m >>= f)
bind-IsAnswer k (ok (a, rest)) f h g = g a rest h
bind-IsAnswer k (err too_deep) f h g = tt
bind-IsAnswer k (err bad_type) f h g = tt
bind-IsAnswer k (err pairs_failed) f h g = tt
bind-IsAnswer k (err invalid_stream) f h g = tt
bind-IsAnswer k (err too_big) f h g = tt
bind-IsAnswer k (err nan_key) f h g = tt
bind-IsAnswer k (err unfinished) f h g = h

cons-IsAnswer {ℓ} :
    {A : Type ℓ} (a : A) (m : Result (List A)) → IsAnswer m → IsAnswer (m >>= λ as'. ok (a ∷ as'))
cons-IsAnswer a (ok x) h = tt
cons-IsAnswer a (err too_deep) h = tt
cons-IsAnswer a (err bad_type) h = tt
cons-IsAnswer a (err pairs_failed) h = tt
cons-IsAnswer a (err invalid_stream) h = tt
cons-IsAnswer a (err too_big) h = tt
cons-IsAnswer a (err nan_key) h = tt
cons-IsAnswer a (err unfinished) h = h

unpack_loop-IsAnswer : (n : ℕ) (rb : List ℕ) → length rb ≤ n → IsAnswer (unpack_loop n rb)
unfolding unpack_loop
unpack_loop-IsAnswer n [] le = tt
unpack_loop-IsAnswer zero (b ∷ rb) le = absurd (omega (arith, le))
unpack_loop-IsAnswer (suc n) (b ∷ rb) le =
    bind-IsAnswer _ (unpack_one (reader_fuel (b ∷ rb)) (b ∷ rb)) _ (unpack_one-Ends (b ∷ rb))
      (λ v rest h.
        cons-IsAnswer v (unpack_loop n rest) (unpack_loop-IsAnswer n rest (omega (arith, le, h))))

-- unpack_buffer ends on every stream, with values or with an error of the program: the fuel is
-- enough.
pub unpack_buffer-ends : (buffer : List ℕ) → unpack_buffer buffer ≢ err unfinished
unfolding unpack_buffer
unpack_buffer-ends buffer e =
    subst IsAnswer e (unpack_loop-IsAnswer (length buffer) buffer (omega arith))
