-- ===== src/Seri/Call.antt =====
-- The calls of lualib-src/lua-seri.cpp from Lua: all values of a call, and the framed string.
use starnet.Common.{
  ℕ, zero, suc, ◌+◌, ◌*◌, ◌/◌, ◌%◌, ◌^◌, Option, none, some, List, [], ◌∷◌, ◌++◌, ltb, leb, length,
  take, if◌then◌else◌, bit_or,
}
use starnet.Seri.{Result, ok, err, invalid_stream, unfinished, ◌>>=◌}
use starnet.Seri.Value.{Value}
use starnet.Seri.Write.{pack_one}
use starnet.Seri.Read.{unpack_one}

-- The loop of `Serialize` and of `PackString`.
unfoldable pub pack_all : List Value → Result (List ℕ)
unfolding pack_one
pack_all [] = ok []
pack_all (v ∷ vs) = do bytes ← pack_one v 0; rest ← pack_all vs; ok (bytes ++ rest)

-- Enough for every stream of this length.
abbrev pub reader_fuel : List ℕ → ℕ
reader_fuel rb = 3 * length rb + 1

-- The loop of `unpack_buffer`: each round reads a byte at least.
unfoldable pub unpack_loop : ℕ → List ℕ → Result (List Value)
unfolding unpack_one
unpack_loop n [] = ok []
unpack_loop zero (b ∷ rb) = err unfinished
unpack_loop (suc n) (b ∷ rb) = do
  v ← unpack_one (reader_fuel (b ∷ rb)) (b ∷ rb)
  vs ← unpack_loop n v.1
  ok (v.0 ∷ vs)

unfoldable pub unpack_buffer : List ℕ → Result (List Value)
unfolding unpack_loop
unpack_buffer buffer = unpack_loop (length buffer) buffer

unfoldable pub serialize : List Value → Result (List ℕ)
unfolding pack_all
serialize vs = pack_all vs

-- `none` is an argument that is missing or nil. With a `(int)sz` that is negative `unpack_buffer`
-- reads nothing and returns no value.
unfoldable pub unserialize : Option (List ℕ) → Result (List Value)
unfolding unpack_buffer
unserialize none = ok []
unserialize (some buffer) =
    let len = length buffer % 2 ^ 32 in
    if leb (2 ^ 31) len then ok [] else unpack_buffer (take len buffer)

-- The length before the bytes, the high byte first.
unfoldable pub pack_string : List Value → Result (List ℕ)
unfolding pack_all
pack_string vs = do
  out ← pack_all vs
  let len = length out % 2 ^ 32
  ok (len / 2 ^ 24 % 256 ∷ len / 2 ^ 16 % 256 ∷ len / 2 ^ 8 % 256 ∷ len % 256 ∷ out)

unfoldable pub frame_length : ℕ → ℕ → ℕ → ℕ → ℕ
frame_length b0 b1 b2 b3 = bit_or (bit_or (bit_or (b0 * 2 ^ 24) (b1 * 2 ^ 16)) (b2 * 2 ^ 8)) b3

-- `sz < 4 + len` in 32 bits; `(int)len` is negative from 2^31 on, and `unpack_buffer` then reads
-- nothing and returns no value.
unfoldable pub framed : ℕ → List ℕ → Result (List Value)
unfolding unpack_buffer
framed len rest =
    if ltb (4 + length rest) ((4 + len) % 2 ^ 32)
    then err invalid_stream
    else if leb (2 ^ 31) len
    then ok []
    else unpack_buffer (take len rest)

unfoldable pub unpack_string : List ℕ → Result (List Value)
unfolding framed frame_length
unpack_string (b0 ∷ b1 ∷ b2 ∷ b3 ∷ rest) = framed (frame_length b0 b1 b2 b3) rest
unpack_string _ = err invalid_stream
