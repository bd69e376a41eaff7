-- ===== src/Seri/Tests.antt =====
-- Values and streams of lualib-src/lua-seri.cpp.
use starnet.Common.{ℕ, ◌≡◌, ◌≢◌, ◌≤◌, refl, arith, true, some, List, [], ◌∷◌, map}
use starnet.Common.Int.{pos, negsuc}
use starnet.Seri.{ok, err, unfinished, ◌>>=◌}
use starnet.Seri.Value.{
  Value, nil, boolean, integer, string, table, meta_table, no_values, value, no_pairs, pair,
}
use starnet.Seri.Write.{pack_one, wb_table_head, wb_string, wb_boolean}
use starnet.Seri.Read.{unpack_one}
use starnet.Seri.Call.{
  pack_all, reader_fuel, unpack_buffer, serialize, unserialize, pack_string, unpack_string,
}
use starnet.Seri.Spec.{encode, height, IsPackable, IsLua, IsSome, IsKey, stored}
use starnet.Seri.Pack.{Bounded}
use starnet.Seri.Refuse.{pack_one-IsPackable}
use starnet.Seri.Fuel.{Ends, unpack_one-Ends, unpack_buffer-ends}
use starnet.Seri.Frame.{
  AreWritable, encode_all, height_all, pack_all-Bounded, unserialize-serialize,
  unpack_string-pack_string, unpack_string-wraps,
}

-- { 10, "hi", [1] = 10, [2] = "hi", x = { true } }, as `lua_next` gives it, and -70000.
abbrev args : List Value
args =
    table (value (integer (pos 10)) (value (string (104 ∷ 105 ∷ [])) no_values)) (
      pair (integer (pos 1)) (integer (pos 10)) (
        pair (integer (pos 2)) (string (104 ∷ 105 ∷ []))
          (pair (string (120 ∷ [])) (meta_table (pair (boolean true) nil no_pairs) true) no_pairs)))
    ∷ integer (negsuc 69999)
    ∷ []

args-AreWritable : AreWritable IsKey args
unfolding IsPackable IsLua
args-AreWritable = ground arith

args-AreLua : AreWritable IsSome args
unfolding IsPackable IsLua
args-AreLua = ground arith

args_bytes :
    encode_all args
    ≡ 22 ∷ 10 ∷ 10 ∷ 20 ∷ 104 ∷ 105 ∷ 12 ∷ 120 ∷ 6 ∷ 9 ∷ 0 ∷ 0 ∷ 0 ∷ 34 ∷ 144 ∷ 238 ∷ 254 ∷ 255 ∷ []
unfolding encode wb_table_head wb_string wb_boolean
args_bytes = refl

pack_all-Bounded_example : pack_all args ≡ Bounded (height_all args) 0 (encode_all args)
pack_all-Bounded_example = pack_all-Bounded args args-AreLua

args_low : height_all args ≤ 32
unfolding height
args_low = omega arith

unserialize-serialize_example :
    (serialize args >>= λ bytes. unserialize (some bytes)) ≡ ok (map stored args)
unserialize-serialize_example =
    unserialize-serialize args args-AreWritable args_low (rw args_bytes (omega arith))

unpack_string-pack_string_example : (pack_string args >>= unpack_string) ≡ ok (map stored args)
unpack_string-pack_string_example =
    unpack_string-pack_string args args-AreWritable args_low (rw args_bytes (omega arith))

abbrev inner : Value
inner = table (value nil no_values) no_pairs

inner_bytes : pack_one inner 31 ≡ ok (14 ∷ 0 ∷ 0 ∷ [])
unfolding pack_one wb_table_head
inner_bytes = refl

pack_one-IsPackable_example : IsPackable inner
pack_one-IsPackable_example = pack_one-IsPackable inner 31 (14 ∷ 0 ∷ 0 ∷ []) inner_bytes

-- A table whose pairs are cut off.
abbrev cut : List ℕ
cut = 14 ∷ 0 ∷ 10 ∷ []

unpack_one-Ends_example : Ends 3 (unpack_one (reader_fuel cut) cut)
unpack_one-Ends_example = unpack_one-Ends cut

unpack_buffer-ends_example : unpack_buffer cut ≢ err unfinished
unpack_buffer-ends_example = unpack_buffer-ends cut

unpack_string-wraps_example : unpack_string (255 ∷ 255 ∷ 255 ∷ 253 ∷ 9 ∷ []) ≡ ok []
unpack_string-wraps_example = unpack_string-wraps 253 (9 ∷ []) (omega arith) (omega arith)
