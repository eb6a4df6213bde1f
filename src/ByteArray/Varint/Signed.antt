-- ===== src/ByteArray/Varint/Signed.antt =====
-- writeInt32, readInt32, writeInt64 and readInt64 of Sylar/bytearray.cc: a signed integer in zigzag form
-- as a variable-length integer.
use my_sylar_server.ByteArray.Varint.Sizes.{
  IntSize, bits32, bits64, bits, most_bytes, write_int_as, read_int_as,
}
use my_sylar_server.Base.{ℕ, ◌+◌, ◌^◌, ◌≤◌, ◌<◌, ◌≡◌, subst, length, arith}
use my_sylar_server.ByteArray.{ByteArray}
use my_sylar_server.ByteArray.Chain.{ok}
use my_sylar_server.ByteArray.Valid.{IsValid}
use my_sylar_server.ByteArray.Reads.{Took, Took-map}
use my_sylar_server.ByteArray.RoundTrip.{there_and_back, rewind, round_trip}
use my_sylar_server.ByteArray.Varint.{
  encode_zigzag32, encode_zigzag64, decode_zigzag32, decode_zigzag64, write_int32, write_int64,
  read_int32, read_int64,
}
use my_sylar_server.ByteArray.Varint.Zigzag.{encode_zigzag-lt, zigzag_round_trip}
use my_sylar_server.ByteArray.Varint.RoundTrip.{
  encoding, length-encoding, write_uint_lem, read_uint_lem,
}

int32_round_trip :
    {b : ByteArray} (v : IsValid b) (x : ℕ)
    → x < 2 ^ 32
    → there_and_back (write_int32 x) read_int32 b
      ≡ ok (x, b.position + length (encoding 4 (encode_zigzag32 x)))
unfolding write_int32 read_int32
int32_round_trip {b} v x h =
    let y = encode_zigzag32 x in
    let fits : y < 2 ^ 32 = unfold encode_zigzag32 in encode_zigzag-lt 31 x in
    let r = rewind v (write_uint_lem v 4 y (omega arith)) in
    let t = read_uint_lem r.valid 32 4 y r.tail (omega arith) fits r.next in
    round_trip (write_int32 x) read_int32 r (
      subst (λ (z : ℕ). Took r.after (length (encoding 4 y)) z (read_int32 r.after))
        (zigzag_round_trip bits32 x h) (Took-map decode_zigzag32 t))

int64_round_trip :
    {b : ByteArray} (v : IsValid b) (x : ℕ)
    → x < 2 ^ 64
    → there_and_back (write_int64 x) read_int64 b
      ≡ ok (x, b.position + length (encoding 9 (encode_zigzag64 x)))
unfolding write_int64 read_int64
int64_round_trip {b} v x h =
    let y = encode_zigzag64 x in
    let fits : y < 2 ^ 64 = unfold encode_zigzag64 in encode_zigzag-lt 63 x in
    let r = rewind v (write_uint_lem v 9 y (omega arith)) in
    let t = read_uint_lem r.valid 64 9 y r.tail (omega arith) fits r.next in
    round_trip (write_int64 x) read_int64 r (
      subst (λ (z : ℕ). Took r.after (length (encoding 9 y)) z (read_int64 r.after))
        (zigzag_round_trip bits64 x h) (Took-map decode_zigzag64 t))

-- Writing an int32_t or an int64_t (as its bit pattern) in zigzag form, setting the position back
-- and reading returns it; it takes 1 to 5, or 1 to 10, bytes.
pub signed_round_trip :
    {b : ByteArray} (s : IntSize) (x : ℕ)
    → IsValid b
    → x < 2 ^ bits s
    → (n : ℕ) × (there_and_back (write_int_as s x) (read_int_as s) b ≡ ok (x, b.position + n))
      × (1 ≤ n)
      × (n ≤ most_bytes s)
signed_round_trip bits32 x v h = (
  length (encoding 4 (encode_zigzag32 x)),
  int32_round_trip v x h,
  (length-encoding 4 (encode_zigzag32 x)).0,
  (length-encoding 4 (encode_zigzag32 x)).1,
)
signed_round_trip bits64 x v h = (
  length (encoding 9 (encode_zigzag64 x)),
  int64_round_trip v x h,
  (length-encoding 9 (encode_zigzag64 x)).0,
  (length-encoding 9 (encode_zigzag64 x)).1,
)
