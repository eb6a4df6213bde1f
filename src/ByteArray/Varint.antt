-- ===== src/ByteArray/Varint.antt =====
-- The variable-length integers of Sylar/bytearray.cc: writeUint32, writeUint64 and their readers, and
-- the zigzag forms writeInt32, writeInt64. Seven bits a byte, lowest first; the top bit says that
-- more follows. A signed value is its bit pattern; signed overflow wraps (the source leaves `-v`
-- and `v * 2` to the compiler where they overflow).
pub mod Sizes
pub mod RoundTrip
pub mod Zigzag
pub mod Signed
use Prim.Native.Nat.{bit_and, bit_or, bit_xor}
use my_sylar_server.Base.{
  ℕ, zero, suc, ◌+◌, ◌-◌, ◌*◌, ◌/◌, ◌%◌, ◌^◌, Option, none, some, List, [], ◌∷◌, ltb, leb,
  if◌then◌else◌,
}
use mathlib.Core.Option
use my_sylar_server.ByteArray.{ByteArray, write}
use my_sylar_server.ByteArray.Chain.{Outcome, ok, out_of_range, null_pointer, overrun, ◌>>=◌}
use my_sylar_server.ByteArray.Fixed.{read_fuint8}

-- `(value & 0x7F) | 0x80`
abbrev pub group : ℕ → ℕ
group value = bit_or (bit_and value 0x7f) 0x80

-- The loop of the writers. `room` is what is left of the array `tmp`; `none` is a write behind it.
unfoldable pub encode_loop : ℕ → ℕ → Option (List ℕ)
encode_loop zero value = none
encode_loop (suc room) value =
    let more = Option.map (◌∷◌ (group value)) (encode_loop room (value / 128)) in
    if leb 0x80 value then more else some (value ∷ [])

-- `tmp` has 5 bytes, or 10.
unfoldable pub write_uint : ℕ → ℕ → ByteArray → Outcome ByteArray
write_uint room value b = elim (encode_loop room value) [
  | none ↦ overrun
  | some bytes ↦ write bytes b
]

unfoldable pub write_uint32 : ℕ → ByteArray → Outcome ByteArray
unfolding write_uint
write_uint32 value b = write_uint 5 value b

unfoldable pub write_uint64 : ℕ → ByteArray → Outcome ByteArray
unfolding write_uint
write_uint64 value b = write_uint 10 value b

-- The loop of the readers, for a result of `w` bits; `rounds` is the number of `i` left below `w`.
unfoldable pub decode_loop : ℕ → ℕ → ℕ → ℕ → ByteArray → Outcome (ℕ × ByteArray)
decode_loop w zero i result b = ok (result, b)
decode_loop w (suc rounds) i result b = do
  (x, b') ← read_fuint8 b
  let last = bit_or result (x * 2 ^ i % 2 ^ w)
  let joined = bit_or result (bit_and x 0x7f * 2 ^ i % 2 ^ w)
  let more = decode_loop w rounds (i + 7) joined b'
  if ltb x 0x80 then ok (last, b') else more

-- `i` takes the values 0, 7, 14, 21, 28.
unfoldable pub read_uint32 : ByteArray → Outcome (ℕ × ByteArray)
unfolding decode_loop
read_uint32 b = decode_loop 32 5 0 0 b

-- `i` takes the values 0, 7, and so on to 63.
unfoldable pub read_uint64 : ByteArray → Outcome (ℕ × ByteArray)
unfolding decode_loop
read_uint64 b = decode_loop 64 10 0 0 b

-- `v < 0` on the bit pattern of `w + 1` bits
abbrev pub encode_zigzag : ℕ → ℕ → ℕ
encode_zigzag w v =
    if leb (2 ^ w) v then ((2 ^ suc w - v) * 2 + 2 ^ suc w - 1) % 2 ^ suc w else v * 2 % 2 ^ suc w

-- `(v >> 1) ^ -(v & 1)`
abbrev pub decode_zigzag : ℕ → ℕ → ℕ
decode_zigzag w v = bit_xor (v / 2) ((2 ^ suc w - bit_and v 1) % 2 ^ suc w)

unfoldable pub encode_zigzag32 : ℕ → ℕ
encode_zigzag32 v = encode_zigzag 31 v

unfoldable pub encode_zigzag64 : ℕ → ℕ
encode_zigzag64 v = encode_zigzag 63 v

unfoldable pub decode_zigzag32 : ℕ → ℕ
decode_zigzag32 v = decode_zigzag 31 v

unfoldable pub decode_zigzag64 : ℕ → ℕ
decode_zigzag64 v = decode_zigzag 63 v

unfoldable pub write_int32 : ℕ → ByteArray → Outcome ByteArray
unfolding write_uint32 encode_zigzag32
write_int32 value b = write_uint32 (encode_zigzag32 value) b

unfoldable pub write_int64 : ℕ → ByteArray → Outcome ByteArray
unfolding write_uint64 encode_zigzag64
write_int64 value b = write_uint64 (encode_zigzag64 value) b

unfoldable pub read_int32 : ByteArray → Outcome (ℕ × ByteArray)
unfolding read_uint32 decode_zigzag32
read_int32 b = do (v, b') ← read_uint32 b; ok (decode_zigzag32 v, b')

unfoldable pub read_int64 : ByteArray → Outcome (ℕ × ByteArray)
unfolding read_uint64 decode_zigzag64
read_int64 b = do (v, b') ← read_uint64 b; ok (decode_zigzag64 v, b')
