-- ===== src/ByteArray/Varint/Sizes.antt =====
-- The two sizes in which Sylar/bytearray.cc writes integers of variable length, so that one statement
-- speaks of the 32-bit and of the 64-bit methods.
use my_sylar_server.Base.{ℕ}
use my_sylar_server.ByteArray.{ByteArray}
use my_sylar_server.ByteArray.Chain.{Outcome}
use my_sylar_server.ByteArray.Varint.{
  encode_zigzag32, encode_zigzag64, decode_zigzag32, decode_zigzag64, write_int32, write_int64,
  read_int32, read_int64, write_uint32, write_uint64, read_uint32, read_uint64,
}

pub data IntSize : Type 0 where
  bits32 : IntSize
  bits64 : IntSize

abbrev pub bits : IntSize → ℕ
bits bits32 = 32
bits bits64 = 64

-- The most bytes that an integer takes.
abbrev pub most_bytes : IntSize → ℕ
most_bytes bits32 = 5
most_bytes bits64 = 10

abbrev pub write_uint_as : IntSize → ℕ → ByteArray → Outcome ByteArray
write_uint_as bits32 = write_uint32
write_uint_as bits64 = write_uint64

abbrev pub read_uint_as : IntSize → ByteArray → Outcome (ℕ × ByteArray)
read_uint_as bits32 = read_uint32
read_uint_as bits64 = read_uint64

abbrev pub write_int_as : IntSize → ℕ → ByteArray → Outcome ByteArray
write_int_as bits32 = write_int32
write_int_as bits64 = write_int64

abbrev pub read_int_as : IntSize → ByteArray → Outcome (ℕ × ByteArray)
read_int_as bits32 = read_int32
read_int_as bits64 = read_int64

abbrev pub encode_as : IntSize → ℕ → ℕ
encode_as bits32 = encode_zigzag32
encode_as bits64 = encode_zigzag64

abbrev pub decode_as : IntSize → ℕ → ℕ
decode_as bits32 = decode_zigzag32
decode_as bits64 = decode_zigzag64
