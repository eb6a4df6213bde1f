-- ===== src/ByteArray/Fixed.antt =====
-- Sylar/endian.h and the fixed-width methods of Sylar/bytearray.cc (writeFint8 to writeFuint64,
-- readFint8 to readFuint64). A word of `w` bytes is the number of its bit pattern, so the signed and
-- the unsigned method of a width do the same. The model is that of a little-endian host, for which
-- SYLAR_BYTE_ORDER is SYLAR_LITTLE_ENDIAN; a float is its bit pattern, which memcpy keeps.
pub mod Bytes
pub mod RoundTrip
use my_sylar_server.Base.{
  ℕ, zero, suc, ◌+◌, ◌*◌, ◌/◌, ◌%◌, List, [], ◌∷◌, Bool, true, false, if◌then◌else◌,
}
use mathlib.Core.List.{reverse}
use my_sylar_server.ByteArray.{ByteArray, Endian, little_endian, big_endian, write, read}
use my_sylar_server.ByteArray.Chain.{Outcome, ok, out_of_range, null_pointer, overrun, ◌>>=◌}

-- The bytes of a word in the memory of a little-endian host.
abbrev pub le_bytes : ℕ → ℕ → List ℕ
le_bytes zero v = []
le_bytes (suc w) v = (v % 256) ∷ le_bytes w (v / 256)

abbrev pub of_le_bytes : List ℕ → ℕ
of_le_bytes [] = 0
of_le_bytes (b ∷ bytes) = b + 256 * of_le_bytes bytes

-- `bswap_16`, `bswap_32` and `bswap_64` of the C library: the bytes in reverse order.
abbrev pub bswap : ℕ → ℕ → ℕ
bswap w v = of_le_bytes (reverse (le_bytes w v))

-- `byteswap`, which picks the one for `sizeof(T)`.
abbrev pub byteswap : ℕ → ℕ → ℕ
byteswap w value = bswap w value

-- `SYLAR_BYTE_ORDER`
abbrev pub byte_order : Endian
byte_order = little_endian

-- `m_endian == SYLAR_BYTE_ORDER`
abbrev pub is_host_order : Endian → Bool
is_host_order little_endian = true
is_host_order big_endian = false

-- What the methods for two bytes and more do: swap unless the order is the host's, then write.
unfoldable pub write_word : ℕ → ℕ → ByteArray → Outcome ByteArray
write_word w value b =
    write (le_bytes w (if is_host_order b.endian then value else byteswap w value)) b

-- The macro XX of the readers.
unfoldable pub read_word : ℕ → ByteArray → Outcome (ℕ × ByteArray)
read_word w b = do
  (bytes, b') ← read w b
  let v = of_le_bytes bytes
  ok (if is_host_order b.endian then v else byteswap w v, b')

unfoldable pub write_fint8 : ℕ → ByteArray → Outcome ByteArray
write_fint8 value b = write (le_bytes 1 value) b

unfoldable pub write_fuint8 : ℕ → ByteArray → Outcome ByteArray
write_fuint8 value b = write (le_bytes 1 value) b

unfoldable pub write_fint16 : ℕ → ByteArray → Outcome ByteArray
unfolding write_word
write_fint16 value b = write_word 2 value b

unfoldable pub write_fuint16 : ℕ → ByteArray → Outcome ByteArray
unfolding write_word
write_fuint16 value b = write_word 2 value b

unfoldable pub write_fint32 : ℕ → ByteArray → Outcome ByteArray
unfolding write_word
write_fint32 value b = write_word 4 value b

unfoldable pub write_fuint32 : ℕ → ByteArray → Outcome ByteArray
unfolding write_word
write_fuint32 value b = write_word 4 value b

unfoldable pub write_fint64 : ℕ → ByteArray → Outcome ByteArray
unfolding write_word
write_fint64 value b = write_word 8 value b

unfoldable pub write_fuint64 : ℕ → ByteArray → Outcome ByteArray
unfolding write_word
write_fuint64 value b = write_word 8 value b

-- `memcpy` of the value's bits into a word
unfoldable pub write_float : ℕ → ByteArray → Outcome ByteArray
unfolding write_fuint32
write_float value b = write_fuint32 value b

unfoldable pub write_double : ℕ → ByteArray → Outcome ByteArray
unfolding write_fuint64
write_double value b = write_fuint64 value b

unfoldable pub read_fint8 : ByteArray → Outcome (ℕ × ByteArray)
read_fint8 b = do (bytes, b') ← read 1 b; ok (of_le_bytes bytes, b')

unfoldable pub read_fuint8 : ByteArray → Outcome (ℕ × ByteArray)
read_fuint8 b = do (bytes, b') ← read 1 b; ok (of_le_bytes bytes, b')

unfoldable pub read_fint16 : ByteArray → Outcome (ℕ × ByteArray)
unfolding read_word
read_fint16 b = read_word 2 b

unfoldable pub read_fuint16 : ByteArray → Outcome (ℕ × ByteArray)
unfolding read_word
read_fuint16 b = read_word 2 b

unfoldable pub read_fint32 : ByteArray → Outcome (ℕ × ByteArray)
unfolding read_word
read_fint32 b = read_word 4 b

unfoldable pub read_fuint32 : ByteArray → Outcome (ℕ × ByteArray)
unfolding read_word
read_fuint32 b = read_word 4 b

unfoldable pub read_fint64 : ByteArray → Outcome (ℕ × ByteArray)
unfolding read_word
read_fint64 b = read_word 8 b

unfoldable pub read_fuint64 : ByteArray → Outcome (ℕ × ByteArray)
unfolding read_word
read_fuint64 b = read_word 8 b

unfoldable pub read_float : ByteArray → Outcome (ℕ × ByteArray)
unfolding read_fuint32
read_float b = read_fuint32 b

unfoldable pub read_double : ByteArray → Outcome (ℕ × ByteArray)
unfolding read_fuint64
read_double b = read_fuint64 b
