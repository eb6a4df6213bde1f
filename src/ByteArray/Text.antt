-- ===== src/ByteArray/Text.antt =====
-- The string methods of Sylar/bytearray.cc: the length, as a fixed-width or a variable-length
-- integer, and then the bytes.
pub mod RoundTrip
use my_sylar_server.Base.{ℕ, ◌%◌, ◌^◌, List, length}
use my_sylar_server.ByteArray.{ByteArray, write, read}
use my_sylar_server.ByteArray.Chain.{Outcome, ok, out_of_range, null_pointer, overrun, ◌>>=◌}
use my_sylar_server.ByteArray.Fixed.{
  write_fuint16, write_fuint32, write_fuint64, read_fuint16, read_fuint32, read_fuint64,
}
use my_sylar_server.ByteArray.Varint.{write_uint64, read_uint64}

-- The length is converted to the width of the field.
unfoldable pub write_string_f16 : List ℕ → ByteArray → Outcome ByteArray
write_string_f16 value b = do b' ← write_fuint16 (length value % 2 ^ 16) b; write value b'

unfoldable pub write_string_f32 : List ℕ → ByteArray → Outcome ByteArray
write_string_f32 value b = do b' ← write_fuint32 (length value % 2 ^ 32) b; write value b'

unfoldable pub write_string_f64 : List ℕ → ByteArray → Outcome ByteArray
write_string_f64 value b = do b' ← write_fuint64 (length value % 2 ^ 64) b; write value b'

unfoldable pub write_string_vint : List ℕ → ByteArray → Outcome ByteArray
write_string_vint value b = do b' ← write_uint64 (length value % 2 ^ 64) b; write value b'

unfoldable pub write_string_without_length : List ℕ → ByteArray → Outcome ByteArray
write_string_without_length value b = write value b

unfoldable pub read_string_f16 : ByteArray → Outcome (List ℕ × ByteArray)
read_string_f16 b = do (len, b') ← read_fuint16 b; read len b'

unfoldable pub read_string_f32 : ByteArray → Outcome (List ℕ × ByteArray)
read_string_f32 b = do (len, b') ← read_fuint32 b; read len b'

unfoldable pub read_string_f64 : ByteArray → Outcome (List ℕ × ByteArray)
read_string_f64 b = do (len, b') ← read_fuint64 b; read len b'

unfoldable pub read_string_vint : ByteArray → Outcome (List ℕ × ByteArray)
read_string_vint b = do (len, b') ← read_uint64 b; read len b'
