-- ===== src/Codec/Hex.antt =====
-- hexstring_from_data and data_from_hexstring (Sylar/util/hash_util.cc).
use my_sylar_server.Base.{
  ℕ, ◌+◌, ◌-◌, ◌*◌, ◌/◌, ◌%◌, ◌^◌, ◌<◌, ◌≡◌, refl, true, ◌&&◌, not, Option, none, some, [], ◌∷◌,
  if◌then◌else◌, ◌==◌, ltb, leb, length, arith,
}
use my_sylar_server.Base.Chained.{◌>>=◌}
use Prim.Native.Nat.{bit_and, bit_or}
use my_sylar_server.Codec.{Bytes, AreBytes, holds_for, holds_for_lem, stands_for, stands_for_sound}

-- The character of a number less than 16.
pub hex_char : ℕ → ℕ
hex_char c = if ltb 9 c then c + b'a' - 10 else c + b'0'

unfoldable pub hexstring_from_data : Bytes → Bytes
unfolding hex_char
hexstring_from_data [] = []
hexstring_from_data (b ∷ bs) =
    hex_char (bit_and (b / 2 ^ 4) 0xf) ∷ hex_char (bit_and b 0xf) ∷ hexstring_from_data bs

-- The cases of a switch; none is the exception of its default.
pub hex_value : ℕ → Option ℕ
hex_value c =
    if leb b'a' c && leb c b'f'
    then some (c - b'a' + 10)
    else if leb b'A' c && leb c b'F'
    then some (c - b'A' + 10)
    else if leb b'0' c && leb c b'9'
    then some (c - b'0')
    else none

-- Two characters of the loop.
pub byte_of : ℕ → ℕ → Option ℕ
unfolding hex_value
byte_of c d = do h ← hex_value c; l ← hex_value d; some (bit_or (h * 2 ^ 4 % 2 ^ 8) l)

pub pairs : Bytes → Option Bytes
unfolding byte_of
pairs [] = some []
pairs (c ∷ []) = none
pairs (c ∷ d ∷ rest) = do b ← byte_of c d; bs ← pairs rest; some (b ∷ bs)

-- none is a thrown invalid_argument.
unfoldable pub data_from_hexstring : Bytes → Option Bytes
unfolding pairs
data_from_hexstring s = if not (length s % 2 == 0) then none else pairs s

table :
    holds_for
      (λ b. stands_for b (byte_of (hex_char (bit_and (b / 2 ^ 4) 0xf)) (hex_char (bit_and b 0xf))))
      256
    ≡ true
unfolding holds_for stands_for byte_of hex_char
table = refl

byte_of-hex_char :
    (b : ℕ)
    → b < 256
    → byte_of (hex_char (bit_and (b / 2 ^ 4) 0xf)) (hex_char (bit_and b 0xf)) ≡ some b
byte_of-hex_char b h = stands_for_sound b _ (holds_for_lem _ 256 b table h)

pairs-hexstring : (bs : Bytes) → AreBytes bs → pairs (hexstring_from_data bs) ≡ some bs
unfolding pairs hexstring_from_data
pairs-hexstring [] h = refl
pairs-hexstring (b ∷ bs) h = rw (byte_of-hex_char b h.0, pairs-hexstring bs h.1)

-- Two characters for each byte.
pub length-hexstring_from_data : (bs : Bytes) → length (hexstring_from_data bs) ≡ 2 * length bs
unfolding hexstring_from_data
length-hexstring_from_data [] = refl
length-hexstring_from_data (b ∷ bs) = omega (arith, length-hexstring_from_data bs)

-- `data_from_hexstring` reads what `hexstring_from_data` writes.
pub data_from_hexstring-hexstring_from_data :
    (bs : Bytes) → AreBytes bs → data_from_hexstring (hexstring_from_data bs) ≡ some bs
unfolding data_from_hexstring
data_from_hexstring-hexstring_from_data bs h =
    let even : (length (hexstring_from_data bs) % 2 == 0) ≡ true =
      ground (arith, length-hexstring_from_data bs) in
    rw even (pairs-hexstring bs h)
