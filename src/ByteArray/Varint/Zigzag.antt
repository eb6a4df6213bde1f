-- ===== src/ByteArray/Varint/Zigzag.antt =====
-- The zigzag mapping of Sylar/bytearray.cc: signed words to unsigned ones, small magnitudes to small
-- values, and back.
use native.Mathlib.Nat.{pow-suc, one-le-pow, mod-eq_of_lt, mod-lt}
use my_sylar_server.ByteArray.Varint.Sizes.{IntSize, bits32, bits64, bits, encode_as, decode_as}
use my_sylar_server.Base.{
  ℕ, suc, ◌+◌, ◌-◌, ◌*◌, ◌/◌, ◌%◌, ◌^◌, ◌≤◌, ◌<◌, ◌≡◌, arith, leb, leb→le, leb→lt, lt→leb, le→leb,
  ◌∙◌, Bool-cases, inl, inr,
}
use my_sylar_server.Base.Words.{bit_xor_ones, bit_xor-zero, bit_and_one}
use my_sylar_server.ByteArray.Varint.{
  encode_zigzag, decode_zigzag, encode_zigzag32, encode_zigzag64, decode_zigzag32, decode_zigzag64,
}

wrap_once : (x m : ℕ) → x < m → (x + m) % m ≡ x
wrap_once x m h = grind arith

-- What the mapping is, without the wrap.
encode_even : (w v : ℕ) → v < 2 ^ w → encode_zigzag w v ≡ v * 2
encode_even w v h =
    rw (lt→leb (2 ^ w) v h) (mod-eq_of_lt {n = v * 2} {m = 2 ^ suc w} (omega (arith, pow-suc 2 w)))

encode_odd : (w v : ℕ) → 2 ^ w ≤ v → v < 2 ^ suc w → encode_zigzag w v ≡ (2 ^ suc w - v) * 2 - 1
encode_odd w v lo hi =
    let m = 2 ^ suc w in
    let e : (m - v) * 2 + m - 1 ≡ (m - v) * 2 - 1 + m = omega arith in
    rw (le→leb (2 ^ w) v lo, e) (wrap_once ((m - v) * 2 - 1) m (omega (arith, pow-suc 2 w)))

decode_even : (w n : ℕ) → decode_zigzag w (n * 2) ≡ n
decode_even w n =
    let low : n * 2 % 2 ≡ 0 = omega arith in
    let high : n * 2 / 2 ≡ n = omega arith in
    let full : 2 ^ suc w - 0 ≡ 0 + 2 ^ suc w = omega arith in
    let zeros = wrap_once 0 (2 ^ suc w) (one-le-pow (suc w) 2 (omega arith)) in
    rw (bit_and_one (n * 2), low, high, full, zeros) (bit_xor-zero n)

decode_odd : (w n : ℕ) → n < 2 ^ w → decode_zigzag w (n * 2 + 1) ≡ 2 ^ suc w - 1 - n
decode_odd w n h =
    let m = 2 ^ suc w in
    let low : (n * 2 + 1) % 2 ≡ 1 = omega arith in
    let high : (n * 2 + 1) / 2 ≡ n = omega arith in
    let ones : (m - 1) % m ≡ m - 1 = mod-eq_of_lt (omega (arith, one-le-pow (suc w) 2)) in
    rw (bit_and_one (n * 2 + 1), low, high, ones)
      (bit_xor_ones (suc w) n (omega (arith, pow-suc 2 w)))

decode-encode : (w v : ℕ) → v < 2 ^ suc w → decode_zigzag w (encode_zigzag w v) ≡ v
decode-encode w v h = elim (Bool-cases (leb (2 ^ w) v)) [
  | inl negative ↦
      let n = 2 ^ suc w - v - 1 in
      let lo = leb→le _ _ negative in
      let e : (2 ^ suc w - v) * 2 - 1 ≡ n * 2 + 1 = omega arith in
      rw (encode_odd w v lo h, e) (decode_odd w n (omega (arith, pow-suc 2 w)) ∙ omega arith)
  | inr positive ↦ rw (encode_even w v (leb→lt _ _ positive)) (decode_even w v)
]

pub encode_zigzag-lt : (w v : ℕ) → encode_zigzag w v < 2 ^ suc w
encode_zigzag-lt w v = ground (
  arith,
  one-le-pow (suc w) 2,
  mod-lt ((2 ^ suc w - v) * 2 + 2 ^ suc w - 1) {m = 2 ^ suc w},
  mod-lt (v * 2) {m = 2 ^ suc w},
)

-- Every int32_t and every int64_t, as a bit pattern, comes back from its zigzag form.
pub zigzag_round_trip : (s : IntSize) (v : ℕ) → v < 2 ^ bits s → decode_as s (encode_as s v) ≡ v
unfolding decode_zigzag32 encode_zigzag32 decode_zigzag64 encode_zigzag64
zigzag_round_trip bits32 v h = decode-encode 31 v h
zigzag_round_trip bits64 v h = decode-encode 63 v h
