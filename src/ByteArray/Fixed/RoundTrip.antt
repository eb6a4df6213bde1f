-- ===== src/ByteArray/Fixed/RoundTrip.antt =====
-- What a fixed-width method of Sylar/bytearray.cc reads is what its partner wrote.
use my_sylar_server.Base.{
  ℕ, zero, suc, ◌+◌, ◌/◌, ◌%◌, ◌^◌, ◌<◌, ◌≡◌, ap, subst, ◌∙◌, List, [], ◌∷◌, ◌++◌, Bool, true,
  false, length, arith, if◌then◌else◌,
}
use my_sylar_server.ByteArray.{ByteArray, write}
use my_sylar_server.ByteArray.Chain.{Outcome, ok}
use my_sylar_server.ByteArray.Valid.{IsValid}
use my_sylar_server.ByteArray.Writes.{Wrote, write_lem}
use my_sylar_server.ByteArray.Reads.{Took, Took-map, rest, read_next}
use my_sylar_server.ByteArray.RoundTrip.{there_and_back, rewind, round_trip}
use my_sylar_server.ByteArray.Fixed.{
  le_bytes, of_le_bytes, byteswap, is_host_order, write_word, read_word, write_fint8, write_fuint8,
  write_fint16, write_fuint16, write_fint32, write_fuint32, write_fint64, write_fuint64, read_fint8,
  read_fuint8, read_fint16, read_fuint16, read_fint32, read_fuint32, read_fint64, read_fuint64,
}
use my_sylar_server.ByteArray.Fixed.Bytes.{
  length-le_bytes, of_le_bytes-le_bytes, le_bytes-bswap, bswap-bswap, word_bytes,
}

pub length-word_bytes : (host : Bool) (w v : ℕ) → length (word_bytes host w v) ≡ w
length-word_bytes host w v = length-le_bytes w (if host then v else byteswap w v)

-- Undoing the swap on the bytes of a word.
word_of_bytes :
    (host : Bool) (w v : ℕ)
    → v < 256 ^ w
    → (let x = of_le_bytes (word_bytes host w v) in if host then x else byteswap w x) ≡ v
word_of_bytes true w v h = of_le_bytes-le_bytes w v h
word_of_bytes false w v h = rw (le_bytes-bswap w v) (bswap-bswap w v h)

module _ {b : ByteArray} (v : IsValid b) where
  pub write_word_lem :
      (w x : ℕ) → Wrote b (word_bytes (is_host_order b.endian) w x) (write_word w x b)
  unfolding write_word
  write_word_lem w x = write_lem v (word_bytes (is_host_order b.endian) w x)

  pub read_word_lem :
      (host : Bool) (w x : ℕ) (tail : List ℕ)
      → is_host_order b.endian ≡ host
      → 0 < w
      → x < 256 ^ w
      → rest b ≡ word_bytes host w x ++ tail
      → Took b (length (word_bytes host w x)) x (read_word w b)
  unfolding read_word
  read_word_lem host zero x tail order pos h e = elim pos [ ]
  read_word_lem host (suc w) x tail order pos h e =
      let y = if host then x else byteswap (suc w) x in
      let t = read_next v (y % 256) (le_bytes w (y / 256)) tail e in
      let len : length (le_bytes w (y / 256)) ≡ w = length-le_bytes w (y / 256) in
      let unswap : List ℕ → ℕ = λ bytes.
        let v = of_le_bytes bytes in if is_host_order b.endian then v else byteswap (suc w) v in
      let back : unswap (word_bytes host (suc w) x) ≡ x =
        rw order (word_of_bytes host (suc w) x h) in
      rw len (rw back at (Took-map unswap (rw len at t)))

word_round_trip :
    {b : ByteArray} (v : IsValid b) (w x : ℕ)
    → 0 < w
    → x < 256 ^ w
    → there_and_back (write_word w x) (read_word w) b ≡ ok (x, b.position + w)
word_round_trip {b} v w x pos h =
    let host = is_host_order b.endian in
    let r = rewind v (write_word_lem v w x) in
    let t = read_word_lem r.valid host w x r.tail (ap is_host_order r.same_endian) pos h r.next in
    round_trip (write_word w x) (read_word w) r t
    ∙ ap (λ (n : ℕ). ok (x, b.position + n)) (length-word_bytes host w x)

-- The fixed-width formats, and the methods for each.
pub data Format : Type 0 where
  fint8 fuint8 fint16 fuint16 fint32 fuint32 fint64 fuint64 : Format

abbrev pub width : Format → ℕ
width fint8 = 1
width fuint8 = 1
width fint16 = 2
width fuint16 = 2
width fint32 = 4
width fuint32 = 4
width fint64 = 8
width fuint64 = 8

abbrev pub write_as : Format → ℕ → ByteArray → Outcome ByteArray
write_as fint8 = write_fint8
write_as fuint8 = write_fuint8
write_as fint16 = write_fint16
write_as fuint16 = write_fuint16
write_as fint32 = write_fint32
write_as fuint32 = write_fuint32
write_as fint64 = write_fint64
write_as fuint64 = write_fuint64

abbrev pub read_as : Format → ByteArray → Outcome (ℕ × ByteArray)
read_as fint8 = read_fint8
read_as fuint8 = read_fuint8
read_as fint16 = read_fint16
read_as fuint16 = read_fuint16
read_as fint32 = read_fint32
read_as fuint32 = read_fuint32
read_as fint64 = read_fint64
read_as fuint64 = read_fuint64

-- The next byte.
pub read_fuint8_lem :
    {b : ByteArray} (v : IsValid b) (x : ℕ) (tail : List ℕ)
    → rest b ≡ (x ∷ []) ++ tail
    → Took b 1 x (read_fuint8 b)
unfolding read_fuint8
read_fuint8_lem {b} v x tail e =
    let t = read_next v x [] tail e in
    let one : of_le_bytes (x ∷ []) ≡ x = omega arith in
    subst (λ (n : ℕ). Took b 1 n (read_fuint8 b)) one (Took-map of_le_bytes t)

-- One byte is written and read without a swap.
byte_round_trip :
    {b : ByteArray} (v : IsValid b) (x : ℕ)
    → x < 256
    → there_and_back (write_fuint8 x) read_fuint8 b ≡ ok (x, b.position + 1)
unfolding write_fuint8 read_fuint8
byte_round_trip {b} v x h =
    let r = rewind v (write_lem v (x ∷ [])) in
    let low : x % 256 ≡ x = omega arith in
    rw low (round_trip (write (x ∷ [])) read_fuint8 r (read_fuint8_lem r.valid x r.tail r.next))

-- For every fixed-width format, both byte orders and every position: writing a word that fits the
-- width, setting the position back and reading returns the word, and the position moves on by the
-- width.
pub fixed_round_trip :
    (f : Format) {b : ByteArray} (x : ℕ)
    → IsValid b
    → x < 256 ^ width f
    → there_and_back (write_as f x) (read_as f) b ≡ ok (x, b.position + width f)
unfolding write_fint8 write_fuint8 write_fint16 write_fuint16 write_fint32 write_fuint32
    write_fint64 write_fuint64 read_fint8 read_fuint8 read_fint16 read_fuint16 read_fint32
    read_fuint32 read_fint64 read_fuint64
fixed_round_trip fint8 x v h = byte_round_trip v x h
fixed_round_trip fuint8 x v h = byte_round_trip v x h
fixed_round_trip fint16 x v h = word_round_trip v 2 x (omega arith) h
fixed_round_trip fuint16 x v h = word_round_trip v 2 x (omega arith) h
fixed_round_trip fint32 x v h = word_round_trip v 4 x (omega arith) h
fixed_round_trip fuint32 x v h = word_round_trip v 4 x (omega arith) h
fixed_round_trip fint64 x v h = word_round_trip v 8 x (omega arith) h
fixed_round_trip fuint64 x v h = word_round_trip v 8 x (omega arith) h
