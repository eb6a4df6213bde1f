-- ===== src/ByteArray/Varint/RoundTrip.antt =====
-- What the readers of Sylar/bytearray.cc make of a variable-length integer is what was written.
use Prim.Native.Nat.{bit_and, bit_or}
use native.Mathlib.Nat.{pow-suc, mod-eq_of_lt}
use native.Mathlib.Numerals.{towards_suc}
use my_sylar_server.ByteArray.Varint.Sizes.{
  IntSize, bits32, bits64, bits, most_bytes, write_uint_as, read_uint_as,
}
use my_sylar_server.Base.{
  ℕ, zero, suc, ◌+◌, ◌*◌, ◌/◌, ◌%◌, ◌^◌, ◌≤◌, ◌<◌, ◌≡◌, refl, ap, subst, ◌∙◌, some, List, [], ◌∷◌,
  ◌++◌, true, false, length, arith, ltb, leb, leb→lt, lt→ltb, le→ltb, lt→leb, Bool, if◌then◌else◌,
  Bool-cases, inl, inr,
}
use my_sylar_server.Base.Words.{bit_or_low, bit_and_0x7f, bit_or_0x80}
use my_sylar_server.ByteArray.{ByteArray}
use my_sylar_server.ByteArray.Chain.{ok}
use my_sylar_server.ByteArray.Valid.{IsValid}
use my_sylar_server.ByteArray.Writes.{Wrote, write_lem}
use my_sylar_server.ByteArray.Reads.{Took, Took-bind, Took-return, rest, rest-Took}
use my_sylar_server.ByteArray.RoundTrip.{there_and_back, rewind, round_trip}
use my_sylar_server.ByteArray.Fixed.RoundTrip.{read_fuint8_lem}
use my_sylar_server.ByteArray.Varint.{
  group, encode_loop, decode_loop, write_uint, write_uint32, write_uint64, read_uint32, read_uint64,
}

pub group_lem : (v : ℕ) → group v ≡ v % 128 + 128
group_lem v = rw (bit_and_0x7f v) (bit_or_0x80 (v % 128) (omega arith))

shift_seven : (i : ℕ) → 2 ^ (i + 7) ≡ 128 * 2 ^ i
shift_seven i = simp towards_suc (omega arith)

-- The lowest seven bits of `v` and the rest, both shifted.
split_group : (v i : ℕ) → v * 2 ^ i ≡ v % 128 * 2 ^ i + v / 128 * 2 ^ (i + 7)
split_group v i =
    omega (arith, ap (λ (t : ℕ). v / 128 * t) (shift_seven i), ap (λ (t : ℕ). t * 2 ^ i) (parts v))
  where
    parts : (x : ℕ) → x ≡ x % 128 + x / 128 * 128
    parts x = omega arith

-- The bytes of `v`, at most `k + 1`, with no bound to meet.
abbrev pub encoding : ℕ → ℕ → List ℕ
encoding zero v = v ∷ []
encoding (suc k) v = if leb 0x80 v then group v ∷ encoding k (v / 128) else v ∷ []

pub encode_loop-encoding : (k v : ℕ) → v < 128 ^ suc k → encode_loop (suc k) v ≡ some (encoding k v)
unfolding encode_loop
encode_loop-encoding zero v h = rw (lt→leb 0x80 v (omega arith))
encode_loop-encoding (suc k) v h =
    rw (encode_loop-encoding k (v / 128) (omega (arith, pow-suc 128 (suc k)))) (map_if (leb 0x80 v))
  where
    map_if :
        (c : Bool)
        → (if c then some (group v ∷ encoding k (v / 128)) else some (v ∷ []))
          ≡ some (if c then group v ∷ encoding k (v / 128) else v ∷ [])
    map_if true = refl
    map_if false = refl

-- 1 to `k + 1` bytes.
pub length-encoding : (k v : ℕ) → (1 ≤ length (encoding k v)) × (length (encoding k v) ≤ suc k)
length-encoding zero v = omega arith
length-encoding (suc k) v = ground (arith, length-encoding k (v / 128))

-- Joining a group to what was read, at the place of its bits.
join_group :
    (w i result x : ℕ)
    → result < 2 ^ i
    → result + x * 2 ^ i < 2 ^ w
    → bit_or result (x * 2 ^ i % 2 ^ w) ≡ result + x * 2 ^ i
join_group w i result x low fits =
    rw (mod-eq_of_lt {n = x * 2 ^ i} {m = 2 ^ w} (omega arith)) (bit_or_low i x result low)

-- The last byte of a number.
last_step :
    (w rounds i result v : ℕ) {b : ByteArray} (tail : List ℕ)
    → IsValid b
    → v < 128
    → rest b ≡ (v ∷ []) ++ tail
    → result < 2 ^ i
    → result + v * 2 ^ i < 2 ^ w
    → Took b 1 (result + v * 2 ^ i) (decode_loop w (suc rounds) i result b)
unfolding decode_loop
last_step w rounds i result v tail valid small next low fits =
    Took-return _ (read_fuint8_lem valid v tail next)
      (rw (lt→ltb v 0x80 small, join_group w i result v low fits))

-- A byte with more to come.
inner_step :
    (w rounds i result v n : ℕ) {b : ByteArray} (tail : List ℕ)
    → IsValid b
    → result < 2 ^ i
    → result + v * 2 ^ i < 2 ^ w
    → (next : rest b ≡ (group v ∷ []) ++ tail)
    → ((c : ByteArray)
        → IsValid c
        → rest c ≡ tail
        → Took c n (result + v * 2 ^ i) (decode_loop w rounds (i + 7) (result + v % 128 * 2 ^ i) c))
    → Took b (suc n) (result + v * 2 ^ i) (decode_loop w (suc rounds) i result b)
unfolding decode_loop
inner_step w rounds i result v n {b} tail valid low fits next more =
    let t = read_fuint8_lem valid (group v) tail next in
    let not_last : ltb (group v) 0x80 ≡ false =
      le→ltb (group v) 0x80 (omega (arith, group_lem v)) in
    let bits : bit_and (group v) 0x7f ≡ v % 128 =
      bit_and_0x7f (group v) ∙ omega (arith, group_lem v) in
    let joined = join_group w i result (v % 128) low (omega (arith, split_group v i)) in
    let one : 1 + n ≡ suc n = omega arith in
    subst (λ (m : ℕ). Took b m (result + v * 2 ^ i) (decode_loop w (suc rounds) i result b)) one
      (Took-bind _ t
        (rw (not_last, bits, joined) (more t.after t.valid (rest-Took (group v ∷ []) tail t next))))

-- Where the next group goes, it fits.
next_place : (i result v : ℕ) → result < 2 ^ i → result + v % 128 * 2 ^ i < 2 ^ (i + 7)
next_place i result v low =
    let top : v % 128 * 2 ^ i ≤ 127 * 2 ^ i = grind arith in omega (arith, shift_seven i)

regroup : (i result v : ℕ) → result + v % 128 * 2 ^ i + v / 128 * 2 ^ (i + 7) ≡ result + v * 2 ^ i
regroup i result v = omega (arith, split_group v i)

pub decode_loop_lem :
    (w k rounds i result v : ℕ) {b : ByteArray} (tail : List ℕ)
    → IsValid b
    → v < 128 ^ suc k
    → rest b ≡ encoding k v ++ tail
    → k < rounds
    → result < 2 ^ i
    → result + v * 2 ^ i < 2 ^ w
    → Took b (length (encoding k v)) (result + v * 2 ^ i) (decode_loop w rounds i result b)
decode_loop_lem w k zero i result v tail valid wide next h low fits = absurd (omega arith)
decode_loop_lem w zero (suc rounds) i result v tail valid wide next h low fits =
    last_step w rounds i result v tail valid (omega arith) next low fits
decode_loop_lem w (suc k) (suc rounds) i result v tail valid wide next h low fits =
    elim (Bool-cases (leb 0x80 v)) [
      | inl more ↦
          let tail' = encoding k (v / 128) ++ tail in
          rw more (
            inner_step w rounds i result v (length (encoding k (v / 128))) tail' valid low fits
              (rw more at next)
              (λ c valid_c next_c.
                subst
                  (λ (x : ℕ).
                    Took c (length (encoding k (v / 128))) x
                      (decode_loop w rounds (i + 7) (result + v % 128 * 2 ^ i) c))
                  (regroup i result v)
                  (decode_loop_lem w k rounds (i + 7) (result + v % 128 * 2 ^ i) (v / 128) tail
                    valid_c (omega (arith, pow-suc 128 (suc k))) next_c (omega arith)
                    (next_place i result v low) (rw (regroup i result v) fits))))
      | inr last ↦
          rw last
            (last_step w rounds i result v tail valid (leb→lt _ _ last) (rw last at next) low fits)
    ]

module _ {b : ByteArray} (v : IsValid b) where
  pub write_uint_lem : (k x : ℕ) → x < 128 ^ suc k → Wrote b (encoding k x) (write_uint (suc k) x b)
  unfolding write_uint
  write_uint_lem k x h = rw (encode_loop-encoding k x h, write_uint) (write_lem v (encoding k x))

  pub read_uint_lem :
      (w k x : ℕ) (tail : List ℕ)
      → x < 128 ^ suc k
      → x < 2 ^ w
      → rest b ≡ encoding k x ++ tail
      → Took b (length (encoding k x)) x (decode_loop w (suc k) 0 0 b)
  read_uint_lem w k x tail wide fits next =
      let start : 0 + x * 2 ^ 0 ≡ x = omega arith in
      subst (λ (y : ℕ). Took b (length (encoding k x)) y (decode_loop w (suc k) 0 0 b)) start
        (decode_loop_lem w k (suc k) 0 0 x tail v wide next (omega arith) (omega arith)
          (rw start fits))

uint_round_trip :
    {b : ByteArray} (v : IsValid b) (w k x : ℕ)
    → x < 128 ^ suc k
    → x < 2 ^ w
    → there_and_back (write_uint (suc k) x) (decode_loop w (suc k) 0 0) b
      ≡ ok (x, b.position + length (encoding k x))
uint_round_trip v w k x wide fits =
    let r = rewind v (write_uint_lem v k x wide) in
    round_trip (write_uint (suc k) x) (decode_loop w (suc k) 0 0) r
      (read_uint_lem r.valid w k x r.tail wide fits r.next)

-- Writing a uint32_t or a uint64_t as a variable-length integer, setting the position back and
-- reading returns the number; it takes 1 to 5, or 1 to 10, bytes.
pub varint_round_trip :
    {b : ByteArray} (s : IntSize) (x : ℕ)
    → IsValid b
    → x < 2 ^ bits s
    → (n : ℕ) × (there_and_back (write_uint_as s x) (read_uint_as s) b ≡ ok (x, b.position + n))
      × (1 ≤ n)
      × (n ≤ most_bytes s)
unfolding write_uint32 write_uint64 read_uint32 read_uint64
varint_round_trip bits32 x v h = (
  length (encoding 4 x),
  uint_round_trip v 32 4 x (omega arith) h,
  (length-encoding 4 x).0,
  (length-encoding 4 x).1,
)
varint_round_trip bits64 x v h = (
  length (encoding 9 x),
  uint_round_trip v 64 9 x (omega arith) h,
  (length-encoding 9 x).0,
  (length-encoding 9 x).1,
)
