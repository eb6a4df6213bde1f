-- ===== src/Codec/Base64/RoundTrip.antt =====
-- base64decode (Sylar/util/hash_util.cc) reads what base64encode writes, and stays in its buffer.
use my_sylar_server.Base.{
  ℕ, ◌+◌, ◌*◌, ◌/◌, ◌%◌, ◌^◌, ◌≤◌, ◌<◌, ◌≡◌, refl, ap, ◌∙◌, Bool, true, false, ◌&&◌, ◌||◌, not,
  Option, none, some, [], ◌∷◌, ◌++◌, if◌then◌else◌, ◌==◌, ltb, length, length-append, arith,
}
use my_sylar_server.Base.Chained.{◌>>=◌}
use my_sylar_server.Base.Words.{bit_or_low, bit_or_comm, bit_and_0x3f, bit_and_0xff}
use Prim.Native.Nat.{bit_and, bit_or}
use my_sylar_server.Codec.{Bytes, AreBytes, holds_for, holds_for_lem, stands_for, stands_for_sound}
use my_sylar_server.Codec.Base64.{
  digit, shift_in, group, base64encode, value, read_group, written, is_end, decode_loop, or_empty,
  base64decode,
}

digit_table : holds_for (λ x. stands_for x (value (digit x)) && not (digit x == b'=')) 64 ≡ true
unfolding holds_for stands_for value digit
digit_table = refl

and_parts : (a b : Bool) → (a && not b) ≡ true → (a ≡ true) × (b ≡ false)
and_parts true false h = (refl, refl)
and_parts true true h = cc
and_parts false b h = cc

digit_lem : (x : ℕ) → x < 64 → (value (digit x) ≡ some x) × ((digit x == b'=') ≡ false)
digit_lem x h =
    let parts = and_parts (stands_for x (value (digit x))) _ (holds_for_lem _ 64 x digit_table h) in
    (stands_for_sound x _ parts.0, parts.1)

bit_or_sum : (k p x : ℕ) → x < 2 ^ k → bit_or (p * 2 ^ k) x ≡ p * 2 ^ k + x
bit_or_sum k p x h = omega (arith, bit_or_comm (p * 2 ^ k) x, bit_or_low k p x h)

read_group-digit :
    (x : ℕ) (s : Bytes) (packed : ℕ)
    → x < 64
    → read_group (digit x ∷ s) 0 packed ≡ read_group s 0 (packed * 64 + x)
unfolding read_group
read_group-digit x s packed h = rw ((digit_lem x h).1, (digit_lem x h).0, bit_or_sum 6 packed x h)

read_nothing : (padding p q : ℕ) → p ≡ q → read_group [] padding p ≡ some (padding, q)
unfolding read_group
read_nothing padding p q e = rw e

read_one_pad : (p : ℕ) → read_group (b'=' ∷ []) 0 p ≡ some (1, p * 2 ^ 6)
unfolding read_group
read_one_pad p = refl

read_two_pads : (p : ℕ) → read_group (b'=' ∷ b'=' ∷ []) 0 p ≡ some (2, p * 2 ^ 6 * 2 ^ 6)
unfolding read_group
read_two_pads p = refl

decode_nothing : decode_loop [] ≡ some []
unfolding decode_loop
decode_nothing = refl

-- The characters of a group are read back.
module _ (p : ℕ) (h : p < 2 ^ 24) where
  read_two :
      (s : Bytes)
      → read_group (digit (p / 2 ^ 18) ∷ digit (bit_and (p / 2 ^ 12) 0x3f) ∷ s) 0 0
        ≡ read_group s 0 (p / 2 ^ 12)
  read_two s = rw bit_and_0x3f (
      read_group-digit (p / 2 ^ 18) _ 0 (omega arith)
      ∙ read_group-digit (p / 2 ^ 12 % 64) s (0 * 64 + p / 2 ^ 18) (omega arith)
      ∙ ap (read_group s 0) (omega arith))

  read_three :
      (s : Bytes)
      → read_group (digit (bit_and (p / 2 ^ 6) 0x3f) ∷ s) 0 (p / 2 ^ 12)
        ≡ read_group s 0 (p / 2 ^ 6)
  read_three s = rw bit_and_0x3f (
      read_group-digit (p / 2 ^ 6 % 64) s (p / 2 ^ 12) (omega arith)
      ∙ ap (read_group s 0) (omega arith))

  read_group_full : read_group (group p 0) 0 0 ≡ some (0, p)
  unfolding group
  read_group_full =
      let last : read_group (digit (bit_and p 0x3f) ∷ []) 0 (p / 2 ^ 6) ≡ some (0, p) =
        rw bit_and_0x3f (
          read_group-digit (p % 64) [] (p / 2 ^ 6) (omega arith)
          ∙ read_nothing 0 _ _ (omega arith)) in
      read_two _ ∙ read_three _ ∙ last

  read_group_two : p % 64 ≡ 0 → read_group (group p 1) 0 0 ≡ some (1, p)
  unfolding group
  read_group_two e =
      read_two _
      ∙ read_three _
      ∙ read_one_pad (p / 2 ^ 6)
      ∙ ap (λ (x : ℕ). some (1, x)) {x = p / 2 ^ 6 * 2 ^ 6} (omega arith)

  read_group_one : p % 4096 ≡ 0 → read_group (group p 2) 0 0 ≡ some (2, p)
  unfolding group
  read_group_one e =
      read_two _
      ∙ read_two_pads (p / 2 ^ 12)
      ∙ ap (λ (x : ℕ). some (2, x)) {x = p / 2 ^ 12 * 2 ^ 6 * 2 ^ 6} (omega arith)

shift_in_lem : (p b : ℕ) → b < 256 → shift_in p b ≡ p * 256 + b
shift_in_lem p b h = bit_or_sum 8 p b h

-- One round of the decoder on a group that can be read.
decode_loop-group :
    (a b c d : ℕ) (rest : Bytes) {padding p : ℕ}
    → read_group (a ∷ b ∷ c ∷ d ∷ []) 0 0 ≡ some (padding, p)
    → ((ltb 0 padding && not (is_end rest)) || ltb 2 padding) ≡ false
    → decode_loop (a ∷ b ∷ c ∷ d ∷ rest)
      ≡ (decode_loop rest >>= λ tail. some (written padding p ++ tail))
unfolding decode_loop
decode_loop-group a b c d rest e f = rw (e, f)

-- The bytes of a group come back.
written_full :
    (a b c : ℕ) → a < 256 → b < 256 → c < 256 → written 0 ((a * 256 + b) * 256 + c) ≡ a ∷ b ∷ c ∷ []
unfolding written
written_full a b c ha hb hc = rw (bit_and_0xff, bit_and_0xff, bit_and_0xff) (ground arith)

written_two : (a b : ℕ) → a < 256 → b < 256 → written 1 ((a * 256 + b) * 256) ≡ a ∷ b ∷ []
unfolding written
written_two a b ha hb = rw (bit_and_0xff, bit_and_0xff) (ground arith)

written_one : (a : ℕ) → a < 256 → written 2 (a * 256 * 256) ≡ a ∷ []
unfolding written
written_one a ha = rw bit_and_0xff (ground arith)

decode_loop-encode : (bs : Bytes) → AreBytes bs → decode_loop (base64encode bs) ≡ some bs
unfolding base64encode
decode_loop-encode [] h = decode_nothing
decode_loop-encode (a ∷ []) h =
    let e : shift_in 0 a * 2 ^ 8 * 2 ^ 8 ≡ a * 256 * 256 = omega (arith, shift_in_lem 0 a h.0) in
    rw e (
      decode_loop-group _ _ _ _ [] (read_group_one (a * 256 * 256) (omega arith) (omega arith)) refl
      ∙ rw (decode_nothing, written_one a h.0))
decode_loop-encode (a ∷ b ∷ []) h =
    let e : shift_in (shift_in 0 a) b * 2 ^ 8 ≡ (a * 256 + b) * 256 =
      omega (arith, shift_in_lem 0 a h.0, shift_in_lem (shift_in 0 a) b h.1.0) in
    rw e (
      decode_loop-group _ _ _ _ []
        (read_group_two ((a * 256 + b) * 256) (omega arith) (omega arith)) refl
      ∙ rw (decode_nothing, written_two a b h.0 h.1.0))
decode_loop-encode (a ∷ b ∷ c ∷ rest) h =
    let e : shift_in (shift_in (shift_in 0 a) b) c ≡ (a * 256 + b) * 256 + c = omega (
      arith,
      shift_in_lem 0 a h.0,
      shift_in_lem (shift_in 0 a) b h.1.0,
      shift_in_lem (shift_in (shift_in 0 a) b) c h.1.1.0,
    ) in
    rw e (
      decode_loop-group _ _ _ _ (base64encode rest)
        (read_group_full ((a * 256 + b) * 256 + c) (omega arith)) refl
      ∙ rw (decode_loop-encode rest h.1.1.1, written_full a b c h.0 h.1.0 h.1.1.0))

-- `base64decode` reads what `base64encode` writes.
pub base64decode-base64encode : (bs : Bytes) → AreBytes bs → base64decode (base64encode bs) ≡ bs
unfolding base64decode
base64decode-base64encode bs h = rw (decode_loop-encode bs h)

length-written : (padding p : ℕ) → length (written padding p) ≤ 3
unfolding written
length-written padding p = ground arith

group_bound :
    (stop : Bool) (padding p n : ℕ) (tail : Bytes) {out : Bytes}
    → 4 * length tail ≤ 3 * n
    → (if stop then none else some (written padding p ++ tail)) ≡ some out
    → 4 * length out ≤ 3 * (n + 4)
group_bound true padding p n tail fits h = cc
group_bound false padding p n tail {out} fits h =
    let e : written padding p ++ tail ≡ out = cc in
    omega (arith, ap length e, length-append (written padding p) tail, length-written padding p)

bind_bound :
    (g : Option (ℕ × ℕ)) (t : Option Bytes) (rest : Bytes) (n : ℕ) {out : Bytes}
    → ((tail : Bytes) → t ≡ some tail → 4 * length tail ≤ 3 * n)
    → (g >>= λ r. t >>= λ tail.
        if (ltb 0 r.0 && not (is_end rest)) || ltb 2 r.0
        then none
        else some (written r.0 r.1 ++ tail))
      ≡ some out
    → 4 * length out ≤ 3 * (n + 4)
bind_bound none t rest n fits h = cc
bind_bound (some r) none rest n fits h = cc
bind_bound (some r) (some tail) rest n fits h = group_bound _ r.0 r.1 n tail (fits tail refl) h

decode_loop_bound :
    (s : Bytes) {out : Bytes} → decode_loop s ≡ some out → 4 * length out ≤ 3 * length s
unfolding decode_loop
decode_loop_bound [] {out} h = let e : [] ≡ out = cc in omega (arith, ap length e)
decode_loop_bound (a ∷ []) h = cc
decode_loop_bound (a ∷ b ∷ []) h = cc
decode_loop_bound (a ∷ b ∷ c ∷ []) h = cc
decode_loop_bound (a ∷ b ∷ c ∷ d ∷ rest) h = omega (
  arith,
  bind_bound (read_group (a ∷ b ∷ c ∷ d ∷ []) 0 0) (decode_loop rest) rest (length rest)
      (λ tail e. decode_loop_bound rest e) h,
)

or_empty_bound :
    (o : Option Bytes) (n : ℕ)
    → ((out : Bytes) → o ≡ some out → 4 * length out ≤ 3 * n)
    → length (or_empty o) ≤ n * 3 / 4
or_empty_bound none n h = omega arith
or_empty_bound (some out) n h = omega (arith, h out refl)

-- What is decoded fits into the buffer that is made for it before the first write.
pub length-base64decode : (s : Bytes) → length (base64decode s) ≤ length s * 3 / 4
unfolding base64decode
length-base64decode s = or_empty_bound (decode_loop s) (length s) (λ out e. decode_loop_bound s e)
