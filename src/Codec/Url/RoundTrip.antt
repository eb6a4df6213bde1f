-- ===== src/Codec/Url/RoundTrip.antt =====
-- What UrlEncode and UrlDecode (Sylar/util.cc) do to each character, and that the second undoes the
-- first.
use my_sylar_server.Base.{
  ℕ, zero, suc, ◌/◌, ◌^◌, ◌<◌, ◌≡◌, refl, ap, ◌∙◌, Bool, true, false, ◌&&◌, ◌||◌, not, Option, none,
  some, [], ◌∷◌, ◌++◌, if◌then◌else◌, ◌==◌, get_or, append_assoc, append-nil, arith, Bool-cases,
  Option-cases, inl, inr,
}
use Prim.Native.Nat.{bit_and}
use my_sylar_server.Codec.{Bytes, AreBytes, holds_for, holds_for_lem, stands_for, stands_for_sound}
use my_sylar_server.Codec.Url.{
  url_encode, encode_loop, url_decode, decode_loop, is_unreserved, escaped, copy, hexdigits,
  hex_pair, meaning, skipped,
}

-- What the encoder writes for one character, and for a text.
abbrev pub piece : Bool → ℕ → Bytes
piece plus c = if not (is_unreserved c) then escaped plus c else c ∷ []

abbrev pub pieces : Bool → Bytes → Bytes
pieces plus [] = []
pieces plus (c ∷ s) = piece plus c ++ pieces plus s

encode_some :
    (plus : Bool) (passed rest out : Bytes)
    → encode_loop plus passed rest (some out) ≡ some (out ++ pieces plus rest)
unfolding encode_loop
encode_some plus passed [] out = rw append-nil
encode_some plus passed (c ∷ rest) out = elim (Bool-cases (not (is_unreserved c))) [
  | inl changes ↦
      rw (changes, encode_some plus (passed ++ c ∷ []) rest (out ++ escaped plus c), append_assoc)
  | inr stays ↦ rw (stays, encode_some plus (passed ++ c ∷ []) rest (out ++ c ∷ []), append_assoc)
]

encode_none :
    (plus : Bool) (passed rest : Bytes)
    → copy (passed ++ rest) (encode_loop plus passed rest none) ≡ passed ++ pieces plus rest
unfolding encode_loop
encode_none plus passed [] = refl
encode_none plus passed (c ∷ rest) = elim (Bool-cases (not (is_unreserved c))) [
  | inl changes ↦
      rw
        (changes, encode_some plus (passed ++ c ∷ []) rest (passed ++ escaped plus c), append_assoc)
  | inr stays ↦
      let later : copy (passed ++ c ∷ rest) (encode_loop plus (passed ++ c ∷ []) rest none)
          ≡ passed ++ c ∷ pieces plus rest =
        rw (append_assoc, append_assoc) at (encode_none plus (passed ++ c ∷ []) rest) in
      rw stays later
]

-- The encoder writes the pieces, whether it makes a copy or not.
pub url_encode_lem : (s : Bytes) (plus : Bool) → url_encode s plus ≡ pieces plus s
unfolding url_encode
url_encode_lem s plus = encode_none plus [] s

abbrev or_itself : Option ℕ → ℕ → ℕ
or_itself (some x) c = x
or_itself none c = c

-- What the decoder makes of a text.
plain : Bool → ℕ → Bytes → Bytes
plain plus n [] = []
plain plus (suc n) (c ∷ s) = plain plus n s
plain plus zero (c ∷ s) =
    or_itself (meaning plus c s) c
    ∷ plain plus (if c == b'%' then skipped (meaning plus c s) else 0) s

decode_some :
    (plus : Bool) (n : ℕ) (passed rest out : Bytes)
    → decode_loop plus n passed rest (some out) ≡ some (out ++ plain plus n rest)
unfolding decode_loop plain
decode_some plus n passed [] out = rw append-nil
decode_some plus (suc n) passed (c ∷ rest) out = decode_some plus n (passed ++ c ∷ []) rest out
decode_some plus zero passed (c ∷ rest) out = elim (Option-cases (meaning plus c rest)) [
  | inl same ↦ rw (same, decode_some plus _ (passed ++ c ∷ []) rest (out ++ c ∷ []), append_assoc)
  | inr (x, other) ↦
      rw (other, decode_some plus _ (passed ++ c ∷ []) rest (out ++ x ∷ []), append_assoc)
]

skipped-none : (t : Bool) → (if t then skipped none else 0) ≡ 0
skipped-none true = refl
skipped-none false = refl

decode_none :
    (plus : Bool) (passed rest : Bytes)
    → copy (passed ++ rest) (decode_loop plus 0 passed rest none) ≡ passed ++ plain plus 0 rest
unfolding decode_loop plain
decode_none plus passed [] = refl
decode_none plus passed (c ∷ rest) = elim (Option-cases (meaning plus c rest)) [
  | inl same ↦
      let later : copy (passed ++ c ∷ rest) (decode_loop plus 0 (passed ++ c ∷ []) rest none)
          ≡ passed ++ c ∷ plain plus 0 rest =
        rw (append_assoc, append_assoc) at (decode_none plus (passed ++ c ∷ []) rest) in
      rw (same, skipped-none) later
  | inr (x, other) ↦
      rw (other, decode_some plus _ (passed ++ c ∷ []) rest (passed ++ x ∷ []), append_assoc)
]

url_decode-plain : (s : Bytes) (plus : Bool) → url_decode s plus ≡ plain plus 0 s
unfolding url_decode
url_decode-plain s plus = decode_none plus [] s

high_digit : ℕ → ℕ
high_digit c = get_or hexdigits (c / 2 ^ 4) 0

low_digit : ℕ → ℕ
low_digit c = get_or hexdigits (bit_and c 0xf) 0

digits_table : holds_for (λ c. stands_for c (hex_pair (high_digit c ∷ low_digit c ∷ []))) 256 ≡ true
unfolding holds_for stands_for hex_pair high_digit low_digit
digits_table = refl

hex_pair_rest : (d e : ℕ) (rest : Bytes) → hex_pair (d ∷ e ∷ rest) ≡ hex_pair (d ∷ e ∷ [])
unfolding hex_pair
hex_pair_rest d e rest = refl

hex_pair-digits :
    (c : ℕ) (rest : Bytes) → c < 256 → hex_pair (high_digit c ∷ low_digit c ∷ rest) ≡ some c
hex_pair-digits c rest h =
    hex_pair_rest (high_digit c) (low_digit c) rest
    ∙ stands_for_sound c _ (holds_for_lem _ 256 c digits_table h)

unreserved_table :
    holds_for (λ c. not (is_unreserved c) || (not (c == b'+') && not (c == b'%'))) 256 ≡ true
unfolding holds_for is_unreserved
unreserved_table = refl

or_parts :
    (a b c : Bool) → (not a || (not b && not c)) ≡ true → a ≡ true → (b ≡ false) × (c ≡ false)
or_parts true false false h e = (refl, refl)
or_parts true false true h e = cc
or_parts true true c h e = cc
or_parts false b c h e = cc

meaning_percent : (plus : Bool) (s : Bytes) → meaning plus b'%' s ≡ hex_pair s
unfolding meaning
meaning_percent plus s = refl

meaning_plus : (s : Bytes) → meaning true b'+' s ≡ some b' '
unfolding meaning
meaning_plus s = refl

meaning_other :
    (plus : Bool) (c : ℕ) (s : Bytes)
    → (c == b'+') ≡ false
    → (c == b'%') ≡ false
    → meaning plus c s ≡ none
unfolding meaning
meaning_other plus c s p q = rw (p, q)

plain_space : (rest : Bytes) → plain true 0 (b'+' ∷ rest) ≡ b' ' ∷ plain true 0 rest
unfolding plain
plain_space rest = rw (meaning_plus rest)

space_parts : (c : ℕ) (plus : Bool) → (c == b' ' && plus) ≡ true → (plus ≡ true) × (c ≡ b' ')
space_parts c plus h = ground arith

plain_percent :
    (plus : Bool) (c : ℕ) (rest : Bytes)
    → c < 256
    → plain plus 0 (b'%' ∷ high_digit c ∷ low_digit c ∷ rest) ≡ c ∷ plain plus 0 rest
unfolding plain
plain_percent plus c rest h =
    rw (meaning_percent plus (high_digit c ∷ low_digit c ∷ rest), hex_pair-digits c rest h)

plain_escaped :
    (plus : Bool) (c : ℕ) (rest : Bytes)
    → c < 256
    → plain plus 0 (escaped plus c ++ rest) ≡ c ∷ plain plus 0 rest
unfolding escaped high_digit low_digit
plain_escaped plus c rest h = elim (Bool-cases (c == b' ' && plus)) [
  | inl space ↦ let parts = space_parts c plus space in rw (parts.0, parts.1) (plain_space rest)
  | inr other ↦ rw other (plain_percent plus c rest h)
]

-- Behind the piece of a character the decoder goes on with the rest.
plain-piece :
    (plus : Bool) (c : ℕ) (rest : Bytes)
    → c < 256
    → plain plus 0 (piece plus c ++ rest) ≡ c ∷ plain plus 0 rest
unfolding plain
plain-piece plus c rest h = elim (Bool-cases (is_unreserved c)) [
  | inl kept ↦
      let (p, q) = or_parts (is_unreserved c) _ _ (holds_for_lem _ 256 c unreserved_table h) kept in
      rw (kept, meaning_other plus c rest p q, q)
  | inr changed ↦ rw changed (plain_escaped plus c rest h)
]

plain-pieces : (plus : Bool) (s : Bytes) → AreBytes s → plain plus 0 (pieces plus s) ≡ s
unfolding plain
plain-pieces plus [] h = refl
plain-pieces plus (c ∷ s) h =
    plain-piece plus c (pieces plus s) h.0 ∙ ap (◌∷◌ c) (plain-pieces plus s h.1)

-- `UrlDecode` reads what `UrlEncode` writes, with the same treatment of blanks.
pub url_decode-url_encode :
    (s : Bytes) (plus : Bool) → AreBytes s → url_decode (url_encode s plus) plus ≡ s
url_decode-url_encode s plus h =
    rw (url_encode_lem s plus) (url_decode-plain (pieces plus s) plus ∙ plain-pieces plus s h)
