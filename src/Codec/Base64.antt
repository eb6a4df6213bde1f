-- ===== src/Codec/Base64.antt =====
-- base64encode and base64decode (Sylar/util/hash_util.cc).
pub mod RoundTrip
use my_sylar_server.Base.{
  ℕ, zero, suc, ◌+◌, ◌-◌, ◌*◌, ◌/◌, ◌%◌, ◌^◌, ◌≤◌, ◌<◌, ◌≡◌, ◌≢◌, refl, ap, ◌∙◌, Bool, true, false,
  ◌&&◌, ◌||◌, not, Option, none, some, List, [], ◌∷◌, ◌++◌, if◌then◌else◌, ◌==◌, ltb, leb, length,
  length-append, get_or, replicate, arith, ==_iff, Bool-cases, inl, inr,
}
use my_sylar_server.Base.Chained.{◌>>=◌}
use my_sylar_server.Base.Words.{bit_or_low, bit_or_comm, bit_and_0x3f, bit_and_0xff}
use Prim.Native.Nat.{bit_and, bit_or}
use my_sylar_server.Codec.{
  Bytes, AreBytes, codes, holds_for, holds_for_lem, stands_for, stands_for_sound,
}

abbrev pub base64 : Bytes
base64 = codes "ABCDEFGHIJKLMNOPQRSTUVWXYZabcdefghijklmnopqrstuvwxyz0123456789+/"

pub digit : ℕ → ℕ
digit x = get_or base64 x 0

-- `packed << 8 | b`; the three bytes of a group fill 24 bits.
abbrev pub shift_in : ℕ → ℕ → ℕ
shift_in packed b = bit_or (packed * 2 ^ 8) b

-- What one round of the encoder appends.
pub group : ℕ → ℕ → Bytes
unfolding digit
group packed padding =
    (digit (packed / 2 ^ 18) ∷ digit (bit_and (packed / 2 ^ 12) 0x3f) ∷ [])
    ++ (if padding == 2 then [] else digit (bit_and (packed / 2 ^ 6) 0x3f) ∷ [])
    ++ (if padding == 0 then digit (bit_and packed 0x3f) ∷ [] else [])
    ++ replicate padding b'='

-- Each clause is one round of the loop, by how many bytes are left.
unfoldable pub base64encode : Bytes → Bytes
unfolding group
base64encode [] = []
base64encode (a ∷ []) = group (shift_in 0 a * 2 ^ 8 * 2 ^ 8) 2
base64encode (a ∷ b ∷ []) = group (shift_in (shift_in 0 a) b * 2 ^ 8) 1
base64encode (a ∷ b ∷ c ∷ rest) =
    group (shift_in (shift_in (shift_in 0 a) b) c) 0 ++ base64encode rest

-- The value of a character; none is an invalid one.
pub value : ℕ → Option ℕ
value c =
    if leb b'A' c && leb c b'Z'
    then some (c - b'A')
    else if leb b'a' c && leb c b'z'
    then some (c - b'a' + 26)
    else if leb b'0' c && leb c b'9'
    then some (c - b'0' + 52)
    else if c == b'+'
    then some 62
    else if c == b'/'
    then some 63
    else none

-- The inner loop of the decoder: padding and packed behind the characters.
pub read_group : Bytes → ℕ → ℕ → Option (ℕ × ℕ)
unfolding value
read_group [] padding packed = some (padding, packed)
read_group (c ∷ s) padding packed =
    let skip = read_group s (padding + 1) (packed * 2 ^ 6) in
    let take = λ (val : ℕ). read_group s padding (bit_or (packed * 2 ^ 6) val) in
    if c == b'=' then skip else if ltb 0 padding then none else do val ← value c; take val

-- The bytes of a group.
pub written : ℕ → ℕ → Bytes
written padding packed =
    (bit_and (packed / 2 ^ 16) 0xff ∷ [])
    ++ (if not (padding == 2) then bit_and (packed / 2 ^ 8) 0xff ∷ [] else [])
    ++ (if padding == 0 then bit_and packed 0xff ∷ [] else [])

abbrev pub is_end : Bytes → Bool
is_end [] = true
is_end (c ∷ s) = false

-- The outer loop; none is a return of the empty string.
pub decode_loop : Bytes → Option Bytes
decode_loop [] = some []
decode_loop (a ∷ b ∷ c ∷ d ∷ rest) = do
  g ← read_group (a ∷ b ∷ c ∷ d ∷ []) 0 0
  tail ← decode_loop rest
  if (ltb 0 g.0 && not (is_end rest)) || ltb 2 g.0 then none else some (written g.0 g.1 ++ tail)
decode_loop (a ∷ b ∷ c ∷ []) = none
decode_loop (a ∷ b ∷ []) = none
decode_loop (a ∷ []) = none

abbrev pub or_empty : Option Bytes → Bytes
or_empty none = []
or_empty (some out) = out

unfoldable pub base64decode : Bytes → Bytes
unfolding decode_loop read_group written
base64decode s = or_empty (decode_loop s)
