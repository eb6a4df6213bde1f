-- ===== src/Codec.antt =====
-- Text and byte codecs (Sylar/util/hash_util.cc, Sylar/util.cc): Base64 and Hex of hash_util.cc, Url
-- (UrlEncode and UrlDecode) and Trim of StringUtil, and Split of hash_util.cc. A std::string is the
-- list of its bytes, each less than 256.
pub mod Hex
pub mod Base64
pub mod Url
pub mod Trim
pub mod Split
mod Tests
use Prim.Native.Char.{code}
use Prim.Native.String.{String}
use my_sylar_server.Base.{
  ℕ, zero, suc, if◌then◌else◌, ◌<◌, ◌≡◌, ap, Bool, true, false, ◌&&◌, Option, none, some, List, [],
  ◌∷◌, ◌==◌, All, arith, ==_iff,
}

abbrev pub Bytes : Type 0
Bytes = List ℕ

abbrev pub AreBytes : Bytes → Type 0
AreBytes = All (λ b. b < 256)

-- Whether a test holds for each byte less than a bound; it is run to check the tables.
unfoldable pub holds_for : (ℕ → Bool) → ℕ → Bool
holds_for test zero = true
holds_for test (suc byte) = let less = holds_for test byte in if test byte then less else false

pub holds_for_lem :
    (test : ℕ → Bool) (bound byte : ℕ)
    → holds_for test bound ≡ true
    → byte < bound
    → test byte ≡ true
unfolding holds_for
holds_for_lem test zero byte table inside = elim inside [ ]
holds_for_lem test (suc bound) byte table inside = ground (arith, holds_for_lem test bound byte)

-- Whether a decoder gives a number.
unfoldable pub stands_for : ℕ → Option ℕ → Bool
stands_for b none = false
stands_for b (some x) = x == b

pub stands_for_sound : (b : ℕ) (o : Option ℕ) → stands_for b o ≡ true → o ≡ some b
unfolding stands_for
stands_for_sound b none h = cc
stands_for_sound b (some x) h = ap some ((==_iff x b).0 h)

-- The bytes of a text of ASCII characters.
abbrev pub codes : String → Bytes
codes String.[] = []
codes (String.◌∷◌ c s) = code c ∷ codes s
