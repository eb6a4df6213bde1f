-- ===== src/ByteArray/Fixed/Bytes.antt =====
-- Words as bytes, and the swap of Sylar/endian.h: facts about the numbers alone.
use native.Mathlib.Nat.{pow-suc}
use mathlib.Core.List.{reverse, reverse-reverse, reverse-cons}
use my_sylar_server.Base.{
  ℕ, zero, suc, ◌+◌, ◌*◌, ◌/◌, ◌%◌, ◌^◌, ◌<◌, ◌≡◌, refl, ap, ◌∙◌, List, [], ◌∷◌, ◌++◌, Bool, All,
  length, length-append, arith, if◌then◌else◌,
}
use my_sylar_server.ByteArray.Fixed.{le_bytes, of_le_bytes, bswap, byteswap}

abbrev pub IsByte : ℕ → Type 0
IsByte b = b < 256

pub length-le_bytes : (w v : ℕ) → length (le_bytes w v) ≡ w
length-le_bytes zero v = refl
length-le_bytes (suc w) v = ap suc (length-le_bytes w (v / 256))

pub le_bytes-IsByte : (w v : ℕ) → All IsByte (le_bytes w v)
le_bytes-IsByte zero v = tt
le_bytes-IsByte (suc w) v = (omega arith, le_bytes-IsByte w (v / 256))

-- The bytes of a word determine it.
pub of_le_bytes-le_bytes : (w v : ℕ) → v < 256 ^ w → of_le_bytes (le_bytes w v) ≡ v
of_le_bytes-le_bytes zero v h = omega arith
of_le_bytes-le_bytes (suc w) v h =
    omega (arith, pow-suc 256 w, of_le_bytes-le_bytes w (v / 256) (omega (arith, pow-suc 256 w)))

le_bytes-of_le_bytes :
    (bytes : List ℕ) → All IsByte bytes → le_bytes (length bytes) (of_le_bytes bytes) ≡ bytes
le_bytes-of_le_bytes [] h = refl
le_bytes-of_le_bytes (b ∷ bytes) h =
    let low : (b + 256 * of_le_bytes bytes) % 256 ≡ b = omega arith in
    let high : (b + 256 * of_le_bytes bytes) / 256 ≡ of_le_bytes bytes = omega arith in
    rw (low, high, le_bytes-of_le_bytes bytes h.1)

All-append : (xs ys : List ℕ) → All IsByte xs → All IsByte ys → All IsByte (xs ++ ys)
All-append [] ys h k = k
All-append (x ∷ xs) ys h k = (h.0, All-append xs ys h.1 k)

All-reverse : (xs : List ℕ) → All IsByte xs → All IsByte (reverse xs)
All-reverse [] h = tt
All-reverse (x ∷ xs) h =
    rw (reverse-cons x xs) (All-append (reverse xs) (x ∷ []) (All-reverse xs h.1) (h.0, tt))

length-reverse : (xs : List ℕ) → length (reverse xs) ≡ length xs
length-reverse [] = refl
length-reverse (x ∷ xs) =
    ap length (reverse-cons x xs)
    ∙ omega (arith, length-append (reverse xs) (x ∷ []), length-reverse xs)

-- The memory of a swapped word holds the bytes of the word in reverse order.
pub le_bytes-bswap : (w v : ℕ) → le_bytes w (bswap w v) ≡ reverse (le_bytes w v)
le_bytes-bswap w v =
    let bytes = reverse (le_bytes w v) in
    let e : length bytes ≡ w = length-reverse (le_bytes w v) ∙ length-le_bytes w v in
    rw e at (le_bytes-of_le_bytes bytes (All-reverse (le_bytes w v) (le_bytes-IsByte w v)))

-- Swapping twice gives the word back.
pub bswap-bswap : (w v : ℕ) → v < 256 ^ w → bswap w (bswap w v) ≡ v
bswap-bswap w v h = rw (le_bytes-bswap w v, reverse-reverse) (of_le_bytes-le_bytes w v h)

-- The bytes that a method puts in the buffer for a word.
abbrev pub word_bytes : Bool → ℕ → ℕ → List ℕ
word_bytes host w v = le_bytes w (if host then v else byteswap w v)
