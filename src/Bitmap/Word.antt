-- ===== src/Bitmap/Word.antt =====
-- The words of Bitmap (Sylar/DataStructure/bitmap.h): 16 bits, of which the low 14 are members, with the masks of
-- the class, and the results of its methods.
use Prim.Native.Nat.{bit_and, bit_or}
use my_sylar_server.Base.{
  ℕ, zero, suc, ◌+◌, ◌-◌, ◌/◌, ◌%◌, ◌^◌, List, [], ◌∷◌, Bool, true, false, not, ◌&&◌, set, ltb,
  length, ◌==◌, if◌then◌else◌,
}

pub data Result {ℓ} (A : Type ℓ) : Type ℓ where
  ok : A → Result A
  logic_error assertion overrun : Result A

infixl 5 ◌>>=◌
abbrev pub ◌>>=◌ {ℓ κ} : {A : Type ℓ} {B : Type κ} → Result A → (A → Result B) → Result B
ok a >>= f = f a
logic_error >>= f = logic_error
assertion >>= f = assertion
overrun >>= f = overrun

-- `VALUE_SIZE`, `COMPRESS_MASK`, `VALUE_MASK`, `COUNT_MASK`
abbrev pub value_size : ℕ
value_size = 14

abbrev pub compress_mask : ℕ
compress_mask = 32768

abbrev pub value_mask : ℕ
value_mask = 16384

abbrev pub count_mask : ℕ
count_mask = 16383

-- `U64_DIV_BASE` and `U64_VALUE_SIZE`
abbrev pub u64_div_base : ℕ
u64_div_base = 4

abbrev pub u64_value_size : ℕ
u64_value_size = 56

abbrev pub mask_and : ℕ → ℕ → ℕ
mask_and a b = bit_and a b

abbrev pub mask_or : ℕ → ℕ → ℕ
mask_or a b = bit_or a b

-- `~` of a word
abbrev pub not_word : ℕ → ℕ
not_word w = 65535 - w

abbrev pub nonzero : ℕ → Bool
nonzero w = not (w == 0)

-- `POS[i]`, `NPOS[i]` and `MASK[i]` of `init`
abbrev pub pos_mask : ℕ → ℕ
pos_mask i = 2 ^ i

abbrev pub npos_mask : ℕ → ℕ
npos_mask i = not_word (2 ^ i)

abbrev pub low_mask : ℕ → ℕ
low_mask i = 2 ^ i - 1

-- `w & POS[i]`, `w |= POS[i]` and `w &= NPOS[i]`
abbrev pub bit_at : ℕ → ℕ → Bool
bit_at w i = nonzero (mask_and w (pos_mask i))

abbrev pub or_bit : ℕ → ℕ → ℕ
or_bit w i = mask_or w (pos_mask i)

abbrev pub clear_bit : ℕ → ℕ → ℕ
clear_bit w i = mask_and w (npos_mask i)

-- `memcmp` of words is 0.
abbrev pub words_eq : List ℕ → List ℕ → Bool
words_eq [] [] = true
words_eq [] (y ∷ ys) = false
words_eq (x ∷ xs) [] = false
words_eq (x ∷ xs) (y ∷ ys) = (x == y) && words_eq xs ys

-- `m_data[i]` as a value and as the target of an assignment
abbrev pub word_at : List ℕ → ℕ → Result ℕ
word_at [] i = overrun
word_at (x ∷ xs) zero = ok x
word_at (x ∷ xs) (suc i) = word_at xs i

abbrev pub put_word : List ℕ → ℕ → ℕ → Result (List ℕ)
put_word words i w = if ltb i (length words) then ok (set words i w) else overrun

-- `count_bits` of a word: `__builtin_popcount` over `n` bits.
unfoldable pub count_bits : ℕ → ℕ → ℕ
count_bits zero w = 0
count_bits (suc n) w = w % 2 + count_bits n (w / 2)
