-- ===== src/Base/Words.antt =====
-- Bit operations on machine words as arithmetic: the low bits, disjoint fields, and the two masks
-- of a sign (all zeros, all ones). The native operations stand for a recursion on binary digits.
use Prim.Native.Nat.{
  ℕ, zero, suc, ◌+◌, ◌-◌, ◌*◌, ◌/◌, ◌%◌, ◌^◌, ◌≤◌, ◌<◌, min, max, differ, digits, bitwise, bit_and,
  bit_or, bit_xor, bit_and-bitwise, bit_or-bitwise, bit_xor-bitwise,
}
use mathlib.Core.Path.{◌≡◌, refl, ap, ◌∙◌}
use native.Mathlib.Nat.{pow-suc, one-le-pow, div-div-eq-div-mul}
use native.Mathlib.Omega.{arith}

-- A native operation `op` that combines the digits with `f`, and gives `z b` once the first number
-- has run out.
module _ (op : ℕ → ℕ → ℕ) (z : ℕ → ℕ) (f : ℕ → ℕ → ℕ) (means : (a b : ℕ) → op a b ≡ bitwise z f a b)
    (runs_out : (b : ℕ) → z b ≡ z (b / 2) * 2 + f 0 (b % 2)) where
  -- More rounds than the first number asks for change nothing.
  extra_rounds :
      (spare rounds b a : ℕ) → a ≤ rounds → digits z f (rounds + spare) a b ≡ digits z f rounds a b
  extra_rounds zero rounds b a h = let e : rounds + 0 ≡ rounds = omega arith in rw e
  extra_rounds (suc spare) zero b zero h = let e : 0 + suc spare ≡ suc spare = omega arith in rw e
  extra_rounds (suc spare) zero b (suc a) h = absurd (omega arith)
  extra_rounds (suc spare) (suc rounds) b zero h =
      let e : suc rounds + suc spare ≡ suc (rounds + suc spare) = omega arith in rw e
  extra_rounds (suc spare) (suc rounds) b (suc a) h =
      let e : suc rounds + suc spare ≡ suc (rounds + suc spare) = omega arith in
      rw (e, extra_rounds (suc spare) rounds (b / 2) (suc a / 2) (omega arith))

  lowest_digit : (a b : ℕ) → op a b ≡ op (a / 2) (b / 2) * 2 + f (a % 2) (b % 2)
  lowest_digit zero b = rw (means 0 b, means 0 (b / 2)) (runs_out b)
  lowest_digit (suc a) b =
      let half = suc a / 2 in
      let split : half + (a - half) ≡ a = omega arith in
      let fewer : digits z f a half (b / 2) ≡ digits z f half half (b / 2) =
        rw split at (extra_rounds (a - half) half (b / 2) half (omega arith)) in
      rw (means (suc a) b, means half (b / 2), fewer)

pub bit_or_step : (a b : ℕ) → bit_or a b ≡ bit_or (a / 2) (b / 2) * 2 + max (a % 2) (b % 2)
bit_or_step = lowest_digit bit_or (λ b. b) max bit_or-bitwise (λ b. omega arith)

pub bit_and_step : (a b : ℕ) → bit_and a b ≡ bit_and (a / 2) (b / 2) * 2 + min (a % 2) (b % 2)
bit_and_step = lowest_digit bit_and (λ b. 0) min bit_and-bitwise (λ b. omega arith)

pub bit_xor_step : (a b : ℕ) → bit_xor a b ≡ bit_xor (a / 2) (b / 2) * 2 + differ (a % 2) (b % 2)
bit_xor_step = lowest_digit bit_xor (λ b. b) differ bit_xor-bitwise (λ b. omega arith)

zero-bit_or : (b : ℕ) → bit_or 0 b ≡ b
zero-bit_or b = bit_or-bitwise 0 b

-- Against 0, one digit after the other up to a bound.
and_zero_below : (bound a : ℕ) → a ≤ bound → bit_and a 0 ≡ 0
and_zero_below bound zero h = refl
and_zero_below zero (suc a) h = absurd (omega arith)
and_zero_below (suc bound) (suc a) h =
    omega (arith, bit_and_step (suc a) 0, and_zero_below bound (suc a / 2) (omega arith))

bit_and-zero : (a : ℕ) → bit_and a 0 ≡ 0
bit_and-zero a = and_zero_below a a (omega arith)

differ-zero : (x : ℕ) → differ x 0 ≡ x
differ-zero zero = refl
differ-zero (suc x) = refl

xor_zero_below : (bound a : ℕ) → a ≤ bound → bit_xor a 0 ≡ a
xor_zero_below bound zero h = refl
xor_zero_below zero (suc a) h = absurd (omega arith)
xor_zero_below (suc bound) (suc a) h = omega (
  arith,
  bit_xor_step (suc a) 0,
  xor_zero_below bound (suc a / 2) (omega arith),
  differ-zero (suc a % 2),
)

pub bit_xor-zero : (a : ℕ) → bit_xor a 0 ≡ a
bit_xor-zero a = xor_zero_below a a (omega arith)

double_pow : (q k : ℕ) → q * 2 ^ suc k ≡ 2 * (q * 2 ^ k)
double_pow q k = omega (arith, ap (λ (t : ℕ). q * t) (pow-suc 2 k))

-- `r | (q << k)` is a sum when `r` fits `k` bits.
pub bit_or_low : (k q r : ℕ) → r < 2 ^ k → bit_or r (q * 2 ^ k) ≡ r + q * 2 ^ k
bit_or_low zero q r fits = ground (arith, zero-bit_or q)
bit_or_low (suc k) q r fits = ground (
  arith,
  bit_or_step r (q * 2 ^ suc k),
  double_pow q k,
  pow-suc 2 k,
  bit_or_low k q (r / 2) (omega arith),
)

pub bit_and_one : (x : ℕ) → bit_and x 1 ≡ x % 2
bit_and_one x = omega (arith, bit_and_step x 1, bit_and-zero (x / 2))

-- A mask of low bits, one bit at a time.
bit_and_0x03 : (x : ℕ) → bit_and x 0x03 ≡ x % 4
bit_and_0x03 x = omega (arith, bit_and_step x 3, bit_and_one (x / 2))

bit_and_0x07 : (x : ℕ) → bit_and x 0x07 ≡ x % 8
bit_and_0x07 x = omega (arith, bit_and_step x 7, bit_and_0x03 (x / 2))

pub bit_and_0x0f : (x : ℕ) → bit_and x 0x0f ≡ x % 16
bit_and_0x0f x = omega (arith, bit_and_step x 15, bit_and_0x07 (x / 2))

bit_and_0x1f : (x : ℕ) → bit_and x 0x1f ≡ x % 32
bit_and_0x1f x = omega (arith, bit_and_step x 31, bit_and_0x0f (x / 2))

pub bit_and_0x3f : (x : ℕ) → bit_and x 0x3f ≡ x % 64
bit_and_0x3f x = omega (arith, bit_and_step x 63, bit_and_0x1f (x / 2))

-- `x & 0x7f` keeps seven bits, for a word of any width.
pub bit_and_0x7f : (x : ℕ) → bit_and x 0x7f ≡ x % 128
bit_and_0x7f x = omega (arith, bit_and_step x 127, bit_and_0x3f (x / 2))

pub bit_or_0x80 : (x : ℕ) → x < 128 → bit_or x 0x80 ≡ x + 128
bit_or_0x80 x h = bit_or_low 7 1 x h

differ_one : (x : ℕ) → x < 2 → differ x 1 ≡ 1 - x
differ_one zero h = refl
differ_one (suc zero) h = refl
differ_one (suc (suc x)) h = absurd (omega arith)

-- `x ^ ~0` complements every bit of a word of `k` bits.
pub bit_xor_ones : (k x : ℕ) → x < 2 ^ k → bit_xor x (2 ^ k - 1) ≡ 2 ^ k - 1 - x
bit_xor_ones zero x h = ground (arith, bit_xor-zero x)
bit_xor_ones (suc k) x h = ground (
  arith,
  bit_xor_step x (2 ^ suc k - 1),
  pow-suc 2 k,
  one-le-pow k 2,
  differ_one (x % 2),
  bit_xor_ones k (x / 2) (omega (arith, pow-suc 2 k)),
)

-- More masks of low bits, up to fourteen.
pub bit_and_0xff : (x : ℕ) → bit_and x 0xff ≡ x % 256
bit_and_0xff x = omega (arith, bit_and_step x 255, bit_and_0x7f (x / 2))

bit_and_0x1ff : (x : ℕ) → bit_and x 0x1ff ≡ x % 512
bit_and_0x1ff x = omega (arith, bit_and_step x 511, bit_and_0xff (x / 2))

bit_and_0x3ff : (x : ℕ) → bit_and x 0x3ff ≡ x % 1024
bit_and_0x3ff x = omega (arith, bit_and_step x 1023, bit_and_0x1ff (x / 2))

bit_and_0x7ff : (x : ℕ) → bit_and x 0x7ff ≡ x % 2048
bit_and_0x7ff x = omega (arith, bit_and_step x 2047, bit_and_0x3ff (x / 2))

bit_and_0xfff : (x : ℕ) → bit_and x 0xfff ≡ x % 4096
bit_and_0xfff x = omega (arith, bit_and_step x 4095, bit_and_0x7ff (x / 2))

bit_and_0x1fff : (x : ℕ) → bit_and x 0x1fff ≡ x % 8192
bit_and_0x1fff x = omega (arith, bit_and_step x 8191, bit_and_0xfff (x / 2))

pub bit_and_0x3fff : (x : ℕ) → bit_and x 0x3fff ≡ x % 16384
bit_and_0x3fff x = omega (arith, bit_and_step x 16383, bit_and_0x1fff (x / 2))

-- Bit `k` alone.
pub bit_and_pow : (k x : ℕ) → bit_and x (2 ^ k) ≡ x / 2 ^ k % 2 * 2 ^ k
bit_and_pow zero x = omega (arith, bit_and_one x)
bit_and_pow (suc k) x =
    let half : 2 ^ suc k / 2 ≡ 2 ^ k = omega (arith, pow-suc 2 k) in
    let even : 2 ^ suc k % 2 ≡ 0 = omega (arith, pow-suc 2 k) in
    let deeper : x / 2 / 2 ^ k ≡ x / 2 ^ suc k =
      div-div-eq-div-mul x 2 (2 ^ k) ∙ ap (λ (t : ℕ). x / t) (omega (arith, pow-suc 2 k)) in
    bit_and_step x (2 ^ suc k)
    ∙ rw (half, even, bit_and_pow k (x / 2), deeper)
        (omega (arith, double_pow (x / 2 ^ suc k % 2) k))

or_comm_below : (bound a b : ℕ) → a ≤ bound → b ≤ bound → bit_or a b ≡ bit_or b a
or_comm_below zero a b p q =
    let a0 : a ≡ 0 = omega arith in let b0 : b ≡ 0 = omega arith in rw (a0, b0)
or_comm_below (suc bound) a b p q = omega (
  arith,
  bit_or_step a b,
  bit_or_step b a,
  or_comm_below bound (a / 2) (b / 2) (omega arith) (omega arith),
)

pub bit_or_comm : (a b : ℕ) → bit_or a b ≡ bit_or b a
bit_or_comm a b = or_comm_below (a + b) a b (omega arith) (omega arith)
