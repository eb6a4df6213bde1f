-- ===== src/Bitmap/Bits.antt =====
-- `get` and `set` of one member of a Bitmap (Sylar/DataStructure/bitmap.cc).
use Prim.Native.Nat.{bit_and, bit_or, min, max}
use native.Mathlib.Nat.{two-pow-succ, one-le-pow, pow-le-pow_right, div-div-eq-div-mul}
use my_sylar_server.Base.{
  ℕ, zero, suc, ◌-◌, ◌/◌, ◌%◌, ◌^◌, ◌≤◌, ◌<◌, ◌≡◌, ◌≢◌, ◌⊎◌, refl, sym, ap, ◌∙◌, List, [], ◌∷◌,
  Bool, true, false, length, set, if◌then◌else◌, arith, inl, inr,
}
use my_sylar_server.Base.Words.{bit_or_step, bit_and_step, bit_and_pow}
use my_sylar_server.Bitmap.{Bitmap, get, set_bit}
use my_sylar_server.Bitmap.Word.{ok, bit_at, or_bit, clear_bit, nonzero, word_at}

-- Bit `k` of a number.
abbrev pub bit : ℕ → ℕ → ℕ
bit k x = x / 2 ^ k % 2

bit-suc : (k x : ℕ) → bit (suc k) x ≡ bit k (x / 2)
bit-suc k x =
    ap (λ (t : ℕ). t % 2)
      (sym (div-div-eq-div-mul x 2 (2 ^ k) ∙ ap (λ (t : ℕ). x / t) (omega (arith, two-pow-succ k))))

pub bit_zero : (k : ℕ) → bit k 0 ≡ 0
bit_zero zero = refl
bit_zero (suc k) = bit-suc k 0 ∙ bit_zero k

pub bit-bit_or : (k a b : ℕ) → bit k (bit_or a b) ≡ max (bit k a) (bit k b)
bit-bit_or zero a b = omega (arith, bit_or_step a b)
bit-bit_or (suc k) a b =
    let half : bit_or a b / 2 ≡ bit_or (a / 2) (b / 2) = omega (arith, bit_or_step a b) in
    rw (bit-suc k a, bit-suc k b, bit-suc k (bit_or a b), half) (bit-bit_or k (a / 2) (b / 2))

pub bit-bit_and : (k a b : ℕ) → bit k (bit_and a b) ≡ min (bit k a) (bit k b)
bit-bit_and zero a b = omega (arith, bit_and_step a b)
bit-bit_and (suc k) a b =
    let half : bit_and a b / 2 ≡ bit_and (a / 2) (b / 2) = omega (arith, bit_and_step a b) in
    rw (bit-suc k a, bit-suc k b, bit-suc k (bit_and a b), half) (bit-bit_and k (a / 2) (b / 2))

bit_pow_self : (k : ℕ) → bit k (2 ^ k) ≡ 1
bit_pow_self zero = refl
bit_pow_self (suc k) =
    let half : 2 ^ suc k / 2 ≡ 2 ^ k = omega (arith, two-pow-succ k) in
    rw (bit-suc k (2 ^ suc k), half) (bit_pow_self k)

bit_pow_other : (k i : ℕ) → k ≢ i → bit k (2 ^ i) ≡ 0
bit_pow_other zero zero h = absurd (h refl)
bit_pow_other zero (suc i) h = omega (arith, two-pow-succ i)
bit_pow_other (suc k) zero h = bit-suc k 1 ∙ bit_zero k
bit_pow_other (suc k) (suc i) h =
    let half : 2 ^ suc i / 2 ≡ 2 ^ i = omega (arith, two-pow-succ i) in
    rw (bit-suc k (2 ^ suc i), half) (bit_pow_other k i (λ e. h (ap suc e)))

-- The complement in `n` bits.
bit_complement : (n k x : ℕ) → k < n → x < 2 ^ n → bit k (2 ^ n - 1 - x) ≡ 1 - bit k x
bit_complement zero k x h small = absurd (omega arith)
bit_complement (suc n) zero x h small = omega (arith, two-pow-succ n)
bit_complement (suc n) (suc k) x h small =
    let half : (2 ^ suc n - 1 - x) / 2 ≡ 2 ^ n - 1 - x / 2 = omega (arith, two-pow-succ n) in
    rw (bit-suc k (2 ^ suc n - 1 - x), bit-suc k x, half)
      (bit_complement n k (x / 2) (omega arith) (omega (arith, two-pow-succ n)))

bit_cases : (x : ℕ) → x < 2 → (x ≡ 0) ⊎ (x ≡ 1)
bit_cases x h = omega arith

some_pow : (k : ℕ) → 0 < 2 ^ k
some_pow k = one-le-pow k 2 (omega arith)

pub bit_at_lem : (w k : ℕ) → bit_at w k ≡ nonzero (bit k w)
bit_at_lem w k = elim (bit_cases (bit k w) (omega arith)) [
  | inl h ↦ rw (bit_and_pow k w, h) (ground arith)
  | inr h ↦ rw (bit_and_pow k w, h) (ground (arith, some_pow k))
]

-- A bit that is written, and the others.
abbrev change : ℕ → Bool → ℕ → ℕ
change w v i = if v then or_bit w i else clear_bit w i

low_bits : (i : ℕ) → i < 14 → 2 ^ i < 2 ^ 16
low_bits i h =
    let top : 2 ^ i ≤ 2 ^ 14 = pow-le-pow_right {n = 2} (omega arith) {j = 14} (omega arith) in
    omega (arith, top)

bit_clear :
    (w i k : ℕ) → i < 14 → k < 14 → bit k (clear_bit w i) ≡ min (bit k w) (1 - bit k (2 ^ i))
bit_clear w i k h h' =
    bit-bit_and k w (65535 - 2 ^ i)
    ∙ ap (min (bit k w)) (bit_complement 16 k (2 ^ i) (omega arith) (low_bits i h))

bit_at-change_self : (w i : ℕ) (v : Bool) → i < 14 → bit_at (change w v i) i ≡ v
bit_at-change_self w i true h =
    rw (bit_at_lem (or_bit w i) i, bit-bit_or i w (2 ^ i), bit_pow_self i) (ground arith)
bit_at-change_self w i false h =
    rw (bit_at_lem (clear_bit w i) i, bit_clear w i i h h, bit_pow_self i) (ground arith)

bit_at-change_other :
    (w i k : ℕ) (v : Bool) → i < 14 → k < 14 → k ≢ i → bit_at (change w v i) k ≡ bit_at w k
bit_at-change_other w i k true h h' ne =
    rw (bit_at_lem (or_bit w i) k, bit_at_lem w k, bit-bit_or k w (2 ^ i), bit_pow_other k i ne)
      (ground arith)
bit_at-change_other w i k false h h' ne =
    rw (bit_at_lem (clear_bit w i) k, bit_at_lem w k, bit_clear w i k h h', bit_pow_other k i ne)
      (ground arith)

word_there : (words : List ℕ) (i : ℕ) → i < length words → (w : ℕ) × (word_at words i ≡ ok w)
word_there [] i h = absurd (omega arith)
word_there (w ∷ ws) zero h = (w, refl)
word_there (w ∷ ws) (suc i) h = word_there ws i (omega arith)

word_at-set_self : (words : List ℕ) (i w : ℕ) → i < length words → word_at (set words i w) i ≡ ok w
word_at-set_self [] i w h = absurd (omega arith)
word_at-set_self (x ∷ ws) zero w h = refl
word_at-set_self (x ∷ ws) (suc i) w h = word_at-set_self ws i w (omega arith)

word_at-set_other :
    (words : List ℕ) (i j w : ℕ) → j ≢ i → word_at (set words i w) j ≡ word_at words j
word_at-set_other [] i j w ne = refl
word_at-set_other (x ∷ ws) zero zero w ne = absurd (ne refl)
word_at-set_other (x ∷ ws) zero (suc j) w ne = refl
word_at-set_other (x ∷ ws) (suc i) zero w ne = refl
word_at-set_other (x ∷ ws) (suc i) (suc j) w ne = word_at-set_other ws i j w (λ e. ne (ap suc e))

-- What `set(idx, v)` does to `get`.
pub record WasSet (idx : ℕ) (v : Bool) (b : Bitmap) : Type 0 where
  pub after : Bitmap
  pub returns : set_bit idx v b ≡ ok after
  pub same : get idx after ≡ ok v
  pub others : (j : ℕ) → j ≢ idx → get j after ≡ get j b

-- `set(idx, v)` of an index whose word exists succeeds; then `get(idx)` is `v`, and `get` of every other index is what
-- it was.
pub set_bit-WasSet : (idx : ℕ) (v : Bool) (b : Bitmap) → idx / 14 < length b.words → WasSet idx v b
unfolding set_bit get
set_bit-WasSet idx v b h =
    let (w, there) = word_there b.words (idx / 14) h in
    let small : idx % 14 < 14 = omega arith in
    record {
      after = record b { words = set b.words (idx / 14) (change w v (idx % 14)) };
      returns = rw there refl;
      same =
          rw (word_at-set_self b.words (idx / 14) (change w v (idx % 14)) h)
            (ap ok (bit_at-change_self w (idx % 14) v small));
      others = λ j ne. elim (same_word j) [
        | inl e ↦
            rw (e, word_at-set_self b.words (idx / 14) (change w v (idx % 14)) h, there)
              (ap ok
                (bit_at-change_other w (idx % 14) (j % 14) v small (omega arith) (omega arith)))
        | inr ne' ↦
            rw (word_at-set_other b.words (idx / 14) (j / 14) (change w v (idx % 14)) ne') refl
      ];
    }
  where
    same_word : (j : ℕ) → (j / 14 ≡ idx / 14) ⊎ (j / 14 ≢ idx / 14)
    same_word j = omega arith
