-- ===== src/Bitmap/Digits.antt =====
-- How the readers of a compressed Bitmap (Sylar/DataStructure/bitmap.cc) take the digits that `compress`
-- writes for a run.
use native.Mathlib.Nat.{pow-suc, two-pow-succ, mod-eq_of_lt, add-mul, mul_assoc, mul-le-mul_right}
use my_sylar_server.Base.{
  ℕ, zero, suc, ◌+◌, ◌*◌, ◌/◌, ◌%◌, ◌^◌, ◌≤◌, ◌<◌, ◌≡◌, refl, ap, ◌∙◌, List, [], ◌∷◌, ◌++◌, some,
  none, Bool, true, false, not, ◌&&◌, ◌||◌, if◌then◌else◌, arith,
}
use my_sylar_server.Base.Words.{bit_and_0x3fff, bit_and_pow, bit_or_low, bit_or_comm}
use my_sylar_server.Bitmap.Word.{count_mask, compress_mask, value_mask, mask_and, mask_or}
use my_sylar_server.Bitmap.Runs.{count_digits, fill, is_run, run_value, read_runs}

-- A digit of a run.
abbrev pub digit : Bool → ℕ → ℕ
digit v r = if v then mask_or (mask_or compress_mask value_mask) r else mask_or compress_mask r

abbrev pub base_of : Bool → ℕ
base_of v = if v then 49152 else 32768

digit-sum : (v : Bool) (r : ℕ) → r < 16384 → digit v r ≡ base_of v + r
digit-sum true r h = bit_or_comm 49152 r ∙ bit_or_low 14 3 r h ∙ omega arith
digit-sum false r h = bit_or_comm 32768 r ∙ bit_or_low 15 1 r (omega arith) ∙ omega arith

pub digit_count : (v : Bool) (r : ℕ) → r < 16384 → mask_and (digit v r) count_mask ≡ r
digit_count true r h = rw (digit-sum true r h) (bit_and_0x3fff (49152 + r) ∙ omega arith)
digit_count false r h = rw (digit-sum false r h) (bit_and_0x3fff (32768 + r) ∙ omega arith)

pub digit-is_run : (v : Bool) (r : ℕ) → r < 16384 → is_run (digit v r) ≡ true
digit-is_run true r h =
    let e : mask_and (digit true r) compress_mask ≡ 32768 =
      rw (digit-sum true r h) (bit_and_pow 15 (49152 + r) ∙ omega arith) in
    rw e
digit-is_run false r h =
    let e : mask_and (digit false r) compress_mask ≡ 32768 =
      rw (digit-sum false r h) (bit_and_pow 15 (32768 + r) ∙ omega arith) in
    rw e

pub digit_value : (v : Bool) (r : ℕ) → r < 16384 → run_value (digit v r) ≡ v
digit_value true r h =
    let e : mask_and (digit true r) value_mask ≡ 16384 =
      rw (digit-sum true r h) (bit_and_pow 14 (49152 + r) ∙ omega arith) in
    rw e
digit_value false r h =
    let e : mask_and (digit false r) value_mask ≡ 0 =
      rw (digit-sum false r h) (bit_and_pow 14 (32768 + r) ∙ omega arith) in
    rw e

-- A word of members is no digit.
pub member_is_no_run : (w : ℕ) → w < 16384 → is_run w ≡ false
member_is_no_run w h = let e : mask_and w compress_mask ≡ 0 = bit_and_pow 15 w ∙ omega arith in rw e

pub member_word : (w : ℕ) → w < 16384 → mask_and w count_mask ≡ w
member_word w h = bit_and_0x3fff w ∙ omega arith

-- What comes next does not go on with a run of value `v`.
abbrev pub Fresh : Bool → List ℕ → Type 0
Fresh v [] = Unit {0}
Fresh v (w ∷ ws) = (is_run w && (v && run_value w || not v && not (run_value w))) ≡ false

pub read-Fresh :
    (v : Bool) (count k : ℕ) (ws : List ℕ)
    → Fresh v ws
    → read_runs (some (v, count, k)) ws ≡ fill count v ∷ read_runs none ws
unfolding read_runs
read-Fresh v count k [] h = refl
read-Fresh v count k (w ∷ ws) h = ground (arith, h)

-- The count with one digit more in front.
next_count :
    (k r count : ℕ)
    → count < 2 ^ (14 * k)
    → r * 2 ^ (14 * k) < 2 ^ 32
    → mask_or (r * 2 ^ (14 * k) % 2 ^ 32) count ≡ count + r * 2 ^ (14 * k)
next_count k r count low fits =
    let whole : r * 2 ^ (14 * k) % 2 ^ 32 ≡ r * 2 ^ (14 * k) = mod-eq_of_lt fits in
    rw whole (bit_or_comm (r * 2 ^ (14 * k)) count ∙ bit_or_low (14 * k) r count low)

same_value : (v : Bool) → (v && v || not v && not v) ≡ true
same_value true = refl
same_value false = refl

read_digit :
    (v : Bool) (r count k : ℕ) (ws : List ℕ)
    → r < 16384
    → read_runs (some (v, count, k)) (digit v r ∷ ws)
      ≡ read_runs (some (v, mask_or (r * 2 ^ (14 * k) % 2 ^ 32) count, suc k)) ws
unfolding read_runs
read_digit v r count k ws h =
    rw (read_runs, digit-is_run v r h, digit_value v r h, same_value v, digit_count v r h)

pow_shift : (j n : ℕ) → 2 ^ (n + j) ≡ 2 ^ j * 2 ^ n
pow_shift zero n = let e : n + 0 ≡ n = omega arith in rw e (omega arith)
pow_shift (suc j) n =
    let e : n + suc j ≡ suc (n + j) = omega arith in
    rw e (
      omega (
        arith,
        two-pow-succ (n + j),
        pow_shift j n,
        ap (λ (t : ℕ). t * 2 ^ n) (two-pow-succ j),
        add-mul (2 ^ j) (2 ^ j) (2 ^ n),
      ))

next_power : (k : ℕ) → 2 ^ (14 * suc k) ≡ 16384 * 2 ^ (14 * k)
next_power k = let e : 14 * suc k ≡ 14 * k + 14 = omega arith in rw e (pow_shift 14 (14 * k))

split_product : (n p : ℕ) → n * p ≡ n % 16384 * p + n / 16384 * (16384 * p)
split_product n p =
    let e : n ≡ n % 16384 + n / 16384 * 16384 = omega arith in
    ap (λ (t : ℕ). t * p) e
    ∙ add-mul (n % 16384) (n / 16384 * 16384) p
    ∙ ap (◌+◌ (n % 16384 * p)) (mul_assoc (n / 16384) 16384 p)

-- The digits of `n` above a count of `k` digits, read to the end of the run.
pub read_digits :
    (fuel k n count : ℕ) (v : Bool) (tail : List ℕ)
    → n < 16384 ^ fuel
    → count < 2 ^ (14 * k)
    → count + n * 2 ^ (14 * k) < 2 ^ 32
    → Fresh v tail
    → read_runs (some (v, count, k)) (count_digits fuel v n ++ tail)
      ≡ fill (count + n * 2 ^ (14 * k)) v ∷ read_runs none tail
unfolding count_digits
read_digits zero k n count v tail enough low fits fresh =
    let z : n ≡ 0 = omega arith in
    let e : count ≡ count + n * 2 ^ (14 * k) = rw z (omega arith) in
    read-Fresh v count k tail fresh ∙ ap (λ (t : ℕ). fill t v ∷ read_runs none tail) e
read_digits (suc fuel) k zero count v tail enough low fits fresh =
    let e : count ≡ count + 0 * 2 ^ (14 * k) = omega arith in
    read-Fresh v count k tail fresh ∙ ap (λ (t : ℕ). fill t v ∷ read_runs none tail) e
read_digits (suc fuel) k (suc m) count v tail enough low fits fresh =
    let n = suc m in
    let r = n % 16384 in
    let q = n / 16384 in
    let p = 2 ^ (14 * k) in
    let small : r < 16384 = omega arith in
    let first : mask_and n count_mask ≡ r = bit_and_0x3fff n in
    let product : n * p ≡ r * p + q * (16384 * p) = split_product n p in
    let up : 2 ^ (14 * suc k) ≡ 16384 * p = next_power k in
    let room : r * p + p ≤ 16384 * p =
      omega (arith, mul-le-mul_right {m = suc r} {n = 16384} p (omega arith), add-mul r 1 p) in
    let rest_product : q * 2 ^ (14 * suc k) ≡ q * (16384 * p) = ap (λ (t : ℕ). q * t) up in
    let ws = count_digits fuel v q ++ tail in
    let joined : mask_or (r * p % 2 ^ 32) count ≡ count + r * p =
      next_count k r count low (omega arith) in
    let deeper : read_runs (some (v, count + r * p, suc k)) ws
        ≡ fill (count + r * p + q * 2 ^ (14 * suc k)) v ∷ read_runs none tail =
      read_digits fuel (suc k) q (count + r * p) v tail (omega (arith, pow-suc 16384 fuel))
        (omega arith) (omega arith) fresh in
    let total : count + r * p + q * 2 ^ (14 * suc k) ≡ count + n * p = omega arith in
    rw first (
      read_digit v r count k ws small
      ∙ ap (λ (t : ℕ). read_runs (some (v, t, suc k)) ws) joined
      ∙ deeper
      ∙ ap (λ (t : ℕ). fill t v ∷ read_runs none tail) total)
