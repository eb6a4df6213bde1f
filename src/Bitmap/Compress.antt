-- ===== src/Bitmap/Compress.antt =====
-- What `compress` of Bitmap (Sylar/DataStructure/bitmap.cc) writes stands, for its readers, for the words of the
-- bitmap.
use native.Mathlib.Nat.{two-pow-succ}
use my_sylar_server.Base.{
  ℕ, zero, suc, ◌+◌, ◌*◌, ◌/◌, ◌%◌, ◌^◌, ◌≤◌, ◌<◌, ◌≡◌, ◌≢◌, ◌⊎◌, inl, inr, refl, sym, ap, ◌∙◌,
  subst, List, [], ◌∷◌, ◌++◌, some, none, Bool, true, false, not, ◌&&◌, ◌||◌, if◌then◌else◌, arith,
  ==_iff, ◌==◌, length, replicate, append-nil, Bool-cases, ltb, lt→ltb,
}
use my_sylar_server.Base.Words.{bit_and_0x3fff}
use my_sylar_server.Bitmap.Word.{count_mask, count_bits}
use my_sylar_server.Bitmap.Runs.{count_digits, flush_run, compress_loop, Run, fill, word, read_runs}
use my_sylar_server.Bitmap.Digits.{
  digit, digit_count, digit-is_run, digit_value, member_is_no_run, member_word, Fresh, read_digits,
}

-- How many bits are set, at the two ends.
count_bits-le : (n x : ℕ) → count_bits n x ≤ n
unfolding count_bits
count_bits-le zero x = omega arith
count_bits-le (suc n) x = omega (arith, count_bits-le n (x / 2))

no_bits : (n x : ℕ) → x < 2 ^ n → count_bits n x ≡ 0 → x ≡ 0
unfolding count_bits
no_bits zero x small h = omega arith
no_bits (suc n) x small h =
    omega (arith, no_bits n (x / 2) (omega (arith, two-pow-succ n)) (omega arith))

all_bits : (n x : ℕ) → x < 2 ^ n → count_bits n x ≡ n → x + 1 ≡ 2 ^ n
unfolding count_bits
all_bits zero x small h = omega arith
all_bits (suc n) x small h = omega (
  arith,
  two-pow-succ n,
  count_bits-le n (x / 2),
  all_bits n (x / 2) (omega (arith, two-pow-succ n)) (omega (arith, count_bits-le n (x / 2))),
)

high_bits : (n x : ℕ) → x < 2 ^ n → count_bits (suc (suc n)) x ≡ count_bits n x
unfolding count_bits
high_bits zero x small = omega arith
high_bits (suc n) x small = omega (arith, high_bits n (x / 2) (omega (arith, two-pow-succ n)))

zero_word : (x : ℕ) → x < 16384 → (count_bits 16 x == 0) ≡ true → x ≡ 0
zero_word x small h =
    no_bits 14 x small (sym (high_bits 14 x small) ∙ (==_iff (count_bits 16 x) 0).0 h)

full_word : (x : ℕ) → x < 16384 → (count_bits 16 x == 14) ≡ true → x ≡ 16383
full_word x small h =
    omega
      (arith, all_bits 14 x small (sym (high_bits 14 x small) ∙ (==_iff (count_bits 16 x) 14).0 h))

-- Words that hold members only.
abbrev pub Members : List ℕ → Type 0
Members [] = Unit {0}
Members (w ∷ ws) = (w < 16384) × Members ws

abbrev pub value_word : Bool → ℕ
value_word v = if v then count_mask else 0

value_word-lt : (v : Bool) → value_word v < 16384
value_word-lt true = omega arith
value_word-lt false = omega arith

-- Runs that stand for words.
abbrev pub Means : List Run → List ℕ → Type 0
Means [] ws = ws ≡ []
Means (word w ∷ rs) ws = (ws' : List ℕ) × (ws ≡ w ∷ ws') × Means rs ws'
Means (fill c v ∷ rs) ws =
    (m : ℕ) × (ws' : List ℕ) × (c ≡ 14 * m)
    × (ws ≡ replicate m (value_word v) ++ ws')
    × Means rs ws'

read_member :
    (w : ℕ) (ws us : List ℕ)
    → w < 16384
    → Means (read_runs none ws) us
    → Means (read_runs none (w ∷ ws)) (w ∷ us)
unfolding read_runs
read_member w ws us small h =
    rw (read_runs, member_is_no_run w small, member_word w small) (us, refl, h)

-- The digits of a run of at least two words.
flush_digits :
    (v : Bool) (m : ℕ)
    → let n = 14 * suc (suc m) in flush_run v n ≡ digit v (n % 16384) ∷ count_digits 4 v (n / 16384)
unfolding flush_run count_digits
flush_digits v m =
    let n = 14 * suc (suc m) in
    let two : ltb 1 (n / 14) ≡ true = lt→ltb 1 (n / 14) (omega arith) in
    let e : n ≡ suc (14 * m + 27) = omega arith in
    rw two (
      rw e (
        ap (λ (t : ℕ). digit v t ∷ count_digits 4 v (suc (14 * m + 27) / 16384))
          (bit_and_0x3fff (suc (14 * m + 27)))))

read_first :
    (v : Bool) (r : ℕ) (ws : List ℕ)
    → r < 16384
    → read_runs none (digit v r ∷ ws) ≡ read_runs (some (v, r, 1)) ws
unfolding read_runs
read_first v r ws h = rw (read_runs, digit-is_run v r h, digit_value v r h, digit_count v r h)

-- What `compress` writes for a run stands for the run, if what comes next does not go on with it.
read_flush :
    (v : Bool) (m : ℕ) (ws us : List ℕ)
    → 14 * m < 2 ^ 32
    → Fresh v ws ⊎ (m ≡ 0)
    → Means (read_runs none ws) us
    → Means (read_runs none (flush_run v (14 * m) ++ ws)) (replicate m (value_word v) ++ us)
unfolding flush_run
read_flush v zero ws us fits fresh h = h
read_flush v (suc zero) ws us fits fresh h = read_member (value_word v) ws us (value_word-lt v) h
read_flush v (suc (suc m)) ws us fits fresh h =
    let n = 14 * suc (suc m) in
    let r = n % 16384 in
    let q = n / 16384 in
    let next : Fresh v ws = elim fresh [ inl f ↦ f | inr e ↦ absurd (omega arith) ] in
    let whole : read_runs none (flush_run v n ++ ws)
        ≡ fill (r + q * 2 ^ (14 * 1)) v ∷ read_runs none ws =
      ap (λ (t : List ℕ). read_runs none (t ++ ws)) (flush_digits v m)
      ∙ read_first v r (count_digits 4 v q ++ ws) (omega arith)
      ∙ read_digits 4 1 q r v ws (omega arith) (omega arith) (omega arith) next in
    let us' = replicate (suc (suc m)) (value_word v) ++ us in
    subst (λ (rs : List Run). Means rs us') (sym whole) (suc (suc m), us, omega arith, refl, h)

differ : (u v : Bool) → u ≢ v → (u && v || not u && not v) ≡ false
differ true true h = absurd (h refl)
differ true false h = refl
differ false true h = refl
differ false false h = absurd (h refl)

flush-Fresh : (u v : Bool) (m : ℕ) (ws : List ℕ) → u ≢ v → Fresh u (flush_run v (14 * suc m) ++ ws)
unfolding flush_run
flush-Fresh u v zero ws h = rw (member_is_no_run (value_word v) (value_word-lt v))
flush-Fresh u v (suc m) ws h =
    let r = 14 * suc (suc m) % 16384 in
    let small : r < 16384 = omega arith in
    subst (λ (t : List ℕ). Fresh u (t ++ ws)) (sym (flush_digits v m))
      (rw (digit-is_run v r small, digit_value v r small) (differ u v h))

abbrev goes_on : Bool → ℕ → Bool
goes_on v cur = (count_bits 16 cur == 0) && not v || (count_bits 16 cur == 14) && v

module _ (v : Bool) (n cur : ℕ) (ws : List ℕ) (small : cur < 16384) where
  loop_more : goes_on v cur ≡ true → compress_loop v n (cur ∷ ws) ≡ compress_loop v (n + 14) ws
  unfolding compress_loop
  loop_more h = rw (compress_loop, member_word cur small, h)

  loop_turn :
      goes_on v cur ≡ false
      → ((count_bits 16 cur == 0) || (count_bits 16 cur == 14)) ≡ true
      → compress_loop v n (cur ∷ ws)
        ≡ flush_run v n ++ compress_loop (count_bits 16 cur == 14) 14 ws
  unfolding compress_loop
  loop_turn h t =
      rw (compress_loop, member_word cur small, h, member_word cur small, t, member_word cur small)

  loop_word :
      goes_on v cur ≡ false
      → ((count_bits 16 cur == 0) || (count_bits 16 cur == 14)) ≡ false
      → compress_loop v n (cur ∷ ws) ≡ flush_run v n ++ cur ∷ compress_loop v 0 ws
  unfolding compress_loop
  loop_word h t = rw (compress_loop, member_word cur small, h, member_word cur small, t)

-- The loop starts with a run of its own value.
loop-Fresh :
    (u v : Bool) (m : ℕ) (ws : List ℕ)
    → u ≢ v
    → Members ws
    → Fresh u (compress_loop v (14 * suc m) ws)
unfolding compress_loop
loop-Fresh u v m [] h members =
    subst (Fresh u) (append-nil (flush_run v (14 * suc m))) (flush-Fresh u v m [] h)
loop-Fresh u v m (cur ∷ ws) h members = elim (Bool-cases (goes_on v cur)) [
  | inl more ↦
      let e : 14 * suc m + 14 ≡ 14 * suc (suc m) = omega arith in
      subst (Fresh u)
        (sym
          (loop_more v (14 * suc m) cur ws members.0 more ∙ ap (λ (t : ℕ). compress_loop v t ws) e))
        (loop-Fresh u v (suc m) ws h members.1)
  | inr done ↦ elim (Bool-cases ((count_bits 16 cur == 0) || (count_bits 16 cur == 14))) [
    | inl turn ↦
        subst (Fresh u) (sym (loop_turn v (14 * suc m) cur ws members.0 done turn))
          (flush-Fresh u v m _ h)
    | inr other ↦
        subst (Fresh u) (sym (loop_word v (14 * suc m) cur ws members.0 done other))
          (flush-Fresh u v m _ h)
  ]
]

same_word : (v : Bool) (cur : ℕ) → cur < 16384 → goes_on v cur ≡ true → cur ≡ value_word v
same_word true cur small h = full_word cur small (ground (arith, h))
same_word false cur small h = zero_word cur small (ground (arith, h))

turned_word :
    (cur : ℕ)
    → cur < 16384
    → ((count_bits 16 cur == 0) || (count_bits 16 cur == 14)) ≡ true
    → cur ≡ value_word (count_bits 16 cur == 14)
turned_word cur small h = elim (Bool-cases (count_bits 16 cur == 14)) [
  | inl full ↦ rw full (full_word cur small full)
  | inr some_bits ↦ rw some_bits (zero_word cur small (ground (arith, h, some_bits)))
]

turned_value : (v a b : Bool) → (a && not v || b && v) ≡ false → (a || b) ≡ true → v ≢ b
turned_value v a b g t e = ground (arith, g, t, e)

replicate-cons {ℓ} :
    {A : Type ℓ} (m : ℕ) (a : A) (xs : List A) → a ∷ (replicate m a ++ xs) ≡ replicate m a ++ a ∷ xs
replicate-cons zero a xs = refl
replicate-cons (suc m) a xs = ap (◌∷◌ a) (replicate-cons m a xs)

read_nil : Means (read_runs none []) []
unfolding read_runs
read_nil = refl

loop_end : (v : Bool) (n : ℕ) → compress_loop v n [] ≡ flush_run v n ++ []
unfolding compress_loop
loop_end v n = sym (append-nil (flush_run v n))

-- Reading what `compress` writes gives the words.
pub compress_loop_lem :
    (v : Bool) (m : ℕ) (ws : List ℕ)
    → Members ws
    → 14 * (m + length ws) < 2 ^ 32
    → Means (read_runs none (compress_loop v (14 * m) ws)) (replicate m (value_word v) ++ ws)
compress_loop_lem v m [] members fits =
    subst (λ (t : List ℕ). Means (read_runs none t) (replicate m (value_word v) ++ []))
      (sym (loop_end v (14 * m))) (read_flush v m [] [] (omega arith) (inl tt) read_nil)
compress_loop_lem v m (cur ∷ ws) (small, members) fits =
    let P : List ℕ → Type 0 =
      λ t. Means (read_runs none t) (replicate m (value_word v) ++ cur ∷ ws) in
    let shorter : 14 * m < 2 ^ 32 = omega arith in
    elim (Bool-cases (goes_on v cur)) [
      | inl more ↦
          let e : 14 * m + 14 ≡ 14 * suc m = omega arith in
          subst P
            (sym (loop_more v (14 * m) cur ws small more ∙ ap (λ (t : ℕ). compress_loop v t ws) e))
            (subst (λ (us : List ℕ). Means (read_runs none (compress_loop v (14 * suc m) ws)) us)
              (replicate-cons m (value_word v) ws
                ∙ ap (λ (w : ℕ). replicate m (value_word v) ++ w ∷ ws)
                    (sym (same_word v cur small more)))
              (compress_loop_lem v (suc m) ws members (omega arith)))
      | inr done ↦ elim (Bool-cases ((count_bits 16 cur == 0) || (count_bits 16 cur == 14))) [
        | inl turn ↦
            let v' = count_bits 16 cur == 14 in
            subst P (sym (loop_turn v (14 * m) cur ws small done turn)) (
              read_flush v m (compress_loop v' 14 ws) (cur ∷ ws) shorter
                (inl (
                  loop-Fresh v v' 0 ws (turned_value v (count_bits 16 cur == 0) v' done turn)
                    members))
                (subst (λ (w : ℕ). Means (read_runs none (compress_loop v' 14 ws)) (w ∷ ws))
                  (sym (turned_word cur small turn))
                  (compress_loop_lem v' 1 ws members (omega arith))))
        | inr other ↦ subst P (sym (loop_word v (14 * m) cur ws small done other)) (
            read_flush v m (cur ∷ compress_loop v 0 ws) (cur ∷ ws) shorter
              (inl (rw (member_is_no_run cur small)))
              (read_member cur (compress_loop v 0 ws) ws small
                (compress_loop_lem v 0 ws members (omega arith))))
      ]
    ]
