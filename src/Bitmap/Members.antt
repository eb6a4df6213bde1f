-- ===== src/Bitmap/Members.antt =====
-- The loop of `listPosAsc` of Bitmap (Sylar/DataStructure/bitmap.cc) over words, against `get`.
use Prim.Native.Nat.{min}
use my_sylar_server.Base.{
  ℕ, zero, suc, ◌+◌, ◌-◌, ◌*◌, ◌/◌, ◌%◌, ◌≤◌, ◌<◌, ◌≡◌, refl, sym, ap, ◌∙◌, List, [], ◌∷◌, ◌++◌,
  Bool, true, false, length, ltb, arith, Bool-cases, inl, inr, ltb→lt, ltb→le, lt→ltb, le→ltb,
  if◌then◌else◌,
}
use my_sylar_server.Bitmap.{Bitmap, get}
use my_sylar_server.Bitmap.Bits.{bit_at_lem, bit_zero}
use my_sylar_server.Bitmap.Walk.{walk_word, walk_words}
use my_sylar_server.Bitmap.Word.{Result, ok, bit_at, nonzero, word_at}

-- The numbers from `p` on, `count` of them, that `get` finds.
abbrev if_found : Result Bool → ℕ → List ℕ → List ℕ
if_found (ok true) p rest = p ∷ rest
if_found (ok false) p rest = rest
if_found Result.logic_error p rest = rest
if_found Result.assertion p rest = rest
if_found Result.overrun p rest = rest

unfoldable pub members_from : ℕ → ℕ → Bitmap → List ℕ
members_from zero p b = []
members_from (suc count) p b = if_found (get p b) p (members_from count (suc p) b)

if_found-append :
    (r : Result Bool) (p : ℕ) (xs ys : List ℕ) → if_found r p (xs ++ ys) ≡ if_found r p xs ++ ys
if_found-append (ok true) p xs ys = refl
if_found-append (ok false) p xs ys = refl
if_found-append Result.logic_error p xs ys = refl
if_found-append Result.assertion p xs ys = refl
if_found-append Result.overrun p xs ys = refl

if_found_bit : (x : Bool) (p : ℕ) (xs : List ℕ) → if_found (ok x) p xs ≡ (if x then p ∷ xs else xs)
if_found_bit true p xs = refl
if_found_bit false p xs = refl

-- A range in two parts.
pub members_from-append :
    (m n c p q : ℕ) (b : Bitmap)
    → c ≡ m + n
    → q ≡ p + m
    → members_from c p b ≡ members_from m p b ++ members_from n q b
unfolding members_from
members_from-append zero n c p q b e f =
    let c' : c ≡ n = omega arith in let q' : q ≡ p = omega arith in rw (c', q') refl
members_from-append (suc m) n zero p q b e f = absurd (omega arith)
members_from-append (suc m) n (suc c) p q b e f =
    ap (if_found (get p b) p) (members_from-append m n c (suc p) q b (omega arith) (omega arith))
    ∙ if_found-append (get p b) p (members_from m (suc p) b) (members_from n q b)

module _ (b : Bitmap) where
  get_word :
      (p k n w : ℕ) → p ≡ 14 * k + n → n < 14 → word_at b.words k ≡ ok w → get p b ≡ ok (bit_at w n)
  unfolding get
  get_word p k n w e h there =
      let word : p / 14 ≡ k = omega arith in
      let pos : p % 14 ≡ n = omega arith in rw (word, pos, there) refl

  -- The bits of a word from bit `n` on; `m` of them lie below the size.
  pub walk_word_lem :
      (rounds n k w size p m : ℕ)
      → rounds + n ≡ 14
      → p ≡ 14 * k + n
      → m ≡ min rounds (size - p)
      → word_at b.words k ≡ ok w
      → ((walk_word rounds size n w p).0 ≡ members_from m p b)
        × ((walk_word rounds size n w p).1 ≡ p + m)
  unfolding walk_word members_from
  walk_word_lem zero n k w size p zero h e f there = (refl, omega arith)
  walk_word_lem zero n k w size p (suc m) h e f there = absurd (omega arith)
  walk_word_lem (suc rounds) n k w size p zero h e f there =
      let over : ltb p size ≡ false = le→ltb p size (omega arith) in
      (rw (walk_word, over) refl, rw (walk_word, over) (omega arith))
  walk_word_lem (suc rounds) n k w size p (suc m) h e f there =
      let on : ltb p size ≡ true = lt→ltb p size (omega arith) in
      let (rest, end) =
        walk_word_lem rounds (suc n) k w size (suc p) m (omega arith) (omega arith) (omega arith)
          there in
      (
        rw (walk_word, on, get_word p k n w e (omega arith) there, if_found_bit (bit_at w n), rest)
            refl,
        rw (walk_word, on) (omega (arith, end)),
      )

  -- A word of zeros.
  pub no_members :
      (m n k p : ℕ)
      → m + n ≤ 14
      → p ≡ 14 * k + n
      → word_at b.words k ≡ ok 0
      → members_from m p b ≡ []
  unfolding members_from
  no_members zero n k p h e there = refl
  no_members (suc m) n k p h e there =
      let unset : bit_at 0 n ≡ false = bit_at_lem 0 n ∙ rw (bit_zero n) refl in
      rw (get_word p k n 0 e (omega arith) there, unset)
        (no_members m (suc n) k (suc p) (omega arith) (omega arith) there)

  -- The words of a walk are those of the bitmap from word `k` on.
  unfoldable pub At : ℕ → List ℕ → Type 0
  At k ws = (i : ℕ) → i < length ws → word_at ws i ≡ word_at b.words (k + i)

  pub first_word : (k w : ℕ) (ws : List ℕ) → At k (w ∷ ws) → word_at b.words k ≡ ok w
  unfolding At
  first_word k w ws h = let here : k + 0 ≡ k = omega arith in sym (rw here at (h 0 (omega arith)))

  pub next_words : (k w : ℕ) (ws : List ℕ) → At k (w ∷ ws) → At (suc k) ws
  unfolding At
  next_words k w ws h i less =
      let there : suc k + i ≡ k + suc i = omega arith in rw there (h (suc i) (omega arith))

  pub none_left : (c p : ℕ) → c ≡ 0 → members_from c p b ≡ []
  unfolding members_from
  none_left c p h = rw h refl

  -- Behind the size nothing is listed.
  walk_word_over : (rounds size n w p : ℕ) → size ≤ p → walk_word rounds size n w p ≡ ([], p)
  unfolding walk_word
  walk_word_over zero size n w p h = refl
  walk_word_over (suc rounds) size n w p h = rw (walk_word, le→ltb p size h) refl

  -- A step of the walk.
  walk_words_pass :
      (size w p : ℕ) (ws : List ℕ)
      → nonzero w ≡ false
      → walk_words size (w ∷ ws) p ≡ walk_words size ws (p + 14)
  unfolding walk_words
  walk_words_pass size w p ws h = rw (walk_words, h) refl

  walk_words_step :
      (size w p q : ℕ) (ws pos : List ℕ)
      → nonzero w ≡ true
      → (walk_word 14 size 0 w p).0 ≡ pos
      → (walk_word 14 size 0 w p).1 ≡ q
      → (walk_words size (w ∷ ws) p).0 ≡ pos ++ (walk_words size ws q).0
  unfolding walk_words
  walk_words_step size w p q ws pos h e f = rw (walk_words, h, e, f) refl

  walk_words_empty : (size p : ℕ) → (walk_words size [] p).0 ≡ []
  unfolding walk_words
  walk_words_empty size p = refl

  walk_words_done : (size : ℕ) (ws : List ℕ) (p : ℕ) → size ≤ p → (walk_words size ws p).0 ≡ []
  unfolding walk_words
  walk_words_done size [] p h = refl
  walk_words_done size (w ∷ ws) p h =
      let over = walk_word_over 14 size 0 w p h in
      elim (Bool-cases (nonzero w)) [
        | inr z ↦
            ap (λ (t : List ℕ × ℕ). t.0) (walk_words_pass size w p ws z)
            ∙ walk_words_done size ws (p + 14) (omega arith)
        | inl nz ↦
            walk_words_step size w p p ws [] nz (ap (λ (t : List ℕ × ℕ). t.0) over)
              (ap (λ (t : List ℕ × ℕ). t.1) over)
            ∙ walk_words_done size ws p h
      ]

  pub zero_word : (w : ℕ) → nonzero w ≡ false → w ≡ 0
  zero_word w h = ground arith

  -- The walk of the other words, from where a word at `p` ends.
  other_words :
      (size p c q : ℕ) (ws : List ℕ)
      → c ≡ size - p
      → (c < 14 → size ≤ q)
      → (14 ≤ c → q ≡ p + 14)
      → (q ≡ p + 14 → (walk_words size ws q).0 ≡ members_from (size - q) q b)
      → (walk_words size ws q).0 ≡ members_from (c - min 14 c) (p + min 14 c) b
  other_words size p c q ws e short long again = elim (Bool-cases (ltb c 14)) [
    | inl below ↦
        walk_words_done size ws q (short (ltb→lt c 14 below))
        ∙ sym (none_left (c - min 14 c) (p + min 14 c) (omega (arith, ltb→lt c 14 below)))
    | inr above ↦
        let le = ltb→le c 14 above in
        let q' = long le in
        let here : q ≡ p + min 14 c = omega arith in
        let left : size - q ≡ c - min 14 c = omega arith in
        again q'
        ∙ ap (λ (n : ℕ). members_from n q b) left
        ∙ ap (λ (n : ℕ). members_from (c - min 14 c) n b) here
  ]

  pub walk_words_lem :
      (size : ℕ) (ws : List ℕ) (k p c : ℕ)
      → p ≡ 14 * k
      → c ≡ size - p
      → size ≤ 14 * (k + length ws)
      → At k ws
      → (walk_words size ws p).0 ≡ members_from c p b
  walk_words_lem size [] k p c e f room h =
      walk_words_empty size p ∙ sym (none_left c p (omega arith))
  walk_words_lem size (w ∷ ws) k p c e f room h =
      let there = first_word k w ws h in
      let m = min 14 c in
      let again : (q : ℕ) → q ≡ p + 14 → (walk_words size ws q).0 ≡ members_from (size - q) q b =
        λ q at.
          walk_words_lem size ws (suc k) q (size - q) (omega arith) refl (omega arith)
            (next_words k w ws h) in
      let parts = members_from-append m (c - m) c p (p + m) b (omega arith) refl in
      elim (Bool-cases (nonzero w)) [
        | inr z ↦
            let empty =
              no_members m 0 k p (omega arith) (omega arith) (there ∙ ap ok (zero_word w z)) in
            ap (λ (t : List ℕ × ℕ). t.0) (walk_words_pass size w p ws z)
            ∙ other_words size p c (p + 14) ws f (λ short. omega (arith, short)) (λ _. refl)
                (again (p + 14))
            ∙ sym (parts ∙ ap (λ (t : List ℕ). t ++ members_from (c - m) (p + m) b) empty)
        | inl nz ↦
            let (here, end) =
              walk_word_lem 14 0 k w size p m (omega arith) (omega arith) (omega arith) there in
            walk_words_step size w p (p + m) ws (members_from m p b) nz here end
            ∙ ap (λ (t : List ℕ). members_from m p b ++ t)
                (other_words size p c (p + m) ws f (λ short. omega (arith, short))
                  (λ long. omega (arith, long)) (again (p + m)))
            ∙ sym parts
      ]
