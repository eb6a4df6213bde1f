-- ===== src/Bitmap/Listed.antt =====
-- `listPosAsc` of Bitmap (Sylar/DataStructure/bitmap.cc) against `get`: its loop over `uint64_t`s, and the whole.
use my_sylar_server.Base.{
  ℕ, zero, suc, ◌+◌, ◌-◌, ◌*◌, ◌/◌, ◌≤◌, ◌<◌, ◌≡◌, refl, sym, ap, ◌∙◌, List, [], ◌∷◌, ◌++◌, true,
  false, length, take, drop, ◌==◌, ==_iff, le→ltb, some, arith, Bool-cases, inl, inr, take_all,
  length-take, length-drop,
}
use my_sylar_server.Bitmap.{Bitmap}
use my_sylar_server.Bitmap.Combine.{IsWhole}
use my_sylar_server.Bitmap.Members.{
  members_from, members_from-append, At, first_word, next_words, none_left, walk_word_lem,
  no_members, walk_words_lem,
}
use my_sylar_server.Bitmap.Walk.{
  walk_word, walk_words, walk_each, walk_wide, all_zero, list_pos_asc,
}
use my_sylar_server.Bitmap.Word.{ok, word_at}

word_at-take : (n : ℕ) (ws : List ℕ) (i : ℕ) → i < n → word_at (take n ws) i ≡ word_at ws i
word_at-take zero ws i h = absurd (omega arith)
word_at-take (suc n) [] i h = refl
word_at-take (suc n) (w ∷ ws) zero h = refl
word_at-take (suc n) (w ∷ ws) (suc i) h = word_at-take n ws i (omega arith)

word_at-drop : (n : ℕ) (ws : List ℕ) (i : ℕ) → word_at (drop n ws) i ≡ word_at ws (n + i)
word_at-drop zero ws i = ap (word_at ws) (omega arith)
word_at-drop (suc n) [] i = refl
word_at-drop (suc n) (w ∷ ws) i =
    let there : suc n + i ≡ suc (n + i) = omega arith in rw there (word_at-drop n ws i)

walk_each_step :
    (size w p q end : ℕ) (ws pos more : List ℕ)
    → (walk_word 14 size 0 w p).0 ≡ pos
    → (walk_word 14 size 0 w p).1 ≡ q
    → (walk_each size ws q).0 ≡ more
    → (walk_each size ws q).1 ≡ end
    → ((walk_each size (w ∷ ws) p).0 ≡ pos ++ more) × ((walk_each size (w ∷ ws) p).1 ≡ end)
unfolding walk_each
walk_each_step size w p q end ws pos more e f g h =
    (rw (walk_each, e, f, g) refl, rw (walk_each, f, h) refl)

walk_each_empty : (size p : ℕ) → walk_each size [] p ≡ ([], p)
unfolding walk_each
walk_each_empty size p = refl

walk_wide_end : (size p : ℕ) (ws : List ℕ) → walk_wide 0 size ws p ≡ some (walk_words size ws p)
unfolding walk_wide
walk_wide_end size p ws = refl

walk_wide_pass :
    (rounds size p : ℕ) (ws : List ℕ)
    → 4 ≤ length ws
    → all_zero (take 4 ws) ≡ true
    → walk_wide (suc rounds) size ws p ≡ walk_wide rounds size (drop 4 ws) (p + 56)
unfolding walk_wide
walk_wide_pass rounds size p ws there h = rw (walk_wide, le→ltb (length ws) 4 there, h) refl

walk_wide_step :
    (rounds size p q end : ℕ) (ws pos more : List ℕ)
    → 4 ≤ length ws
    → all_zero (take 4 ws) ≡ false
    → (walk_each size (take 4 ws) p).0 ≡ pos
    → (walk_each size (take 4 ws) p).1 ≡ q
    → walk_wide rounds size (drop 4 ws) q ≡ some (more, end)
    → walk_wide (suc rounds) size ws p ≡ some (pos ++ more, end)
unfolding walk_wide
walk_wide_step rounds size p q end ws pos more there h e f g =
    let walked : walk_wide rounds size (drop 4 ws) (walk_each size (take 4 ws) p).1
        ≡ some (more, end) =
      rw f g in
    rw (walk_wide, le→ltb (length ws) 4 there, h, walked, e) refl

all_zero_head : (w : ℕ) (ws : List ℕ) → all_zero (w ∷ ws) ≡ true → (w ≡ 0) × (all_zero ws ≡ true)
all_zero_head w ws h = elim (Bool-cases (w == 0)) [
  | inl e ↦ ((==_iff w 0).0 e, rw e at h)
  | inr n ↦ cc (rw n at h)
]

module _ (b : Bitmap) where
  all_zero_lem :
      (ws : List ℕ) (k p c : ℕ)
      → p ≡ 14 * k
      → c ≡ 14 * length ws
      → all_zero ws ≡ true
      → At b k ws
      → members_from c p b ≡ []
  all_zero_lem [] k p c e f z h = none_left b c p (omega arith)
  all_zero_lem (w ∷ ws) k p c e f z h =
      let (first, others) = all_zero_head w ws z in
      let here =
        no_members b 14 0 k p (omega arith) (omega arith) (first_word b k w ws h ∙ ap ok first) in
      let rest =
        all_zero_lem ws (suc k) (p + 14) (c - 14) (omega arith) (omega arith) others
          (next_words b k w ws h) in
      members_from-append 14 (c - 14) c p (p + 14) b (omega arith) refl ∙ rw (here, rest) refl

  walk_each_lem :
      (size : ℕ) (ws : List ℕ) (k p c : ℕ)
      → p ≡ 14 * k
      → c ≡ 14 * length ws
      → p + c ≤ size
      → At b k ws
      → ((walk_each size ws p).0 ≡ members_from c p b) × ((walk_each size ws p).1 ≡ p + c)
  walk_each_lem size [] k p c e f room h = (
    ap (λ (t : List ℕ × ℕ). t.0) (walk_each_empty size p) ∙ sym (none_left b c p (omega arith)),
    ap (λ (t : List ℕ × ℕ). t.1) (walk_each_empty size p) ∙ omega arith,
  )
  walk_each_lem size (w ∷ ws) k p c e f room h =
      let (here, end) =
        walk_word_lem b 14 0 k w size p 14 (omega arith) (omega arith) (omega arith)
          (first_word b k w ws h) in
      let (rest, last) =
        walk_each_lem size ws (suc k) (p + 14) (c - 14) (omega arith) (omega arith) (omega arith)
          (next_words b k w ws h) in
      let step =
        walk_each_step size w p (p + 14) (p + 14 + (c - 14)) ws (members_from 14 p b)
          (members_from (c - 14) (p + 14) b) here end rest last in
      (
        step.0 ∙ sym (members_from-append 14 (c - 14) c p (p + 14) b (omega arith) refl),
        step.1 ∙ omega arith,
      )

  front_At : (k : ℕ) (ws : List ℕ) → At b k ws → At b k (take 4 ws)
  unfolding At
  front_At k ws h i less =
      word_at-take 4 ws i (omega (arith, length-take 4 ws)) ∙ h i (omega (arith, length-take 4 ws))

  back_At : (k : ℕ) (ws : List ℕ) → At b k ws → At b (k + 4) (drop 4 ws)
  unfolding At
  back_At k ws h i less =
      let there : k + (4 + i) ≡ k + 4 + i = omega arith in
      word_at-drop 4 ws i ∙ rw there at (h (4 + i) (omega (arith, length-drop 4 ws)))

  walk_wide_lem :
      (rounds size : ℕ) (ws : List ℕ) (k p c : ℕ)
      → p ≡ 14 * k
      → c ≡ size - p
      → p + 56 * rounds ≤ size
      → size ≤ 14 * (k + length ws)
      → At b k ws
      → (end : ℕ) × (walk_wide rounds size ws p ≡ some (members_from c p b, end))
  walk_wide_lem zero size ws k p c e f wide room h = (
    (walk_words size ws p).1,
    walk_wide_end size p ws
        ∙ ap (λ (t : List ℕ). some (t, (walk_words size ws p).1))
            (walk_words_lem b size ws k p c e f room h),
  )
  walk_wide_lem (suc rounds) size ws k p c e f wide room h =
      let four : length (take 4 ws) ≡ 4 = omega (arith, length-take 4 ws) in
      let there : 4 ≤ length ws = omega arith in
      let (last, rest) =
        walk_wide_lem rounds size (drop 4 ws) (k + 4) (p + 56) (c - 56) (omega arith) (omega arith)
          (omega arith) (omega (arith, length-drop 4 ws)) (back_At k ws h) in
      let parts = members_from-append 56 (c - 56) c p (p + 56) b (omega arith) refl in
      elim (Bool-cases (all_zero (take 4 ws))) [
        | inl z ↦
            let empty =
              all_zero_lem (take 4 ws) k p 56 e (omega (arith, four)) z (front_At k ws h) in
            (
              last,
              walk_wide_pass rounds size p ws there z
                  ∙ rest
                  ∙ ap (λ (t : List ℕ). some (t, last))
                      (sym
                        (parts ∙ ap (λ (t : List ℕ). t ++ members_from (c - 56) (p + 56) b) empty)),
            )
        | inr nz ↦
            let (here, end) =
              walk_each_lem size (take 4 ws) k p 56 e (omega (arith, four)) (omega arith)
                (front_At k ws h) in
            (
              last,
              walk_wide_step rounds size p (p + 56) last ws (members_from 56 p b)
                    (members_from (c - 56) (p + 56) b) there nz here end rest
                  ∙ ap (λ (t : List ℕ). some (t, last)) (sym parts),
            )
      ]

  -- On an uncompressed bitmap with all its words `listPosAsc` ends and lists the numbers below the size that `get` finds, each
  -- once and in rising order.
  pub list_pos_asc_lem : IsWhole b → list_pos_asc b ≡ some (members_from b.size 0 b)
  unfolding list_pos_asc At
  list_pos_asc_lem w =
      let all : take b.data_size b.words ≡ b.words =
        take_all b.data_size b.words (omega (arith, w.filled)) in
      let (end, walked) =
        walk_wide_lem (b.size / 56) b.size b.words 0 0 b.size (omega arith) (omega arith)
          (omega arith) (omega (arith, w.filled, w.counted))
          (λ i less. ap (word_at b.words) (omega arith)) in
      rw (list_pos_asc, all, walked)
