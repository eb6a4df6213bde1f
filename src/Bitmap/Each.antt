-- ===== src/Bitmap/Each.antt =====
-- `foreach` of Bitmap (Sylar/DataStructure/bitmap.cc): its loops, with a callback that may stop them.
-- The callback is a function on a state `S` that also says whether to go on. A loop gives the state,
-- and its `cur_pos` unless the callback has stopped it.
use my_sylar_server.Base.{
  ℕ, zero, suc, ◌+◌, ◌/◌, ◌≡◌, refl, ap, ◌∙◌, List, [], ◌∷◌, ◌++◌, Option, none, some, Bool, true,
  false, take, drop, ltb, length, Option-cases, Bool-cases, inl, inr, arith,
}
use my_sylar_server.Bitmap.{Bitmap}
use my_sylar_server.Bitmap.Word.{value_size, u64_value_size, bit_at, nonzero}
use my_sylar_server.Bitmap.Walk.{
  walk_word, walk_words, walk_each, walk_wide, all_zero, list_pos_asc,
}

module _ {S : Type 0} where
  abbrev pub go_on : S × Option ℕ → (ℕ → S → S × Option ℕ) → S × Option ℕ
  go_on (s, none) f = (s, none)
  go_on (s, some p) f = f p s

  -- The same before a loop that may read behind the memory.
  abbrev pub go_on_wide : S × Option ℕ → (ℕ → S → Option (S × Option ℕ)) → Option (S × Option ℕ)
  go_on_wide (s, none) f = some (s, none)
  go_on_wide (s, some p) f = f p s

  module _ (cb : ℕ → S → S × Bool) where
    unfoldable pub each_word : ℕ → ℕ → ℕ → ℕ → ℕ → S → S × Option ℕ
    each_word zero size n w cur_pos s = (s, some cur_pos)
    each_word (suc rounds) size n w cur_pos s = elim (ltb cur_pos size) [
      | false ↦ (s, some cur_pos)
      | true ↦ elim (bit_at w n) [
        | false ↦ each_word rounds size (suc n) w (suc cur_pos) s
        | true ↦
            let (s', more) = cb cur_pos s in
            elim more [
              | false ↦ (s', none)
              | true ↦ each_word rounds size (suc n) w (suc cur_pos) s'
            ]
      ]
    ]

    -- The second loop, over words.
    unfoldable pub each_words : ℕ → List ℕ → ℕ → S → S × Option ℕ
    unfolding each_word
    each_words size [] cur_pos s = (s, some cur_pos)
    each_words size (w ∷ ws) cur_pos s = elim (nonzero w) [
      | false ↦ each_words size ws (cur_pos + value_size) s
      | true ↦ go_on (each_word value_size size 0 w cur_pos s) (each_words size ws)
    ]

    -- The words of one `uint64_t`.
    unfoldable pub each_part : ℕ → List ℕ → ℕ → S → S × Option ℕ
    unfolding each_word
    each_part size [] cur_pos s = (s, some cur_pos)
    each_part size (w ∷ ws) cur_pos s =
        go_on (each_word value_size size 0 w cur_pos s) (each_part size ws)

    -- The first loop, over `uint64_t`s, and then the second.
    unfoldable pub each_wide : ℕ → ℕ → List ℕ → ℕ → S → Option (S × Option ℕ)
    unfolding each_part each_words
    each_wide zero size ws cur_pos s = some (each_words size ws cur_pos s)
    each_wide (suc rounds) size ws cur_pos s = elim (ltb (length ws) 4) [
      | true ↦ none
      | false ↦ elim (all_zero (take 4 ws)) [
        | true ↦ each_wide rounds size (drop 4 ws) (cur_pos + u64_value_size) s
        | false ↦
            go_on_wide (each_part size (take 4 ws) cur_pos s) (each_wide rounds size (drop 4 ws))
      ]
    ]

    unfoldable pub foreach : Bitmap → S → Option S
    unfolding each_wide
    foreach b s = elim (each_wide (b.size / u64_value_size) b.size (take b.data_size b.words) 0 s) [
      | none ↦ none
      | some (s', end) ↦ some s'
    ]

    -- What calls of the callback for a list of members do.
    unfoldable pub feed : List ℕ → S → S × Bool
    feed [] s = (s, true)
    feed (x ∷ xs) s =
        let (s', more) = cb x s in elim more [ false ↦ (s', false) | true ↦ feed xs s' ]

    -- A loop that feeds the members of a walk and ends where the walk ends.
    abbrev ended : S × Bool → ℕ → S × Option ℕ
    ended (s, true) e = (s, some e)
    ended (s, false) e = (s, none)

    feed-append :
        (xs ys : List ℕ) (e f : ℕ) (s : S)
        → go_on (ended (feed xs s) e) (λ _ s'. ended (feed ys s') f) ≡ ended (feed (xs ++ ys) s) f
    unfolding feed
    feed-append [] ys e f s = refl
    feed-append (x ∷ xs) ys e f s = ground (arith, feed-append xs ys e f (cb x s).0)

    each_word_lem :
        (rounds size n w p : ℕ) (s : S)
        → each_word rounds size n w p s
          ≡ ended (feed (walk_word rounds size n w p).0 s) (walk_word rounds size n w p).1
    unfolding each_word walk_word feed
    each_word_lem zero size n w p s = refl
    each_word_lem (suc rounds) size n w p s = ground (
      arith,
      each_word_lem rounds size (suc n) w (suc p) s,
      each_word_lem rounds size (suc n) w (suc p) (cb p s).0,
    )

    -- The steps of a loop: a walk and then the rest, if the callback goes on.
    go_on_lem :
        (first : S × Option ℕ) (xs ys : List ℕ) (e f : ℕ) (s : S) (rest : ℕ → S → S × Option ℕ)
        → first ≡ ended (feed xs s) e
        → ((s' : S) → rest e s' ≡ ended (feed ys s') f)
        → go_on first rest ≡ ended (feed (xs ++ ys) s) f
    go_on_lem first xs ys e f s rest h k =
        ap (λ (t : S × Option ℕ). go_on t rest) h ∙ behind (feed xs s) ∙ feed-append xs ys e f s
      where
        behind :
            (t : S × Bool)
            → go_on (ended t e) rest ≡ go_on (ended t e) (λ _ s'. ended (feed ys s') f)
        behind (s', true) = k s'
        behind (s', false) = refl

    each_words_lem :
        (size : ℕ) (ws : List ℕ) (p : ℕ) (s : S)
        → each_words size ws p s ≡ ended (feed (walk_words size ws p).0 s) (walk_words size ws p).1
    unfolding each_words walk_words feed
    each_words_lem size [] p s = refl
    each_words_lem size (w ∷ ws) p s = elim (Bool-cases (nonzero w)) [
      | inr h ↦ rw (each_words, walk_words, h) (each_words_lem size ws (p + value_size) s)
      | inl h ↦
          let first = walk_word value_size size 0 w p in
          rw (each_words, walk_words, h)
            (go_on_lem (each_word value_size size 0 w p s) first.0 (walk_words size ws first.1).0
              first.1 (walk_words size ws first.1).1 s (each_words size ws)
              (each_word_lem value_size size 0 w p s) (each_words_lem size ws first.1))
    ]

    each_part_lem :
        (size : ℕ) (ws : List ℕ) (p : ℕ) (s : S)
        → each_part size ws p s ≡ ended (feed (walk_each size ws p).0 s) (walk_each size ws p).1
    unfolding each_part walk_each feed
    each_part_lem size [] p s = refl
    each_part_lem size (w ∷ ws) p s =
        let first = walk_word value_size size 0 w p in
        go_on_lem (each_word value_size size 0 w p s) first.0 (walk_each size ws first.1).0 first.1
          (walk_each size ws first.1).1 s (each_part size ws)
          (each_word_lem value_size size 0 w p s) (each_part_lem size ws first.1)

    -- The same before a loop that ends.
    go_on_wide_lem :
        (first : S × Option ℕ) (xs ys : List ℕ) (e f : ℕ) (s : S)
        (rest : ℕ → S → Option (S × Option ℕ))
        → first ≡ ended (feed xs s) e
        → ((s' : S) → rest e s' ≡ some (ended (feed ys s') f))
        → go_on_wide first rest ≡ some (ended (feed (xs ++ ys) s) f)
    go_on_wide_lem first xs ys e f s rest h k =
        ap (λ (t : S × Option ℕ). go_on_wide t rest) h
        ∙ behind (feed xs s)
        ∙ ap (λ (t : S × Option ℕ). some t) (feed-append xs ys e f s)
      where
        behind :
            (t : S × Bool)
            → go_on_wide (ended t e) rest ≡ some (go_on (ended t e) (λ _ s'. ended (feed ys s') f))
        behind (s', true) = k s'
        behind (s', false) = refl

    each_wide_lem :
        (rounds size : ℕ) (ws : List ℕ) (p end : ℕ) (xs : List ℕ) (s : S)
        → walk_wide rounds size ws p ≡ some (xs, end)
        → each_wide rounds size ws p s ≡ some (ended (feed xs s) end)
    unfolding each_wide walk_wide
    each_wide_lem zero size ws p end xs s walked =
        let same : walk_words size ws p ≡ (xs, end) = cc in
        ap (λ (t : S × Option ℕ). some t) (each_words_lem size ws p s)
        ∙ ap (λ (t : List ℕ × ℕ). some (ended (feed t.0 s) t.1)) same
    each_wide_lem (suc rounds) size ws p end xs s walked = elim (Bool-cases (ltb (length ws) 4)) [
      | inl short ↦ cc (rw (walk_wide, short) at walked)
      | inr there ↦ elim (Bool-cases (all_zero (take 4 ws))) [
        | inl h ↦
            rw (each_wide, there, h)
              (each_wide_lem rounds size (drop 4 ws) (p + u64_value_size) end xs s
                (rw (walk_wide, there, h) at walked))
        | inr h ↦
            let first = walk_each size (take 4 ws) p in
            elim (Option-cases (walk_wide rounds size (drop 4 ws) first.1)) [
              | inl refused ↦ cc (rw (walk_wide, there, h, refused) at walked)
              | inr ((more, last), e) ↦
                  let same : (first.0 ++ more, last) ≡ (xs, end) =
                    cc (rw (walk_wide, there, h, e) at walked) in
                  rw (each_wide, there, h)
                    (go_on_wide_lem (each_part size (take 4 ws) p s) first.0 more first.1 last s
                        (each_wide rounds size (drop 4 ws)) (each_part_lem size (take 4 ws) p s)
                        (λ s'. each_wide_lem rounds size (drop 4 ws) first.1 last more s' e)
                      ∙ ap (λ (t : List ℕ × ℕ). some (ended (feed t.0 s) t.1)) same)
            ]
      ]
    ]

    ended_state : (t : S × Bool) (e : ℕ) → (ended t e).0 ≡ t.0
    ended_state (s, true) e = refl
    ended_state (s, false) e = refl

    -- Where `listPosAsc` reads only words that are there, `foreach` does so too, and calls the callback
    -- for the members listed, in that order, until it says to stop.
    pub foreach-list_pos_asc :
        (b : Bitmap) (xs : List ℕ) (s : S)
        → list_pos_asc b ≡ some xs
        → foreach b s ≡ some (feed xs s).0
    unfolding foreach list_pos_asc
    foreach-list_pos_asc b xs s listed =
        let ws = take b.data_size b.words in
        let rounds = b.size / u64_value_size in
        elim (Option-cases (walk_wide rounds b.size ws 0)) [
          | inl refused ↦ cc (rw (list_pos_asc, refused) at listed)
          | inr ((ys, end), e) ↦
              let same : ys ≡ xs = cc (rw (list_pos_asc, e) at listed) in
              rw (foreach, each_wide_lem rounds b.size ws 0 end ys s e)
                (ap (λ (t : S). some t) (ended_state (feed ys s) end)
                  ∙ ap (λ (t : List ℕ). some (feed t s).0) same)
        ]
