-- ===== src/Bitmap/RoundTrip.antt =====
-- `compress` and `uncompress` of Bitmap (Sylar/DataStructure/bitmap.cc) undo each other.
use native.Mathlib.Nat.{mod-eq_of_lt}
use my_sylar_server.Base.{
  ℕ, zero, suc, ◌+◌, ◌-◌, ◌*◌, ◌/◌, ◌%◌, ◌^◌, ◌≤◌, ◌<◌, ◌≡◌, refl, sym, ap, ◌∙◌, List, [], ◌∷◌,
  ◌++◌, none, Bool, true, false, arith, ◌==◌, length, take, drop, replicate, append_assoc,
  append-nil, set, take_all, length-replicate, length-drop, ltb, lt→ltb, length-append, drop_all,
}
use my_sylar_server.Base.Slices.{drop-drop}
use my_sylar_server.Bitmap.{Bitmap, bitmap, words_for, fill_words, set_range}
use my_sylar_server.Bitmap.Word.{ok, word_at, put_word}
use my_sylar_server.Bitmap.Runs.{
  Run, fill, word, read_runs, compressed, uncompress_loop, uncompress, compress_loop,
}
use my_sylar_server.Bitmap.Compress.{Members, Means, value_word, compress_loop_lem}

-- Writing behind a front of the memory.
word_at-front : (front tail : List ℕ) (x : ℕ) → word_at (front ++ x ∷ tail) (length front) ≡ ok x
word_at-front [] tail x = refl
word_at-front (y ∷ front) tail x = word_at-front front tail x

set-front {ℓ} :
    {A : Type ℓ} (front tail : List A) (x w : A)
    → set (front ++ x ∷ tail) (length front) w ≡ front ++ w ∷ tail
set-front [] tail x w = refl
set-front (y ∷ front) tail x w = ap (◌∷◌ y) (set-front front tail x w)

put_word-front :
    (front tail : List ℕ) (x w : ℕ)
    → put_word (front ++ x ∷ tail) (length front) w ≡ ok (front ++ w ∷ tail)
put_word-front front tail x w =
    let there : ltb (length front) (length (front ++ x ∷ tail)) ≡ true =
      lt→ltb (length front) _ (omega (arith, length-append front (x ∷ tail))) in
    rw there (ap ok (set-front front tail x w))

push-length : {A : Type 0} (front : List A) (w : A) → length (front ++ w ∷ []) ≡ suc (length front)
push-length front w = omega (arith, length-append front (w ∷ []))

-- The loop of `set(from, size, v)` writes a run of words.
fill_words-front :
    (rounds i w : ℕ) (front tail words : List ℕ)
    → i ≡ length front
    → words ≡ front ++ tail
    → rounds ≤ length tail
    → fill_words rounds i w words ≡ ok (front ++ (replicate rounds w ++ drop rounds tail))
unfolding fill_words
fill_words-front zero i w front tail words at e h = ap ok e
fill_words-front (suc rounds) i w front [] words at e h = absurd (omega arith)
fill_words-front (suc rounds) i w front (x ∷ tail) words at e h =
    rw (at, e, put_word-front front tail x w)
      (fill_words-front rounds (suc (length front)) w (front ++ w ∷ []) tail (front ++ w ∷ tail)
          (sym (push-length front w)) (sym (append_assoc front (w ∷ []) tail)) (omega arith)
        ∙ ap ok (append_assoc front (w ∷ []) (replicate rounds w ++ drop rounds tail)))

set_range-front :
    (m pos c : ℕ) (v : Bool) (front tail words : List ℕ) (b : Bitmap)
    → pos ≡ 14 * length front
    → c ≡ 14 * m
    → words ≡ front ++ tail
    → m ≤ length tail
    → 14 * (length front + length tail) < 2 ^ 32
    → set_range pos c v (record b { words = words })
      ≡ ok (record b { words = front ++ (replicate m (value_word v) ++ drop m tail) })
unfolding set_range
set_range-front zero pos c v front tail words b at count e h fits =
    rw count (ap (λ (ws : List ℕ). ok (record b { words = ws })) e)
set_range-front (suc m) pos c v front tail words b at count e h fits =
    let some_size : (c == 0) ≡ false = ground arith in
    let whole : (pos + c) % 2 ^ 32 ≡ pos + c = mod-eq_of_lt (omega arith) in
    let start : (pos % 14 == 0) ≡ true = ground arith in
    let end : ((pos + c) % 14 == 0) ≡ true = ground arith in
    let rounds : (pos + c) / 14 - pos / 14 ≡ suc m = omega arith in
    rw (some_size, whole, start, end, rounds)
      (rw (fill_words-front (suc m) (pos / 14) (value_word v) front tail words (omega arith) e h))

join_run :
    (m : ℕ) (run tail us us' : List ℕ)
    → us ≡ run ++ us'
    → length us ≡ m + length us'
    → run ++ (us' ++ drop (length us') (drop m tail)) ≡ us ++ drop (length us) tail
join_run m run tail us us' is sizes =
    let rest = drop (length us') (drop m tail) in
    let there : rest ≡ drop (length us) tail =
      drop-drop (length us') m tail ∙ ap (λ (k : ℕ). drop k tail) (sym sizes) in
    sym (append_assoc run us' rest)
    ∙ ap (λ (t : List ℕ). t ++ rest) (sym is)
    ∙ ap (λ (t : List ℕ). us ++ t) there

-- Runs are written as the words that they stand for.
write_runs :
    (rs : List Run) (pos : ℕ) (front tail us words : List ℕ) (b : Bitmap)
    → pos ≡ 14 * length front
    → words ≡ front ++ tail
    → Means rs us
    → length us ≤ length tail
    → 14 * (length front + length tail) < 2 ^ 32
    → uncompress_loop pos rs (record b { words = words })
      ≡ ok (record b { words = front ++ (us ++ drop (length us) tail) })
unfolding uncompress_loop
write_runs [] pos front tail us words b at e h room fits =
    rw h (ap (λ (ws : List ℕ). ok (record b { words = ws })) e)
write_runs (word w ∷ rs) pos front [] us words b at e (us', is, h) room fits =
    absurd (omega (arith, ap length is))
write_runs (word w ∷ rs) pos front (x ∷ tail) us words b at e (us', is, h) room fits =
    let i : pos / 14 ≡ length front = omega arith in
    let sizes : length us ≡ suc (length us') = ap length is in
    let next : (pos + 14) % 2 ^ 32 ≡ pos + 14 = mod-eq_of_lt (omega arith) in
    rw (e, i, word_at-front front tail x, put_word-front front tail x w, is, next)
      (write_runs rs (pos + 14) (front ++ w ∷ []) tail us' (front ++ w ∷ tail) b
          (omega (arith, push-length front w)) (sym (append_assoc front (w ∷ []) tail)) h
          (omega arith) (omega (arith, push-length front w))
        ∙ ap (λ (ws : List ℕ). ok (record b { words = ws }))
            (append_assoc front (w ∷ []) (us' ++ drop (length us') tail)))
write_runs (fill c v ∷ rs) pos front tail us words b at e (m, us', count, is, h) room fits =
    let run = replicate m (value_word v) in
    let sizes : length us ≡ m + length us' =
      omega (arith, ap length is, length-append run us', length-replicate m (value_word v)) in
    let left : length (drop m tail) ≡ length tail - m = length-drop m tail in
    let front_size : length (front ++ run) ≡ length front + m =
      omega (arith, length-append front run, length-replicate m (value_word v)) in
    let next : (pos + c) % 2 ^ 32 ≡ pos + c = mod-eq_of_lt (omega arith) in
    rw (set_range-front m pos c v front tail words b at count e (omega arith) fits, next)
      (write_runs rs (pos + c) (front ++ run) (drop m tail) us' (front ++ (run ++ drop m tail)) b
          (omega arith) (sym (append_assoc front run (drop m tail))) h (omega arith) (omega arith)
        ∙ ap (λ (ws : List ℕ). ok (record b { words = ws }))
            (append_assoc front run (us' ++ drop (length us') (drop m tail))
              ∙ ap (λ (t : List ℕ). front ++ t) (join_run m run tail us us' is sizes)))

-- A bitmap that is not compressed and holds members only, with all its words.
pub record IsPlain (b : Bitmap) : Type 0 where
  pub plain : b.compress ≡ false
  pub counted : b.data_size ≡ words_for b.size
  pub filled : length b.words ≡ b.data_size
  pub bounded : b.size + 14 ≤ 2 ^ 32
  pub members : Members b.words

-- `uncompress` gives back every plain bitmap from its compressed form.
pub uncompress-compressed : (b : Bitmap) → IsPlain b → uncompress (compressed b) ≡ ok b
unfolding uncompress compressed bitmap
uncompress-compressed b p =
    let out = compress_loop false 0 b.words in
    let all : take b.data_size b.words ≡ b.words =
      take_all b.data_size b.words (omega (arith, p.filled)) in
    let zeros = replicate (words_for b.size) 0 in
    let size : length zeros ≡ length b.words =
      length-replicate (words_for b.size) 0 ∙ sym p.counted ∙ sym p.filled in
    let none_left : drop (length b.words) zeros ≡ [] =
      drop_all (length b.words) zeros (omega (arith, size)) in
    let written =
      write_runs (read_runs none out) 0 [] zeros b.words zeros
        (record { compress = false; size = b.size; data_size = words_for b.size; words = zeros })
        (omega arith) refl
        (compress_loop_lem false 0 b.words p.members
          (omega (arith, p.filled, p.counted, p.bounded)))
        (omega (arith, size)) (omega (arith, size, p.filled, p.counted, p.bounded)) in
    let form : compressed b
        ≡ record { compress = true; size = b.size; data_size = length out; words = out } =
      rw (compressed, p.plain, all) refl in
    ap uncompress form
    ∙ (rw (uncompress, take_all (length out) out (omega arith)) written)
    ∙ ap
        (λ (ws : List ℕ).
          ok (record { compress = false; size = b.size; data_size = words_for b.size; words = ws }))
        (ap (λ (ws : List ℕ). b.words ++ ws) none_left ∙ append-nil b.words)
    ∙ (λ i. ok (record {
      compress = sym p.plain i;
      size = b.size;
      data_size = sym p.counted i;
      words = b.words;
    }))
