-- ===== src/Bitmap/Combine.antt =====
-- `&=` and `|=` of two uncompressed Bitmaps (Sylar/DataStructure/bitmap.cc), member by member.
use Prim.Native.Nat.{bit_and, bit_or}
use my_sylar_server.Base.{
  ℕ, zero, suc, ◌*◌, ◌/◌, ◌%◌, ◌≤◌, ◌≡◌, refl, sym, ap, ◌∙◌, List, [], ◌∷◌, Bool, true, false, ◌&&◌,
  ◌||◌, length, take, take_all, ◌==◌, ==_iff, subst, arith,
}
use my_sylar_server.Bitmap.{Bitmap, get, words_for}
use my_sylar_server.Bitmap.Bits.{bit_at_lem, bit-bit_and, bit-bit_or}
use my_sylar_server.Bitmap.Logic.{zip_words, zip_wide, zip_bitmaps}
use my_sylar_server.Bitmap.Runs.{and_assign, or_assign}
use my_sylar_server.Bitmap.Word.{
  Result, ok, ◌>>=◌, bit_at, mask_and, mask_or, word_at, u64_value_size,
}

abbrev pub both {ℓ} : {A : Type ℓ} → (A → A → A) → Result A → Result A → Result A
both op x y = x >>= λ a. y >>= λ b. ok (op a b)

-- A word for each pair of words.
record Zipped (op : ℕ → ℕ → ℕ) (xs ys : List ℕ) (r : Result (List ℕ)) : Type 0 where
  words : List ℕ
  returns : r ≡ ok words
  each : (i : ℕ) → word_at words i ≡ both op (word_at xs i) (word_at ys i)

module _ (op : ℕ → ℕ → ℕ) where
  zip_words-Zipped : (xs ys : List ℕ) → length xs ≡ length ys → Zipped op xs ys (zip_words op xs ys)
  unfolding zip_words
  zip_words-Zipped [] ys h = record { words = []; returns = refl; each = λ i. refl }
  zip_words-Zipped (x ∷ xs) [] h = absurd (omega arith)
  zip_words-Zipped (x ∷ xs) (y ∷ ys) h =
      let z = zip_words-Zipped xs ys (omega arith) in
      record { words = op x y ∷ z.words; returns = rw z.returns refl; each = at z }
    where
      at :
          (z : Zipped op xs ys (zip_words op xs ys)) (i : ℕ)
          → word_at (op x y ∷ z.words) i ≡ both op (word_at (x ∷ xs) i) (word_at (y ∷ ys) i)
      at z zero = refl
      at z (suc i) = z.each i

  four_more :
      (a b c d w x y z : ℕ) {xs ys : List ℕ} {r : Result (List ℕ)}
      → Zipped op xs ys r
      → Zipped op
          (a ∷ b ∷ c ∷ d ∷ xs)
          (w ∷ x ∷ y ∷ z ∷ ys)
          (r >>= λ ws. ok (op a w ∷ op b x ∷ op c y ∷ op d z ∷ ws))
  four_more a b c d w x y z {xs} {ys} {r} rest = record {
    words = op a w ∷ op b x ∷ op c y ∷ op d z ∷ rest.words;
    returns = rw rest.returns refl;
    each = at;
  }
    where
      at :
          (i : ℕ)
          → word_at (op a w ∷ op b x ∷ op c y ∷ op d z ∷ rest.words) i
            ≡ both op (word_at (a ∷ b ∷ c ∷ d ∷ xs) i) (word_at (w ∷ x ∷ y ∷ z ∷ ys) i)
      at zero = refl
      at (suc zero) = refl
      at (suc (suc zero)) = refl
      at (suc (suc (suc zero))) = refl
      at (suc (suc (suc (suc i)))) = rest.each i

  zip_wide-Zipped :
      (rounds : ℕ) (xs ys : List ℕ)
      → length xs ≡ length ys
      → 4 * rounds ≤ length xs
      → Zipped op xs ys (zip_wide op rounds xs ys)
  unfolding zip_wide
  zip_wide-Zipped zero xs ys h room = zip_words-Zipped xs ys h
  zip_wide-Zipped (suc rounds) (a ∷ b ∷ c ∷ d ∷ xs) (w ∷ x ∷ y ∷ z ∷ ys) h room =
      four_more a b c d w x y z (zip_wide-Zipped rounds xs ys (omega arith) (omega arith))
  zip_wide-Zipped (suc rounds) xs ys h room = absurd (omega arith)

-- An uncompressed bitmap with all its words.
pub record IsWhole (b : Bitmap) : Type 0 where
  pub plain : b.compress ≡ false
  pub counted : b.data_size ≡ words_for b.size
  pub filled : length b.words ≡ b.data_size

-- A bitmap whose members are made of the members of two others.
pub record Combined (op : Bool → Bool → Bool) (a b : Bitmap) (r : Result Bitmap) : Type 0 where
  pub after : Bitmap
  pub returns : r ≡ ok after
  pub whole : after.size ≡ a.size
  pub each : (j : ℕ) → get j after ≡ both op (get j a) (get j b)

module _ (op : ℕ → ℕ → ℕ) (on_bits : Bool → Bool → Bool) where
  -- What an operation on words does to their bits.
  abbrev Bitwise : Type 0
  Bitwise = (x y k : ℕ) → bit_at (op x y) k ≡ on_bits (bit_at x k) (bit_at y k)

  zip_bitmaps-Combined :
      Bitwise
      → (a b : Bitmap) → IsWhole a
      → IsWhole b
      → a.size ≡ b.size
      → Combined on_bits a b (zip_bitmaps op a b)
  unfolding zip_bitmaps get
  zip_bitmaps-Combined bits a b p q same =
      let all : take a.data_size a.words ≡ a.words =
        take_all a.data_size a.words (omega (arith, p.filled)) in
      let sizes : length a.words ≡ length b.words =
        p.filled ∙ p.counted ∙ ap words_for same ∙ sym q.counted ∙ sym q.filled in
      let z =
        zip_wide-Zipped op (a.size / u64_value_size) a.words b.words sizes
          (omega (arith, p.filled, p.counted)) in
      record {
        after = record a { words = z.words };
        returns = rw (all, z.returns) refl;
        whole = refl;
        each = λ j.
            rw (z.each (j / 14))
              (combine (j % 14) (word_at a.words (j / 14)) (word_at b.words (j / 14)));
      }
    where
      combine :
          (k : ℕ) (x y : Result ℕ)
          → (both op x y >>= λ w. ok (bit_at w k))
            ≡ both on_bits (x >>= λ w. ok (bit_at w k)) (y >>= λ w. ok (bit_at w k))
      combine k (ok x) (ok y) = ap ok (bits x y k)
      combine k (ok x) Result.logic_error = refl
      combine k (ok x) Result.assertion = refl
      combine k (ok x) Result.overrun = refl
      combine k Result.logic_error y = refl
      combine k Result.assertion y = refl
      combine k Result.overrun y = refl

mask_and-Bitwise : Bitwise mask_and (λ x y. x && y)
mask_and-Bitwise x y k =
    rw (bit_at_lem (bit_and x y) k, bit_at_lem x k, bit_at_lem y k, bit-bit_and k x y)
      (ground arith)

mask_or-Bitwise : Bitwise mask_or (λ x y. x || y)
mask_or-Bitwise x y k =
    rw (bit_at_lem (bit_or x y) k, bit_at_lem x k, bit_at_lem y k, bit-bit_or k x y) (ground arith)

module _ (a b : Bitmap) (p : IsWhole a) (q : IsWhole b) (same : a.size ≡ b.size) where
  -- `&=` of two uncompressed bitmaps of one size with all their words succeeds; each `get` of the result, inside and
  -- outside the words, is the `and` of the `get`s of both.
  pub and_assign-Combined : Combined (λ x y. x && y) a b (and_assign a b)
  unfolding and_assign
  and_assign-Combined =
      let same_size : (a.size == b.size) ≡ true = (==_iff a.size b.size).1 same in
      let plain : and_assign a b ≡ zip_bitmaps mask_and a b =
        rw (and_assign, same_size, p.plain, q.plain) refl in
      subst (Combined (λ x y. x && y) a b) (sym plain)
        (zip_bitmaps-Combined mask_and (λ x y. x && y) mask_and-Bitwise a b p q same)

  -- `|=` of two uncompressed bitmaps of one size with all their words succeeds; each `get` of the result, inside and
  -- outside the words, is the `or` of the `get`s of both.
  pub or_assign-Combined : Combined (λ x y. x || y) a b (or_assign a b)
  unfolding or_assign
  or_assign-Combined =
      let same_size : (a.size == b.size) ≡ true = (==_iff a.size b.size).1 same in
      let plain : or_assign a b ≡ zip_bitmaps mask_or a b =
        rw (or_assign, same_size, p.plain, q.plain) refl in
      subst (Combined (λ x y. x || y) a b) (sym plain)
        (zip_bitmaps-Combined mask_or (λ x y. x || y) mask_or-Bitwise a b p q same)
