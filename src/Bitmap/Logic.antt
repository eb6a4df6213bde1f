-- ===== src/Bitmap/Logic.antt =====
-- The operators of Bitmap (Sylar/DataStructure/bitmap.cc) on uncompressed bitmaps, word by word: a loop over
-- `uint64_t`s, each of which is four words, and a loop over the words that are left. A bitwise
-- operation on a `uint64_t` is the operation on each of its four words.
use my_sylar_server.Base.{
  ℕ, zero, suc, ◌/◌, ◌*◌, List, [], ◌∷◌, ◌++◌, Bool, true, false, ◌||◌, take, drop, if◌then◌else◌,
}
use my_sylar_server.Bitmap.{Bitmap}
use my_sylar_server.Bitmap.Word.{
  Result, ok, overrun, ◌>>=◌, mask_and, mask_or, not_word, nonzero, u64_value_size, value_mask,
  compress_mask, count_mask,
}

-- The second loop: words of both bitmaps, as far as the first goes. The second's memory may not end
-- before.
unfoldable pub zip_words : (ℕ → ℕ → ℕ) → List ℕ → List ℕ → Result (List ℕ)
zip_words op [] ys = ok []
zip_words op (a ∷ xs) [] = overrun
zip_words op (a ∷ xs) (b ∷ ys) = zip_words op xs ys >>= λ ws. ok (op a b ∷ ws)

-- The first loop, with `rounds` double words to go.
unfoldable pub zip_wide : (ℕ → ℕ → ℕ) → ℕ → List ℕ → List ℕ → Result (List ℕ)
unfolding zip_words
zip_wide op zero xs ys = zip_words op xs ys
zip_wide op (suc rounds) (a ∷ b ∷ c ∷ d ∷ xs) (w ∷ x ∷ y ∷ z ∷ ys) =
    zip_wide op rounds xs ys >>= λ ws. ok (op a w ∷ op b x ∷ op c y ∷ op d z ∷ ws)
zip_wide op (suc rounds) xs ys = overrun

-- `&=` and `|=` of two uncompressed bitmaps of one size
unfoldable pub zip_bitmaps : (ℕ → ℕ → ℕ) → Bitmap → Bitmap → Result Bitmap
unfolding zip_wide
zip_bitmaps op a b = do
  ws ← zip_wide op (a.size / u64_value_size) (take a.data_size a.words) b.words
  ok (record a { words = ws })

-- `operator~`: every word of an uncompressed bitmap is complemented; in a compressed one a run
-- changes its value and a word its members.
unfoldable pub not_run : ℕ → ℕ
not_run cur =
    if nonzero (mask_and cur compress_mask)
    then (if nonzero (mask_and cur value_mask)
        then mask_and cur (not_word value_mask)
        else mask_or cur value_mask)
    else mask_and (not_word cur) count_mask

unfoldable pub map_words : (ℕ → ℕ) → List ℕ → List ℕ
map_words f [] = []
map_words f (w ∷ ws) = f w ∷ map_words f ws

-- The first loop of `~` runs over `m_size / U64_VALUE_SIZE` double words, the second over the rest.
unfoldable pub complement : Bitmap → Bitmap
unfolding map_words not_run
complement b = record b {
  words =
      if b.compress
      then map_words not_run (take b.data_size b.words)
      else map_words not_word (take (b.size / u64_value_size * 4) b.words)
        ++ map_words not_word (drop (b.size / u64_value_size * 4) (take b.data_size b.words));
}

-- `normalCross`: a common member, in the first loop and in the second.
unfoldable pub cross_words : List ℕ → List ℕ → Result Bool
cross_words [] ys = ok false
cross_words (a ∷ xs) [] = overrun
cross_words (a ∷ xs) (b ∷ ys) = elim (nonzero (mask_and a b)) [
  | true ↦ ok true
  | false ↦ cross_words xs ys
]

unfoldable pub normal_cross : ℕ → List ℕ → List ℕ → Result Bool
unfolding cross_words
normal_cross zero xs ys = cross_words xs ys
normal_cross (suc rounds) (a ∷ b ∷ c ∷ d ∷ xs) (w ∷ x ∷ y ∷ z ∷ ys) =
    elim (nonzero (mask_and a w)
      || nonzero (mask_and b x)
      || nonzero (mask_and c y)
      || nonzero (mask_and d z)) [ true ↦ ok true | false ↦ normal_cross rounds xs ys ]
normal_cross (suc rounds) xs ys = overrun
