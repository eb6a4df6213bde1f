-- ===== src/Bitmap/Walk.antt =====
-- The walks of Bitmap (Sylar/DataStructure/bitmap.cc) over its members: `listPosAsc`, `foreach` and
-- `getCount`. The first loop of `listPosAsc` reads four words for each 56 members of the size: where
-- there are fewer, it reads behind the memory, and the result is `none`.
use my_sylar_server.Base.{
  ℕ, zero, suc, ◌+◌, ◌/◌, Option, none, some, List, [], ◌∷◌, ◌++◌, Bool, true, false, ◌&&◌, take,
  drop, length, ltb, ◌==◌, if◌then◌else◌,
}
use my_sylar_server.Bitmap.{Bitmap}
use my_sylar_server.Bitmap.Word.{
  value_size, u64_value_size, bit_at, nonzero, mask_and, count_bits, count_mask, compress_mask,
  value_mask,
}

-- The inner loop: the bits of a word from bit `n` on, while `cur_pos < m_size`. It gives the members
-- and the new `cur_pos`.
unfoldable pub walk_word : ℕ → ℕ → ℕ → ℕ → ℕ → List ℕ × ℕ
walk_word zero size n w cur_pos = ([], cur_pos)
walk_word (suc rounds) size n w cur_pos = elim (ltb cur_pos size) [
  | false ↦ ([], cur_pos)
  | true ↦
      let (pos, end) = walk_word rounds size (suc n) w (suc cur_pos) in
      (if bit_at w n then cur_pos ∷ pos else pos, end)
]

-- The second loop of `listPosAsc`, over words; a word of zeros is passed over.
unfoldable pub walk_words : ℕ → List ℕ → ℕ → List ℕ × ℕ
unfolding walk_word
walk_words size [] cur_pos = ([], cur_pos)
walk_words size (w ∷ ws) cur_pos = elim (nonzero w) [
  | false ↦ walk_words size ws (cur_pos + value_size)
  | true ↦
      let (pos, next) = walk_word value_size size 0 w cur_pos in
      let (more, end) = walk_words size ws next in (pos ++ more, end)
]

-- The words of one `uint64_t`, none of which is passed over.
unfoldable pub walk_each : ℕ → List ℕ → ℕ → List ℕ × ℕ
unfolding walk_word
walk_each size [] cur_pos = ([], cur_pos)
walk_each size (w ∷ ws) cur_pos =
    let (pos, next) = walk_word value_size size 0 w cur_pos in
    let (more, end) = walk_each size ws next in (pos ++ more, end)

abbrev pub all_zero : List ℕ → Bool
all_zero [] = true
all_zero (w ∷ ws) = (w == 0) && all_zero ws

-- The first loop of `listPosAsc`, over `uint64_t`s.
unfoldable pub walk_wide : ℕ → ℕ → List ℕ → ℕ → Option (List ℕ × ℕ)
unfolding walk_each walk_words
walk_wide zero size ws cur_pos = some (walk_words size ws cur_pos)
walk_wide (suc rounds) size ws cur_pos = elim (ltb (length ws) 4) [
  | true ↦ none
  | false ↦ elim (all_zero (take 4 ws)) [
    | true ↦ walk_wide rounds size (drop 4 ws) (cur_pos + u64_value_size)
    | false ↦
        let (pos, next) = walk_each size (take 4 ws) cur_pos in
        elim (walk_wide rounds size (drop 4 ws) next) [
          | none ↦ none
          | some (more, end) ↦ some (pos ++ more, end)
        ]
  ]
]

unfoldable pub list_pos_asc : Bitmap → Option (List ℕ)
unfolding walk_wide
list_pos_asc b = elim (walk_wide (b.size / u64_value_size) b.size (take b.data_size b.words) 0) [
  | none ↦ none
  | some (pos, end) ↦ some pos
]

abbrev pub sum_bits : List ℕ → ℕ
sum_bits [] = 0
sum_bits (w ∷ ws) = count_bits 16 w + sum_bits ws

-- `getCount` of an uncompressed bitmap: the bits of each `uint64_t`, and then the members of the words
-- that are left.
unfoldable pub count_wide : ℕ → ℕ → List ℕ → ℕ → ℕ
unfolding walk_words
count_wide zero size ws cur_pos = length (walk_words size ws cur_pos).0
count_wide (suc rounds) size ws cur_pos =
    sum_bits (take 4 ws) + count_wide rounds size (drop 4 ws) (cur_pos + u64_value_size)

-- `getCount` of a compressed bitmap: each digit of a run of ones counts for itself.
unfoldable pub count_runs : List ℕ → ℕ
count_runs [] = 0
count_runs (w ∷ ws) =
    (if nonzero (mask_and w compress_mask)
      then (if nonzero (mask_and w value_mask) then mask_and w count_mask else 0)
      else count_bits 16 w)
    + count_runs ws

unfoldable pub get_count : Bitmap → ℕ
unfolding count_wide count_runs
get_count b =
    if b.compress
    then count_runs (take b.data_size b.words)
    else count_wide (b.data_size / 4) b.size (take b.data_size b.words) 0
