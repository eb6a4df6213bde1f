-- ===== src/Bitmap/Runs.antt =====
-- The compressed form of Bitmap (Sylar/DataStructure/bitmap.cc): words and runs of equal words. A run is written
-- as its count of members in digits of 14 bits, each with the mark and the value of the run.
use my_sylar_server.Base.{
  ℕ, zero, suc, ◌+◌, ◌*◌, ◌/◌, ◌%◌, ◌^◌, Option, none, some, List, [], ◌∷◌, ◌++◌, Bool, true, false,
  not, ◌&&◌, ◌||◌, length, take, ltb, ◌==◌, if◌then◌else◌,
}
use my_sylar_server.Bitmap.{Bitmap, bitmap, set_range, get_range}
use my_sylar_server.Bitmap.Logic.{zip_bitmaps, normal_cross}
use my_sylar_server.Bitmap.Word.{
  Result, ok, logic_error, ◌>>=◌, value_size, count_mask, compress_mask, value_mask, mask_and,
  mask_or, nonzero, word_at, put_word, count_bits, u64_value_size,
}

-- `while(cur_count)`: the digits of a count, for a run of value `v`; the fuel is the number of digits
-- of a 64-bit count.
unfoldable pub count_digits : ℕ → Bool → ℕ → List ℕ
count_digits zero v count = []
count_digits (suc fuel) v zero = []
count_digits (suc fuel) v (suc n) =
    let count = suc n in
    (if v
      then mask_or (mask_or compress_mask value_mask) (mask_and count count_mask)
      else mask_or compress_mask (mask_and count count_mask))
    ∷ count_digits fuel v (count / 2 ^ value_size)

-- What stands for a pending run of `cur_count` members.
unfoldable pub flush_run : Bool → ℕ → List ℕ
unfolding count_digits
flush_run v count =
    if ltb 1 (count / value_size)
    then count_digits 5 v count
    else (if count == 0 then [] else (if v then count_mask else 0) ∷ [])

-- The loop of `compress` with `cur_value` and `cur_count`: what it writes for the words to come.
unfoldable pub compress_loop : Bool → ℕ → List ℕ → List ℕ
unfolding flush_run
compress_loop v count [] = flush_run v count
compress_loop v count (cur ∷ ws) =
    let c = count_bits 16 (mask_and cur count_mask) in
    elim ((c == 0) && not v || (c == value_size) && v) [
      | true ↦ compress_loop v (count + value_size) ws
      | false ↦ flush_run v count ++ (elim ((c == 0) || (c == value_size)) [
        | true ↦ compress_loop (c == value_size) value_size ws
        | false ↦ cur ∷ compress_loop v 0 ws
      ])
    ]

-- `compress`
unfoldable pub compressed : Bitmap → Bitmap
unfolding compress_loop
compressed b =
    if b.compress
    then b
    else let out = compress_loop false 0 (take b.data_size b.words) in
      record { compress = true; size = b.size; data_size = length out; words = out }

-- A compressed bitmap as its readers take it: runs with their count and value, and words.
pub data Run : Type 0 where
  fill : ℕ → Bool → Run
  word : ℕ → Run

abbrev pub is_run : ℕ → Bool
is_run w = nonzero (mask_and w compress_mask)

abbrev pub run_value : ℕ → Bool
run_value w = nonzero (mask_and w value_mask)

-- The loop that `uncompress`, `&=`, `|=` and `compressCross` share. `begun` is the run that is being
-- read: its value, its count and the number of its digits so far. A run takes in each next digit of
-- its value. The shift is one of a `uint32_t`; by 32 or more, which is undefined, it gives 0 here.
unfoldable pub read_runs : Option (Bool × ℕ × ℕ) → List ℕ → List Run
read_runs none [] = []
read_runs (some (v, count, k)) [] = fill count v ∷ []
read_runs none (w ∷ ws) = elim (is_run w) [
  | true ↦ read_runs (some (run_value w, mask_and w count_mask, 1)) ws
  | false ↦ word (mask_and w count_mask) ∷ read_runs none ws
]
read_runs (some (v, count, k)) (w ∷ ws) = elim (is_run w) [
  | false ↦ fill count v ∷ word (mask_and w count_mask) ∷ read_runs none ws
  | true ↦ elim (v && run_value w || not v && not (run_value w)) [
    | true ↦
        read_runs
          (some (v, mask_or (mask_and w count_mask * 2 ^ (value_size * k) % 2 ^ 32) count, suc k))
          ws
    | false ↦ fill count v ∷ read_runs (some (run_value w, mask_and w count_mask, 1)) ws
  ]
]

-- The word at a place in the members, changed by `f`.
abbrev pub change_word : (ℕ → ℕ) → ℕ → Bitmap → Result Bitmap
change_word f cur_pos b = do
  w ← word_at b.words (cur_pos / value_size)
  ws ← put_word b.words (cur_pos / value_size) (f w)
  ok (record b { words = ws })

-- The loop of `uncompress` over the runs. `cur_pos` is a `uint32_t`, here and in the other loops.
unfoldable pub uncompress_loop : ℕ → List Run → Bitmap → Result Bitmap
uncompress_loop cur_pos [] b = ok b
uncompress_loop cur_pos (fill count v ∷ rs) b = do
  b' ← set_range cur_pos count v b
  uncompress_loop ((cur_pos + count) % 2 ^ 32) rs b'
uncompress_loop cur_pos (word w ∷ rs) b = do
  b' ← change_word (λ _. w) cur_pos b
  uncompress_loop ((cur_pos + value_size) % 2 ^ 32) rs b'

unfoldable pub uncompress : Bitmap → Result Bitmap
unfolding uncompress_loop read_runs
uncompress b =
    if b.compress
    then uncompress_loop 0 (read_runs none (take b.data_size b.words)) (bitmap b.size 0)
    else ok b

-- The loops of `&=` and of `|=` with a compressed right side: a run clears or sets its members, and a
-- word takes part word by word.
unfoldable pub and_runs : ℕ → List Run → Bitmap → Result Bitmap
and_runs cur_pos [] b = ok b
and_runs cur_pos (fill count v ∷ rs) b = do
  b' ← if v then ok b else set_range cur_pos count false b
  and_runs ((cur_pos + count) % 2 ^ 32) rs b'
and_runs cur_pos (word w ∷ rs) b = do
  b' ← change_word (λ x. mask_and x w) cur_pos b
  and_runs ((cur_pos + value_size) % 2 ^ 32) rs b'

unfoldable pub or_runs : ℕ → List Run → Bitmap → Result Bitmap
or_runs cur_pos [] b = ok b
or_runs cur_pos (fill count v ∷ rs) b = do
  b' ← if v then set_range cur_pos count true b else ok b
  or_runs ((cur_pos + count) % 2 ^ 32) rs b'
or_runs cur_pos (word w ∷ rs) b = do
  b' ← change_word (λ x. mask_or x w) cur_pos b
  or_runs ((cur_pos + value_size) % 2 ^ 32) rs b'

-- `operator&=` and `operator|=`
unfoldable pub and_assign : Bitmap → Bitmap → Result Bitmap
unfolding and_runs zip_bitmaps read_runs
and_assign a b =
    if not (a.size == b.size) || a.compress
    then logic_error
    else (if b.compress
        then and_runs 0 (read_runs none (take b.data_size b.words)) a
        else zip_bitmaps mask_and a b)

unfoldable pub or_assign : Bitmap → Bitmap → Result Bitmap
unfolding or_runs zip_bitmaps read_runs
or_assign a b =
    if not (a.size == b.size) || a.compress
    then logic_error
    else (if b.compress
        then or_runs 0 (read_runs none (take b.data_size b.words)) a
        else zip_bitmaps mask_or a b)

-- The loop of `compressCross`.
unfoldable pub cross_runs : ℕ → List Run → Bitmap → Result Bool
cross_runs cur_pos [] b = ok false
cross_runs cur_pos (fill count v ∷ rs) b = do
  hit ← if v then get_range cur_pos count true b else ok false
  elim hit [ true ↦ ok true | false ↦ cross_runs ((cur_pos + count) % 2 ^ 32) rs b ]
cross_runs cur_pos (word w ∷ rs) b = do
  x ← word_at b.words (cur_pos / value_size)
  elim (nonzero (mask_and x w)) [
    | true ↦ ok true
    | false ↦ cross_runs ((cur_pos + value_size) % 2 ^ 32) rs b
  ]

-- `cross`: with a compressed left side it is false.
unfoldable pub cross : Bitmap → Bitmap → Result Bool
unfolding cross_runs read_runs normal_cross
cross a b =
    if a.compress
    then ok false
    else (if b.compress
        then cross_runs 0 (read_runs none (take b.data_size b.words)) a
        else normal_cross (a.size / u64_value_size) (take a.data_size a.words) b.words)
