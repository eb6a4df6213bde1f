-- ===== src/Bitmap.antt =====
-- Sylar/DataStructure/bitmap.h and bitmap.cc: the class Bitmap, a set of numbers below its size as words of
-- 14 bits in `uint16_t`s. Child modules: `Word` (masks and words), `Logic` (and, or, not of two bitmaps),
-- `Runs` (the compressed form), `Walk` (lists and counts of the members), `Each` (calls for them), `Stream`
-- (through a ByteArray), and for proofs: `Bits` (single members), `Combine` (and, or), `Members` and
-- `Listed` (what `listPosAsc` lists), `Digits` and `Compress` (what a compressed form stands for), `RoundTrip`.
--
-- `data` is the memory from `m_data` on, `m_dataSize` words of it. A method returns a `Result`: its value,
-- a `std::logic_error`, a failed assertion, or an access outside the memory, which is undefined.
pub mod Word
pub mod Logic
pub mod Runs
pub mod Walk
pub mod Each
pub mod Stream
pub mod Bits
pub mod Combine
pub mod Members
pub mod Listed
pub mod Digits
pub mod Compress
pub mod RoundTrip
mod Tests
use my_sylar_server.Base.{
  ℕ, zero, suc, ◌+◌, ◌-◌, ◌*◌, ◌/◌, ◌%◌, ◌^◌, Option, none, some, List, [], ◌∷◌, ◌++◌, Bool, true,
  false, not, ◌&&◌, ◌||◌, length, take, replicate, get_elem?, set, ltb, ◌==◌, if◌then◌else◌,
}
use Word.{
  Result, ok, logic_error, assertion, overrun, ◌>>=◌, value_size, count_mask, compress_mask, bit_at,
  mask_and, nonzero, or_bit, clear_bit, words_eq, word_at, put_word, low_mask,
}

-- The fields of the class.
pub record Bitmap : Type 0 where
  pub compress : Bool
  pub size : ℕ
  pub data_size : ℕ
  pub words : List ℕ

-- `ceil(size * 1.0 / VALUE_SIZE)`
abbrev pub words_for : ℕ → ℕ
words_for size = (size + 13) / value_size

-- `Bitmap(size, def)`: each byte of the words is `def`.
unfoldable pub bitmap : ℕ → ℕ → Bitmap
bitmap size def = record {
  compress = false;
  size = size;
  data_size = words_for size;
  words = replicate (words_for size) (def % 256 * 257);
}

-- `get(idx)`
unfoldable pub get : ℕ → Bitmap → Result Bool
get idx b = do w ← word_at b.words (idx / value_size); ok (bit_at w (idx % value_size))

-- `set(idx, v)`
unfoldable pub set_bit : ℕ → Bool → Bitmap → Result Bitmap
set_bit idx v b = do
  w ← word_at b.words (idx / value_size)
  let pos = idx % value_size
  ok (record b {
    words = set b.words (idx / value_size) (if v then or_bit w pos else clear_bit w pos);
  })

-- The loop of `set(from, size, v)`, from word `i` on.
unfoldable pub fill_words : ℕ → ℕ → ℕ → List ℕ → Result (List ℕ)
fill_words zero i w words = ok words
fill_words (suc rounds) i w words = put_word words i w >>= fill_words rounds (suc i) w

-- `set(from, size, v)`; the sum is a `uint32_t`.
unfoldable pub set_range : ℕ → ℕ → Bool → Bitmap → Result Bitmap
unfolding fill_words
set_range from size v b =
    let to = (from + size) % 2 ^ 32 in
    if size == 0
    then ok b
    else (if (from % value_size == 0) && (to % value_size == 0)
        then (do
          words ←
              fill_words (to / value_size - from / value_size) (from / value_size)
                (if v then count_mask else 0) b.words
          ok (record b { words = words }))
        else assertion)

-- The loop of `get(from, size, v)`.
unfoldable pub find_words : ℕ → ℕ → Bool → List ℕ → Result Bool
find_words zero i v words = ok false
find_words (suc rounds) i v words = do
  w ← word_at words i
  let some_bit = nonzero (mask_and w count_mask)
  elim (if v then some_bit else not some_bit) [
    | true ↦ ok true
    | false ↦ find_words rounds (suc i) v words
  ]

-- `get(from, size, v)`
unfoldable pub get_range : ℕ → ℕ → Bool → Bitmap → Result Bool
unfolding find_words
get_range from size v b =
    let to = (from + size) % 2 ^ 32 in
    if size == 0
    then ok false
    else (if (from % value_size == 0) && (to % value_size == 0)
        then find_words (to / value_size - from / value_size) (from / value_size) v b.words
        else assertion)

-- `operator==` of two objects
unfoldable pub equals : Bitmap → Bitmap → Result Bool
equals a b =
    let left = a.size % value_size in
    if (a.compress && not b.compress)
      || (not a.compress && b.compress)
      || not (a.size == b.size)
      || not (a.data_size == b.data_size)
      || not (words_eq (take a.data_size a.words) (take a.data_size b.words))
    then ok false
    else (if left == 0 then ok true else do
      x ← word_at a.words (a.data_size - 1)
      y ← word_at b.words (b.data_size - 1)
      ok (mask_and x (low_mask left) == mask_and y (low_mask left)))

-- The loop of `any` over words.
unfoldable pub any_word : List ℕ → Bool
any_word [] = false
any_word (w ∷ ws) = nonzero w || any_word ws

-- The loop of `any` over the words of a compressed bitmap, which are cut to eight bits first.
unfoldable pub any_run : List ℕ → Bool
any_run [] = false
any_run (w ∷ ws) =
    let cur = w % 256 in
    let here =
      if nonzero (mask_and cur compress_mask) then nonzero (mask_and cur 16384) else nonzero cur in
    here || any_run ws

-- `any`; a bitmap without words has no memory. One that was resized or copied to no words still has
-- some, and `m_dataSize - 1` then wraps to a loop outside it, which is undefined.
unfoldable pub any : Bitmap → Result Bool
unfolding any_word any_run
any b =
    if length b.words == 0
    then ok false
    else (if b.compress
        then ok (any_run (take b.data_size b.words))
        else (if any_word (take (b.data_size - 1) b.words) then ok true else do
          w ← word_at b.words (b.data_size - 1)
          ok (nonzero (mask_and w (low_mask (b.size % value_size))))))

-- `resize`; the words behind a smaller `m_dataSize` are not read again, so they are dropped.
unfoldable pub resize : ℕ → Bool → Bitmap → Result Bitmap
resize size v b =
    let len = words_for size in
    let left = b.size % value_size in
    let grown =
      take b.data_size b.words ++ replicate (len - b.data_size) (if v then 0xffff else 0) in
    if b.compress
    then logic_error
    else (if ltb b.data_size len
        then (if b.data_size == 0 then overrun else do
          w ← word_at grown (b.data_size - 1)
          words ←
              put_word grown (b.data_size - 1)
                (if v then Word.mask_or w (low_mask left) else mask_and w (low_mask left))
          ok (record b { size = size; data_size = len; words = words }))
        else ok (record b { size = size; data_size = len; words = take len b.words }))
