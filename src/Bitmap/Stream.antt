-- ===== src/Bitmap/Stream.antt =====
-- `writeTo` and `readFrom` of Bitmap (Sylar/DataStructure/bitmap.cc), which go through a ByteArray. The words are
-- written as they stand in the memory of a little-endian host.
use my_sylar_server.Base.{
  ℕ, ◌+◌, ◌*◌, ◌/◌, ◌%◌, ◌^◌, ◌<◌, ◌≡◌, refl, ap, ◌∙◌, ◌⊎◌, subst, List, [], ◌∷◌, ◌++◌, Bool, true,
  false, length, take, replicate, if◌then◌else◌, arith, take_all, length-take, append_assoc,
}
use my_sylar_server.Bitmap.{Bitmap}
use my_sylar_server.Bitmap.Word.{nonzero}
use my_sylar_server.ByteArray.{ByteArray, write, read}
use my_sylar_server.ByteArray.Chain.{Outcome, ok, out_of_range, null_pointer, overrun, ◌>>=◌}
use my_sylar_server.ByteArray.Fixed.{
  write_fuint8, write_fuint32, read_fuint8, read_fuint32, write_word, is_host_order,
}
use my_sylar_server.ByteArray.Fixed.Bytes.{word_bytes}
use my_sylar_server.ByteArray.Fixed.RoundTrip.{
  write_word_lem, read_word_lem, read_fuint8_lem, length-word_bytes,
}
use my_sylar_server.ByteArray.Valid.{IsValid}
use my_sylar_server.ByteArray.Writes.{Wrote, Wrote-bind, write_lem}
use my_sylar_server.ByteArray.Reads.{Took, Took-bind, Took-return, rest, rest-Took}
use my_sylar_server.ByteArray.RoundTrip.{there_and_back, rewind, round_trip}
use my_sylar_server.ByteArray.Text.RoundTrip.{text_next}

-- The bytes of words in memory, and the words of bytes.
abbrev pub bytes_of_words : List ℕ → List ℕ
bytes_of_words [] = []
bytes_of_words (w ∷ ws) = (w % 256) ∷ (w / 256) ∷ bytes_of_words ws

abbrev pub words_of_bytes : List ℕ → List ℕ
words_of_bytes (x ∷ y ∷ bytes) = (x + 256 * y) ∷ words_of_bytes bytes
words_of_bytes (x ∷ []) = []
words_of_bytes [] = []

unfoldable pub write_to : Bitmap → ByteArray → Outcome ByteArray
write_to b ba = do
  ba1 ← write_fuint8 (if b.compress then 1 else 0) ba
  ba2 ← write_fuint32 b.size ba1
  ba3 ← write_fuint32 b.data_size ba2
  write (bytes_of_words (take b.data_size b.words)) ba3

-- A read inside the `try`: an exception ends `readFrom` with false and the bitmap as it is by then.
abbrev pub caught :
    {A : Type 0}
    → Outcome (A × ByteArray)
    → Bitmap
    → ByteArray
    → (A → ByteArray → Outcome ((Bool × Bitmap) × ByteArray))
    → Outcome ((Bool × Bitmap) × ByteArray)
caught (ok (a, ba)) b before f = f a ba
caught out_of_range b before f = ok ((false, b), before)
caught null_pointer b before f = null_pointer
caught overrun b before f = overrun

-- `readFrom`, with the result and the bitmap. `junk` is what the fresh memory holds.
unfoldable pub read_from : ℕ → Bitmap → ByteArray → Outcome ((Bool × Bitmap) × ByteArray)
read_from junk b ba = caught (read_fuint8 ba) b ba (λ c ba1.
    let b1 = record b { compress = nonzero c } in
    caught (read_fuint32 ba1) b1 ba1 (λ size ba2.
      let b2 = record b1 { size = size } in
      caught (read_fuint32 ba2) b2 ba2 (λ data_size ba3.
        let b3 = record b2 { data_size = data_size; words = replicate data_size junk } in
        caught (read (data_size * 2) ba3) b3 ba3
          (λ bytes ba4. ok ((true, record b3 { words = words_of_bytes bytes }), ba4)))))

words_of_bytes-bytes_of_words : (ws : List ℕ) → words_of_bytes (bytes_of_words ws) ≡ ws
words_of_bytes-bytes_of_words [] = refl
words_of_bytes-bytes_of_words (w ∷ ws) =
    let whole : w % 256 + 256 * (w / 256) ≡ w = omega arith in
    rw (whole, words_of_bytes-bytes_of_words ws)

length-bytes_of_words : (ws : List ℕ) → length (bytes_of_words ws) ≡ length ws * 2
length-bytes_of_words [] = refl
length-bytes_of_words (w ∷ ws) = omega (arith, length-bytes_of_words ws)

-- A read that succeeds goes on.
Took-caught :
    {A : Type 0} {ba : ByteArray} {n m : ℕ} {a : A} {c : Bool × Bitmap}
    {r : Outcome (A × ByteArray)} (b : Bitmap)
    (f : A → ByteArray → Outcome ((Bool × Bitmap) × ByteArray))
    → (t : Took ba n a r) → Took t.after m c (f a t.after)
    → Took ba (n + m) c (caught r b ba f)
Took-caught {ba = ba} {n} {m} {c = c} {r} b f t u =
    let same : (r >>= λ (x, after). f x after) ≡ caught r b ba f = rw t.returns refl in
    subst (λ (o : Outcome ((Bool × Bitmap) × ByteArray)). Took ba (n + m) c o) same
      (Took-bind (λ (x, after). f x after) t u)

-- The last read.
Took-caught_end :
    {A : Type 0} {ba : ByteArray} {n : ℕ} {a : A} {c : Bool × Bitmap} {r : Outcome (A × ByteArray)}
    (b : Bitmap) (f : A → ByteArray → Outcome ((Bool × Bitmap) × ByteArray))
    → (t : Took ba n a r) → f a t.after ≡ ok (c, t.after)
    → Took ba n c (caught r b ba f)
Took-caught_end {ba = ba} {n} {c = c} {r} b f t e =
    let same : (r >>= λ (x, after). f x after) ≡ caught r b ba f = rw t.returns refl in
    subst (λ (o : Outcome ((Bool × Bitmap) × ByteArray)). Took ba n c o) same
      (Took-return (λ (x, after). f x after) t e)

flag_back : (c : Bool) → nonzero ((if c then 1 else 0) % 256) ≡ c
flag_back true = refl
flag_back false = refl

-- A bitmap whose fields fit their widths and which has as many words as it says.
pub record IsStored (b : Bitmap) : Type 0 where
  pub size_fits : b.size < 2 ^ 32
  pub counted : length b.words ≡ b.data_size
  pub count_fits : b.data_size < 2 ^ 32

-- The bytes of a stored bitmap, by the byte order of the buffer.
abbrev flag : Bitmap → ℕ
flag b = (if b.compress then 1 else 0) % 256

abbrev memory : Bitmap → List ℕ
memory b = bytes_of_words (take b.data_size b.words)

abbrev stored : Bitmap → Bool → List ℕ
stored b host =
    (flag b ∷ []) ++ (word_bytes host 4 b.size ++ (word_bytes host 4 b.data_size ++ memory b))

write_word_as :
    {ba : ByteArray} (v : IsValid ba) (host : Bool) (w x : ℕ)
    → is_host_order ba.endian ≡ host
    → Wrote ba (word_bytes host w x) (write_word w x ba)
write_word_as {ba} v host w x h =
    subst (λ (o : Bool). Wrote ba (word_bytes o w x) (write_word w x ba)) h (write_word_lem v w x)

write_to_lem :
    {ba : ByteArray} (v : IsValid ba) (b : Bitmap)
    → Wrote ba (stored b (is_host_order ba.endian)) (write_to b ba)
unfolding write_to write_fuint8 write_fuint32
write_to_lem {ba} v b =
    let host = is_host_order ba.endian in
    let w1 = write_lem v (flag b ∷ []) in
    let w2 = write_word_as w1.valid host 4 b.size (ap is_host_order w1.same_endian) in
    let w3 =
      write_word_as w2.valid host 4 b.data_size
        (ap is_host_order (w2.same_endian ∙ w1.same_endian)) in
    let last : ByteArray → Outcome ByteArray = write (memory b) in
    let count : ByteArray → Outcome ByteArray = λ c. write_word 4 b.data_size c >>= last in
    let size : ByteArray → Outcome ByteArray = λ c. write_word 4 b.size c >>= count in
    Wrote-bind size v w1
      (Wrote-bind count w1.valid w2 (Wrote-bind last w2.valid w3 (write_lem w3.valid (memory b))))

memory_words : (b : Bitmap) → IsStored b → take (b.data_size * 2) (memory b) ≡ memory b
memory_words b p = take_all (b.data_size * 2) (memory b) (
    omega
      (arith, length-bytes_of_words (take b.data_size b.words), length-take b.data_size b.words))

words_kept : (b : Bitmap) → IsStored b → words_of_bytes (memory b) ≡ b.words
words_kept b p =
    words_of_bytes-bytes_of_words (take b.data_size b.words)
    ∙ take_all b.data_size b.words (omega (arith, p.counted))

read_from_lem :
    (junk : ℕ) (b old : Bitmap) {ba : ByteArray} (v : IsValid ba) (host : Bool) (tail : List ℕ)
    → IsStored b
    → is_host_order ba.endian ≡ host
    → rest ba ≡ stored b host ++ tail
    → (0 < b.data_size) ⊎ (ba.position + 9 < ba.capacity)
    → Took ba (1 + (4 + (4 + b.data_size * 2))) (true, b) (read_from junk old ba)
unfolding read_from read_fuint32
read_from_lem junk b old {ba} v host tail p order next node =
    let size_bytes = word_bytes host 4 b.size in
    let count_bytes = word_bytes host 4 b.data_size in
    let size_length : length size_bytes ≡ 4 = length-word_bytes host 4 b.size in
    let count_length : length count_bytes ≡ 4 = length-word_bytes host 4 b.data_size in
    let next1 : rest ba ≡ flag b ∷ (size_bytes ++ (count_bytes ++ (memory b ++ tail))) =
      next
      ∙ ap (λ (t : List ℕ). flag b ∷ t)
          (append_assoc size_bytes (count_bytes ++ memory b) tail
            ∙ ap (λ (t : List ℕ). size_bytes ++ t) (append_assoc count_bytes (memory b) tail)) in
    let t1 = read_fuint8_lem v (flag b) (size_bytes ++ (count_bytes ++ (memory b ++ tail))) next1 in
    let next2 =
      rest-Took (flag b ∷ []) (size_bytes ++ (count_bytes ++ (memory b ++ tail))) t1 next1 in
    let t2 =
      read_word_lem t1.valid host 4 b.size (count_bytes ++ (memory b ++ tail))
        (ap is_host_order t1.same_endian ∙ order) (omega arith) (omega (arith, p.size_fits))
        next2 in
    let next3 = rest-Took size_bytes (count_bytes ++ (memory b ++ tail)) t2 next2 in
    let t3 =
      read_word_lem t2.valid host 4 b.data_size (memory b ++ tail)
        (ap is_host_order (t2.same_endian ∙ t1.same_endian) ∙ order) (omega arith)
        (omega (arith, p.count_fits)) next3 in
    let next4 = rest-Took count_bytes (memory b ++ tail) t3 next3 in
    let t4 =
      text_next t3.valid (memory b) tail (b.data_size * 2) next4
        (omega (
          arith,
          length-bytes_of_words (take b.data_size b.words),
          length-take b.data_size b.words,
          p.counted,
        ))
        (omega (
          arith, node, t3.moved, t3.same_capacity, t2.moved, t2.same_capacity, t1.moved,
          t1.same_capacity, size_length, count_length,
        )) in
    let same : record {
      compress = nonzero (flag b);
      size = b.size;
      data_size = b.data_size;
      words = words_of_bytes (take (b.data_size * 2) (memory b));
    }
        ≡ b =
      rw (flag_back b.compress, memory_words b p, words_kept b p) refl in
    let last : Took t3.after (b.data_size * 2) (true, b) _ =
      Took-caught_end _ _ t4 (ap (λ (found : Bitmap). ok ((true, found), t4.after)) same) in
    let third = Took-caught _ _ t3 last in
    let second = Took-caught _ _ t2 third in
    let total : 1 + (length size_bytes + (length count_bytes + b.data_size * 2))
        ≡ 1 + (4 + (4 + b.data_size * 2)) =
      omega (arith, size_length, count_length) in
    subst (λ (n : ℕ). Took ba n (true, b) (read_from junk old ba)) total
      (Took-caught old _ t1 second)

-- What `writeTo` puts into a ByteArray, `readFrom` gets back into any bitmap, and leaves the position
-- behind it. A bitmap without words needs a block that goes on behind the header.
pub read_from-write_to :
    (junk : ℕ) (b old : Bitmap) {ba : ByteArray}
    → IsStored b
    → IsValid ba
    → (0 < b.data_size) ⊎ (ba.position + 9 < ba.capacity)
    → there_and_back (write_to b) (read_from junk old) ba
      ≡ ok ((true, b), ba.position + (9 + b.data_size * 2))
read_from-write_to junk b old {ba} p v node =
    let host = is_host_order ba.endian in
    let r = rewind v (write_to_lem v b) in
    let t =
      read_from_lem junk b old r.valid host r.tail p (ap is_host_order r.same_endian) r.next
        (omega (arith, node, r.at_start, r.kept)) in
    round_trip (write_to b) (read_from junk old) r t
    ∙ ap (λ (n : ℕ). ok ((true, b), ba.position + n)) (omega arith)
