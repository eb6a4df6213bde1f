-- ===== src/ByteArray/Text/RoundTrip.antt =====
-- What the string readers of Sylar/bytearray.cc make of a string that was written.
use my_sylar_server.Base.{
  ℕ, ◌+◌, ◌-◌, ◌%◌, ◌^◌, ◌≤◌, ◌<◌, ◌≡◌, ap, ◌∙◌, ◌⊎◌, List, [], ◌++◌, length, take, length-append,
  append_assoc, arith,
}
use my_sylar_server.Base.Slices.{take-append_left}
use my_sylar_server.ByteArray.{ByteArray, write, read}
use my_sylar_server.ByteArray.Chain.{Outcome, ok, null_pointer, ◌>>=◌}
use my_sylar_server.ByteArray.Valid.{IsValid}
use my_sylar_server.ByteArray.Writes.{Wrote, Wrote-bind, write_lem}
use my_sylar_server.ByteArray.Reads.{
  Took, Took-bind, rest, rest-Took, read_lem, read_end, length-rest,
}
use my_sylar_server.ByteArray.RoundTrip.{there_and_back, rewind, round_trip}
use my_sylar_server.ByteArray.Fixed.{
  is_host_order, write_word, read_word, write_fuint16, write_fuint32, write_fuint64, read_fuint16,
  read_fuint32, read_fuint64,
}
use my_sylar_server.ByteArray.Fixed.Bytes.{word_bytes}
use my_sylar_server.ByteArray.Fixed.RoundTrip.{write_word_lem, read_word_lem}
use my_sylar_server.ByteArray.Varint.{write_uint64, read_uint64}
use my_sylar_server.ByteArray.Varint.RoundTrip.{encoding, write_uint_lem, read_uint_lem}
use my_sylar_server.ByteArray.Text.{
  write_string_f16, write_string_f32, write_string_f64, write_string_vint, read_string_f16,
  read_string_f32, read_string_f64, read_string_vint,
}

-- Reading the first `n` bytes of a string that comes next, if a node is there to read from.
pub text_next :
    {b : ByteArray} (v : IsValid b) (value tail : List ℕ) (n : ℕ)
    → rest b ≡ value ++ tail
    → n ≤ length value
    → (0 < n) ⊎ (b.position < b.capacity)
    → Took b n (take n value) (read n b)
text_next {b} v value tail n next h some_node =
    let left : length value ≤ b.size - b.position =
      omega (arith, length-rest v, ap length next, length-append value tail) in
    let front : take n (rest b) ≡ take n value = rw next (take-append_left n value tail h) in
    rw front at (read_lem v n (omega (arith, v.behind)) (omega (arith, v.within, v.behind)))

-- A reader of the header, wherever the header comes next.
abbrev ReadsHead : List ℕ → ℕ → ByteArray → (ByteArray → Outcome (ℕ × ByteArray)) → Type 0
ReadsHead head n b read_head =
    (c : ByteArray) (tail : List ℕ)
    → IsValid c
    → c.endian ≡ b.endian
    → rest c ≡ head ++ tail
    → Took c (length head) n (read_head c)

-- A header that holds the length `n`, and then the string.
text_round_trip :
    (head : List ℕ) (n : ℕ) (write_head : ByteArray → Outcome ByteArray)
    (read_head : ByteArray → Outcome (ℕ × ByteArray)) {b : ByteArray} (v : IsValid b)
    (value : List ℕ)
    → Wrote b head (write_head b)
    → ReadsHead head n b read_head
    → n ≤ length value
    → (0 < n) ⊎ (b.position + length head < b.capacity)
    → there_and_back
        (λ c. write_head c >>= write value)
        (λ c. read_head c >>= λ (len, c'). read len c')
        b
      ≡ ok (take n value, b.position + (length head + n))
text_round_trip head n write_head read_head {b} v value w reads h some_node =
    let r = rewind v (Wrote-bind (write value) v w (write_lem w.valid value)) in
    let next : rest r.after ≡ head ++ (value ++ r.tail) = r.next ∙ append_assoc head value r.tail in
    let t = reads r.after (value ++ r.tail) r.valid r.same_endian next in
    let u =
      text_next t.valid value r.tail n (rest-Took head (value ++ r.tail) t next) h
        (omega (arith, t.moved, t.same_capacity, r.at_start, r.kept, some_node)) in
    round_trip (λ c. write_head c >>= write value) (λ c. read_head c >>= λ (len, c'). read len c') r
      (Took-bind (λ (len, c'). read len c') t u)

-- With no block behind the header there is no node to read a string of length 0 from.
text_at_end :
    (head : List ℕ) (write_head : ByteArray → Outcome ByteArray)
    (read_head : ByteArray → Outcome (ℕ × ByteArray)) {b : ByteArray} (v : IsValid b)
    → Wrote b head (write_head b)
    → ReadsHead head 0 b read_head
    → b.position + length head ≡ b.capacity
    → there_and_back
        (λ c. write_head c >>= write [])
        (λ c. read_head c >>= λ (len, c'). read len c')
        b
      ≡ null_pointer
text_at_end head write_head read_head {b} v w reads full =
    let r = rewind v (Wrote-bind (write []) v w (write_lem w.valid [])) in
    let next : rest r.after ≡ head ++ ([] ++ r.tail) = r.next ∙ append_assoc head [] r.tail in
    let t = reads r.after ([] ++ r.tail) r.valid r.same_endian next in
    let same : r.after.capacity ≡ b.capacity =
      r.in_room (omega (arith, length-append {A = ℕ} head [])) in
    rw (
      r.wrote,
      r.returns,
      t.returns,
      read_end t.valid (omega (arith, t.moved, t.same_capacity, r.at_start, same)),
    )

-- The four string formats: their headers, and the length that a header holds.
pub data StringFormat : Type 0 where
  f16 f32 f64 vint : StringFormat

abbrev pub held : StringFormat → ℕ → ℕ
held f16 n = n % 2 ^ 16
held f32 n = n % 2 ^ 32
held f64 n = n % 2 ^ 64
held vint n = n % 2 ^ 64

abbrev pub header : StringFormat → ByteArray → List ℕ → List ℕ
header f16 b value = word_bytes (is_host_order b.endian) 2 (length value % 2 ^ 16)
header f32 b value = word_bytes (is_host_order b.endian) 4 (length value % 2 ^ 32)
header f64 b value = word_bytes (is_host_order b.endian) 8 (length value % 2 ^ 64)
header vint b value = encoding 9 (length value % 2 ^ 64)

abbrev pub write_string : StringFormat → List ℕ → ByteArray → Outcome ByteArray
write_string f16 = write_string_f16
write_string f32 = write_string_f32
write_string f64 = write_string_f64
write_string vint = write_string_vint

abbrev pub read_string : StringFormat → ByteArray → Outcome (List ℕ × ByteArray)
read_string f16 = read_string_f16
read_string f32 = read_string_f32
read_string f64 = read_string_f64
read_string vint = read_string_vint

word_head :
    (w n : ℕ) (b : ByteArray)
    → 0 < w
    → n < 256 ^ w
    → ReadsHead (word_bytes (is_host_order b.endian) w n) n b (read_word w)
word_head w n b pos h c tail v same next =
    read_word_lem v (is_host_order b.endian) w n tail (ap is_host_order same) pos h next

vint_head : (n : ℕ) (b : ByteArray) → n < 2 ^ 64 → ReadsHead (encoding 9 n) n b read_uint64
unfolding read_uint64
vint_head n b h c tail v same next = read_uint_lem v 64 9 n tail (omega arith) h next

-- In every string format, writing a string, setting the position back and reading returns the
-- string as far as the length field holds its length, and the position is behind what was read. A
-- string of length 0 modulo the field needs a block that goes on behind the header.
pub string_round_trip :
    (f : StringFormat) {b : ByteArray} (value : List ℕ)
    → IsValid b
    → (0 < held f (length value)) ⊎ (b.position + length (header f b value) < b.capacity)
    → there_and_back (write_string f value) (read_string f) b
      ≡ ok (
        take (held f (length value)) value,
        b.position + (length (header f b value) + held f (length value)),
      )
unfolding write_string_f16 write_string_f32 write_string_f64 write_string_vint read_string_f16
    read_string_f32 read_string_f64 read_string_vint write_fuint16 write_fuint32 write_fuint64
    write_uint64 read_fuint16 read_fuint32 read_fuint64
string_round_trip f16 {b} value v node =
    let n = length value % 2 ^ 16 in
    text_round_trip _ n (write_word 2 n) (read_word 2) v value (write_word_lem v 2 n)
      (word_head 2 n b (omega arith) (omega arith)) (omega arith) node
string_round_trip f32 {b} value v node =
    let n = length value % 2 ^ 32 in
    text_round_trip _ n (write_word 4 n) (read_word 4) v value (write_word_lem v 4 n)
      (word_head 4 n b (omega arith) (omega arith)) (omega arith) node
string_round_trip f64 {b} value v node =
    let n = length value % 2 ^ 64 in
    text_round_trip _ n (write_word 8 n) (read_word 8) v value (write_word_lem v 8 n)
      (word_head 8 n b (omega arith) (omega arith)) (omega arith) node
string_round_trip vint {b} value v node =
    let n = length value % 2 ^ 64 in
    text_round_trip _ n (write_uint64 n) read_uint64 v value (write_uint_lem v 9 n (omega arith))
      (vint_head n b (omega arith)) (omega arith) node

-- In every string format, the empty string cannot be read back when its header ends the last block:
-- reading 0 bytes goes through the null node pointer.
pub empty_string_at_end :
    (f : StringFormat) {b : ByteArray}
    → IsValid b
    → b.position + length (header f b []) ≡ b.capacity
    → there_and_back (write_string f []) (read_string f) b ≡ null_pointer
unfolding write_string_f16 write_string_f32 write_string_f64 write_string_vint read_string_f16
    read_string_f32 read_string_f64 read_string_vint write_fuint16 write_fuint32 write_fuint64
    write_uint64 read_fuint16 read_fuint32 read_fuint64
empty_string_at_end f16 {b} v full =
    text_at_end _ (write_word 2 0) (read_word 2) v (write_word_lem v 2 0)
      (word_head 2 0 b (omega arith) (omega arith)) full
empty_string_at_end f32 {b} v full =
    text_at_end _ (write_word 4 0) (read_word 4) v (write_word_lem v 4 0)
      (word_head 4 0 b (omega arith) (omega arith)) full
empty_string_at_end f64 {b} v full =
    text_at_end _ (write_word 8 0) (read_word 8) v (write_word_lem v 8 0)
      (word_head 8 0 b (omega arith) (omega arith)) full
empty_string_at_end vint {b} v full =
    text_at_end _ (write_uint64 0) read_uint64 v (write_uint_lem v 9 0 (omega arith))
      (vint_head 0 b (omega arith)) full
