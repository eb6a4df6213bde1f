-- ===== src/ByteArray.antt =====
-- Sylar/bytearray.h and Sylar/bytearray.cc: the class ByteArray, a growing byte buffer over a chain
-- of blocks, with a read/write position. Child modules: `Chain` (blocks and copying loops),
-- `Valid` (the invariant, and the buffer as one run of bytes), `Writes` and `Reads` (what the raw
-- methods do to it), `RoundTrip`, `Spec` (the buffer as a file), and the encodings `Fixed`, `Varint`
-- and `Text`.
--
-- A method takes the buffer and returns the new one, beside its result. `size_t` values are natural
-- numbers, and a difference of two wraps as in C++. `m_cur` is the place of a node in the chain.
pub mod Chain
pub mod Valid
pub mod Writes
pub mod Reads
pub mod RoundTrip
pub mod Spec
pub mod Fixed
pub mod Varint
pub mod Text
mod Tests
use my_sylar_server.Base.{
  ℕ, zero, suc, ◌+◌, ◌-◌, ◌*◌, ◌/◌, ◌%◌, ◌^◌, Option, none, some, List, [], ◌∷◌, ◌++◌, Bool, true,
  false, length, take, drop, replicate, ltb, leb, ◌==◌, if◌then◌else◌,
}
use Chain.{
  Outcome, ok, out_of_range, null_pointer, ◌>>=◌, Node, at_node, write_loop, read_loop, seek, Iovec,
  iovec_loop,
}

-- `SYLAR_LITTLE_ENDIAN` and `SYLAR_BIG_ENDIAN`
pub data Endian : Type 0 where
  little_endian big_endian : Endian

-- The fields of the class; `root` is the chain from `m_root`, and `cur` is `m_cur`. `junk` is what
-- `new char[]` leaves in a fresh byte, which C++ does not determine: it is no field of the class,
-- and every theorem holds for each value.
pub record ByteArray : Type 0 where
  pub base_size : ℕ
  pub position : ℕ
  pub capacity : ℕ
  pub size : ℕ
  pub endian : Endian
  pub root : List Node
  pub cur : Option ℕ
  pub junk : ℕ

-- `a - b` of type `size_t`
abbrev pub sub_size : ℕ → ℕ → ℕ
sub_size a b = if leb b a then a - b else a + 2 ^ 64 - b

-- `Node(size_t s)`
abbrev pub new_node : ℕ → ℕ → Node
new_node junk s = record { mem = replicate s junk; size = s }

-- The constructor.
unfoldable pub byte_array : ℕ → ℕ → ByteArray
byte_array junk base_size = record {
  base_size = base_size;
  position = 0;
  capacity = base_size;
  size = 0;
  endian = big_endian;
  root = new_node junk base_size ∷ [];
  cur = some 0;
  junk = junk;
}

unfoldable pub is_little_endian : ByteArray → Bool
is_little_endian b = elim b.endian [ little_endian ↦ true | big_endian ↦ false ]

unfoldable pub set_is_little_endian : Bool → ByteArray → ByteArray
set_is_little_endian val b = record b { endian = if val then little_endian else big_endian }

abbrev pub get_capacity : ByteArray → ℕ
get_capacity b = sub_size b.capacity b.position

abbrev pub get_read_size : ByteArray → ℕ
get_read_size b = sub_size b.size b.position

-- `ceil(1.0 * size / m_baseSize)`, exact for sizes that a double holds (below 2^53).
abbrev pub ceil_div : ℕ → ℕ → ℕ
ceil_div size base = (size + base - 1) / base

unfoldable pub add_capacity : ℕ → ByteArray → ByteArray
add_capacity size b =
    if size == 0
    then b
    else (if leb size (get_capacity b)
        then b
        else let count = ceil_div (size - get_capacity b) b.base_size in
          let root = b.root ++ replicate count (new_node b.junk b.base_size) in
          record b {
            root = root;
            capacity = b.capacity + count * b.base_size;
            cur = if get_capacity b == 0 then at_node root (length b.root) else b.cur;
          })

-- The chain from a node pointer on.
abbrev pub chain_from : List Node → Option ℕ → Outcome (ℕ × List Node)
chain_from root none = null_pointer
chain_from root (some k) = ok (k, drop k root)

-- `write` behind its call of `addCapacity`; `buf` is not empty.
unfoldable pub write_here : List ℕ → ByteArray → Outcome ByteArray
write_here buf b = do
  (k, chain) ← chain_from b.root b.cur
  (nodes, steps) ← write_loop chain (b.position % b.base_size) buf
  let position = b.position + length buf
  let root = take k b.root ++ nodes
  ok (record b {
    root = root;
    cur = at_node root (k + steps);
    position = position;
    size = if ltb b.size position then position else b.size;
  })

unfoldable pub write : List ℕ → ByteArray → Outcome ByteArray
unfolding add_capacity write_here
write [] b = ok b
write (x ∷ buf) b = write_here (x ∷ buf) (add_capacity (length (x ∷ buf)) b)

-- `read(buf, size)`
unfoldable pub read : ℕ → ByteArray → Outcome (List ℕ × ByteArray)
read size b = if ltb (get_read_size b) size then out_of_range else do
  (k, chain) ← chain_from b.root b.cur
  (bytes, steps) ← read_loop chain (b.position % b.base_size) size
  ok (bytes, record b { cur = at_node b.root (k + steps); position = b.position + size })

-- `read(buf, size, position)`, which leaves the buffer as it is
unfoldable pub read_at : ℕ → ℕ → ByteArray → Outcome (List ℕ)
read_at size position b = if ltb (sub_size b.size position) size then out_of_range else do
  (k, chain) ← chain_from b.root b.cur
  (bytes, steps) ← read_loop chain (position % b.base_size) size
  ok bytes

unfoldable pub set_position : ℕ → ByteArray → Outcome ByteArray
set_position v b = if ltb b.capacity v then out_of_range else do
  k ← seek b.root 0 v
  ok (record b { position = v; size = if ltb b.size v then v else b.size; cur = at_node b.root k })

unfoldable pub clear : ByteArray → ByteArray
clear b = record b {
  position = 0;
  size = 0;
  capacity = b.base_size;
  root = take 1 b.root;
  cur = at_node (take 1 b.root) 0;
}

unfoldable pub to_string : ByteArray → Outcome (List ℕ)
unfolding read_at
to_string b = if get_read_size b == 0 then ok [] else read_at (get_read_size b) b.position b

-- `getReadBuffers(buffers, len)`: the iovecs, and the number of bytes that they cover
unfoldable pub get_read_buffers : ℕ → ByteArray → Outcome (List Iovec × ℕ)
get_read_buffers len b =
    let size = if ltb (get_read_size b) len then get_read_size b else len in
    if size == 0 then ok ([], 0) else do
      (k, chain) ← chain_from b.root b.cur
      iovs ← iovec_loop chain k (b.position % b.base_size) size
      ok (iovs, size)

-- `getReadBuffers(buffers, len, position)`: the node is found from the root
unfoldable pub get_read_buffers_at : ℕ → ℕ → ByteArray → Outcome (List Iovec × ℕ)
get_read_buffers_at len position b =
    let size = if ltb (get_read_size b) len then get_read_size b else len in
    let k = position / b.base_size in
    if size == 0
    then ok ([], 0)
    else do iovs ← iovec_loop (drop k b.root) k (position % b.base_size) size; ok (iovs, size)

-- `getWriteBuffers(buffers, len)`
unfoldable pub get_write_buffers : ℕ → ByteArray → Outcome (List Iovec × ℕ × ByteArray)
unfolding add_capacity
get_write_buffers len b =
    let grown = add_capacity len b in
    if len == 0 then ok ([], 0, b) else do
      (k, chain) ← chain_from grown.root grown.cur
      iovs ← iovec_loop chain k (grown.position % grown.base_size) len
      ok (iovs, len, grown)
