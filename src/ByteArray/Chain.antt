-- ===== src/ByteArray/Chain.antt =====
-- Sylar/bytearray.h and Sylar/bytearray.cc: the chain of memory blocks behind a ByteArray, and the
-- copying loops of `write`, `read`, `setPosition` and the buffer lists. A block list is the chain
-- from some node along `next`; the end of the list is the null pointer.
pub mod Laws
use my_sylar_server.Base.{
  ℕ, zero, suc, ◌+◌, ◌-◌, ◌≡◌, Option, none, some, List, [], ◌∷◌, ◌++◌, length, take, drop, ltb,
  leb, ◌==◌, if◌then◌else◌,
}
use my_sylar_server.Base.Slices.{splice}

-- What a call comes to: a value, the exception `std::out_of_range`, or undefined behaviour: a read
-- through a null pointer, or a write behind the end of an array.
pub data Outcome {ℓ} (A : Type ℓ) : Type ℓ where
  ok : A → Outcome A
  out_of_range : Outcome A
  null_pointer : Outcome A
  overrun : Outcome A

infixl 5 ◌>>=◌
abbrev pub ◌>>=◌ {ℓ κ} : {A : Type ℓ} {B : Type κ} → Outcome A → (A → Outcome B) → Outcome B
ok a >>= f = f a
out_of_range >>= f = out_of_range
null_pointer >>= f = null_pointer
overrun >>= f = overrun

-- `ByteArray::Node`: the block that `ptr` owns, and `size`. The link `next` is the rest of the list.
pub record Node : Type 0 where
  pub mem : List ℕ
  pub size : ℕ

-- `memcpy(node->ptr + npos, buf, len)`, `len` the length of the list.
abbrev pub store : Node → ℕ → List ℕ → Node
store n npos buf = record n { mem = splice npos buf n.mem }

-- `memcpy(buf, node->ptr + npos, len)`
abbrev pub load : Node → ℕ → ℕ → List ℕ
load n npos len = take len (drop npos n.mem)

-- The place of a node in a chain as a pointer; past the last node it is null.
abbrev pub at_node : List Node → ℕ → Option ℕ
at_node ns k = if ltb k (length ns) then some k else none

-- The loop of `write`, over the chain from `m_cur`: the blocks as written, and how often `m_cur`
-- moved on.
unfoldable pub write_loop : List Node → ℕ → List ℕ → Outcome (List Node × ℕ)
write_loop ns npos [] = ok (ns, 0)
write_loop [] npos (b ∷ buf) = null_pointer
write_loop (n ∷ ns) npos (b ∷ buf) =
    let size = suc (length buf) in
    let ncap = n.size - npos in
    let rest = write_loop ns 0 (drop ncap (b ∷ buf)) in
    if leb size ncap
    then ok (store n npos (b ∷ buf) ∷ ns, if n.size == npos + size then 1 else 0)
    else rest >>= λ (ns', steps). ok (store n npos (take ncap (b ∷ buf)) ∷ ns', suc steps)

-- The loop of both `read`s: the bytes, and how often the node pointer moved on.
unfoldable pub read_loop : List Node → ℕ → ℕ → Outcome (List ℕ × ℕ)
read_loop ns npos zero = ok ([], 0)
read_loop [] npos (suc size) = null_pointer
read_loop (n ∷ ns) npos (suc size) =
    let ncap = n.size - npos in
    let rest = read_loop ns 0 (suc size - ncap) in
    if leb (suc size) ncap
    then ok (load n npos (suc size), if n.size == npos + suc size then 1 else 0)
    else rest >>= λ (bytes, steps). ok (load n npos ncap ++ bytes, suc steps)

-- The loop of `setPosition` and the step behind it; `k` counts the nodes passed.
unfoldable pub seek : List Node → ℕ → ℕ → Outcome ℕ
seek [] k v = null_pointer
seek (n ∷ ns) k v =
    let rest = seek ns (suc k) (v - n.size) in
    if ltb n.size v then rest else ok (if v == n.size then suc k else k)

-- `struct iovec`: `iov_base` is a place in the block of the `node`-th node of the chain.
pub record Iovec : Type 0 where
  pub node : ℕ
  pub offset : ℕ
  pub len : ℕ

-- The loop of `getReadBuffers` and `getWriteBuffers`; `k` is the place of the first node.
unfoldable pub iovec_loop : List Node → ℕ → ℕ → ℕ → Outcome (List Iovec)
iovec_loop ns k npos zero = ok []
iovec_loop [] k npos (suc len) = null_pointer
iovec_loop (n ∷ ns) k npos (suc len) =
    let ncap = n.size - npos in
    let rest = iovec_loop ns (suc k) 0 (suc len - ncap) in
    if leb (suc len) ncap
    then ok (record { node = k; offset = npos; len = suc len } ∷ [])
    else rest >>= λ iovs. ok (record { node = k; offset = npos; len = ncap } ∷ iovs)

-- The bytes of all blocks, one after the other.
abbrev pub cells : List Node → List ℕ
cells [] = []
cells (n ∷ ns) = n.mem ++ cells ns
