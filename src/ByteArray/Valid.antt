-- ===== src/ByteArray/Valid.antt =====
-- Sylar/bytearray.cc: a ByteArray as one run of bytes. `content` is what the buffer holds, the
-- bytes [0, m_size); blocks, capacity and the current node are gone from it. `IsValid` is the
-- invariant that ties `m_cur` and `m_capacity` to the chain.
use native.Mathlib.Nat.{div-add-mod, div-eq_of_lt-le, div-lt_iff_lt-mul, lt-div-mul-add, le_trans}
use my_sylar_server.Base.{
  ℕ, zero, suc, ◌+◌, ◌-◌, ◌*◌, ◌/◌, ◌%◌, ◌≤◌, ◌<◌, ◌≡◌, refl, sym, ap, ◌∙◌, some, List, [], ◌∷◌,
  ◌++◌, length, take, drop, replicate, length-replicate, length-take, length-drop, append_assoc,
  append-nil, arith, take-append-drop, lt→ltb, le→leb,
}
use my_sylar_server.Base.Slices.{take-append_right, drop-append_right}
use my_sylar_server.ByteArray.{ByteArray, get_capacity, new_node, ceil_div}
use my_sylar_server.ByteArray.Chain.{Node, at_node, cells}
use my_sylar_server.ByteArray.Chain.Laws.{Uniform, length-cells}

pub record IsValid (b : ByteArray) : Type 0 where
  pub positive : 0 < b.base_size
  pub uniform : Uniform b.base_size b.root
  pub covered : b.capacity ≡ length b.root * b.base_size
  pub some_node : 0 < length b.root
  pub behind : b.position ≤ b.size
  pub within : b.size ≤ b.capacity
  pub cursor : b.cur ≡ at_node b.root (b.position / b.base_size)

-- The bytes that the buffer holds.
abbrev pub content : ByteArray → List ℕ
content b = take b.size (cells b.root)

module _ (B : ℕ) where
  pub Uniform-append : (ns ms : List Node) → Uniform B ns → Uniform B ms → Uniform B (ns ++ ms)
  Uniform-append [] ms u v = v
  Uniform-append (n ∷ ns) ms u v = (u.0, Uniform-append ns ms u.1 v)

  pub Uniform-replicate : (junk count : ℕ) → Uniform B (replicate count (new_node junk B))
  Uniform-replicate junk zero = tt
  Uniform-replicate junk (suc count) =
      ((refl, length-replicate B junk), Uniform-replicate junk count)

  pub Uniform-take : (k : ℕ) (ns : List Node) → Uniform B ns → Uniform B (take k ns)
  Uniform-take zero ns u = tt
  Uniform-take (suc k) [] u = tt
  Uniform-take (suc k) (n ∷ ns) u = (u.0, Uniform-take k ns u.1)

  pub Uniform-drop : (k : ℕ) (ns : List Node) → Uniform B ns → Uniform B (drop k ns)
  Uniform-drop zero ns u = u
  Uniform-drop (suc k) [] u = tt
  Uniform-drop (suc k) (n ∷ ns) u = Uniform-drop k ns u.1

pub cells-append : (ns ms : List Node) → cells (ns ++ ms) ≡ cells ns ++ cells ms
cells-append [] ms = refl
cells-append (n ∷ ns) ms = rw (cells-append ns ms, append_assoc)

-- The cells before and from the `k`-th node on.
pub cells-split : (k : ℕ) (ns : List Node) → cells (take k ns) ++ cells (drop k ns) ≡ cells ns
cells-split k ns = rw (← cells-append, take-append-drop)

-- Bytes and place as a quotient: `q` nodes are full before place `n`.
pub div_unique : (B q n : ℕ) → q * B ≤ n → n < q * B + B → n / B ≡ q
div_unique B q n lower upper = div-eq_of_lt-le {k = q} B {m = n} lower (omega arith)

pub ceil_div-covers : (s B : ℕ) → 0 < B → s ≤ ceil_div s B * B
ceil_div-covers s B h = omega (arith, lt-div-mul-add {a = s + B - 1} {b = B} h)

pub ceil_div-pos : (s B : ℕ) → 0 < B → 0 < s → 0 < ceil_div s B
ceil_div-pos s B h pos = grind (arith, ceil_div-covers s B h)

module _ {b : ByteArray} (v : IsValid b) where
  pub length-content : length (content b) ≡ b.size
  length-content = omega (
    arith,
    length-take b.size (cells b.root),
    length-cells b.base_size b.root v.uniform,
    v.covered,
    v.within,
  )

  -- The node and the place in it that the position stands for.
  pub position-split :
      b.position / b.base_size * b.base_size + b.position % b.base_size ≡ b.position
  position-split = omega (arith, div-add-mod b.position b.base_size)

  pub node-in_chain : b.position < b.capacity → b.position / b.base_size < length b.root
  node-in_chain h =
      (div-lt_iff_lt-mul {k = b.base_size} {x = b.position} {y = length b.root} v.positive).1
        (omega (arith, v.covered))

  pub cur-some : b.position < b.capacity → b.cur ≡ some (b.position / b.base_size)
  cur-some h = v.cursor ∙ rw (lt→ltb _ _ (node-in_chain h))

  pub cells-covered : length (cells b.root) ≡ b.capacity
  cells-covered = omega (arith, length-cells b.base_size b.root v.uniform, v.covered)

  -- What is left of the chain from the current node on, in bytes.
  pub chain-room :
      (n : ℕ)
      → b.position < b.capacity
      → b.position + n ≤ b.capacity
      → b.position % b.base_size + n ≤ length (drop (b.position / b.base_size) b.root) * b.base_size
  chain-room n h fits =
      let k = b.position / b.base_size in
      let left = length (drop k b.root) in
      let e : length b.root ≡ k + left = omega (arith, length-drop k b.root, node-in_chain h) in
      omega (arith, ap (λ (t : ℕ). t * b.base_size) e, position-split, v.covered)

  -- The cells before the current node, and those behind the position.
  pub cells-before :
      (b.position < b.capacity)
      → length (cells (take (b.position / b.base_size) b.root))
        ≡ b.position / b.base_size * b.base_size
  cells-before h =
      let k = b.position / b.base_size in
      let e : length (take k b.root) ≡ k = omega (arith, length-take k b.root, node-in_chain h) in
      length-cells b.base_size (take k b.root) (Uniform-take b.base_size k b.root v.uniform)
      ∙ ap (λ (t : ℕ). t * b.base_size) e

  pub cells-from :
      (b.position < b.capacity)
      → cells (drop (b.position / b.base_size) b.root)
        ≡ drop (b.position / b.base_size * b.base_size) (cells b.root)
  cells-from h =
      let k = b.position / b.base_size in
      sym (
        rw (← cells-split k b.root) (
          drop-append_right (k * b.base_size) 0 (cells (take k b.root)) (cells (drop k b.root))
            (omega (arith, cells-before h))))

  pub cells-upto :
      (b.position < b.capacity)
      → cells (take (b.position / b.base_size) b.root)
        ≡ take (b.position / b.base_size * b.base_size) (cells b.root)
  cells-upto h =
      let k = b.position / b.base_size in
      sym (
        rw (← cells-split k b.root) (
          take-append_right (k * b.base_size) 0 (cells (take k b.root)) (cells (drop k b.root))
            (omega (arith, cells-before h))
          ∙ append-nil _))

  pub position_full : b.position ≡ b.capacity → b.position / b.base_size ≡ length b.root
  position_full e =
      div_unique b.base_size (length b.root) b.position (omega (arith, v.covered))
        (omega (arith, v.covered, v.positive))

  pub capacity-left : get_capacity b ≡ b.capacity - b.position
  capacity-left = rw (le→leb _ _ (le_trans v.behind v.within))
