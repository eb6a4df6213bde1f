-- ===== src/ByteArray/Chain/Laws.antt =====
-- The copying loops of Sylar/bytearray.cc against one flat run of bytes, on a chain of blocks of
-- equal size.
use my_sylar_server.Base.{
  ℕ, zero, suc, ◌+◌, ◌-◌, ◌*◌, ◌≤◌, ◌<◌, ◌≡◌, refl, sym, ap, inl, inr, true, false, List, [], ◌∷◌,
  All, length, take, drop, leb, leb→le, ltb, ◌==◌, if◌then◌else◌, Bool-cases, take_all,
  length-append, length-take, length-drop, arith,
}
use my_sylar_server.Base.Slices.{
  splice, splice-nil, splice-append_left, splice-append_cross, length-splice, take-append_left,
  take-append_right, drop-append_left,
}
use my_sylar_server.ByteArray.Chain.{ok, Node, store, write_loop, read_loop, seek, cells}

abbrev pub IsNode : ℕ → Node → Type 0
IsNode B n = (n.size ≡ B) × (length n.mem ≡ B)

module _ (B : ℕ) where
  abbrev pub Uniform : List Node → Type 0
  Uniform = All (IsNode B)

  pub length-cells : (ns : List Node) → Uniform ns → length (cells ns) ≡ length ns * B
  length-cells [] u = omega arith
  length-cells (n ∷ ns) u = omega (arith, length-append n.mem (cells ns), length-cells ns u.1)

  -- What a write of `buf` at `npos` leaves.
  pub record Written (ns : List Node) (npos : ℕ) (buf : List ℕ) : Type 0 where
    pub nodes : List Node
    pub steps : ℕ
    pub returns : write_loop ns npos buf ≡ ok (nodes, steps)
    pub flat : cells nodes ≡ splice npos buf (cells ns)
    pub uniform : Uniform nodes
    pub as_many : length nodes ≡ length ns
    pub lower : steps * B ≤ npos + length buf
    pub upper : npos + length buf < steps * B + B

  -- The last block of a write: all of `buf` goes into the first node.
  write_within :
      (n : Node) (ns : List Node) (npos b : ℕ) (buf : List ℕ)
      → Uniform (n ∷ ns)
      → npos < B
      → leb (suc (length buf)) (n.size - npos) ≡ true
      → Written (n ∷ ns) npos (b ∷ buf)
  unfolding write_loop
  write_within n ns npos b buf u h fits =
      let room : npos + length (b ∷ buf) ≤ length n.mem = omega (arith, leb→le _ _ fits) in
      record {
        nodes = store n npos (b ∷ buf) ∷ ns;
        steps = if n.size == npos + suc (length buf) then 1 else 0;
        returns = rw fits;
        flat = sym (splice-append_left npos (b ∷ buf) n.mem (cells ns) room);
        uniform = ((u.0.0, omega (arith, length-splice npos (b ∷ buf) n.mem room)), u.1);
        as_many = refl;
        lower = ground arith;
        upper = ground arith;
      }

  -- An earlier block: the first node is filled to its end, and the rest goes on behind it.
  write_across :
      (n : Node) (ns : List Node) (npos b : ℕ) (buf : List ℕ)
      → Uniform (n ∷ ns)
      → npos < B
      → leb (suc (length buf)) (n.size - npos) ≡ false
      → Written ns 0 (drop (n.size - npos) (b ∷ buf))
      → Written (n ∷ ns) npos (b ∷ buf)
  unfolding write_loop
  write_across n ns npos b buf u h crosses w =
      let ncap = n.size - npos in
      let over : ncap < length (b ∷ buf) = ground arith in
      let first : length (take ncap (b ∷ buf)) ≡ ncap = omega (arith, length-take ncap (b ∷ buf)) in
      let left = length-drop ncap (b ∷ buf) in
      record {
        nodes = store n npos (take ncap (b ∷ buf)) ∷ w.nodes;
        steps = suc w.steps;
        returns = rw (crosses, w.returns);
        flat = rw w.flat (
            sym (
              splice-append_cross npos ncap (b ∷ buf) n.mem (cells ns) (omega arith)
                (omega arith)));
        uniform = (
          (
            u.0.0,
            omega (
              arith,
              first,
              length-splice npos (take ncap (b ∷ buf)) n.mem (omega (arith, first)),
            ),
          ),
          w.uniform,
        );
        as_many = ap suc w.as_many;
        lower = omega (arith, left, w.lower);
        upper = omega (arith, left, w.upper);
      }

  pub write_loop_lem :
      (ns : List Node) (npos : ℕ) (buf : List ℕ)
      → Uniform ns
      → npos < B
      → npos + length buf ≤ length ns * B
      → Written ns npos buf
  write_loop_lem ns npos [] u h fits = record {
    nodes = ns;
    steps = 0;
    returns = unfold write_loop in refl;
    flat = sym (splice-nil npos (cells ns));
    uniform = u;
    as_many = refl;
    lower = omega arith;
    upper = omega arith;
  }
  write_loop_lem [] npos (b ∷ buf) u h fits = absurd (omega arith)
  write_loop_lem (n ∷ ns) npos (b ∷ buf) u h fits =
      elim (Bool-cases (leb (suc (length buf)) (n.size - npos))) [
        | inl within ↦ write_within n ns npos b buf u h within
        | inr crosses ↦ write_across n ns npos b buf u h crosses (
            write_loop_lem ns 0 (drop (n.size - npos) (b ∷ buf)) u.1 (omega arith)
              (omega (arith, length-drop (n.size - npos) (b ∷ buf))))
      ]

  -- What a read of `size` bytes at `npos` gives.
  pub record Got (ns : List Node) (npos size : ℕ) : Type 0 where
    pub steps : ℕ
    pub returns : read_loop ns npos size ≡ ok (take size (drop npos (cells ns)), steps)
    pub lower : steps * B ≤ npos + size
    pub upper : npos + size < steps * B + B

  read_within :
      (n : Node) (ns : List Node) (npos size : ℕ)
      → IsNode B n
      → npos < B
      → leb (suc size) (n.size - npos) ≡ true
      → Got (n ∷ ns) npos (suc size)
  unfolding read_loop
  read_within n ns npos size u h fits =
      let room : npos + suc size ≤ length n.mem = omega (arith, leb→le _ _ fits) in
      record {
        steps = if n.size == npos + suc size then 1 else 0;
        returns = rw (
          fits,
          drop-append_left npos n.mem (cells ns) (omega arith),
          take-append_left (suc size) (drop npos n.mem) (cells ns)
              (omega (arith, length-drop npos n.mem)),
        );
        lower = ground arith;
        upper = ground arith;
      }

  read_across :
      (n : Node) (ns : List Node) (npos size : ℕ)
      → IsNode B n
      → npos < B
      → leb (suc size) (n.size - npos) ≡ false
      → Got ns 0 (suc size - (n.size - npos))
      → Got (n ∷ ns) npos (suc size)
  unfolding read_loop
  read_across n ns npos size u h crosses g =
      let ncap = n.size - npos in
      let over : ncap < suc size = ground arith in
      let all : length (drop npos n.mem) ≡ ncap = omega (arith, length-drop npos n.mem) in
      record {
        steps = suc g.steps;
        returns = rw (
          crosses,
          g.returns,
          drop-append_left npos n.mem (cells ns) (omega arith),
          take-append_right (suc size) (suc size - ncap) (drop npos n.mem) (cells ns) (omega arith),
          take_all ncap (drop npos n.mem) (omega arith),
        );
        lower = omega (arith, g.lower);
        upper = omega (arith, g.upper);
      }

  pub read_loop_lem :
      (ns : List Node) (npos size : ℕ)
      → Uniform ns
      → npos < B
      → npos + size ≤ length ns * B
      → Got ns npos size
  read_loop_lem ns npos zero u h fits = record {
    steps = 0;
    returns = unfold read_loop in refl;
    lower = omega arith;
    upper = omega arith;
  }
  read_loop_lem [] npos (suc size) u h fits = absurd (omega arith)
  read_loop_lem (n ∷ ns) npos (suc size) u h fits =
      elim (Bool-cases (leb (suc size) (n.size - npos))) [
        | inl within ↦ read_within n ns npos size u.0 h within
        | inr crosses ↦
            read_across n ns npos size u.0 h crosses
              (read_loop_lem ns 0 (suc size - (n.size - npos)) u.1 (omega arith) (omega arith))
      ]

  -- `seek` stops at the node that holds place `v`; it returns the next one when `v` is its end.
  pub seek_lem :
      (ns : List Node) (k v : ℕ)
      → Uniform ns
      → 0 < B
      → 0 < length ns
      → v ≤ length ns * B
      → (q : ℕ) × (seek ns k v ≡ ok (k + q)) × (q * B ≤ v) × (v < q * B + B)
  unfolding seek
  seek_lem [] k v u pos some_node h = absurd (omega arith)
  seek_lem (n ∷ []) k v u pos some_node h =
      (if v == n.size then 1 else 0, ground arith, ground arith, ground arith)
  seek_lem (n ∷ m ∷ ns) k v u pos some_node h = elim (Bool-cases (ltb n.size v)) [
    | inl beyond ↦
        let (q, found, lower, upper) =
          seek_lem (m ∷ ns) (suc k) (v - n.size) u.1 pos (omega arith) (ground arith) in
        (suc q, ground (arith, found), ground arith, ground arith)
    | inr here ↦ (if v == n.size then 1 else 0, ground arith, ground arith, ground arith)
  ]
