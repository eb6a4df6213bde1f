-- ===== src/ByteArray/Reads.antt =====
-- Sylar/bytearray.cc, `read`, `setPosition` and the other readers, against the flat content.
use native.Mathlib.Nat.{mod-lt}
use my_sylar_server.Base.{
  ℕ, suc, ◌+◌, ◌-◌, ◌*◌, ◌/◌, ◌%◌, ◌≤◌, ◌<◌, ◌≡◌, refl, sym, ap, ◌∙◌, List, ◌∷◌, ◌++◌, false, take,
  drop, ltb, length, length-drop, length-append, arith, le→ltb, lt→ltb, le→leb,
}
use my_sylar_server.Base.Slices.{
  drop-drop, drop-take, take-take_le, take-length-append, drop-length-append,
}
use my_sylar_server.ByteArray.{ByteArray, read, get_read_size, set_position}
use my_sylar_server.ByteArray.Chain.{Outcome, ok, ◌>>=◌, out_of_range, null_pointer, at_node, cells}
use my_sylar_server.ByteArray.Chain.Laws.{Got, read_loop_lem, seek_lem}
use my_sylar_server.ByteArray.Valid.{
  IsValid, Uniform-drop, div_unique, position-split, cur-some, chain-room, cells-from, content,
  position_full, length-content,
}

-- What is left to read: the bytes [m_position, m_size).
abbrev pub rest : ByteArray → List ℕ
rest b = drop b.position (content b)

-- What a reader that takes `n` bytes and returns `a` leaves.
pub record Took {A : Type 0} (b : ByteArray) (n : ℕ) (a : A) (r : Outcome (A × ByteArray))
    : Type 0 where
  pub after : ByteArray
  pub returns : r ≡ ok (a, after)
  pub valid : IsValid after
  pub flat : content after ≡ content b
  pub moved : after.position ≡ b.position + n
  pub same_base : after.base_size ≡ b.base_size
  pub same_endian : after.endian ≡ b.endian
  pub same_size : after.size ≡ b.size
  pub same_root : after.root ≡ b.root
  pub same_capacity : after.capacity ≡ b.capacity

module _ {b : ByteArray} (v : IsValid b) where
  read_size-left : get_read_size b ≡ b.size - b.position
  read_size-left = rw (le→leb _ _ v.behind)

  -- A read of what is there succeeds, if the position is not at the very end of the last block.
  pub read_lem :
      (n : ℕ)
      → b.position + n ≤ b.size
      → b.position < b.capacity
      → Took b n (take n (rest b)) (read n b)
  unfolding read
  read_lem n fits h = record {
    after = after;
    returns =
        rw (read_size-left, ltb-le, cur-some v h, g.returns)
          (ap (λ (bytes : List ℕ). ok (bytes, after)) here);
    valid = record {
      positive = v.positive;
      uniform = v.uniform;
      covered = v.covered;
      some_node = v.some_node;
      behind = fits;
      within = v.within;
      cursor = ap (at_node b.root) (sym at_cursor);
    };
    flat = refl;
    moved = refl;
    same_base = refl;
    same_endian = refl;
    same_size = refl;
    same_root = refl;
    same_capacity = refl;
  }
    where
      k : ℕ
      k = b.position / b.base_size

      ltb-le : ltb (b.size - b.position) n ≡ false
      ltb-le = le→ltb _ _ (omega arith)

      g : Got b.base_size (drop k b.root) (b.position % b.base_size) n
      g =
          read_loop_lem b.base_size (drop k b.root) (b.position % b.base_size) n
            (Uniform-drop b.base_size k b.root v.uniform) (mod-lt b.position v.positive)
            (chain-room v n h (omega (arith, v.within)))

      after : ByteArray
      after = record b { cur = at_node b.root (k + g.steps); position = b.position + n }

      at_cursor : (b.position + n) / b.base_size ≡ k + g.steps
      at_cursor =
          div_unique b.base_size (k + g.steps) (b.position + n)
            (omega (arith, g.lower, position-split v)) (omega (arith, g.upper, position-split v))

      here :
          take n (drop (b.position % b.base_size) (cells (drop k b.root)))
          ≡ take n (drop b.position (content b))
      here =
          rw
            (
              cells-from v h,
              drop-drop (b.position % b.base_size) (k * b.base_size) (cells b.root),
              position-split v,
              drop-take b.position b.size (cells b.root),
            )
            (sym
              (take-take_le n (b.size - b.position) (drop b.position (cells b.root)) (omega arith)))

  -- A read beyond the end throws.
  pub read_beyond : (n : ℕ) → b.size < b.position + n → read n b ≡ out_of_range
  unfolding read
  read_beyond n h = rw (read_size-left, lt→ltb (b.size - b.position) n (omega (arith, v.behind)))

  -- At the very end of the last block there is no current node, and reading 0 bytes fails.
  pub read_end : b.position ≡ b.capacity → read 0 b ≡ null_pointer
  unfolding read
  read_end h = rw (
    le→ltb (get_read_size b) 0 (omega arith),
    v.cursor,
    position_full v h,
    le→ltb (length b.root) (length b.root) (omega arith),
  )

  pub length-rest : length (rest b) ≡ b.size - b.position
  length-rest = omega (arith, length-drop b.position (content b), length-content v)

  -- A block of bytes that stands next is what a read of its length returns.
  pub read_next :
      (x : ℕ) (bytes tail : List ℕ)
      → rest b ≡ (x ∷ bytes) ++ tail
      → Took b (length (x ∷ bytes)) (x ∷ bytes) (read (length (x ∷ bytes)) b)
  read_next x bytes tail e =
      let n = length (x ∷ bytes) in
      let left : length (x ∷ bytes) ≤ b.size - b.position =
        omega (arith, length-rest, ap length e, length-append bytes tail) in
      let found : take n (rest b) ≡ x ∷ bytes = rw e (take-length-append (x ∷ bytes) tail) in
      rw found at (read_lem n (fits left) (before_end left))
    where
      fits : suc (length bytes) ≤ b.size - b.position → b.position + suc (length bytes) ≤ b.size
      fits h = omega arith

      before_end : suc (length bytes) ≤ b.size - b.position → b.position < b.capacity
      before_end h = omega (arith, v.within)

-- What is left behind the bytes taken.
pub rest-Took :
    {A : Type 0} {b : ByteArray} {a : A} {r : Outcome (A × ByteArray)} (bytes tail : List ℕ)
    → (t : Took b (length bytes) a r) → rest b ≡ bytes ++ tail
    → rest t.after ≡ tail
rest-Took {b = b} bytes tail t e =
    rw (t.moved, t.flat)
      (sym (drop-drop (length bytes) b.position (content b)) ∙ rw e (drop-length-append bytes tail))

-- One reader after another.
pub Took-bind :
    {A C : Type 0} {b : ByteArray} {n m : ℕ} {a : A} {c : C} {r : Outcome (A × ByteArray)}
    (f : A × ByteArray → Outcome (C × ByteArray))
    → (t : Took b n a r) → Took t.after m c (f (a, t.after))
    → Took b (n + m) c (r >>= f)
Took-bind f t u = record {
  after = u.after;
  returns = rw t.returns u.returns;
  valid = u.valid;
  flat = u.flat ∙ t.flat;
  moved = omega (arith, u.moved, t.moved);
  same_base = u.same_base ∙ t.same_base;
  same_endian = u.same_endian ∙ t.same_endian;
  same_size = u.same_size ∙ t.same_size;
  same_root = u.same_root ∙ t.same_root;
  same_capacity = u.same_capacity ∙ t.same_capacity;
}

-- A reader that computes with what another read, and reads no more.
pub Took-return :
    {A C : Type 0} {b : ByteArray} {n : ℕ} {a : A} {c : C} {r : Outcome (A × ByteArray)}
    (f : A × ByteArray → Outcome (C × ByteArray))
    → (t : Took b n a r) → f (a, t.after) ≡ ok (c, t.after)
    → Took b n c (r >>= f)
Took-return f t e = record {
  after = t.after;
  returns = rw t.returns e;
  valid = t.valid;
  flat = t.flat;
  moved = t.moved;
  same_base = t.same_base;
  same_endian = t.same_endian;
  same_size = t.same_size;
  same_root = t.same_root;
  same_capacity = t.same_capacity;
}

pub Took-map :
    {A C : Type 0} {b : ByteArray} {n : ℕ} {a : A} {r : Outcome (A × ByteArray)} (f : A → C)
    → Took b n a r
    → Took b n (f a) (r >>= λ (x, b'). ok (f x, b'))
Took-map f t = Took-return (λ (x, b'). ok (f x, b')) t refl

-- What `setPosition` leaves at a place within the size.
pub record Placed (b : ByteArray) (p : ℕ) (r : Outcome ByteArray) : Type 0 where
  pub after : ByteArray
  pub returns : r ≡ ok after
  pub valid : IsValid after
  pub flat : content after ≡ content b
  pub moved : after.position ≡ p
  pub same_endian : after.endian ≡ b.endian
  pub same_size : after.size ≡ b.size
  pub same_capacity : after.capacity ≡ b.capacity

module _ {b : ByteArray} (v : IsValid b) where
  -- `setPosition` to a place up to the end of a valid buffer succeeds: it finds the node of the
  -- position, keeps the buffer valid, and leaves the content, the size and the capacity.
  pub set_position_lem : (p : ℕ) → p ≤ b.size → Placed b p (set_position p b)
  unfolding set_position
  set_position_lem p h =
      let (q, found, lower, upper) =
        seek_lem b.base_size b.root 0 p v.uniform v.positive v.some_node
          (omega (arith, v.within, v.covered)) in
      let at_q : 0 + q ≡ q = omega arith in
      record {
        after = record b { position = p; cur = at_node b.root q };
        returns =
            rw (le→ltb b.capacity p (omega (arith, v.within)), found, at_q, le→ltb b.size p h);
        valid = record {
          positive = v.positive;
          uniform = v.uniform;
          covered = v.covered;
          some_node = v.some_node;
          behind = h;
          within = v.within;
          cursor = ap (at_node b.root) (sym (div_unique b.base_size q p lower upper));
        };
        flat = refl;
        moved = refl;
        same_endian = refl;
        same_size = refl;
        same_capacity = refl;
      }

  -- Beyond the capacity it throws.
  pub set_position_beyond : (p : ℕ) → b.capacity < p → set_position p b ≡ out_of_range
  unfolding set_position
  set_position_beyond p h = rw (lt→ltb b.capacity p h)
