-- ===== src/ByteArray/Writes.antt =====
-- Sylar/bytearray.cc, `addCapacity` and `write`, against the flat content.
use Prim.Native.Nat.{max}
use native.Mathlib.Nat.{mod-lt}
use my_sylar_server.Base.{
  ℕ, ◌+◌, ◌-◌, ◌*◌, ◌/◌, ◌%◌, ◌≤◌, ◌<◌, ◌≡◌, refl, sym, ap, ◌∙◌, inl, inr, List, [], ◌∷◌, ◌++◌,
  true, false, length, take, drop, replicate, ltb, leb, ◌==◌, if◌then◌else◌, Bool-cases,
  length-append, length-replicate, length-take, length-drop, arith, lt→ltb, leb→le, leb→lt, ◌⊎◌,
}
use my_sylar_server.Base.Slices.{
  splice, splice-nil, splice_suffix, take-splice, splice-splice, take-append_left,
}
use my_sylar_server.ByteArray.{
  ByteArray, add_capacity, write_here, write, get_capacity, new_node, ceil_div,
}
use my_sylar_server.ByteArray.Chain.{Outcome, ok, ◌>>=◌, Node, at_node, cells}
use my_sylar_server.ByteArray.Chain.Laws.{Written, write_loop_lem}
use my_sylar_server.ByteArray.Valid.{
  IsValid, length-content, Uniform-append, Uniform-replicate, Uniform-take, Uniform-drop,
  cells-append, div_unique, ceil_div-covers, ceil_div-pos, position-split, node-in_chain, cur-some,
  cells-covered, chain-room, cells-from, cells-upto, position_full, capacity-left, content,
}

-- What a write of `buf` at the position leaves, in the flat view.
pub record Wrote (b : ByteArray) (buf : List ℕ) (r : Outcome ByteArray) : Type 0 where
  pub after : ByteArray
  pub returns : r ≡ ok after
  pub valid : IsValid after
  pub flat : content after ≡ splice b.position buf (content b)
  pub moved : after.position ≡ b.position + length buf
  pub same_base : after.base_size ≡ b.base_size
  pub same_endian : after.endian ≡ b.endian
  pub sized : after.size ≡ max b.size (b.position + length buf)
  pub kept : b.capacity ≤ after.capacity
  pub in_room : b.position + length buf ≤ b.capacity → after.capacity ≡ b.capacity

module _ {b : ByteArray} (v : IsValid b) where
  write_here_lem :
      (buf : List ℕ)
      → b.position < b.capacity
      → b.position + length buf ≤ b.capacity
      → Wrote b buf (write_here buf b)
  unfolding write_here
  write_here_lem buf h fits = record {
    after = after;
    returns = rw (cur-some v h, w.returns);
    valid = record {
      positive = v.positive;
      uniform =
          Uniform-append b.base_size (take k b.root) w.nodes
            (Uniform-take b.base_size k b.root v.uniform) w.uniform;
      covered = v.covered ∙ ap (λ (t : ℕ). t * b.base_size) (sym as_many);
      some_node = omega (arith, as_many, v.some_node);
      behind = ground arith;
      within = ground (arith, v.within);
      cursor = ap (at_node after.root) (sym at_cursor);
    };
    flat = rw whole (
        take-splice b.size after.size b.position buf (cells b.root) v.behind
          (omega (arith, cells-covered v, v.within)) (ground arith));
    moved = refl;
    same_base = refl;
    same_endian = refl;
    sized = ground arith;
    kept = omega arith;
    in_room = λ _. refl;
  }
    where
      k : ℕ
      k = b.position / b.base_size

      w : Written b.base_size (drop k b.root) (b.position % b.base_size) buf
      w =
          write_loop_lem b.base_size (drop k b.root) (b.position % b.base_size) buf
            (Uniform-drop b.base_size k b.root v.uniform) (mod-lt b.position v.positive)
            (chain-room v (length buf) h fits)

      after : ByteArray
      after = record b {
        root = take k b.root ++ w.nodes;
        cur = at_node (take k b.root ++ w.nodes) (k + w.steps);
        position = b.position + length buf;
        size = if ltb b.size (b.position + length buf) then b.position + length buf else b.size;
      }

      as_many : length (take k b.root ++ w.nodes) ≡ length b.root
      as_many = omega (
        arith,
        length-append (take k b.root) w.nodes,
        w.as_many,
        length-take k b.root,
        length-drop k b.root,
        node-in_chain v h,
      )

      at_cursor : (b.position + length buf) / b.base_size ≡ k + w.steps
      at_cursor =
          div_unique b.base_size (k + w.steps) (b.position + length buf)
            (omega (arith, w.lower, position-split v)) (omega (arith, w.upper, position-split v))

      whole : cells (take k b.root ++ w.nodes) ≡ splice b.position buf (cells b.root)
      whole =
          cells-append (take k b.root) w.nodes
          ∙ rw (w.flat, cells-from v h, cells-upto v h)
              (sym (splice_suffix (k * b.base_size) (b.position % b.base_size) buf (cells b.root))
                ∙ ap (λ (t : ℕ). splice t buf (cells b.root)) (position-split v))

-- `addCapacity` makes room for `n` more bytes and changes nothing that the buffer holds.
pub record Grown (b c : ByteArray) (n : ℕ) : Type 0 where
  pub valid : IsValid c
  pub flat : content c ≡ content b
  pub room : b.position + n ≤ c.capacity
  pub same_position : c.position ≡ b.position
  pub same_size : c.size ≡ b.size
  pub same_base : c.base_size ≡ b.base_size
  pub same_endian : c.endian ≡ b.endian
  pub kept : b.capacity ≤ c.capacity
  pub in_room : b.position + n ≤ b.capacity → c.capacity ≡ b.capacity

-- `count` new blocks at the end of the chain.
extended : ByteArray → ℕ → ByteArray
extended b count =
    let root = b.root ++ replicate count (new_node b.junk b.base_size) in
    record b {
      root = root;
      capacity = b.capacity + count * b.base_size;
      cur = if get_capacity b == 0 then at_node root (length b.root) else b.cur;
    }

module _ {b : ByteArray} (v : IsValid b) where
  extended-Grown :
      (n count : ℕ)
      → 0 < count
      → b.capacity < b.position + n
      → b.position + n ≤ b.capacity + count * b.base_size
      → Grown b (extended b count) n
  unfolding extended
  extended-Grown n count some_new short enough = record {
    valid = record {
      positive = v.positive;
      uniform =
          Uniform-append b.base_size b.root blocks v.uniform
            (Uniform-replicate b.base_size b.junk count);
      covered = omega (arith, v.covered, ap (λ (t : ℕ). t * b.base_size) as_many);
      some_node = omega (arith, as_many, v.some_node);
      behind = v.behind;
      within = omega (arith, v.within);
      cursor = at_cursor (Bool-cases (get_capacity b == 0));
    };
    flat = rw (cells-append b.root blocks) (
        take-append_left b.size (cells b.root) (cells blocks)
          (omega (arith, cells-covered v, v.within)));
    room = enough;
    same_position = refl;
    same_size = refl;
    same_base = refl;
    same_endian = refl;
    kept = omega arith;
    in_room = λ room. absurd (omega arith);
  }
    where
      blocks : List Node
      blocks = replicate count (new_node b.junk b.base_size)

      as_many : length (b.root ++ blocks) ≡ length b.root + count
      as_many =
          omega (
            arith,
            length-append b.root blocks,
            length-replicate count (new_node b.junk b.base_size),
          )

      root : List Node
      root = b.root ++ blocks

      at_cursor :
          (get_capacity b == 0) ≡ true ⊎ (get_capacity b == 0) ≡ false
          → (if get_capacity b == 0 then at_node root (length b.root) else b.cur)
            ≡ at_node root (b.position / b.base_size)
      at_cursor (inl full) = rw full (ap (at_node root) (sym (position_full v (ground arith))))
      at_cursor (inr open_) =
          let h : b.position < b.capacity = ground (arith, v.behind, v.within) in
          rw open_ (
            cur-some v h
            ∙ rw (
                lt→ltb (b.position / b.base_size) (length root)
                  (omega (arith, as_many, node-in_chain v h))))

  pub add_capacity-Grown : (n : ℕ) → Grown b (add_capacity n b) n
  unfolding add_capacity extended
  add_capacity-Grown n = grows (Bool-cases (n == 0)) (Bool-cases (leb n (get_capacity b)))
    where
      same : b.position + n ≤ b.capacity → Grown b b n
      same enough = record {
        valid = v;
        flat = refl;
        room = enough;
        same_position = refl;
        same_size = refl;
        same_base = refl;
        same_endian = refl;
        kept = omega arith;
        in_room = λ _. refl;
      }

      lacking : ℕ
      lacking = n - get_capacity b

      grows :
          (n == 0) ≡ true ⊎ (n == 0) ≡ false
          → leb n (get_capacity b) ≡ true ⊎ leb n (get_capacity b) ≡ false
          → Grown b (add_capacity n b) n
      grows (inl none_wanted) fits = rw none_wanted (same (ground (arith, v.behind, v.within)))
      grows (inr wanted) (inl fits) =
          rw (wanted, fits)
            (same (ground (arith, leb→le _ _ fits, capacity-left v, v.behind, v.within)))
      grows (inr wanted) (inr short) =
          rw (wanted, short)
            (extended-Grown n (ceil_div lacking b.base_size)
              (ceil_div-pos lacking b.base_size v.positive (omega (arith, leb→lt _ _ short)))
              (omega (arith, leb→lt _ _ short, capacity-left v, v.behind, v.within))
              (omega (
                arith,
                ceil_div-covers lacking b.base_size v.positive,
                ap (λ (t : ℕ). n - t) (capacity-left v),
                v.behind,
                v.within,
              )))

module _ {b : ByteArray} (v : IsValid b) where
  -- `write` puts `buf` at the position, over what stands there and beyond the end, whatever the
  -- blocks are; it never fails.
  pub write_lem : (buf : List ℕ) → Wrote b buf (write buf b)
  unfolding write
  write_lem [] = record {
    after = b;
    returns = refl;
    valid = v;
    flat = sym (splice-nil b.position (content b));
    moved = omega arith;
    same_base = refl;
    same_endian = refl;
    sized = omega (arith, v.behind);
    kept = omega arith;
    in_room = λ _. refl;
  }
  write_lem (x ∷ buf) =
      let g = add_capacity-Grown v (length (x ∷ buf)) in
      let w =
        write_here_lem g.valid (x ∷ buf) (omega (arith, g.same_position, g.room))
          (omega (arith, g.same_position, g.room)) in
      record {
        after = w.after;
        returns = w.returns;
        valid = w.valid;
        flat = w.flat ∙ rw (g.same_position, g.flat);
        moved = w.moved ∙ rw g.same_position;
        same_base = w.same_base ∙ g.same_base;
        same_endian = w.same_endian ∙ g.same_endian;
        sized = w.sized ∙ rw (g.same_position, g.same_size);
        kept = omega (arith, w.kept, g.kept);
        in_room =
            λ room. w.in_room (omega (arith, g.same_position, g.in_room room)) ∙ g.in_room room;
      }

-- One writer after another.
pub Wrote-bind :
    {b : ByteArray} {xs ys : List ℕ} {r : Outcome ByteArray} (f : ByteArray → Outcome ByteArray)
    → IsValid b
    → (w : Wrote b xs r) → Wrote w.after ys (f w.after)
    → Wrote b (xs ++ ys) (r >>= f)
Wrote-bind {b} {xs} {ys} f v w u = record {
  after = u.after;
  returns = rw w.returns u.returns;
  valid = u.valid;
  flat =
      u.flat
      ∙ rw (w.moved, w.flat)
          (splice-splice b.position xs ys (content b) (omega (arith, length-content v, v.behind)));
  moved = omega (arith, u.moved, w.moved, length-append xs ys);
  same_base = u.same_base ∙ w.same_base;
  same_endian = u.same_endian ∙ w.same_endian;
  sized = omega (arith, u.sized, w.sized, w.moved, length-append xs ys);
  kept = omega (arith, u.kept, w.kept);
  in_room = λ room.
      let first = w.in_room (omega (arith, length-append xs ys)) in
      u.in_room (omega (arith, first, w.moved, length-append xs ys)) ∙ first;
}
