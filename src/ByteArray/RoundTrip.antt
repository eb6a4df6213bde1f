-- ===== src/ByteArray/RoundTrip.antt =====
-- Writing a value into a ByteArray, going back to where it was written, and reading: the shape of
-- the round trips of Sylar/bytearray.cc.
use my_sylar_server.Base.{ℕ, ◌+◌, ◌≤◌, ◌≡◌, ◌∙◌, List, ◌++◌, length, take, drop, length-take, arith}
use my_sylar_server.Base.Slices.{drop-append_right}
use my_sylar_server.ByteArray.{ByteArray, set_position}
use my_sylar_server.ByteArray.Chain.{Outcome, ok, ◌>>=◌}
use my_sylar_server.ByteArray.Valid.{IsValid, content, length-content}
use my_sylar_server.ByteArray.Writes.{Wrote}
use my_sylar_server.ByteArray.Reads.{Took, rest, set_position_lem}

-- Write at the position of `b`, set the position back, read: the value and the position behind it.
abbrev pub there_and_back :
    {A : Type 0}
    → (ByteArray → Outcome ByteArray)
    → (ByteArray → Outcome (A × ByteArray))
    → ByteArray
    → Outcome (A × ℕ)
there_and_back write read b = do
  c ← write b
  d ← set_position b.position c
  (x, e) ← read d
  ok (x, e.position)

-- The buffer behind the write, with the position set back: the bytes written come next.
pub record Rewound (b : ByteArray) (buf : List ℕ) (r : Outcome ByteArray) : Type 0 where
  pub written : ByteArray
  pub after : ByteArray
  pub tail : List ℕ
  pub wrote : r ≡ ok written
  pub returns : set_position b.position written ≡ ok after
  pub valid : IsValid after
  pub at_start : after.position ≡ b.position
  pub next : rest after ≡ buf ++ tail
  pub same_endian : after.endian ≡ b.endian
  pub kept : b.capacity ≤ after.capacity
  pub in_room : b.position + length buf ≤ b.capacity → after.capacity ≡ b.capacity

module _ {b : ByteArray} (v : IsValid b) {buf : List ℕ} {r : Outcome ByteArray} where
  pub rewind : Wrote b buf r → Rewound b buf r
  rewind w =
      let p = set_position_lem w.valid b.position (omega (arith, w.valid.behind, w.moved)) in
      let front : length (take b.position (content b)) ≡ b.position =
        omega (arith, length-take b.position (content b), length-content v, v.behind) in
      record {
        written = w.after;
        after = p.after;
        tail = drop (b.position + length buf) (content b);
        wrote = w.returns;
        returns = p.returns;
        valid = p.valid;
        at_start = p.moved;
        next =
            rw (p.moved, p.flat, w.flat)
              (drop-append_right b.position 0 (take b.position (content b))
                (buf ++ drop (b.position + length buf) (content b)) (omega arith));
        same_endian = p.same_endian ∙ w.same_endian;
        kept = omega (arith, w.kept, p.same_capacity);
        in_room = λ room. p.same_capacity ∙ w.in_room room;
      }

-- A writer and a reader of the same bytes make a round trip.
pub round_trip :
    {A : Type 0} (write : ByteArray → Outcome ByteArray)
    (read : ByteArray → Outcome (A × ByteArray)) {b : ByteArray} {buf : List ℕ} {a : A} {n : ℕ}
    → (w : Rewound b buf (write b)) → Took w.after n a (read w.after)
    → there_and_back write read b ≡ ok (a, b.position + n)
round_trip write read w t = rw (w.wrote, w.returns, t.returns, t.moved, w.at_start)
