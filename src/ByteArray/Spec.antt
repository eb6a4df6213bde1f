-- ===== src/ByteArray/Spec.antt =====
-- What a ByteArray (Sylar/bytearray.h) promises: it is a file in memory. `File` is that file, and the
-- theorem says that every history of calls that the file allows runs on the chain of blocks, with
-- the same bytes read.
use native.Mathlib.Nat.{div-eq_of_lt}
use my_sylar_server.Base.{
  ℕ, ◌+◌, ◌≤◌, ◌<◌, ◌≡◌, refl, ap, ◌∙◌, Option, none, some, List, [], ◌∷◌, ◌++◌, length, take, drop,
  ltb, leb, ◌&&◌, if◌then◌else◌, Bool-cases, inl, inr, leb→le, arith, length-replicate, length-take,
  Option-cases, ◌/◌, ◌*◌,
}
use my_sylar_server.Base.Slices.{splice}
use my_sylar_server.ByteArray.{ByteArray, byte_array, write, read, set_position, clear}
use my_sylar_server.ByteArray.Chain.{Outcome, ok, ◌>>=◌}
use my_sylar_server.ByteArray.Valid.{IsValid, Uniform-take, content, length-content}
use my_sylar_server.ByteArray.Writes.{write_lem}
use my_sylar_server.ByteArray.Reads.{rest, read_lem, set_position_lem}

pub record File : Type 0 where
  pub bytes : List ℕ
  pub place : ℕ

-- `reads n` reads `n` bytes.
pub data Call : Type 0 where
  writes : List ℕ → Call
  reads : ℕ → Call
  seeks : ℕ → Call

-- A call on the file: the bytes read and the file behind it. A write puts its bytes at the place,
-- over what stands there and beyond the end. A read, also of no bytes, is allowed only before the
-- end and up to it, and a seek up to the end.
unfoldable pub file_step : Call → File → Option (List ℕ × File)
file_step (writes buf) f =
    some ([], record { bytes = splice f.place buf f.bytes; place = f.place + length buf })
file_step (reads n) f =
    if ltb f.place (length f.bytes) && leb (f.place + n) (length f.bytes)
    then some (take n (drop f.place f.bytes), record f { place = f.place + n })
    else none
file_step (seeks p) f = if leb p (length f.bytes) then some ([], record f { place = p }) else none

unfoldable pub file_run : List Call → File → Option (List ℕ × File)
file_run [] f = some ([], f)
file_run (c ∷ cs) f = elim (file_step c f) [
  | none ↦ none
  | some (out, f') ↦ elim (file_run cs f') [
    | none ↦ none
    | some (outs, f'') ↦ some (out ++ outs, f'')
  ]
]

-- The same call on the class.
unfoldable pub step : Call → ByteArray → Outcome (List ℕ × ByteArray)
step (writes buf) b = write buf b >>= λ b'. ok ([], b')
step (reads n) b = read n b
step (seeks p) b = set_position p b >>= λ b'. ok ([], b')

unfoldable pub run : List Call → ByteArray → Outcome (List ℕ × ByteArray)
run [] b = ok ([], b)
run (c ∷ cs) b = step c b >>= λ (out, b'). run cs b' >>= λ (outs, b''). ok (out ++ outs, b'')

abbrev pub view : ByteArray → File
view b = record { bytes = content b; place = b.position }

-- The class follows the file.
pub record Follows (out : List ℕ) (f : File) (r : Outcome (List ℕ × ByteArray)) : Type 0 where
  pub after : ByteArray
  pub returns : r ≡ ok (out, after)
  pub valid : IsValid after
  pub seen : view after ≡ f

Follows-eq :
    {out out' : List ℕ} {f f' : File} {r : Outcome (List ℕ × ByteArray)}
    → Follows out f r
    → ◌≡◌ {A = Option (List ℕ × File)} (some (out, f)) (some (out', f'))
    → Follows out' f' r
Follows-eq h e = record {
  after = h.after;
  returns = h.returns ∙ cc;
  valid = h.valid;
  seen = h.seen ∙ cc;
}

step-Follows :
    (c : Call) {b : ByteArray} {out : List ℕ} {f : File}
    → IsValid b
    → file_step c (view b) ≡ some (out, f)
    → Follows out f (step c b)
unfolding file_step step
step-Follows (writes buf) {b} v e =
    let w = write_lem v buf in
    let h : Follows [] _ (step (writes buf) b) = record {
      after = w.after;
      returns = rw w.returns;
      valid = w.valid;
      seen = λ i. record { bytes = w.flat i; place = w.moved i };
    } in
    Follows-eq h e
step-Follows (reads n) {b} v e =
    elim (Bool-cases
      (ltb b.position (length (content b)) && leb (b.position + n) (length (content b)))) [
        | inl fits ↦
            let before : b.position < length (content b) = ground arith in
            let enough : b.position + n ≤ length (content b) = ground arith in
            let t =
              read_lem v n (omega (arith, length-content v))
                (omega (arith, v.within, length-content v)) in
            let h : Follows (take n (rest b)) _ (step (reads n) b) = record {
              after = t.after;
              returns = t.returns;
              valid = t.valid;
              seen = λ i. record { bytes = t.flat i; place = t.moved i };
            } in
            Follows-eq h (rw fits at e)
        | inr short ↦ cc (rw short at e)
      ]
step-Follows (seeks p) {b} v e = elim (Bool-cases (leb p (length (content b)))) [
  | inl fits ↦
      let w = set_position_lem v p (omega (arith, leb→le _ _ fits, length-content v)) in
      let h : Follows [] _ (step (seeks p) b) = record {
        after = w.after;
        returns = rw w.returns;
        valid = w.valid;
        seen = λ i. record { bytes = w.flat i; place = w.moved i };
      } in
      Follows-eq h (rw fits at e)
  | inr short ↦ cc (rw short at e)
]

-- Every history of calls that the file allows runs on the class without an exception or a fault,
-- reads the same bytes, and ends with the same content and position.
pub run-Follows :
    (cs : List Call) {b : ByteArray} {out : List ℕ} {f : File}
    → IsValid b
    → file_run cs (view b) ≡ some (out, f)
    → Follows out f (run cs b)
unfolding file_run run
run-Follows [] {b} v e =
    let h : Follows [] (view b) (run [] b) = record {
      after = b;
      returns = refl;
      valid = v;
      seen = refl;
    } in
    Follows-eq h e
run-Follows (c ∷ cs) {b} v e = elim (Option-cases (file_step c (view b))) [
  | inl refused ↦ cc (rw (refused, file_run) at e)
  | inr ((o, f'), stepped) ↦
      let h = step-Follows c v stepped in
      let e' = rw (stepped, file_run) at e in
      elim (Option-cases (file_run cs f')) [
        | inl refused ↦ cc (rw refused at e')
        | inr ((outs, f''), rest_run) ↦
            let k = run-Follows cs {out = outs} {f = f''} h.valid (rw h.seen rest_run) in
            let whole : Follows (o ++ outs) f'' (run (c ∷ cs) b) = record {
              after = k.after;
              returns = rw (h.returns, k.returns);
              valid = k.valid;
              seen = k.seen;
            } in
            Follows-eq whole (rw rest_run at e')
      ]
]

-- A new buffer whose blocks are not empty is valid and holds no bytes.
pub byte_array-IsValid :
    (junk base : ℕ)
    → 0 < base
    → IsValid (byte_array junk base) × (content (byte_array junk base) ≡ [])
unfolding byte_array
byte_array-IsValid junk base h = (
  record {
    positive = h;
    uniform = ((refl, length-replicate base junk), tt);
    covered = omega arith;
    some_node = omega arith;
    behind = omega arith;
    within = omega arith;
    cursor = let z : 0 / base ≡ 0 = div-eq_of_lt h in rw z;
  },
  refl,
)

-- `clear` empties a valid buffer and keeps it valid.
pub clear-IsValid : {b : ByteArray} → IsValid b → IsValid (clear b) × (content (clear b) ≡ [])
unfolding clear
clear-IsValid {b} v =
    let one : length (take 1 b.root) ≡ 1 = omega (arith, length-take 1 b.root, v.some_node) in
    let start : 0 / b.base_size ≡ 0 = div-eq_of_lt v.positive in
    (
      record {
        positive = v.positive;
        uniform = Uniform-take b.base_size 1 b.root v.uniform;
        covered = omega (arith, ap (λ (t : ℕ). t * b.base_size) one);
        some_node = omega (arith, one);
        behind = omega arith;
        within = omega arith;
        cursor = rw start;
      },
      refl,
    )
