-- ===== src/Codec/Split.antt =====
-- split of Sylar/util/hash_util.cc at one character. The loop walks over the text where the code
-- finds the next delimiter: `piece` is what stands between the last one and the pointer.
use my_sylar_server.Base.{
  ℕ, ◌+◌, ◌-◌, ◌%◌, ◌^◌, ◌≤◌, ◌<◌, ◌≡◌, refl, sym, ◌∙◌, Bool, true, false, List, [], ◌∷◌, ◌++◌,
  if◌then◌else◌, ◌==◌, length, arith, append_assoc, append-nil, Bool-cases, inl, inr, ==_iff,
}
use my_sylar_server.Codec.{Bytes}

-- `--max` of a size_t.
abbrev pub decremented : ℕ → ℕ
decremented max = (max + 2 ^ 64 - 1) % 2 ^ 64

pub split_loop : ℕ → ℕ → Bytes → Bytes → List Bytes
split_loop delim max piece [] = piece ∷ []
split_loop delim max piece (c ∷ s) =
    let cut = split_loop delim (decremented max) [] s in
    let same = split_loop delim max (piece ++ c ∷ []) s in
    if c == delim then piece ∷ (if decremented max == 1 then s ∷ [] else cut) else same

abbrev pub is_empty : Bytes → Bool
is_empty [] = true
is_empty (c ∷ s) = false

unfoldable pub split : Bytes → ℕ → ℕ → List Bytes
unfolding split_loop
split str delim max = if is_empty str then [] else split_loop delim max [] str

-- The pieces with the delimiter between them.
unfoldable pub join : ℕ → List Bytes → Bytes
join delim [] = []
join delim (p ∷ []) = p
join delim (p ∷ q ∷ ps) = p ++ delim ∷ join delim (q ∷ ps)

-- A list of pieces that has one.
abbrev HasPiece : List Bytes → Type 0
HasPiece ps = (p : Bytes) × (qs : List Bytes) × (ps ≡ p ∷ qs)

-- The pieces behind a delimiter.
abbrev behind : ℕ → ℕ → Bytes → List Bytes
behind delim max s =
    if decremented max == 1 then s ∷ [] else split_loop delim (decremented max) [] s

split_loop-HasPiece : (delim max : ℕ) (piece s : Bytes) → HasPiece (split_loop delim max piece s)
unfolding split_loop
split_loop-HasPiece delim max piece [] = (piece, [], refl)
split_loop-HasPiece delim max piece (c ∷ s) = elim (Bool-cases (c == delim)) [
  | inl here ↦ (piece, behind delim max s, rw here)
  | inr on ↦ rw on (split_loop-HasPiece delim max (piece ++ c ∷ []) s)
]

behind-HasPiece : (delim max : ℕ) (s : Bytes) → HasPiece (behind delim max s)
behind-HasPiece delim max s = elim (Bool-cases (decremented max == 1)) [
  | inl last ↦ rw last (s, [], refl)
  | inr more ↦ rw more (split_loop-HasPiece delim (decremented max) [] s)
]

join-cons :
    (delim : ℕ) (p : Bytes) (ps : List Bytes)
    → HasPiece ps
    → join delim (p ∷ ps) ≡ p ++ delim ∷ join delim ps
unfolding join
join-cons delim p ps (q, qs, e) = rw e

join_one : (delim : ℕ) (p : Bytes) → join delim (p ∷ []) ≡ p
unfolding join
join_one delim p = refl

join_none : (delim : ℕ) → join delim [] ≡ []
unfolding join
join_none delim = refl

join-split_loop :
    (delim max : ℕ) (piece s : Bytes) → join delim (split_loop delim max piece s) ≡ piece ++ s
unfolding split_loop
join-split_loop delim max piece [] = join_one delim piece ∙ sym (append-nil piece)
join-split_loop delim max piece (c ∷ s) = elim (Bool-cases (c == delim)) [
  | inl here ↦
      let e : c ≡ delim = (==_iff c delim).0 here in
      let later : join delim (behind delim max s) ≡ s = elim (Bool-cases (decremented max == 1)) [
        | inl last ↦ rw last (join_one delim s)
        | inr more ↦ rw more (join-split_loop delim (decremented max) [] s)
      ] in
      rw here
        (join-cons delim piece (behind delim max s) (behind-HasPiece delim max s) ∙ rw (later, e))
  | inr on ↦ rw on (join-split_loop delim max (piece ++ c ∷ []) s ∙ append_assoc piece (c ∷ []) s)
]

length-split_loop :
    (delim max : ℕ) (piece s : Bytes)
    → 2 ≤ max
    → max < 2 ^ 64
    → length (split_loop delim max piece s) ≤ max
unfolding split_loop
length-split_loop delim max piece [] lo hi = omega arith
length-split_loop delim max piece (c ∷ s) lo hi = elim (Bool-cases (c == delim)) [
  | inl here ↦ elim (Bool-cases (decremented max == 1)) [
    | inl last ↦ rw (here, last) lo
    | inr more ↦
        let less : decremented max + 1 ≡ max = omega arith in
        let fits = length-split_loop delim (decremented max) [] s (ground arith) (omega arith) in
        rw (here, more) (omega arith)
  ]
  | inr on ↦ rw on (length-split_loop delim max (piece ++ c ∷ []) s lo hi)
]

-- The pieces of a text, joined by the delimiter, are the text.
pub join-split : (str : Bytes) (delim max : ℕ) → join delim (split str delim max) ≡ str
unfolding split
join-split [] delim max = join_none delim
join-split (c ∷ s) delim max = join-split_loop delim max [] (c ∷ s)

-- There are at most `max` pieces if `max` is 2 or more.
pub length-split :
    (str : Bytes) (delim max : ℕ) → 2 ≤ max → max < 2 ^ 64 → length (split str delim max) ≤ max
unfolding split
length-split [] delim max lo hi = omega arith
length-split (c ∷ s) delim max lo hi = length-split_loop delim max [] (c ∷ s) lo hi
