-- ===== src/Codec/Trim.antt =====
-- Trim, TrimLeft and TrimRight of StringUtil (Sylar/util.cc).
use my_sylar_server.Base.{
  ℕ, suc, ◌+◌, ◌-◌, ◌≡◌, refl, sym, ap, ◌∙◌, Bool, true, false, ◌||◌, Option, none, some, [], ◌∷◌,
  if◌then◌else◌, ◌==◌, take, drop, arith, Bool-cases, Option-cases, inl, inr,
}
use my_sylar_server.Codec.{Bytes}

unfoldable pub is_in : ℕ → Bytes → Bool
is_in c [] = false
is_in c (d ∷ ds) = c == d || is_in c ds

abbrev pub map_option : (ℕ → ℕ) → Option ℕ → Option ℕ
map_option f none = none
map_option f (some i) = some (f i)

-- std::string::find_first_not_of and find_last_not_of; none is npos.
unfoldable pub find_first_not_of : Bytes → Bytes → Option ℕ
unfolding is_in
find_first_not_of delimit [] = none
find_first_not_of delimit (c ∷ s) =
    if is_in c delimit then map_option suc (find_first_not_of delimit s) else some 0

unfoldable pub find_last_not_of : Bytes → Bytes → Option ℕ
unfolding is_in
find_last_not_of delimit [] = none
find_last_not_of delimit (c ∷ s) = elim (find_last_not_of delimit s) [
  | some i ↦ some (suc i)
  | none ↦ if is_in c delimit then none else some 0
]

abbrev pub substr : ℕ → ℕ → Bytes → Bytes
substr begin n s = take n (drop begin s)

-- `npos` ends in the empty text.
abbrev pub or_empty : (ℕ → Bytes) → Option ℕ → Bytes
or_empty f none = []
or_empty f (some i) = f i

unfoldable pub trim : Bytes → Bytes → Bytes
trim str delimit =
    or_empty
      (λ begin.
        or_empty (λ last. substr begin (last - begin + 1) str) (find_last_not_of delimit str))
      (find_first_not_of delimit str)

unfoldable pub trim_left : Bytes → Bytes → Bytes
trim_left str delimit = or_empty (λ begin. drop begin str) (find_first_not_of delimit str)

unfoldable pub trim_right : Bytes → Bytes → Bytes
trim_right str delimit = or_empty (λ last. substr 0 last str) (find_last_not_of delimit str)

-- A text without the delimiters at its left, or at its right.
abbrev pub strip_left : Bytes → Bytes → Bytes
strip_left delimit [] = []
strip_left delimit (c ∷ s) = if is_in c delimit then strip_left delimit s else c ∷ s

abbrev pub join_left : Bool → ℕ → Bytes → Bytes
join_left delimiter c [] = if delimiter then [] else c ∷ []
join_left delimiter c (x ∷ s) = c ∷ x ∷ s

abbrev pub strip_right : Bytes → Bytes → Bytes
strip_right delimit [] = []
strip_right delimit (c ∷ s) = join_left (is_in c delimit) c (strip_right delimit s)

abbrev pub all_but_last : Bytes → Bytes
all_but_last [] = []
all_but_last (c ∷ []) = []
all_but_last (c ∷ d ∷ s) = c ∷ all_but_last (d ∷ s)

-- What find_last_not_of finds is the last place of the stripped text.
abbrev LastOf : Bytes → Bytes → Option ℕ → Type 0
LastOf delimit s none = strip_right delimit s ≡ []
LastOf delimit s (some i) =
    (strip_right delimit s ≡ take (suc i) s)
    × (take i s ≡ all_but_last (take (suc i) s))
    × ((x : ℕ) × (xs : Bytes) × (take (suc i) s ≡ x ∷ xs))

last_step :
    (delimit : Bytes) (c : ℕ) (s : Bytes) (o : Option ℕ)
    → LastOf delimit s o
    → LastOf delimit
        (c ∷ s)
        (elim o [ some i ↦ some (suc i) | none ↦ if is_in c delimit then none else some 0 ])
last_step delimit c s none h = elim (Bool-cases (is_in c delimit)) [
  | inl found ↦ rw found (rw (h, found))
  | inr failed ↦ rw failed (rw (h, failed), refl, (c, [], refl))
]
last_step delimit c s (some i) (e, f, (x, xs, g)) =
    let long : all_but_last (c ∷ take (suc i) s) ≡ c ∷ all_but_last (take (suc i) s) = rw g in
    (rw (e, g), ap (◌∷◌ c) f ∙ sym long, (c, take (suc i) s, refl))

last-LastOf : (delimit s : Bytes) → LastOf delimit s (find_last_not_of delimit s)
unfolding find_last_not_of
last-LastOf delimit [] = refl
last-LastOf delimit (c ∷ s) =
    last_step delimit c s (find_last_not_of delimit s) (last-LastOf delimit s)

-- What find_first_not_of finds is where the stripped text begins, at or before the last place.
abbrev FirstOf : Bytes → Bytes → Option ℕ → Type 0
FirstOf delimit s none = (strip_left delimit s ≡ []) × (find_last_not_of delimit s ≡ none)
FirstOf delimit s (some b) =
    (strip_left delimit s ≡ drop b s)
    × ((n : ℕ) × (find_last_not_of delimit s ≡ some (b + n))
        × (find_last_not_of delimit (drop b s) ≡ some n))

last_nothing : (delimit : Bytes) → find_last_not_of delimit [] ≡ none
unfolding find_last_not_of
last_nothing delimit = refl

-- The last place of a text that begins with a character that is kept.
last_some :
    (delimit : Bytes) (c : ℕ) (s : Bytes)
    → is_in c delimit ≡ false
    → (n : ℕ) × (find_last_not_of delimit (c ∷ s) ≡ some n)
unfolding find_last_not_of
last_some delimit c s kept = elim (Option-cases (find_last_not_of delimit s)) [
  | inl e ↦ (0, rw (e, kept))
  | inr (i, e) ↦ (suc i, rw e)
]

first_skip :
    (delimit : Bytes) (c : ℕ) (s : Bytes) (o : Option ℕ)
    → is_in c delimit ≡ true
    → FirstOf delimit s o
    → FirstOf delimit (c ∷ s) (map_option suc o)
unfolding find_last_not_of
first_skip delimit c s none gone (e, f) = (rw (gone, e), rw (f, gone))
first_skip delimit c s (some b) gone (e, (n, f, g)) =
    (rw (gone, e), (n, rw f (ap some (omega arith)), g))

first-FirstOf : (delimit s : Bytes) → FirstOf delimit s (find_first_not_of delimit s)
unfolding find_first_not_of
first-FirstOf delimit [] = (refl, last_nothing delimit)
first-FirstOf delimit (c ∷ s) = elim (Bool-cases (is_in c delimit)) [
  | inl gone ↦
      rw gone (first_skip delimit c s (find_first_not_of delimit s) gone (first-FirstOf delimit s))
  | inr kept ↦
      let (n, e) = last_some delimit c s kept in
      rw kept (rw kept, (n, e ∙ ap some (omega arith), e))
]

strip_right-take :
    (delimit s : Bytes) (n : ℕ)
    → find_last_not_of delimit s ≡ some n
    → strip_right delimit s ≡ take (suc n) s
strip_right-take delimit s n e = (rw e at (last-LastOf delimit s)).0

-- `TrimLeft` strips the delimiters at the left.
pub trim_left_lem : (s delimit : Bytes) → trim_left s delimit ≡ strip_left delimit s
unfolding trim_left
trim_left_lem s delimit = elim (Option-cases (find_first_not_of delimit s)) [
  | inl e ↦ rw e (sym (rw e at (first-FirstOf delimit s)).0)
  | inr (b, e) ↦ rw e (sym (rw e at (first-FirstOf delimit s)).0)
]

-- `Trim` strips the delimiters at both ends.
pub trim_lem : (s delimit : Bytes) → trim s delimit ≡ strip_right delimit (strip_left delimit s)
unfolding trim
trim_lem s delimit = elim (Option-cases (find_first_not_of delimit s)) [
  | inl e ↦ rw (e, (rw e at (first-FirstOf delimit s)).0)
  | inr (b, e) ↦
      let f : FirstOf delimit s (some b) = rw e at (first-FirstOf delimit s) in
      let (n, g, h) = f.1 in
      let width : b + n - b + 1 ≡ suc n = omega arith in
      rw (e, g, f.0, width) (sym (strip_right-take delimit (drop b s) n h))
]

-- `TrimRight` also drops the last character that is no delimiter.
pub trim_right_lem :
    (s delimit : Bytes) → trim_right s delimit ≡ all_but_last (strip_right delimit s)
unfolding trim_right
trim_right_lem s delimit = elim (Option-cases (find_last_not_of delimit s)) [
  | inl e ↦ rw (e, rw e at (last-LastOf delimit s))
  | inr (i, e) ↦
      let l : LastOf delimit s (some i) = rw e at (last-LastOf delimit s) in rw (e, l.0) l.1
]
