-- ===== src/Base/Slices.antt =====
-- Slices of a list: prefixes, suffixes, and the replacement of a run of elements by another.
use Prim.Native.Nat.{ℕ, zero, suc, ◌+◌, ◌-◌, ◌≤◌, max}
use mathlib.Core.Path.{◌≡◌, refl, ap}
use mathlib.Core.List.{List, [], ◌∷◌, ◌++◌, append_assoc, append-nil}
use native.Mathlib.Omega.{arith}
use my_sylar_server.Base.Lists.{
  length, take, drop, list_ext, get_elem?-take, get_elem?-drop, length-take, length-drop,
  length-append, take_all, drop_all, take-append-drop,
}

module _ {ℓ} {A : Type ℓ} where
  pub take-append :
      (n : ℕ) (xs ys : List A) → take n (xs ++ ys) ≡ take n xs ++ take (n - length xs) ys
  take-append zero [] ys = refl
  take-append zero (x ∷ xs) ys = let e : 0 - suc (length xs) ≡ 0 = omega arith in rw e
  take-append (suc n) [] ys = let e : suc n - 0 ≡ suc n = omega arith in rw e
  take-append (suc n) (x ∷ xs) ys =
      let e : suc n - suc (length xs) ≡ n - length xs = omega arith in rw (e, take-append n xs ys)

  pub drop-append :
      (n : ℕ) (xs ys : List A) → drop n (xs ++ ys) ≡ drop n xs ++ drop (n - length xs) ys
  drop-append zero [] ys = refl
  drop-append zero (x ∷ xs) ys = let e : 0 - suc (length xs) ≡ 0 = omega arith in rw e
  drop-append (suc n) [] ys = let e : suc n - 0 ≡ suc n = omega arith in rw e
  drop-append (suc n) (x ∷ xs) ys =
      let e : suc n - suc (length xs) ≡ n - length xs = omega arith in rw (e, drop-append n xs ys)

  -- The forms with the cut inside the left list, at its end, and inside the right list.
  pub take-append_left : (n : ℕ) (xs ys : List A) → n ≤ length xs → take n (xs ++ ys) ≡ take n xs
  take-append_left n xs ys h =
      let e : n - length xs ≡ 0 = omega arith in rw (take-append n xs ys, e, append-nil)

  pub take-append_right :
      (n k : ℕ) (xs ys : List A) → n ≡ length xs + k → take n (xs ++ ys) ≡ xs ++ take k ys
  take-append_right n k xs ys h =
      let e : n - length xs ≡ k = omega arith in
      rw (take-append n xs ys, e, take_all n xs (omega arith))

  pub drop-append_left :
      (n : ℕ) (xs ys : List A) → n ≤ length xs → drop n (xs ++ ys) ≡ drop n xs ++ ys
  drop-append_left n xs ys h =
      let e : n - length xs ≡ 0 = omega arith in rw (drop-append n xs ys, e)

  pub drop-append_right :
      (n k : ℕ) (xs ys : List A) → n ≡ length xs + k → drop n (xs ++ ys) ≡ drop k ys
  drop-append_right n k xs ys h =
      let e : n - length xs ≡ k = omega arith in
      rw (drop-append n xs ys, e, drop_all n xs (omega arith))

  pub drop-drop : (n k : ℕ) (xs : List A) → drop n (drop k xs) ≡ drop (k + n) xs
  drop-drop n k xs =
      list_ext _ _ λ i. simp get_elem?-drop (let e : k + (n + i) ≡ k + n + i = omega arith in rw e)

  pub drop-take : (n k : ℕ) (xs : List A) → drop n (take k xs) ≡ take (k - n) (drop n xs)
  drop-take n k xs = list_ext _ _ λ i. simp (get_elem?-take, get_elem?-drop) (ground arith)

  take-nil : (n : ℕ) → ◌≡◌ {A = List A} (take n []) []
  take-nil zero = refl
  take-nil (suc n) = refl

  pub take_split : (n k : ℕ) (xs : List A) → take (n + k) xs ≡ take n xs ++ take k (drop n xs)
  take_split zero k xs = let e : 0 + k ≡ k = omega arith in rw e
  take_split (suc n) k [] = let e : suc n + k ≡ suc (n + k) = omega arith in rw (e, take-nil k)
  take_split (suc n) k (x ∷ xs) =
      let e : suc n + k ≡ suc (n + k) = omega arith in rw (e, take_split n k xs)

  -- The run of `length buf` elements from place `i` on is replaced by `buf`.
  abbrev pub splice : ℕ → List A → List A → List A
  splice i buf xs = take i xs ++ (buf ++ drop (i + length buf) xs)

  pub splice-nil : (i : ℕ) (xs : List A) → splice i [] xs ≡ xs
  splice-nil i xs = let e : i + 0 ≡ i = omega arith in rw (e, take-append-drop i xs)

  pub length-splice :
      (i : ℕ) (buf xs : List A) → i + length buf ≤ length xs → length (splice i buf xs) ≡ length xs
  length-splice i buf xs h = omega (
    arith,
    length-append (take i xs) (buf ++ drop (i + length buf) xs),
    length-append buf (drop (i + length buf) xs),
    length-take i xs,
    length-drop (i + length buf) xs,
  )

  -- A run inside the left part of a list.
  pub splice-append_left :
      (i : ℕ) (buf xs ys : List A)
      → i + length buf ≤ length xs
      → splice i buf (xs ++ ys) ≡ splice i buf xs ++ ys
  splice-append_left i buf xs ys h = rw (
    take-append_left i xs ys (omega arith),
    drop-append_left (i + length buf) xs ys h,
    append_assoc,
    append_assoc,
  )

  -- A run that begins in the left part and fills it to its end.
  pub splice-append_cross :
      (i k : ℕ) (buf xs ys : List A)
      → i + k ≡ length xs
      → k ≤ length buf
      → splice i buf (xs ++ ys) ≡ splice i (take k buf) xs ++ splice 0 (drop k buf) ys
  splice-append_cross i k buf xs ys h g =
      let d = length buf - k in
      let used : i + length buf ≡ length xs + d = omega arith in
      let cut : length (take k buf) ≡ k = omega (arith, length-take k buf) in
      let rest : 0 + length (drop k buf) ≡ d = omega (arith, length-drop k buf) in
      rw (
        take-append_left i xs ys (omega arith),
        drop-append_right (i + length buf) d xs ys used,
        cut,
        rest,
        drop_all (i + k) xs (omega arith),
        append-nil,
        append_assoc,
        ← append_assoc (take k buf),
        take-append-drop k buf,
      )

  pub take-take_le : (n k : ℕ) (xs : List A) → n ≤ k → take n (take k xs) ≡ take n xs
  take-take_le zero k xs h = refl
  take-take_le (suc n) zero xs h = absurd (omega arith)
  take-take_le (suc n) (suc k) [] h = refl
  take-take_le (suc n) (suc k) (x ∷ xs) h = ap (◌∷◌ x) (take-take_le n k xs (omega arith))

  -- A run that begins behind the first `m` elements.
  pub splice_suffix :
      (m r : ℕ) (buf xs : List A) → splice (m + r) buf xs ≡ take m xs ++ splice r buf (drop m xs)
  splice_suffix m r buf xs =
      let e : m + r + length buf ≡ m + (r + length buf) = omega arith in
      rw (take_split m r xs, e, drop-drop (r + length buf) m xs, append_assoc)

  -- A prefix that a run reaches into or passes, written over and lengthened.
  pub take-splice :
      (s t p : ℕ) (buf xs : List A)
      → p ≤ s
      → s ≤ length xs
      → t ≡ max s (p + length buf)
      → take t (splice p buf xs) ≡ splice p buf (take s xs)
  take-splice s t p buf xs h g e =
      let n = p + length buf in
      let front : length (take p xs) ≡ p = omega (arith, length-take p xs) in
      rw (
        take-append_right t (t - p) (take p xs) (buf ++ drop n xs) (omega arith),
        take-append_right (t - p) (s - n) buf (drop n xs) (omega arith),
        take-take_le p s xs h,
        drop-take n s xs,
      )

  -- What stands where a run was written.
  pub take-drop-splice :
      (p : ℕ) (buf xs : List A) → p ≤ length xs → take (length buf) (drop p (splice p buf xs)) ≡ buf
  take-drop-splice p buf xs h =
      let front : length (take p xs) ≡ p = omega (arith, length-take p xs) in
      rw (
        drop-append_right p 0 (take p xs) (buf ++ drop (p + length buf) xs) (omega arith),
        take-append_left (length buf) buf (drop (p + length buf) xs) (omega arith),
        take_all (length buf) buf (omega arith),
      )

  pub take-length-append : (xs ys : List A) → take (length xs) (xs ++ ys) ≡ xs
  take-length-append xs ys =
      rw (take-append_left (length xs) xs ys (omega arith), take_all (length xs) xs (omega arith))

  pub drop-length-append : (xs ys : List A) → drop (length xs) (xs ++ ys) ≡ ys
  drop-length-append xs ys = drop-append_right (length xs) 0 xs ys (omega arith)

  -- Two runs, the second right behind the first, are one.
  pub splice-splice :
      (p : ℕ) (xs ys zs : List A)
      → p ≤ length zs
      → splice (p + length xs) ys (splice p xs zs) ≡ splice p (xs ++ ys) zs
  splice-splice p xs ys zs h =
      let front : length (take p zs) ≡ p = omega (arith, length-take p zs) in
      let n = length xs in
      let inner = xs ++ drop (p + n) zs in
      let whole : p + length (xs ++ ys) ≡ p + n + length ys = omega (arith, length-append xs ys) in
      rw (
        take-append_right (p + n) n (take p zs) inner (omega arith),
        take-length-append xs (drop (p + n) zs),
        drop-append_right (p + n + length ys) (n + length ys) (take p zs) inner (omega arith),
        drop-append_right (n + length ys) (length ys) xs (drop (p + n) zs) (omega arith),
        drop-drop (length ys) (p + n) zs,
        whole,
        append_assoc,
        append_assoc,
      )
