-- ===== src/LoadBalance/Stats/Slots.antt =====
-- Which slots `HolderStatsSet::init` of Sylar/streams/load_balance.cc clears.
use native.Mathlib.Nat.{mod-lt, mod-le, add-mod-mod}
use my_sylar_server.Base.{
  ℕ, zero, suc, ◌+◌, ◌-◌, ◌%◌, ◌^◌, ◌≤◌, ◌<◌, ◌≡◌, ◌≢◌, refl, sym, ap, ◌∙◌, some, List, [], ◌∷◌,
  Bool, true, false, ◌||◌, length, ltb, leb, ◌==◌, ==_iff, if◌then◌else◌, arith, Bool-cases, inl,
  inr, get_elem?, lt→ltb, ltb→lt, ltb→le, leb→le, le→leb, leb→lt,
}
use my_sylar_server.LoadBalance.Stats.{
  HolderStats, HolderStatsSet, cleared, clear, clear_at, init_loop, init,
}

length-clear_at : (stats : List HolderStats) (i : ℕ) → length (clear_at stats i) ≡ length stats
unfolding clear_at
length-clear_at [] i = refl
length-clear_at (s ∷ stats) zero = refl
length-clear_at (s ∷ stats) (suc i) = ap suc (length-clear_at stats i)

clear_at_self :
    (stats : List HolderStats) (j : ℕ)
    → j < length stats
    → get_elem? (clear_at stats j) j ≡ some cleared
unfolding clear_at clear
clear_at_self [] j h = absurd (omega arith)
clear_at_self (s ∷ stats) zero h = refl
clear_at_self (s ∷ stats) (suc j) h = clear_at_self stats j (omega arith)

clear_at_other :
    (stats : List HolderStats) (i j : ℕ)
    → i ≢ j
    → get_elem? (clear_at stats i) j ≡ get_elem? stats j
unfolding clear_at
clear_at_other [] i j h = refl
clear_at_other (s ∷ stats) zero zero h = absurd (h refl)
clear_at_other (s ∷ stats) zero (suc j) h = refl
clear_at_other (s ∷ stats) (suc i) zero h = refl
clear_at_other (s ∷ stats) (suc i) (suc j) h = clear_at_other stats i j (λ e. h (ap suc e))

-- One round of the loop, while the second fits 32 bits.
loop_round :
    (rounds t now : ℕ) (stats : List HolderStats)
    → t ≤ now
    → now + 1 < 2 ^ 32
    → init_loop (suc rounds) t now stats
      ≡ init_loop rounds (suc t) now (clear_at stats (t % length stats))
unfolding init_loop
loop_round rounds t now stats h fits =
    let next : (t + 1) % 2 ^ 32 ≡ suc t = omega arith in rw (init_loop, le→leb t now h, next) refl

loop_end :
    (rounds t now : ℕ) (stats : List HolderStats) → now < t → init_loop rounds t now stats ≡ stats
unfolding init_loop
loop_end zero t now stats h = refl
loop_end (suc rounds) t now stats h = ground arith

-- A slot stays as it is if no second of the loop falls on it.
loop_keeps :
    (rounds t now j : ℕ) (stats : List HolderStats)
    → now + 1 < 2 ^ 32
    → ((k : ℕ) → k < rounds → t + k ≤ now → (t + k) % length stats ≢ j)
    → get_elem? (init_loop rounds t now stats) j ≡ get_elem? stats j
unfolding init_loop
loop_keeps zero t now j stats fits h = refl
loop_keeps (suc rounds) t now j stats fits h = elim (Bool-cases (leb t now)) [
  | inr over ↦
      ap (λ (ss : List HolderStats). get_elem? ss j)
        (loop_end (suc rounds) t now stats (leb→lt t now over))
  | inl on ↦
      let le : t ≤ now = leb→le t now on in
      let i = t % length stats in
      let size : length (clear_at stats i) ≡ length stats = length-clear_at stats i in
      let here : i ≢ j =
        λ e. h 0 (omega arith) (omega arith) (ap (λ (x : ℕ). x % length stats) (omega arith) ∙ e) in
      ap (λ (ss : List HolderStats). get_elem? ss j) (loop_round rounds t now stats le fits)
      ∙ loop_keeps rounds (suc t) now j (clear_at stats i) fits (λ k less in_time e.
        h (suc k) (omega arith) (omega arith) (
          ap (λ (x : ℕ). x % length stats) (omega arith)
          ∙ ap (λ (n : ℕ). (suc t + k) % n) (sym size)
          ∙ e))
      ∙ clear_at_other stats i j here
]

-- A clear slot stays clear.
loop_clear :
    (rounds t now j : ℕ) (stats : List HolderStats)
    → now + 1 < 2 ^ 32
    → get_elem? stats j ≡ some cleared
    → j < length stats
    → get_elem? (init_loop rounds t now stats) j ≡ some cleared
unfolding init_loop
loop_clear zero t now j stats fits h inside = h
loop_clear (suc rounds) t now j stats fits h inside = elim (Bool-cases (leb t now)) [
  | inr over ↦
      ap (λ (ss : List HolderStats). get_elem? ss j)
        (loop_end (suc rounds) t now stats (leb→lt t now over))
      ∙ h
  | inl on ↦
      let i = t % length stats in
      let size : length (clear_at stats i) ≡ length stats = length-clear_at stats i in
      ap (λ (ss : List HolderStats). get_elem? ss j)
        (loop_round rounds t now stats (leb→le t now on) fits)
      ∙ loop_clear rounds (suc t) now j (clear_at stats i) fits
          (elim (Bool-cases (i == j)) [
            | inl e ↦ rw ((==_iff i j).0 e) (clear_at_self stats j inside)
            | inr n ↦ clear_at_other stats i j (ground arith) ∙ h
          ])
          (omega (arith, size))
]

-- A second of the loop clears its slot.
loop_clears :
    (rounds t now j k : ℕ) (stats : List HolderStats)
    → now + 1 < 2 ^ 32
    → k < rounds
    → t + k ≤ now
    → (t + k) % length stats ≡ j
    → j < length stats
    → get_elem? (init_loop rounds t now stats) j ≡ some cleared
loop_clears zero t now j k stats fits less h e inside = absurd (omega arith)
loop_clears (suc rounds) t now j zero stats fits less h e inside =
    let i : t % length stats ≡ j = ap (λ (x : ℕ). x % length stats) (omega arith) ∙ e in
    ap (λ (ss : List HolderStats). get_elem? ss j)
      (loop_round rounds t now stats (omega arith) fits)
    ∙ loop_clear rounds (suc t) now j (clear_at stats (t % length stats)) fits
        (rw i (clear_at_self stats j inside))
        (omega (arith, length-clear_at stats (t % length stats)))
loop_clears (suc rounds) t now j (suc k) stats fits less h e inside =
    let i = t % length stats in
    let size : length (clear_at stats i) ≡ length stats = length-clear_at stats i in
    ap (λ (ss : List HolderStats). get_elem? ss j)
      (loop_round rounds t now stats (omega arith) fits)
    ∙ loop_clears rounds (suc t) now j k (clear_at stats i) fits (omega arith) (omega arith)
        (ap (λ (n : ℕ). (suc t + k) % n) size ∙ ap (λ (x : ℕ). x % length stats) (omega arith) ∙ e)
        (omega (arith, size))

-- Whether one of the `d` seconds behind `last` falls on slot `j` of `n`.
abbrev pub falls_on : ℕ → ℕ → ℕ → ℕ → Bool
falls_on n j last zero = false
falls_on n j last (suc d) = ((last + suc d) % n == j) || falls_on n j last d

falls_somewhere :
    (n j last d : ℕ) → falls_on n j last d ≡ true → (q : ℕ) × (q < d) × ((last + 1 + q) % n ≡ j)
falls_somewhere n j last zero h = cc
falls_somewhere n j last (suc d) h = elim (Bool-cases ((last + suc d) % n == j)) [
  | inl here ↦
      (d, omega arith, ap (λ (x : ℕ). x % n) (omega arith) ∙ (==_iff ((last + suc d) % n) j).0 here)
  | inr elsewhere ↦
      let (q, less, e) = falls_somewhere n j last d (rw elsewhere at h) in (q, omega arith, e)
]

falls_nowhere : (n j last d q : ℕ) → falls_on n j last d ≡ false → q < d → (last + 1 + q) % n ≢ j
falls_nowhere n j last zero q h less = absurd (omega arith)
falls_nowhere n j last (suc d) q h less = elim (Bool-cases ((last + suc d) % n == j)) [
  | inl here ↦ cc (rw here at h)
  | inr elsewhere ↦ elim (Bool-cases (ltb q d)) [
    | inl before ↦ falls_nowhere n j last d q (rw elsewhere at h) (ltb→lt q d before)
    | inr at_end ↦ λ e.
        let same : last + 1 + q ≡ last + suc d = omega (arith, ltb→le q d at_end) in
        let hit : ((last + suc d) % n == j) ≡ true =
          (==_iff ((last + suc d) % n) j).1 (ap (λ (x : ℕ). x % n) (sym same) ∙ e) in
        cc
  ]
]

-- `init` at a second that is later than the last update clears a slot if one of the seconds since then falls
-- on it, and leaves every other slot as it is; the second and one more fit into 32 bits.
pub init_lem :
    (now j : ℕ) (s : HolderStatsSet)
    → s.last_update_time < now
    → now + 1 < 2 ^ 32
    → j < length s.stats
    → get_elem? (init now s).stats j ≡ (
        if falls_on (length s.stats) j s.last_update_time (now - s.last_update_time)
        then some cleared
        else get_elem? s.stats j)
unfolding init
init_lem now j s later fits inside =
    let n = length s.stats in
    let last = s.last_update_time in
    let start : (last + 1) % 2 ^ 32 ≡ last + 1 = omega arith in
    elim (Bool-cases (falls_on n j last (now - last))) [
      | inl yes_one ↦
          let (q, less, e) = falls_somewhere n j last (now - last) yes_one in
          let k = q % n in
          let le : k ≤ q = mod-le q n in
          rw (init, lt→ltb last now later, start, yes_one)
            (loop_clears n (last + 1) now j k s.stats fits (mod-lt q (omega arith)) (omega arith)
              (add-mod-mod (last + 1) q n ∙ e) inside)
      | inr none_of ↦
          rw (init, lt→ltb last now later, start, none_of)
            (loop_keeps n (last + 1) now j s.stats fits
              (λ k less in_time. falls_nowhere n j last (now - last) k none_of (omega arith)))
    ]
