-- ===== src/LoadBalance/Pick.antt =====
-- `get` of RoundRobinLoadBalance (Sylar/streams/load_balance.cc) finds a valid item if there is one.
use native.Mathlib.Nat.{mod-eq_of_lt, mod-lt}
use my_sylar_server.Base.{
  ℕ, zero, suc, ◌+◌, ◌%◌, ◌^◌, ◌<◌, ◌≡◌, ◌⊎◌, inl, inr, refl, sym, ap, ◌∙◌, Option, none, some,
  List, [], ◌∷◌, Bool, true, false, length, get_elem?, ◌==◌, arith, Bool-cases,
}
use my_sylar_server.Base.Turns.{turn}
use my_sylar_server.LoadBalance.{LoadBalance, get_loop, get_round_robin, check_init, seed}

-- A choice from items: a valid one of them, or none when no item is valid.
abbrev pub Picks : {Item : Type 0} → (Item → Bool) → List Item → Option Item → Type 0
Picks {Item} is_valid items o =
    ((h : Item) × (k : ℕ) × (o ≡ some h) × (get_elem? items k ≡ some h) × (is_valid h ≡ true))
    ⊎ ((o ≡ none) × ((k : ℕ) (h : Item) → get_elem? items k ≡ some h → is_valid h ≡ false))

pub place_there :
    {A : Type 0} (xs : List A) (i : ℕ) → i < length xs → (x : A) × (get_elem? xs i ≡ some x)
place_there [] i h = absurd (omega arith)
place_there (x ∷ xs) zero h = (x, refl)
place_there (x ∷ xs) (suc i) h = place_there xs i (omega arith)

place_bound : {A : Type 0} (xs : List A) (i : ℕ) (x : A) → get_elem? xs i ≡ some x → i < length xs
place_bound [] i x h = cc
place_bound (y ∷ xs) zero x h = omega arith
place_bound (y ∷ xs) (suc i) x h = omega (arith, place_bound xs i x h)

module _ {Item : Type 0} (is_valid : Item → Bool) where
  NotValid : ℕ → ℕ → ℕ → List Item → Type 0
  NotValid rounds r i items =
      (k : ℕ) (h : Item)
      → k < rounds
      → get_elem? items ((r + (i + k)) % length items) ≡ some h
      → is_valid h ≡ false

  one_more :
      (rounds r i : ℕ) (items : List Item) (h : Item)
      → get_elem? items ((r + i) % length items) ≡ some h
      → is_valid h ≡ false
      → NotValid rounds r (suc i) items
      → NotValid (suc rounds) r i items
  unfolding NotValid
  one_more rounds r i items h there broken rest zero h' less found =
      let place : r + (i + 0) ≡ r + i = omega arith in
      let found' : get_elem? items ((r + i) % length items) ≡ some h' =
        ap (λ (t : ℕ). get_elem? items (t % length items)) (sym place) ∙ found in
      cc
  one_more rounds r i items h there broken rest (suc k) h' less found =
      let place : r + (suc i + k) ≡ r + (i + suc k) = omega arith in
      rest k h' (omega arith) (ap (λ (t : ℕ). get_elem? items (t % length items)) place ∙ found)

  -- What the loop finds: a valid item, or that all items on its way are not valid.
  Found : ℕ → ℕ → ℕ → List Item → Option Item → Type 0
  Found rounds r i items o =
      ((h : Item) × (k : ℕ) × (o ≡ some h) × (get_elem? items k ≡ some h) × (is_valid h ≡ true))
      ⊎ ((o ≡ none) × NotValid rounds r i items)

  get_loop-Found :
      (rounds r i : ℕ) (items : List Item)
      → 0 < length items
      → Found rounds r i items (get_loop is_valid rounds r i items)
  unfolding get_loop Found NotValid
  get_loop-Found zero r i items some_items = inr (refl, λ k h less. absurd (omega arith))
  get_loop-Found (suc rounds) r i items some_items =
      let place = (r + i) % length items in
      let (h, there) = place_there items place (mod-lt (r + i) some_items) in
      elim (Bool-cases (is_valid h)) [
        | inl valid ↦ inl (h, place, rw (get_loop, there, valid) refl, there, valid)
        | inr broken ↦
            let on : get_loop is_valid (suc rounds) r i items
                ≡ get_loop is_valid rounds r (suc i) items =
              rw (get_loop, there, broken) refl in
            elim (get_loop-Found rounds r (suc i) items some_items) [
              | inl (h', k, e, found, valid) ↦ inl (h', k, on ∙ e, found, valid)
              | inr (e, rest) ↦ inr (on ∙ e, one_more rounds r i items h there broken rest)
            ]
      ]

  -- A whole turn, from any place.
  pub get_loop-Picks :
      (r : ℕ) (items : List Item)
      → r < length items
      → Picks is_valid items (get_loop is_valid (length items) r 0 items)
  unfolding Found NotValid
  get_loop-Picks r items h = elim (get_loop-Found (length items) r 0 items (omega arith)) [
    | inl found ↦ inl found
    | inr (e, rest) ↦ inr (
      e,
      λ j item found.
          let (k, less, at) = turn (length items) r j h (place_bound items j item found) in
          let from_zero : r + (0 + k) ≡ r + k = omega arith in
          rest k item less
            (ap (get_elem? items) (ap (λ (t : ℕ). t % length items) from_zero ∙ at) ∙ found),
    )
  ]

  -- `get` of a RoundRobinLoadBalance with less than 2^32 items gives a valid item if one of its items is valid, and
  -- none if no item is, whatever the seed is.
  pub get_round_robin-Picks :
      (get_weight : Item → ℕ) (now v random : ℕ) (b : LoadBalance Item)
      → length (check_init is_valid get_weight now b).items < 2 ^ 32
      → Picks is_valid
          (check_init is_valid get_weight now b).items
          (get_round_robin is_valid get_weight now v random b).0
  unfolding get_round_robin
  get_round_robin-Picks get_weight now v random b few =
      let items = (check_init is_valid get_weight now b).items in
      let n = length items in
      elim (Bool-cases (n == 0)) [
        | inl empty ↦
            rw (get_round_robin, empty)
              (inr (refl, λ k h found. absurd (ground (arith, place_bound items k h found))))
        | inr some_items ↦
            let pos : 0 < n = ground arith in
            let r = seed v random % n in
            let small : r < n = mod-lt (seed v random) pos in
            let whole : r % 2 ^ 32 ≡ r = mod-eq_of_lt (omega arith) in
            rw (get_round_robin, some_items, whole) (get_loop-Picks r items small)
      ]
