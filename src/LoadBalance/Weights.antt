-- ===== src/LoadBalance/Weights.antt =====
-- `getIdx` and `get` of WeightLoadBalance (Sylar/streams/load_balance.cc): the choice by weight.
use native.Mathlib.Nat.{mod-lt, mod-eq_of_lt}
use my_sylar_server.Base.{
  ℕ, zero, suc, ◌+◌, ◌%◌, ◌≤◌, ◌<◌, ◌≡◌, refl, subst, ap, some, List, [], ◌∷◌, Bool, true, false,
  get_elem?, ◌^◌, if◌then◌else◌, length, take, ltb, ◌==◌, arith, Bool-cases, inl, inr, ltb→lt,
  ltb→le,
}
use my_sylar_server.LoadBalance.Pick.{place_there}
use my_sylar_server.LoadBalance.{
  LoadBalance, chosen, division_by_zero, weight_load_balance, upper_bound, last_or, seed, get_idx,
  sum_weights, valid_items, init_nolock,
}

-- The sum of the weights of items.
abbrev pub total_weight : {Item : Type 0} → (Item → ℕ) → List Item → ℕ
total_weight get_weight [] = 0
total_weight get_weight (item ∷ items) = get_weight item + total_weight get_weight items

module _ {Item : Type 0} (is_valid : Item → Bool) (get_weight : Item → ℕ) where
  abbrev total : List Item → ℕ
  total items = total_weight get_weight items

  length-sum_weights :
      (t : ℕ) (items : List Item) → length (sum_weights is_valid get_weight t items) ≡ length items
  unfolding sum_weights
  length-sum_weights t [] = refl
  length-sum_weights t (item ∷ items) = ap suc (length-sum_weights (t + get_weight item) items)

  last-sum_weights :
      (d t : ℕ) (items : List Item)
      → d ≡ t
      → last_or d (sum_weights is_valid get_weight t items) ≡ t + total items
  unfolding sum_weights
  last-sum_weights d t [] e = omega arith
  last-sum_weights d t (item ∷ items) e =
      omega (arith, last-sum_weights (t + get_weight item) (t + get_weight item) items refl)

  -- The item that the search finds covers `dis` with its weight.
  Covers : ℕ → ℕ → List Item → ℕ → Type 0
  Covers t dis items i =
      (i < length items) × (t + total (take i items) ≤ dis) × (dis < t + total (take (suc i) items))

  upper_bound-Covers :
      (t dis : ℕ) (items : List Item)
      → t ≤ dis
      → dis < t + total items
      → Covers t dis items (upper_bound (sum_weights is_valid get_weight t items) dis)
  unfolding sum_weights upper_bound Covers
  upper_bound-Covers t dis [] h h' = absurd (omega arith)
  upper_bound-Covers t dis (item ∷ items) h h' =
      let t' = t + get_weight item in
      elim (Bool-cases (ltb dis t')) [
        | inl here ↦ rw here (omega arith, omega arith, omega (arith, ltb→lt dis t' here))
        | inr later ↦
            let rest = upper_bound-Covers t' dis items (ltb→le dis t' later) (omega arith) in
            rw later (omega (arith, rest.0), omega (arith, rest.1), omega (arith, rest.2))
      ]

  -- A WeightLoadBalance whose items and weights were made from its map.
  opened :
      (b : LoadBalance Item)
      → b.class ≡ weight_load_balance
      → (init_nolock is_valid get_weight b).weights
        ≡ sum_weights is_valid get_weight 0 (valid_items is_valid b.datas)
  unfolding init_nolock
  opened b h = rw (init_nolock, h) refl

  stored :
      (b : LoadBalance Item)
      → b.class ≡ weight_load_balance
      → (init_nolock is_valid get_weight b).items ≡ valid_items is_valid b.datas
  unfolding init_nolock
  stored b h = rw (init_nolock, h) refl

  -- The sum of the weights of the valid entries of the map.
  abbrev pub valid_weight : List (ℕ × Item) → ℕ
  valid_weight [] = 0
  valid_weight ((id, item) ∷ datas) =
      (if is_valid item then get_weight item else 0) + valid_weight datas

  total-valid_items :
      (datas : List (ℕ × Item)) → total (valid_items is_valid datas) ≡ valid_weight datas
  unfolding valid_items
  total-valid_items [] = refl
  total-valid_items ((id, item) ∷ datas) = elim (Bool-cases (is_valid item)) [
    | inl yes_valid ↦ rw yes_valid (omega (arith, total-valid_items datas))
    | inr not_valid ↦ rw not_valid (omega (arith, total-valid_items datas))
  ]

  length-valid_items :
      (datas : List (ℕ × Item)) → length (valid_items is_valid datas) ≤ length datas
  unfolding valid_items
  length-valid_items [] = omega arith
  length-valid_items ((id, item) ∷ datas) = elim (Bool-cases (is_valid item)) [
    | inl yes_valid ↦ rw yes_valid (omega (arith, length-valid_items datas))
    | inr not_valid ↦ rw not_valid (omega (arith, length-valid_items datas))
  ]

  -- A valid item of a map.
  abbrev pub IsKnown : List (ℕ × Item) → Item → Type 0
  IsKnown datas item =
      (is_valid item ≡ true) × ((place id : ℕ) × (get_elem? datas place ≡ some (id, item)))

  later-IsKnown :
      (entry : ℕ × Item) (datas : List (ℕ × Item)) (item : Item)
      → IsKnown datas item
      → IsKnown (entry ∷ datas) item
  later-IsKnown entry datas item (v, (p, n, e)) = (v, (suc p, n, e))

  cons-IsKnown :
      (id : ℕ) (x : Item) (datas : List (ℕ × Item)) (items : List Item)
      → is_valid x ≡ true
      → ((i : ℕ) (item : Item) → get_elem? items i ≡ some item → IsKnown datas item)
      → (i : ℕ) (item : Item) → get_elem? (x ∷ items) i ≡ some item
      → IsKnown ((id, x) ∷ datas) item
  cons-IsKnown id x datas items v others zero item h =
      let same : x ≡ item = cc in subst (IsKnown ((id, x) ∷ datas)) same (v, (0, id, refl))
  cons-IsKnown id x datas items v others (suc i) item h =
      later-IsKnown (id, x) datas item (others i item h)

  -- Every item that is kept is a valid one of the map.
  valid_items-IsKnown :
      (datas : List (ℕ × Item)) (i : ℕ) (item : Item)
      → get_elem? (valid_items is_valid datas) i ≡ some item
      → IsKnown datas item
  unfolding valid_items
  valid_items-IsKnown [] i item h = cc
  valid_items-IsKnown ((id, x) ∷ datas) i item h = elim (Bool-cases (is_valid x)) [
    | inr broken ↦
        later-IsKnown (id, x) datas item (valid_items-IsKnown datas i item (rw broken at h))
    | inl valid ↦
        cons-IsKnown id x datas (valid_items is_valid datas) valid (valid_items-IsKnown datas) i
          item (rw valid at h)
  ]

  -- Right after `initNolock` of a WeightLoadBalance with less than 2^31 entries, of which the valid ones have
  -- some weight, `getIdx` neither divides by zero nor fails its assertion. It gives the place of an
  -- item among those stored, which is valid and stands in the map; and the seed, modulo the weight of all
  -- valid entries, lies in the part of the sum of the stored weights that belongs to the item.
  pub get_idx_lem :
      (v random : ℕ) (b : LoadBalance Item)
      → b.class ≡ weight_load_balance
      → length b.datas < 2 ^ 31
      → 0 < valid_weight b.datas
      → (let items = (init_nolock is_valid get_weight b).items in
          let dis = seed v random % valid_weight b.datas in
          (i : ℕ) × (item : Item) × (get_idx v random (init_nolock is_valid get_weight b)
            ≡ chosen i)
          × (get_elem? items i ≡ some item)
          × IsKnown b.datas item
          × (total_weight get_weight (take i items) ≤ dis)
          × (dis < total_weight get_weight (take (suc i) items)))
  unfolding get_idx Covers
  get_idx_lem v random b h few some_weight =
      let items = valid_items is_valid b.datas in
      let ws = sum_weights is_valid get_weight 0 items in
      let all = total-valid_items b.datas in
      let sum : last_or 0 ws ≡ valid_weight b.datas =
        omega (arith, last-sum_weights 0 0 items refl, all) in
      let dis = seed v random % valid_weight b.datas in
      let below : dis < valid_weight b.datas = mod-lt (seed v random) some_weight in
      let (inside, from, to) =
        upper_bound-Covers 0 dis items (omega arith) (omega (arith, below, all)) in
      let i = upper_bound ws dis in
      let size : length ws ≡ length items = length-sum_weights 0 items in
      let not_empty : (length ws == 0) ≡ false = ground (arith, size, inside) in
      let not_zero : (valid_weight b.datas == 0) ≡ false = ground arith in
      let not_end : (i == length ws) ≡ false = ground (arith, size, inside) in
      let narrow : i % 2 ^ 32 ≡ i =
        mod-eq_of_lt (omega (arith, inside, length-valid_items b.datas)) in
      let (item, found) = place_there items i inside in
      let known = valid_items-IsKnown b.datas i item found in
      (
        i,
        item,
        rw (get_idx, opened b h, not_empty, sum, not_zero, not_end, narrow) refl,
        rw (stored b h) found,
        known,
        rw (stored b h) (omega (arith, from)),
        rw (stored b h) (omega (arith, to)),
      )

  -- Right after `initNolock` of a WeightLoadBalance with valid items that all have weight 0, `getIdx` divides by zero.
  pub get_idx_without_weight :
      (v random : ℕ) (b : LoadBalance Item)
      → b.class ≡ weight_load_balance
      → 0 < length (valid_items is_valid b.datas)
      → total_weight get_weight (valid_items is_valid b.datas) ≡ 0
      → get_idx v random (init_nolock is_valid get_weight b) ≡ division_by_zero
  unfolding get_idx
  get_idx_without_weight v random b h some_items no_weight =
      let items = valid_items is_valid b.datas in
      let ws = sum_weights is_valid get_weight 0 items in
      let sum : last_or 0 ws ≡ 0 = omega (arith, last-sum_weights 0 0 items refl, no_weight) in
      let not_empty : (length ws == 0) ≡ false =
        ground (arith, length-sum_weights 0 items, some_items) in
      rw (get_idx, opened b h, not_empty, sum) refl
