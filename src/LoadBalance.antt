-- ===== src/LoadBalance.antt =====
-- Sylar/streams/load_balance.h and load_balance.cc: LoadBalance with its classes RoundRobinLoadBalance and
-- WeightLoadBalance, which choose one of the connections to a service. Child modules: `Stats` (the
-- counters of an item), `Pick` and `Weights` (what `get` chooses), `Update` (the map of items), and
-- `Discovery` (SDLoadBalance, which keeps the balancers of all services).
--
-- `Item` is the type of pointers to items. `getId`, `isValid` and `getWeight` of an item are parameters:
-- whether its stream is connected changes outside this code, and its weight is computed with floats. A
-- weight is not negative, and sums of weights fit into an `int64_t`. The result of `rand` and the time
-- are arguments. A lock spans each method's body.
pub mod Stats
pub mod Pick
pub mod Weights
pub mod Update
pub mod Discovery
mod Tests
use my_sylar_server.Base.{
  ℕ, ℕ_discrete, zero, suc, ◌+◌, ◌-◌, ◌%◌, ◌^◌, Option, none, some, List, [], ◌∷◌, Bool, true,
  false, length, ltb, ◌==◌, get_elem?, if◌then◌else◌,
}
use my_sylar_server.Base.Dict.{dict_find, dict_set, dict_erase}

-- The two classes.
pub data Class : Type 0 where
  round_robin_load_balance weight_load_balance : Class

-- The fields of LoadBalance and of its classes; only a WeightLoadBalance has weights.
pub record LoadBalance (Item : Type 0) : Type 0 where
  pub class : Class
  pub datas : List (ℕ × Item)
  pub last_init_time : ℕ
  pub items : List Item
  pub weights : List ℕ

-- What `get` and `getIdx` of a WeightLoadBalance end with: a value, a division by zero, or a failed
-- assertion.
pub data Choice {ℓ} (A : Type ℓ) : Type ℓ where
  chosen : A → Choice A
  division_by_zero assertion : Choice A

-- `upper_bound`: the place of the first sum above `dis`.
unfoldable pub upper_bound : List ℕ → ℕ → ℕ
upper_bound [] dis = 0
upper_bound (w ∷ ws) dis = if ltb dis w then 0 else suc (upper_bound ws dis)

abbrev pub last_or : ℕ → List ℕ → ℕ
last_or d [] = d
last_or d (w ∷ ws) = last_or w ws

-- -1 as an int32_t, and an int32_t as a size_t.
abbrev pub minus_one : ℕ
minus_one = 0xffffffff

abbrev pub as_size : ℕ → ℕ
as_size idx = if ltb idx (2 ^ 31) then idx else idx + (2 ^ 64 - 2 ^ 32)

-- `v == (uint64_t)-1 ? rand() : v`
abbrev pub seed : ℕ → ℕ → ℕ
seed v random = if v == 2 ^ 64 - 1 then random else v

module _ {Item : Type 0} where
  -- A new object of a class.
  unfoldable pub load_balance : Class → LoadBalance Item
  load_balance class = record {
    class = class;
    datas = [];
    last_init_time = 0;
    items = [];
    weights = [];
  }

  -- `getById`
  unfoldable pub get_by_id : ℕ → LoadBalance Item → Option Item
  get_by_id id b = dict_find ℕ_discrete id b.datas

  -- The loop of `update` over `dels`: an item that is there goes from the map into `dels`.
  unfoldable pub take_out :
      List (ℕ × Option Item) → List (ℕ × Item) → List (ℕ × Option Item) × List (ℕ × Item)
  take_out [] datas = ([], datas)
  take_out ((id, old) ∷ dels) datas = elim (dict_find ℕ_discrete id datas) [
    | none ↦ let (dels', datas') = take_out dels datas in ((id, old) ∷ dels', datas')
    | some item ↦
        let (dels', datas') = take_out dels (dict_erase ℕ_discrete id datas) in
        ((id, some item) ∷ dels', datas')
  ]

  -- The loop of `update` over `adds`.
  unfoldable pub put_in : List (ℕ × Item) → List (ℕ × Item) → List (ℕ × Item)
  put_in [] datas = datas
  put_in ((id, item) ∷ adds) datas = put_in adds (dict_set ℕ_discrete id item datas)

  -- `getIdx`; an int32_t is its bit pattern.
  unfoldable pub get_idx : ℕ → ℕ → LoadBalance Item → Choice ℕ
  unfolding upper_bound
  get_idx v random b =
      let total = last_or 0 b.weights in
      if length b.weights == 0
      then chosen minus_one
      else (if total == 0
          then division_by_zero
          else let idx = upper_bound b.weights (seed v random % total) in
            if idx == length b.weights then assertion else chosen (idx % 2 ^ 32))

  module _ (is_valid : Item → Bool) where
    -- The loop of `initNolock` over the map.
    unfoldable pub valid_items : List (ℕ × Item) → List Item
    valid_items [] = []
    valid_items ((id, item) ∷ datas) =
        if is_valid item then item ∷ valid_items datas else valid_items datas

    -- The loop of `get`: from place `r` on, with `rounds` items to go.
    unfoldable pub get_loop : ℕ → ℕ → ℕ → List Item → Option Item
    get_loop zero r i items = none
    get_loop (suc rounds) r i items = elim (get_elem? items ((r + i) % length items)) [
      | none ↦ none
      | some h ↦ elim (is_valid h) [ true ↦ some h | false ↦ get_loop rounds r (suc i) items ]
    ]

    -- The loop of `get` of a WeightLoadBalance, whose sum may wrap.
    unfoldable pub weighted_loop : ℕ → ℕ → ℕ → List Item → Option Item
    weighted_loop zero idx i items = none
    weighted_loop (suc rounds) idx i items =
        elim (get_elem? items ((as_size idx + i) % 2 ^ 64 % length items)) [
          | none ↦ none
          | some h ↦ elim (is_valid h) [
            | true ↦ some h
            | false ↦ weighted_loop rounds idx (suc i) items
          ]
        ]

    module _ (get_weight : Item → ℕ) where
      -- The loop of `initNolock` over the items of a WeightLoadBalance.
      unfoldable pub sum_weights : ℕ → List Item → List ℕ
      sum_weights total [] = []
      sum_weights total (item ∷ items) =
          let total' = total + get_weight item in total' ∷ sum_weights total' items

      unfoldable pub init_nolock : LoadBalance Item → LoadBalance Item
      unfolding valid_items sum_weights
      init_nolock b =
          let items = valid_items b.datas in
          elim b.class [
            | round_robin_load_balance ↦ record b { items = items }
            | weight_load_balance ↦ record b { items = items; weights = sum_weights 0 items }
          ]

      -- `checkInit`, which calls `init` when more than 500 ms have passed.
      unfoldable pub check_init : ℕ → LoadBalance Item → LoadBalance Item
      unfolding init_nolock
      check_init now b =
          if ltb 500 ((now + 2 ^ 64 - b.last_init_time) % 2 ^ 64)
          then record (init_nolock b) { last_init_time = now }
          else b

      -- `get` of the two classes: what is chosen, and the object.
      unfoldable pub get_round_robin : ℕ → ℕ → ℕ → LoadBalance Item → Option Item × LoadBalance Item
      unfolding check_init get_loop
      get_round_robin now v random b =
          let b' = check_init now b in
          let n = length b'.items in
          (if n == 0 then none else get_loop n (seed v random % n % 2 ^ 32) 0 b'.items, b')

      unfoldable pub get_weighted :
          ℕ → ℕ → ℕ → LoadBalance Item → Choice (Option Item) × LoadBalance Item
      unfolding check_init weighted_loop get_idx
      get_weighted now v random b =
          let b' = check_init now b in
          (
            elim (get_idx v random b') [
              | chosen idx ↦
                  if idx == minus_one
                  then chosen none
                  else chosen (weighted_loop (length b'.items) idx 0 b'.items)
              | division_by_zero ↦ division_by_zero
              | assertion ↦ assertion
            ],
            b',
          )

      module _ (get_id : Item → ℕ) where
        unfoldable pub add : Item → LoadBalance Item → LoadBalance Item
        unfolding init_nolock
        add v b = init_nolock (record b { datas = dict_set ℕ_discrete (get_id v) v b.datas })

        unfoldable pub del : Item → LoadBalance Item → LoadBalance Item
        unfolding init_nolock
        del v b = init_nolock (record b { datas = dict_erase ℕ_discrete (get_id v) b.datas })

        -- The loop of `set`.
        unfoldable pub set_loop : List Item → List (ℕ × Item) → List (ℕ × Item)
        set_loop [] datas = datas
        set_loop (v ∷ vs) datas = set_loop vs (dict_set ℕ_discrete (get_id v) v datas)

        unfoldable pub set : List Item → LoadBalance Item → LoadBalance Item
        unfolding init_nolock set_loop
        set vs b = init_nolock (record b { datas = set_loop vs [] })

      -- `update` gives `dels` with the items that were taken out.
      unfoldable pub update :
          List (ℕ × Item)
          → List (ℕ × Option Item)
          → LoadBalance Item
          → List (ℕ × Option Item) × LoadBalance Item
      unfolding init_nolock take_out put_in
      update adds dels b =
          let (dels', datas) = take_out dels b.datas in
          (dels', init_nolock (record b { datas = put_in adds datas }))
