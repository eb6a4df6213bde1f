-- ===== src/LoadBalance/Tests.antt =====
-- The theorems about the load balancers (Sylar/streams/load_balance.cc) at concrete inputs: an item is a number, its
-- weight is its last digit, and item 13 is not connected.
use my_sylar_server.Base.{
  ℕ, suc, ◌%◌, ◌≡◌, ◌≤◌, ◌<◌, refl, some, none, Option, [], ◌∷◌, List, arith, ◌==◌, Bool, not, take,
  get_elem?, if◌then◌else◌, replicate, ℕ_discrete,
}
use my_sylar_server.Base.Dict.{dict_find}
use my_sylar_server.LoadBalance.{
  LoadBalance, Class, round_robin_load_balance, weight_load_balance, chosen, get_round_robin,
  check_init, get_idx, init_nolock, update, get_by_id,
}
use my_sylar_server.LoadBalance.Pick.{Picks, get_round_robin-Picks}
use my_sylar_server.LoadBalance.Weights.{total_weight, valid_weight, IsKnown, get_idx_lem}
use my_sylar_server.LoadBalance.Update.{find, first_of, without, filled, update_lem}
use my_sylar_server.LoadBalance.Stats.{HolderStats, HolderStatsSet, cleared, init}
use my_sylar_server.LoadBalance.Stats.Slots.{falls_on, init_lem}

abbrev connected : ℕ → Bool
connected item = not (item == 13)

abbrev weight : ℕ → ℕ
weight item = item % 10

abbrev balancer : Class → LoadBalance ℕ
balancer class = record {
  class = class;
  datas = (1, 13) ∷ (2, 24) ∷ (3, 31) ∷ [];
  last_init_time = 1000;
  items = 13 ∷ 24 ∷ 31 ∷ [];
  weights = 3 ∷ 7 ∷ 8 ∷ [];
}

get_round_robin-Picks_example :
    Picks connected
      (check_init connected weight 1200 (balancer round_robin_load_balance)).items
      (get_round_robin connected weight 1200 3 0 (balancer round_robin_load_balance)).0
unfolding check_init
get_round_robin-Picks_example =
    get_round_robin-Picks connected weight 1200 3 0 (balancer round_robin_load_balance)
      (omega arith)

-- The first item of the turn is not connected.
get_round_robin_past_13 :
    (get_round_robin connected weight 1200 3 0 (balancer round_robin_load_balance)).0 ≡ some 24
unfolding get_round_robin
get_round_robin_past_13 = refl

get_idx_lem_example :
    (let items = (init_nolock connected weight (balancer weight_load_balance)).items in
      let dis = 9 % valid_weight connected weight (balancer weight_load_balance).datas in
      (i item : ℕ) × (get_idx 9 0 (init_nolock connected weight (balancer weight_load_balance))
        ≡ chosen i)
      × (get_elem? items i ≡ some item)
      × IsKnown connected weight (balancer weight_load_balance).datas item
      × (total_weight weight (take i items) ≤ dis)
      × (dis < total_weight weight (take (suc i) items)))
get_idx_lem_example =
    get_idx_lem connected weight 9 0 (balancer weight_load_balance) refl (omega arith) (omega arith)

abbrev no_weight : ℕ → ℕ
no_weight item = 0

abbrev adds : List (ℕ × ℕ)
adds = (4, 44) ∷ []

abbrev dels : List (ℕ × Option ℕ)
dels = (2, none) ∷ (7, none) ∷ []

update_lem_example :
    (get_by_id 2 (update connected weight adds dels (balancer weight_load_balance)).1
      ≡ first_of (find 2 adds) (without (find 2 dels) (get_by_id 2 (balancer weight_load_balance))))
    × (find 2 (update connected weight adds dels (balancer weight_load_balance)).0
        ≡ filled (find 2 dels) (get_by_id 2 (balancer weight_load_balance)))
unfolding dict_find ℕ_discrete
update_lem_example =
    update_lem connected weight 2 adds dels (balancer weight_load_balance) (refl, _)
      (refl, (refl, _))

abbrev one_used : HolderStats
one_used = record { used_time = 9; total = 1; doing = 1; timeouts = 0; oks = 0; errs = 0 }

-- Five slots, last used at second 11.
abbrev five : HolderStatsSet
five = record { last_update_time = 11; stats = replicate 5 one_used }

init_lem_example :
    get_elem? (init 13 five).stats 2
    ≡ (if falls_on 5 2 11 2 then some cleared else get_elem? five.stats 2)
init_lem_example = init_lem 13 2 five (omega arith) (omega arith) (omega arith)
