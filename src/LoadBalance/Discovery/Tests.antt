-- ===== src/LoadBalance/Discovery/Tests.antt =====
-- The theorem about SDLoadBalance (Sylar/streams/load_balance.cc) at a concrete input: domains, services, infos and
-- streams are numbers, and info 0 has no stream.
use my_sylar_server.Base.{
  ℕ, ℕ_discrete, ◌+◌, ◌≡◌, refl, Option, none, some, List, [], ◌∷◌, Bool, true, ◌==◌, if◌then◌else◌,
}
use my_sylar_server.Base.Dict.{dict_find}
use my_sylar_server.LoadBalance.Update.{find}
use my_sylar_server.LoadBalance.Discovery.{
  LoadBalanceItem, SdLoadBalance, fair, get_type, find_in, on_service_change,
}
use my_sylar_server.LoadBalance.Discovery.Change.{item_of, changed, on_service_change_lem}

abbrev connect : ℕ → Option ℕ
connect info = if info == 0 then none else some (info + 100)

abbrev all_valid : LoadBalanceItem ℕ → Bool
all_valid item = true

abbrev weight_of : LoadBalanceItem ℕ → ℕ
weight_of item = item.weight

abbrev no_services : SdLoadBalance ℕ ℕ
no_services = record { datas = []; types = []; default_type = fair; store = [] }

abbrev old_infos : List (ℕ × ℕ)
old_infos = (1, 10) ∷ (2, 20) ∷ []

abbrev new_infos : List (ℕ × ℕ)
new_infos = (2, 21) ∷ (3, 30) ∷ (4, 0) ∷ []

on_service_change_lem_example :
    item_of ℕ_discrete 5 6 3
      (on_service_change ℕ_discrete connect all_valid weight_of 5 6 old_infos new_infos
        no_services).1
    ≡ changed connect
        (get_type ℕ_discrete 5 6 no_services)
        3
        (find 3 old_infos)
        (find 3 new_infos)
        (item_of ℕ_discrete 5 6 3 no_services)
unfolding dict_find ℕ_discrete find_in
on_service_change_lem_example =
    on_service_change_lem ℕ_discrete connect all_valid weight_of 5 6 old_infos new_infos 3
      no_services (refl, (refl, _)) (refl, (refl, (refl, _))) (λ lb h. cc)
