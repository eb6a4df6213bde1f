-- ===== src/LoadBalance/Discovery.antt =====
-- SDLoadBalance of Sylar/streams/load_balance.h and load_balance.cc: a load balancer for each service of each domain,
-- which follows what the service discovery reports. Child modules: `Entries`, `Change`.
--
-- `P` is the type of domains and services, `Info` that of pointers to a ServiceItemInfo, `Stream` that
-- of streams. The discovery itself is not modelled: it calls `onServiceChange`. Balancers are objects
-- in a store, and a pointer to one is its place there. Log lines are left out.
-- `get` and `onServiceChange` let the lock go between their parts; each is one step here.
pub mod Entries
pub mod Change
mod Tests
use my_sylar_server.Base.{
  ℕ, ℕ_discrete, suc, Option, none, some, List, [], ◌∷◌, ◌++◌, Bool, true, false, length, get_elem?,
  if◌then◌else◌,
}
use my_sylar_server.Base
use my_sylar_server.Base.Dict.{dict_find, dict_set}
use my_sylar_server.LoadBalance.{
  LoadBalance, Class, round_robin_load_balance, weight_load_balance, load_balance, update,
}

-- `ILoadBalance::Type`
pub data BalanceType : Type 0 where
  round_robin weight fair : BalanceType

-- A LoadBalanceItem, or a FairLoadBalanceItem, which is one with its own weight.
pub record LoadBalanceItem (Stream : Type 0) : Type 0 where
  pub is_fair : Bool
  pub id : ℕ
  pub stream : Option Stream
  pub weight : ℕ

-- `createLoadBalance`
abbrev pub create_load_balance : {Item : Type 0} → BalanceType → LoadBalance Item
create_load_balance round_robin = load_balance round_robin_load_balance
create_load_balance weight = load_balance weight_load_balance
create_load_balance fair = load_balance weight_load_balance

-- `createLoadBalanceItem`
abbrev pub create_load_balance_item : {Stream : Type 0} → BalanceType → LoadBalanceItem Stream
create_load_balance_item round_robin = record { is_fair = false; id = 0; stream = none; weight = 0 }
create_load_balance_item weight = record { is_fair = false; id = 0; stream = none; weight = 0 }
create_load_balance_item fair = record { is_fair = true; id = 0; stream = none; weight = 0 }

-- The fields of SDLoadBalance, and the store of the balancers.
pub record SdLoadBalance (P Stream : Type 0) : Type 0 where
  pub datas : List (P × List (P × ℕ))
  pub types : List (P × List (P × BalanceType))
  pub default_type : BalanceType
  pub store : List (LoadBalance (LoadBalanceItem Stream))

module _ {P : Type 0} (dec : Discrete P) where
  -- A map of maps, as `find` twice and as `m[domain][service] = v`.
  unfoldable pub find_in : {V : Type 0} → P → P → List (P × List (P × V)) → Option V
  find_in domain service m = elim (dict_find dec domain m) [
    | none ↦ none
    | some services ↦ dict_find dec service services
  ]

  unfoldable pub set_in :
      {V : Type 0} → P → P → V → List (P × List (P × V)) → List (P × List (P × V))
  set_in domain service v m = elim (dict_find dec domain m) [
    | none ↦ dict_set dec domain (dict_set dec service v []) m
    | some services ↦ dict_set dec domain (dict_set dec service v services) m
  ]

  module _ (round_robin_name weight_name : P) where
    -- The type that a word of the configuration names.
    abbrev pub type_of : P → BalanceType
    type_of value = elim (dec value round_robin_name) [
      | yes _ ↦ round_robin
      | no _ ↦ elim (dec value weight_name) [ yes _ ↦ weight | no _ ↦ fair ]
    ]

    -- The loops of `initConf`.
    unfoldable pub conf_services :
        P → List (P × P) → List (P × List (P × BalanceType)) → List (P × List (P × BalanceType))
    unfolding set_in
    conf_services domain [] types = types
    conf_services domain ((service, value) ∷ services) types =
        conf_services domain services (set_in domain service (type_of value) types)

    unfoldable pub conf_types :
        List (P × List (P × P))
        → List (P × List (P × BalanceType))
        → List (P × List (P × BalanceType))
    unfolding conf_services
    conf_types [] types = types
    conf_types ((domain, services) ∷ confs) types =
        conf_types confs (conf_services domain services types)

    -- `initConf`, less the query that it hands to the discovery.
    unfoldable pub init_conf :
        {Stream : Type 0}
        → List (P × List (P × P))
        → SdLoadBalance P Stream
        → SdLoadBalance P Stream
    unfolding conf_types
    init_conf confs s = record s { types = conf_types confs [] }

module _ {Info : Type 0} where
  -- The loops of `onServiceChange` that compare the old and the new services.
  unfoldable pub gone :
      {Stream : Type 0}
      → List (ℕ × Info)
      → List (ℕ × Info)
      → List (ℕ × Option (LoadBalanceItem Stream))
  gone [] new_value = []
  gone ((id, info) ∷ old_value) new_value = elim (dict_find ℕ_discrete id new_value) [
    | none ↦ (id, none) ∷ gone old_value new_value
    | some _ ↦ gone old_value new_value
  ]

  unfoldable pub come : List (ℕ × Info) → List (ℕ × Info) → List (ℕ × Info)
  come [] old_value = []
  come ((id, info) ∷ new_value) old_value = elim (dict_find ℕ_discrete id old_value) [
    | none ↦ (id, info) ∷ come new_value old_value
    | some _ ↦ come new_value old_value
  ]

module _ {Stream : Type 0} where
  -- The item that is made for a new service.
  abbrev pub new_item : BalanceType → ℕ → Stream → LoadBalanceItem Stream
  new_item type id stream = record (create_load_balance_item type) {
    id = id;
    stream = some stream;
    weight = 10000;
  }

  -- The items in `del_infos`, which are closed.
  unfoldable pub to_close :
      List (ℕ × Option (LoadBalanceItem Stream)) → List (LoadBalanceItem Stream)
  to_close [] = []
  to_close ((id, none) ∷ dels) = to_close dels
  to_close ((id, some item) ∷ dels) = item ∷ to_close dels

module _ {Info Stream : Type 0} (cb : Info → Option Stream) where
  -- An item for each new service for which `m_cb` makes a stream.
  unfoldable pub new_items : BalanceType → List (ℕ × Info) → List (ℕ × LoadBalanceItem Stream)
  new_items type [] = []
  new_items type ((id, info) ∷ add_values) = elim (cb info) [
    | none ↦ new_items type add_values
    | some stream ↦ (id, new_item type id stream) ∷ new_items type add_values
  ]

module _ {P Stream : Type 0} (dec : Discrete P) where
  -- `getType`
  unfoldable pub get_type : P → P → SdLoadBalance P Stream → BalanceType
  unfolding find_in
  get_type domain service s = elim (find_in dec domain service s.types) [
    | none ↦ s.default_type
    | some t ↦ t
  ]

  -- `get`: the pointer, and the object behind the call.
  unfoldable pub get_balance :
      P → P → Bool → SdLoadBalance P Stream → Option ℕ × SdLoadBalance P Stream
  unfolding find_in set_in get_type
  get_balance domain service auto_create s = elim (find_in dec domain service s.datas) [
    | some lb ↦ (some lb, s)
    | none ↦
        if auto_create
        then (
          some (length s.store),
          record s {
            datas = set_in dec domain service (length s.store) s.datas;
            store = s.store ++ create_load_balance (get_type domain service s) ∷ [];
          },
        )
        else (none, s)
  ]

  module _ {Info : Type 0} (cb : Info → Option Stream) where
    module _ (is_valid : LoadBalanceItem Stream → Bool)
        (get_weight : LoadBalanceItem Stream → ℕ) where
      -- `onServiceChange`: the items that are closed, and the object behind the call; the pointer is not null.
      unfoldable pub on_service_change :
          P
          → P
          → List (ℕ × Info)
          → List (ℕ × Info)
          → SdLoadBalance P Stream
          → List (LoadBalanceItem Stream) × SdLoadBalance P Stream
      unfolding get_balance get_type gone come new_items to_close
      on_service_change domain service old_value new_value s =
          let type = get_type domain service s in
          let (found, s') = get_balance domain service true s in
          let dels = gone old_value new_value in
          let adds = new_items cb type (come new_value old_value) in
          elim found [
            | none ↦ ([], s')
            | some lb ↦ elim (get_elem? s'.store lb) [
              | none ↦ ([], s')
              | some b ↦
                  let (dels', b') = update is_valid get_weight adds dels b in
                  (to_close dels', record s' { store = Base.set s'.store lb b' })
            ]
          ]
