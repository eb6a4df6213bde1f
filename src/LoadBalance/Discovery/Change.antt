-- ===== src/LoadBalance/Discovery/Change.antt =====
-- What `onServiceChange` of SDLoadBalance (Sylar/streams/load_balance.cc) makes of the items of a service.
use my_sylar_server.Base.{
  ℕ, zero, suc, ◌<◌, ◌≡◌, refl, ap, ◌∙◌, Option, none, some, List, [], ◌∷◌, ◌++◌, Bool, true,
  Option-cases, inl, inr, arith, length, get_elem?, set,
}
use my_sylar_server.Base.Dict.{dict_find, dict_set, dict_find-set_self}
use my_sylar_server.LoadBalance.{LoadBalance, get_by_id, update, load_balance}
use my_sylar_server.LoadBalance.Pick.{place_there}
use my_sylar_server.LoadBalance.Update.{IsMap, find, first_of, without, update_lem}
use my_sylar_server.LoadBalance.Discovery.{
  LoadBalanceItem, SdLoadBalance, BalanceType, round_robin, weight, fair, create_load_balance,
  new_item, find_in, set_in, gone, come, new_items, get_type, get_balance, on_service_change,
}
use my_sylar_server.LoadBalance.Discovery.Entries.{
  gone_entry, come_entry, item_entry, find-gone, gone-IsMap, find-come, come-IsMap, find-new_items,
  new_items-IsMap,
}

get_elem?-set_self :
    {A : Type 0} (xs : List A) (i : ℕ) (y : A) → i < length xs → get_elem? (set xs i y) i ≡ some y
get_elem?-set_self [] i y h = absurd (omega arith)
get_elem?-set_self (x ∷ xs) zero y h = refl
get_elem?-set_self (x ∷ xs) (suc i) y h = get_elem?-set_self xs i y (omega arith)

get_elem?-append_last :
    {A : Type 0} (xs : List A) (y : A)
    → (get_elem? (xs ++ y ∷ []) (length xs) ≡ some y) × (length xs < length (xs ++ y ∷ []))
get_elem?-append_last [] y = (refl, omega arith)
get_elem?-append_last (x ∷ xs) y =
    let again = get_elem?-append_last xs y in (again.0, omega (arith, again.1))

module _ {P : Type 0} (dec : Discrete P) where
  find_in-set_in :
      {V : Type 0} (domain service : P) (v : V) (m : List (P × List (P × V)))
      → find_in dec domain service (set_in dec domain service v m) ≡ some v
  unfolding find_in set_in
  find_in-set_in domain service v m = elim (Option-cases (dict_find dec domain m)) [
    | inl new ↦
        rw
          (
            find_in,
            set_in,
            new,
            dict_find-set_self dec domain (dict_set dec service v []) m,
            dict_find-set_self dec service v [],
          )
          refl
    | inr (services, there) ↦
        rw
          (
            find_in,
            set_in,
            there,
            dict_find-set_self dec domain (dict_set dec service v services) m,
            dict_find-set_self dec service v services,
          )
          refl
  ]

module _ {Info Stream : Type 0} (cb : Info → Option Stream) where
  -- What a change makes of an id: a new service has its item, if there is a stream for it; one that is gone
  -- has none; any other has the item that it had.
  abbrev pub changed :
      BalanceType
      → ℕ
      → Option Info
      → Option Info
      → Option (LoadBalanceItem Stream)
      → Option (LoadBalanceItem Stream)
  changed type id none none before = before
  changed type id none (some new) before = elim (cb new) [
    | none ↦ before
    | some stream ↦ some (new_item type id stream)
  ]
  changed type id (some old) none before = none
  changed type id (some old) (some new) before = before

  entries :
      (type : BalanceType) (id : ℕ) (old new : Option Info)
      (before : Option (LoadBalanceItem Stream))
      → first_of
          (item_entry cb type id (come_entry new old))
          (without (gone_entry {B = LoadBalanceItem Stream} old new) before)
        ≡ changed type id old new before
  entries type id none none before = refl
  entries type id none (some new) before = elim (Option-cases (cb new)) [
    | inl h ↦ rw (item_entry, changed, h) refl
    | inr (stream, h) ↦ rw (item_entry, changed, h) refl
  ]
  entries type id (some old) none before = refl
  entries type id (some old) (some new) before = refl

module _ {P Stream : Type 0} (dec : Discrete P) where
  -- The item of an id in the balancer of a service, if the service has one.
  abbrev pub item_of : P → P → ℕ → SdLoadBalance P Stream → Option (LoadBalanceItem Stream)
  item_of domain service id s = elim (find_in dec domain service s.datas) [
    | none ↦ none
    | some lb ↦ elim (get_elem? s.store lb) [ none ↦ none | some b ↦ get_by_id id b ]
  ]

  new_balance :
      (type : BalanceType) (id : ℕ)
      → get_by_id id (create_load_balance {Item = LoadBalanceItem Stream} type) ≡ none
  unfolding get_by_id load_balance dict_find
  new_balance round_robin id = refl
  new_balance weight id = refl
  new_balance fair id = refl

  -- The balancer that `get` creates or finds.
  record Balanced (domain service : P) (id : ℕ) (s : SdLoadBalance P Stream)
      (r : Option ℕ × SdLoadBalance P Stream) : Type 0 where
    place : ℕ
    after : SdLoadBalance P Stream
    balancer : LoadBalance (LoadBalanceItem Stream)
    returns : r ≡ (some place, after)
    listed : find_in dec domain service after.datas ≡ some place
    there : get_elem? after.store place ≡ some balancer
    inside : place < length after.store
    same : get_by_id id balancer ≡ item_of domain service id s

  get_balance-Balanced :
      (domain service : P) (id : ℕ) (s : SdLoadBalance P Stream)
      → ((lb : ℕ) → find_in dec domain service s.datas ≡ some lb → lb < length s.store)
      → Balanced domain service id s (get_balance dec domain service true s)
  unfolding get_balance
  get_balance-Balanced domain service id s placed =
      elim (Option-cases (find_in dec domain service s.datas)) [
        | inr (lb, h) ↦
            let (b, there) = place_there s.store lb (placed lb h) in
            record {
              place = lb;
              after = s;
              balancer = b;
              returns = rw (get_balance, h) refl;
              listed = h;
              there = there;
              inside = placed lb h;
              same = rw (item_of, h, there) refl;
            }
        | inl h ↦
            let b = create_load_balance (get_type dec domain service s) in
            let (there, inside) = get_elem?-append_last s.store b in
            record {
              place = length s.store;
              after = record s {
                datas = set_in dec domain service (length s.store) s.datas;
                store = s.store ++ b ∷ [];
              };
              balancer = b;
              returns = rw (get_balance, h) refl;
              listed = find_in-set_in dec domain service (length s.store) s.datas;
              there = there;
              inside = inside;
              same = new_balance (get_type dec domain service s) id ∙ rw (item_of, h) refl;
            }
      ]

  module _ {Info : Type 0} (cb : Info → Option Stream) (is_valid : LoadBalanceItem Stream → Bool)
      (get_weight : LoadBalanceItem Stream → ℕ) where
    -- After `onServiceChange` a new service of the domain has its item, if there is a stream for it, one that is gone
    -- has none, and any other has the item that it had, also when the service had no balancer before. The ids
    -- of the old and of the new services are different, and the pointer to the balancer is one of the store.
    pub on_service_change_lem :
        (domain service : P) (old new : List (ℕ × Info)) (id : ℕ) (s : SdLoadBalance P Stream)
        → IsMap old
        → IsMap new
        → ((lb : ℕ) → find_in dec domain service s.datas ≡ some lb → lb < length s.store)
        → item_of domain service id
            (on_service_change dec cb is_valid get_weight domain service old new s).1
          ≡ changed cb
              (get_type dec domain service s)
              id
              (find id old)
              (find id new)
              (item_of domain service id s)
    unfolding on_service_change
    on_service_change_lem domain service old new id s h k placed =
        let type = get_type dec domain service s in
        let g = get_balance-Balanced domain service id s placed in
        let dels = gone {Stream = Stream} old new in
        let adds = new_items cb type (come new old) in
        let b' = (update is_valid get_weight adds dels g.balancer).1 in
        let found =
          (update_lem is_valid get_weight id adds dels g.balancer
            (new_items-IsMap cb type (come new old) (come-IsMap new old k))
            (gone-IsMap Stream old new h)).0 in
        let item : item_of domain service id
              (record g.after { store = set g.after.store g.place b' })
            ≡ get_by_id id b' =
          rw (item_of, g.listed, get_elem?-set_self g.after.store g.place b' g.inside) refl in
        let r = get_balance dec domain service true s in
        let place : r.0 ≡ some g.place =
          ap (λ (t : Option ℕ × SdLoadBalance P Stream). t.0) g.returns in
        let object : r.1 ≡ g.after =
          ap (λ (t : Option ℕ × SdLoadBalance P Stream). t.1) g.returns in
        let there : get_elem? r.1.store g.place ≡ some g.balancer =
          ap (λ (t : SdLoadBalance P Stream). get_elem? t.store g.place) object ∙ g.there in
        let after : (on_service_change dec cb is_valid get_weight domain service old new s).1
            ≡ record g.after { store = set g.after.store g.place b' } =
          rw (on_service_change, place, there)
            (ap (λ (t : SdLoadBalance P Stream). record t { store = set t.store g.place b' })
              object) in
        ap (item_of domain service id) after
        ∙ item
        ∙ found
        ∙ rw
            (
              find-new_items cb type id (come new old) (come-IsMap new old k),
              find-come id new old,
              find-gone Stream id old new,
              g.same,
            )
            (entries cb type id (find id old) (find id new) (item_of domain service id s))
