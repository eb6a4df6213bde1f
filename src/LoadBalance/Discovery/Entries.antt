-- ===== src/LoadBalance/Discovery/Entries.antt =====
-- The maps that `onServiceChange` of SDLoadBalance (Sylar/streams/load_balance.cc) makes of the old and the new
-- services.
use my_sylar_server.Base.{
  ℕ, ℕ_discrete, ◌≡◌, refl, sym, ap, ◌∙◌, Option, none, some, List, [], ◌∷◌, Option-cases, inl, inr,
}
use my_sylar_server.Base.Dict.{dict_find_head, dict_find_tail, dict_find_empty}
use my_sylar_server.LoadBalance.Update.{IsMap, find}
use my_sylar_server.LoadBalance.Discovery.{
  LoadBalanceItem, BalanceType, gone, come, new_item, new_items,
}

-- An entry of `gone`, of `come`, and of the new items.
abbrev pub gone_entry : {A B : Type 0} → Option A → Option A → Option (Option B)
gone_entry (some old) none = some none
gone_entry (some old) (some new) = none
gone_entry none new = none

abbrev pub come_entry : {A : Type 0} → Option A → Option A → Option A
come_entry (some new) none = some new
come_entry (some new) (some old) = none
come_entry none old = none

module _ {Info : Type 0} (Stream : Type 0) where
  none_gone :
      (o : Option Info) (i : Info) → gone_entry {B = LoadBalanceItem Stream} o (some i) ≡ none
  none_gone none i = refl
  none_gone (some old) i = refl

  pub find-gone :
      (id : ℕ) (old new : List (ℕ × Info))
      → find id (gone {Stream = Stream} old new) ≡ gone_entry (find id old) (find id new)
  unfolding gone
  find-gone id [] new =
      rw
        (
          dict_find_empty {V = Info} ℕ_discrete id,
          dict_find_empty {V = Option (LoadBalanceItem Stream)} ℕ_discrete id,
        )
        refl
  find-gone id ((k, info) ∷ old) new = elim (ℕ_discrete id k) [
    | yes e ↦ elim (Option-cases (find k new)) [
      | inl no_new ↦
          rw (gone, e, no_new, dict_find_head ℕ_discrete k info old)
            (dict_find_head ℕ_discrete k none (gone old new))
      | inr (i, h) ↦
          rw (gone, e, h, dict_find_head ℕ_discrete k info old)
            (find-gone k old new ∙ rw h (none_gone (find k old) i))
    ]
    | no n ↦ elim (Option-cases (find k new)) [
      | inl no_new ↦
          rw (gone, no_new, dict_find_tail ℕ_discrete id k info old n)
            (dict_find_tail ℕ_discrete id k none (gone old new) n ∙ find-gone id old new)
      | inr (i, h) ↦ rw (gone, h, dict_find_tail ℕ_discrete id k info old n) (find-gone id old new)
    ]
  ]

  pub gone-IsMap : (old new : List (ℕ × Info)) → IsMap old → IsMap (gone {Stream = Stream} old new)
  unfolding gone
  gone-IsMap [] new h = tt
  gone-IsMap ((k, info) ∷ old) new (first, h) = elim (Option-cases (find k new)) [
    | inl no_new ↦ rw (gone, no_new) (find-gone k old new ∙ rw first refl, gone-IsMap old new h)
    | inr (i, e) ↦ rw (gone, e) (gone-IsMap old new h)
  ]

module _ {Info : Type 0} where
  no_come : (o : Option Info) (i : Info) → come_entry o (some i) ≡ none
  no_come none i = refl
  no_come (some new) i = refl

  pub find-come :
      (id : ℕ) (new old : List (ℕ × Info))
      → find id (come new old) ≡ come_entry (find id new) (find id old)
  unfolding come
  find-come id [] old = rw (dict_find_empty {V = Info} ℕ_discrete id) refl
  find-come id ((k, info) ∷ new) old = elim (ℕ_discrete id k) [
    | yes e ↦ elim (Option-cases (find k old)) [
      | inl no_old ↦
          rw (come, e, no_old, dict_find_head ℕ_discrete k info new)
            (dict_find_head ℕ_discrete k info (come new old))
      | inr (i, h) ↦
          rw (come, e, h, dict_find_head ℕ_discrete k info new)
            (find-come k new old ∙ rw h (no_come (find k new) i))
    ]
    | no n ↦ elim (Option-cases (find k old)) [
      | inl no_old ↦
          rw (come, no_old, dict_find_tail ℕ_discrete id k info new n)
            (dict_find_tail ℕ_discrete id k info (come new old) n ∙ find-come id new old)
      | inr (i, h) ↦ rw (come, h, dict_find_tail ℕ_discrete id k info new n) (find-come id new old)
    ]
  ]

  pub come-IsMap : (new old : List (ℕ × Info)) → IsMap new → IsMap (come new old)
  unfolding come
  come-IsMap [] old h = tt
  come-IsMap ((k, info) ∷ new) old (first, h) = elim (Option-cases (find k old)) [
    | inl no_old ↦ rw (come, no_old) (find-come k new old ∙ rw first refl, come-IsMap new old h)
    | inr (i, e) ↦ rw (come, e) (come-IsMap new old h)
  ]

module _ {Info Stream : Type 0} where
  -- The item of a new entry, if there is a stream for it.
  abbrev pub item_entry :
      (Info → Option Stream) → BalanceType → ℕ → Option Info → Option (LoadBalanceItem Stream)
  item_entry cb type id none = none
  item_entry cb type id (some info) = elim (cb info) [
    | none ↦ none
    | some stream ↦ some (new_item type id stream)
  ]

  pub find-new_items :
      (cb : Info → Option Stream) (type : BalanceType) (id : ℕ) (adds : List (ℕ × Info))
      → IsMap adds
      → find id (new_items cb type adds) ≡ item_entry cb type id (find id adds)
  unfolding new_items
  find-new_items cb type id [] h =
      rw
        (
          dict_find_empty {V = Info} ℕ_discrete id,
          dict_find_empty {V = LoadBalanceItem Stream} ℕ_discrete id,
        )
        refl
  find-new_items cb type id ((k, info) ∷ adds) (first, h) = elim (ℕ_discrete id k) [
    | yes e ↦ elim (Option-cases (cb info)) [
      | inl no_stream ↦
          let nothing : item_entry cb type k (some info) ≡ none = rw (item_entry, no_stream) refl in
          rw (new_items, e, no_stream, dict_find_head ℕ_discrete k info adds)
            (find-new_items cb type k adds h ∙ ap (item_entry cb type k) first ∙ sym nothing)
      | inr (stream, c) ↦
          let made : item_entry cb type k (some info) ≡ some (new_item type k stream) =
            rw (item_entry, c) refl in
          rw (new_items, e, c, dict_find_head ℕ_discrete k info adds)
            (dict_find_head ℕ_discrete k (new_item type k stream) (new_items cb type adds)
              ∙ sym made)
    ]
    | no n ↦ elim (Option-cases (cb info)) [
      | inl no_stream ↦
          rw (new_items, no_stream, dict_find_tail ℕ_discrete id k info adds n)
            (find-new_items cb type id adds h)
      | inr (stream, c) ↦
          rw (new_items, c, dict_find_tail ℕ_discrete id k info adds n)
            (dict_find_tail ℕ_discrete id k (new_item type k stream) (new_items cb type adds) n
              ∙ find-new_items cb type id adds h)
    ]
  ]

  pub new_items-IsMap :
      (cb : Info → Option Stream) (type : BalanceType) (adds : List (ℕ × Info))
      → IsMap adds
      → IsMap (new_items cb type adds)
  unfolding new_items
  new_items-IsMap cb type [] h = tt
  new_items-IsMap cb type ((k, info) ∷ adds) (first, h) = elim (Option-cases (cb info)) [
    | inl no_stream ↦ rw (new_items, no_stream) (new_items-IsMap cb type adds h)
    | inr (stream, c) ↦
        rw (new_items, c)
          (find-new_items cb type k adds h ∙ rw first refl, new_items-IsMap cb type adds h)
  ]
