-- ===== src/LoadBalance/Update.antt =====
-- What `update` of LoadBalance (Sylar/streams/load_balance.cc) makes of the map of items.
use my_sylar_server.Base.{
  ℕ, ℕ_discrete, ◌≡◌, refl, ap, ◌∙◌, Option, none, some, List, [], ◌∷◌, Bool, Option-cases, inl,
  inr,
}
use my_sylar_server.Base.Dict.{
  dict_find, dict_set, dict_erase, dict_find-set_self, dict_find-set_ne, dict_find-erase_self,
  dict_find-erase_ne, dict_find_head, dict_find_tail, dict_find_empty,
}
use my_sylar_server.LoadBalance.{
  LoadBalance, Class, round_robin_load_balance, weight_load_balance, get_by_id, take_out, put_in,
  update, init_nolock,
}

-- The entries of a map have different keys.
abbrev pub IsMap : {V : Type 0} → List (ℕ × V) → Type 0
IsMap [] = Unit {0}
IsMap ((k, v) ∷ m) = (dict_find ℕ_discrete k m ≡ none) × IsMap m

abbrev pub find : {V : Type 0} → ℕ → List (ℕ × V) → Option V
find id m = dict_find ℕ_discrete id m

-- What is found of an id after `dels` are taken out, and after `adds` are put in.
abbrev pub without : {A B : Type 0} → Option B → Option A → Option A
without none old = old
without (some b) old = none

abbrev pub first_of : {A : Type 0} → Option A → Option A → Option A
first_of (some a) old = some a
first_of none old = old

-- An entry of `dels` behind the call: the item that was taken out, if there was one.
abbrev pub filled : {A : Type 0} → Option (Option A) → Option A → Option (Option A)
filled none old = none
filled (some d) (some item) = some (some item)
filled (some d) none = some d

module _ {Item : Type 0} where
  put_in_lem :
      (id : ℕ) (adds datas : List (ℕ × Item))
      → IsMap adds
      → find id (put_in adds datas) ≡ first_of (find id adds) (find id datas)
  unfolding put_in
  put_in_lem id [] datas h = rw (dict_find_empty ℕ_discrete id) refl
  put_in_lem id ((k, v) ∷ adds) datas (new, h) = elim (ℕ_discrete id k) [
    | yes e ↦
        put_in_lem id adds (dict_set ℕ_discrete k v datas) h
        ∙ rw (e, new, dict_find_head ℕ_discrete k v adds, dict_find-set_self ℕ_discrete k v datas)
            refl
    | no n ↦
        put_in_lem id adds (dict_set ℕ_discrete k v datas) h
        ∙ rw (dict_find_tail ℕ_discrete id k v adds n, dict_find-set_ne ℕ_discrete id k v datas n)
            refl
  ]

  take_out_lem :
      (id : ℕ) (dels : List (ℕ × Option Item)) (datas : List (ℕ × Item))
      → IsMap dels
      → (find id (take_out dels datas).1 ≡ without (find id dels) (find id datas))
        × (find id (take_out dels datas).0 ≡ filled (find id dels) (find id datas))
  unfolding take_out
  take_out_lem id [] datas h =
      (rw (dict_find_empty ℕ_discrete id) refl, rw (dict_find_empty ℕ_discrete id) refl)
  take_out_lem id ((k, old) ∷ dels) datas (new, h) = elim (Option-cases (find k datas)) [
    | inl gone ↦ elim (ℕ_discrete id k) [
      | yes e ↦
          let again = take_out_lem k dels datas h in
          (
            rw (take_out, e, gone, dict_find_head ℕ_discrete k old dels)
                (again.0 ∙ rw (new, gone) refl),
            rw (take_out, e, gone, dict_find_head ℕ_discrete k old dels)
                (dict_find_head ℕ_discrete k old (take_out dels datas).0),
          )
      | no n ↦
          let again = take_out_lem id dels datas h in
          (
            rw (take_out, gone, dict_find_tail ℕ_discrete id k old dels n) again.0,
            rw (take_out, gone, dict_find_tail ℕ_discrete id k old dels n)
                (dict_find_tail ℕ_discrete id k old (take_out dels datas).0 n ∙ again.1),
          )
    ]
    | inr (item, there) ↦
        let kept = dict_erase ℕ_discrete k datas in
        elim (ℕ_discrete id k) [
          | yes e ↦
              let again = take_out_lem k dels kept h in
              (
                rw (take_out, e, there, dict_find_head ℕ_discrete k old dels)
                    (again.0 ∙ rw (new, dict_find-erase_self ℕ_discrete k datas) refl),
                rw (take_out, e, there, dict_find_head ℕ_discrete k old dels)
                    (dict_find_head ℕ_discrete k (some item) (take_out dels kept).0),
              )
          | no n ↦
              let again = take_out_lem id dels kept h in
              let same = dict_find-erase_ne ℕ_discrete id k datas n in
              (
                rw (take_out, there, dict_find_tail ℕ_discrete id k old dels n)
                    (again.0 ∙ rw same refl),
                rw (take_out, there, dict_find_tail ℕ_discrete id k old dels n)
                    (dict_find_tail ℕ_discrete id k (some item) (take_out dels kept).0 n
                      ∙ again.1
                      ∙ rw same refl),
              )
        ]
  ]

  datas-init_nolock :
      (is_valid : Item → Bool) (get_weight : Item → ℕ) (b : LoadBalance Item)
      → (init_nolock is_valid get_weight b).datas ≡ b.datas
  unfolding init_nolock
  datas-init_nolock is_valid get_weight b = by_class b.class refl
    where
      by_class : (c : Class) → b.class ≡ c → (init_nolock is_valid get_weight b).datas ≡ b.datas
      by_class round_robin_load_balance h = rw (init_nolock, h) refl
      by_class weight_load_balance h = rw (init_nolock, h) refl

  module _ (is_valid : Item → Bool) (get_weight : Item → ℕ) where
    -- After `update` an id of `adds` has its item, an id that stands in `dels` alone has none, and every other id
    -- has what it had; behind the call the entry of an id in `dels` holds the item that the id had. The ids of
    -- `adds` are different, and so are those of `dels`.
    pub update_lem :
        (id : ℕ) (adds : List (ℕ × Item)) (dels : List (ℕ × Option Item)) (b : LoadBalance Item)
        → IsMap adds
        → IsMap dels
        → (get_by_id id (update is_valid get_weight adds dels b).1
            ≡ first_of (find id adds) (without (find id dels) (get_by_id id b)))
          × (find id (update is_valid get_weight adds dels b).0
              ≡ filled (find id dels) (get_by_id id b))
    unfolding update get_by_id
    update_lem id adds dels b h k =
        let out = take_out_lem id dels b.datas k in
        let datas = put_in adds (take_out dels b.datas).1 in
        (
          ap (find id) (datas-init_nolock is_valid get_weight (record b { datas = datas }))
              ∙ put_in_lem id adds (take_out dels b.datas).1 h
              ∙ ap (first_of (find id adds)) out.0,
          out.1,
        )
