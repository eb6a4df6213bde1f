-- ===== src/Base/Dict.antt =====
-- `std::unordered_map` over keys with decidable equality, as an association list, and its laws. The
-- order of the entries stands for the order in which the map is walked, which C++ leaves open.
use mathlib.Core.Path.{◌≡◌, refl}
use mathlib.Core.Logic.{◌≢◌}
use mathlib.Core.Option.{Option, none, some}
use mathlib.Core.List.{List, [], ◌∷◌}
use native.Mathlib.Omega.{arith}

module _ {ℓ} {K V : Type ℓ} (dec : Discrete K) where
  -- `m.find(k)`
  unfoldable pub dict_find : K → List (K × V) → Option V
  dict_find k [] = none
  dict_find k ((j, v) ∷ m) = elim (dec j k) [ yes _ ↦ some v | no _ ↦ dict_find k m ]

  -- `m[k] = v`
  unfoldable pub dict_set : K → V → List (K × V) → List (K × V)
  dict_set k v [] = (k, v) ∷ []
  dict_set k v ((j, w) ∷ m) = elim (dec j k) [ yes _ ↦ (k, v) ∷ m | no _ ↦ (j, w) ∷ dict_set k v m ]

  -- `m.erase(k)`
  unfoldable pub dict_erase : K → List (K × V) → List (K × V)
  dict_erase k [] = []
  dict_erase k ((j, w) ∷ m) = elim (dec j k) [
    | yes _ ↦ dict_erase k m
    | no _ ↦ (j, w) ∷ dict_erase k m
  ]

  pub dict_find-set_self :
      (k : K) (v : V) (m : List (K × V)) → dict_find k (dict_set k v m) ≡ some v
  unfolding dict_find dict_set
  dict_find-set_self k v [] = ground arith
  dict_find-set_self k v ((j, w) ∷ m) = ground (arith, dict_find-set_self k v m)

  pub dict_find-set_ne :
      (q k : K) (v : V) (m : List (K × V)) → q ≢ k → dict_find q (dict_set k v m) ≡ dict_find q m
  unfolding dict_find dict_set
  dict_find-set_ne q k v [] h = ground arith
  dict_find-set_ne q k v ((j, w) ∷ m) h = ground (arith, dict_find-set_ne q k v m h)

  pub dict_find-erase_self : (k : K) (m : List (K × V)) → dict_find k (dict_erase k m) ≡ none
  unfolding dict_find dict_erase
  dict_find-erase_self k [] = refl
  dict_find-erase_self k ((j, w) ∷ m) = ground (arith, dict_find-erase_self k m)

  pub dict_find-erase_ne :
      (q k : K) (m : List (K × V)) → q ≢ k → dict_find q (dict_erase k m) ≡ dict_find q m
  unfolding dict_find dict_erase
  dict_find-erase_ne q k [] h = refl
  dict_find-erase_ne q k ((j, w) ∷ m) h = ground (arith, dict_find-erase_ne q k m h)

  -- The empty map, and one that begins with an entry.
  pub dict_find_empty : (k : K) → dict_find k [] ≡ none
  unfolding dict_find
  dict_find_empty k = refl

  pub dict_find_head : (k : K) (v : V) (m : List (K × V)) → dict_find k ((k, v) ∷ m) ≡ some v
  unfolding dict_find
  dict_find_head k v m = ground arith

  pub dict_find_tail :
      (q k : K) (v : V) (m : List (K × V)) → q ≢ k → dict_find q ((k, v) ∷ m) ≡ dict_find q m
  unfolding dict_find
  dict_find_tail q k v m h = ground arith
