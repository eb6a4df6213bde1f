-- ===== src/LruCache/Keyed.antt =====
-- Lists of keys and of keyed items: the operations that Sylar/DataStructure/LRU_Cache.h uses of
-- `std::list` and `std::unordered_map`, and their laws.
use my_sylar_server.Base.{
  suc, ◌<◌, ◌≡◌, ◌≢◌, ◌||◌, ◌++◌, refl, ap, Option, none, some, List, [], ◌∷◌, map, Bool, true,
  false, length, arith,
}

module _ {ℓ} {K : Type ℓ} (dec : Discrete K) where
  -- `m_cache.find(k) != m_cache.end()`
  unfoldable pub contains : K → List K → Bool
  contains k [] = false
  contains k (j ∷ ks) = elim (dec j k) [ yes _ ↦ true | no _ ↦ contains k ks ]

  -- `m_cache.erase`
  unfoldable pub erase_key : K → List K → List K
  erase_key k [] = []
  erase_key k (j ∷ ks) = elim (dec j k) [ yes _ ↦ ks | no _ ↦ j ∷ erase_key k ks ]

module _ {ℓ} {K V : Type ℓ} where
  -- `m_keys.back()`
  unfoldable pub last_item : List (K × V) → Option (K × V)
  last_item [] = none
  last_item (x ∷ []) = some x
  last_item (x ∷ y ∷ xs) = last_item (y ∷ xs)

  -- `m_keys.pop_back()`
  unfoldable pub drop_last : List (K × V) → List (K × V)
  drop_last [] = []
  drop_last (x ∷ []) = []
  drop_last (x ∷ y ∷ xs) = x ∷ drop_last (y ∷ xs)

module _ {ℓ} {K V : Type ℓ} (dec : Discrete K) where
  -- The item that an iterator stands for, by its key.
  unfoldable pub find : K → List (K × V) → Option V
  find k [] = none
  find k ((j, v) ∷ xs) = elim (dec j k) [ yes _ ↦ some v | no _ ↦ find k xs ]

  -- `m_keys.erase(it)`, and the unlinking half of `splice`
  unfoldable pub remove : K → List (K × V) → List (K × V)
  remove k [] = []
  remove k ((j, v) ∷ xs) = elim (dec j k) [ yes _ ↦ xs | no _ ↦ (j, v) ∷ remove k xs ]

-- The keys of a list of items.
abbrev pub names {ℓ} : {K V : Type ℓ} → List (K × V) → List K
names = map (λ e. e.0)

module _ {ℓ} {K : Type ℓ} (dec : Discrete K) where
  -- No key stands twice.
  abbrev pub Distinct : List K → Type 0
  Distinct [] = Unit {0}
  Distinct (k ∷ ks) = (contains dec k ks ≡ false) × Distinct ks

  pub contains-append :
      (j : K) (ks ls : List K)
      → contains dec j (ks ++ ls) ≡ (contains dec j ks || contains dec j ls)
  unfolding contains
  contains-append j [] ls = refl
  contains-append j (k ∷ ks) ls = ground (arith, contains-append j ks ls)

  pub contains-erase_self :
      (k : K) (ks : List K) → Distinct ks → contains dec k (erase_key dec k ks) ≡ false
  unfolding contains erase_key
  contains-erase_self k [] d = refl
  contains-erase_self k (j ∷ ks) d = ground (arith, contains-erase_self k ks d.1)

  pub contains-erase_ne :
      (j k : K) (ks : List K) → j ≢ k → contains dec j (erase_key dec k ks) ≡ contains dec j ks
  unfolding contains erase_key
  contains-erase_ne j k [] h = refl
  contains-erase_ne j k (l ∷ ks) h = ground (arith, contains-erase_ne j k ks h)

  -- What is gone, or was not there, is not there.
  pub not_contains-erase :
      (j k : K) (ks : List K)
      → contains dec j ks ≡ false
      → contains dec j (erase_key dec k ks) ≡ false
  unfolding contains erase_key
  not_contains-erase j k [] h = refl
  not_contains-erase j k (l ∷ ks) h = ground (arith, not_contains-erase j k ks)

  pub erase-Distinct : (k : K) (ks : List K) → Distinct ks → Distinct (erase_key dec k ks)
  unfolding erase_key
  erase-Distinct k [] d = tt
  erase-Distinct k (j ∷ ks) d =
      ground (arith, not_contains-erase j k ks d.0, erase-Distinct k ks d.1)

  pub length-erase :
      (k : K) (ks : List K)
      → contains dec k ks ≡ true
      → suc (length (erase_key dec k ks)) ≡ length ks
  unfolding contains erase_key
  length-erase k [] h = cc
  length-erase k (j ∷ ks) h = ground (arith, length-erase k ks)

  pub Distinct-front : (ks : List K) (k : K) → Distinct (ks ++ k ∷ []) → Distinct ks
  Distinct-front [] k d = tt
  Distinct-front (j ∷ ks) k d =
      (ground (arith, d.0, contains-append j ks (k ∷ [])), Distinct-front ks k d.1)

  -- The last of distinct keys is not among the others.
  pub Distinct-last : (ks : List K) (k : K) → Distinct (ks ++ k ∷ []) → contains dec k ks ≡ false
  unfolding contains
  Distinct-last [] k d = refl
  Distinct-last (j ∷ ks) k d =
      ground (arith, d.0, contains-append j ks (k ∷ []), Distinct-last ks k d.1)

  pub contains-cons_self : (k : K) (ks : List K) → contains dec k (k ∷ ks) ≡ true
  unfolding contains
  contains-cons_self k ks = ground arith

  pub contains-cons_ne :
      (j k : K) (ks : List K) → k ≢ j → contains dec j (k ∷ ks) ≡ contains dec j ks
  unfolding contains
  contains-cons_ne j k ks h = ground arith

module _ {ℓ} {K V : Type ℓ} (dec : Discrete K) where
  pub names-remove :
      (k : K) (xs : List (K × V)) → names (remove dec k xs) ≡ erase_key dec k (names xs)
  unfolding remove erase_key
  names-remove k [] = refl
  names-remove k ((j, v) ∷ xs) = ground (arith, names-remove k xs)

  pub length-remove :
      (k : K) (xs : List (K × V))
      → contains dec k (names xs) ≡ true
      → suc (length (remove dec k xs)) ≡ length xs
  unfolding contains remove
  length-remove k [] h = cc
  length-remove k ((j, v) ∷ xs) h = ground (arith, length-remove k xs)

  -- A key is there exactly when its item is found.
  pub find_contained :
      (k : K) (xs : List (K × V))
      → contains dec k (names xs) ≡ true
      → (v : V) × (find dec k xs ≡ some v)
  unfolding contains find
  find_contained k [] h = cc
  find_contained k ((j, v) ∷ xs) h = elim (dec j k) [
    | yes p ↦ (v, ground arith)
    | no p ↦ let (w, found) = find_contained k xs (ground arith) in (w, ground arith)
  ]

  pub find_absent :
      (k : K) (xs : List (K × V)) → contains dec k (names xs) ≡ false → find dec k xs ≡ none
  unfolding contains find
  find_absent k [] h = refl
  find_absent k ((j, v) ∷ xs) h = ground (arith, find_absent k xs)

  pub find-remove_ne :
      (q k : K) (xs : List (K × V)) → q ≢ k → find dec q (remove dec k xs) ≡ find dec q xs
  unfolding find remove
  find-remove_ne q k [] h = refl
  find-remove_ne q k ((j, v) ∷ xs) h = ground (arith, find-remove_ne q k xs h)

module _ {ℓ} {K V : Type ℓ} where
  pub last_item-append : (front : List (K × V)) (b : K × V) → last_item (front ++ b ∷ []) ≡ some b
  unfolding last_item
  last_item-append [] b = refl
  last_item-append (x ∷ []) b = refl
  last_item-append (x ∷ y ∷ xs) b = last_item-append (y ∷ xs) b

  pub drop_last-append : (front : List (K × V)) (b : K × V) → drop_last (front ++ b ∷ []) ≡ front
  unfolding drop_last
  drop_last-append [] b = refl
  drop_last-append (x ∷ []) b = refl
  drop_last-append (x ∷ y ∷ xs) b = ap (◌∷◌ x) (drop_last-append (y ∷ xs) b)

  -- A list that is not empty, by its last item.
  pub split_last :
      (xs : List (K × V))
      → 0 < length xs
      → (front : List (K × V)) × (b : K × V) × (xs ≡ front ++ b ∷ [])
  split_last [] h = absurd (omega arith)
  split_last (x ∷ []) h = ([], x, refl)
  split_last (x ∷ y ∷ xs) h =
      let (front, b, e) = split_last (y ∷ xs) (omega arith) in (x ∷ front, b, ap (◌∷◌ x) e)
