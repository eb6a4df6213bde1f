-- ===== src/Base/OrderedMap.antt =====
-- `std::map` with integer keys, as the list of its entries in the order of the keys, and its laws.
-- The components that keep such a map (Sylar/NodeService/ns_protocol.cc) use these operations of it.
use Prim.Native.Nat.{ℕ, ◌<◌}
use mathlib.Core.Path.{◌≡◌, refl, subst}
use mathlib.Core.Logic.{◌≢◌}
use mathlib.Core.Option.{Option, none, some}
use mathlib.Core.List.{List, [], ◌∷◌}
use mathlib.Core.Bool.{true, false}
use native.Mathlib.Omega.{arith}
use native.Mathlib.Decide.{ℕ_discrete}
use my_sylar_server.Base.Tests.{ltb, ltb→lt}

module _ {ℓ} {V : Type ℓ} where
  -- `m_datas.find(k)`
  unfoldable pub map_find : ℕ → List (ℕ × V) → Option V
  map_find k [] = none
  map_find k ((j, v) ∷ m) = elim (ℕ_discrete j k) [ yes _ ↦ some v | no _ ↦ map_find k m ]

  -- `m_datas[k] = v`
  unfoldable pub map_insert : ℕ → V → List (ℕ × V) → List (ℕ × V)
  map_insert k v [] = (k, v) ∷ []
  map_insert k v ((j, w) ∷ m) = elim (ℕ_discrete j k) [
    | yes _ ↦ (k, v) ∷ m
    | no _ ↦ elim (ltb k j) [ true ↦ (k, v) ∷ (j, w) ∷ m | false ↦ (j, w) ∷ map_insert k v m ]
  ]

  -- `m_datas.erase(k)`
  unfoldable pub map_erase : ℕ → List (ℕ × V) → List (ℕ × V)
  map_erase k [] = []
  map_erase k ((j, w) ∷ m) = elim (ℕ_discrete j k) [ yes _ ↦ m | no _ ↦ (j, w) ∷ map_erase k m ]

  -- Every key is above `k`.
  abbrev pub AllAbove : ℕ → List (ℕ × V) → Type 0
  AllAbove k [] = Unit {0}
  AllAbove k ((j, _) ∷ m) = (k < j) × AllAbove k m

  -- The keys rise.
  abbrev pub Rising : List (ℕ × V) → Type 0
  Rising [] = Unit {0}
  Rising ((k, _) ∷ m) = AllAbove k m × Rising m

  pub find-cons_self :
      (j k : ℕ) (v : V) (m : List (ℕ × V)) → j ≡ k → map_find k ((j, v) ∷ m) ≡ some v
  unfolding map_find
  find-cons_self j k v m h = ground arith

  pub find-cons_ne :
      (j k : ℕ) (v : V) (m : List (ℕ × V)) → j ≢ k → map_find k ((j, v) ∷ m) ≡ map_find k m
  unfolding map_find
  find-cons_ne j k v m h = ground arith

  pub find-insert_self : (k : ℕ) (v : V) (m : List (ℕ × V)) → map_find k (map_insert k v m) ≡ some v
  unfolding map_find map_insert
  find-insert_self k v [] = ground arith
  find-insert_self k v ((j, w) ∷ m) = ground (arith, find-insert_self k v m)

  pub find-insert_ne :
      (q k : ℕ) (v : V) (m : List (ℕ × V)) → q ≢ k → map_find q (map_insert k v m) ≡ map_find q m
  unfolding map_find map_insert
  find-insert_ne q k v [] h = ground arith
  find-insert_ne q k v ((j, w) ∷ m) h = ground (arith, find-insert_ne q k v m h)

  pub find_above : (k q : ℕ) (m : List (ℕ × V)) → AllAbove k m → q ≡ k → map_find q m ≡ none
  unfolding map_find
  find_above k q [] above h = refl
  find_above k q ((j, w) ∷ m) above h = ground (arith, find_above k q m above.1 h, above.0)

  pub find-erase_self : (k : ℕ) (m : List (ℕ × V)) → Rising m → map_find k (map_erase k m) ≡ none
  unfolding map_find map_erase
  find-erase_self k [] r = refl
  find-erase_self k ((j, w) ∷ m) r = ground (arith, find-erase_self k m r.1, find_above j k m r.0)

  pub find-erase_ne :
      (q k : ℕ) (m : List (ℕ × V)) → q ≢ k → map_find q (map_erase k m) ≡ map_find q m
  unfolding map_find map_erase
  find-erase_ne q k [] h = refl
  find-erase_ne q k ((j, w) ∷ m) h = ground (arith, find-erase_ne q k m h)

  AllAbove-lower : (i j : ℕ) (m : List (ℕ × V)) → i < j → AllAbove j m → AllAbove i m
  AllAbove-lower i j [] h a = tt
  AllAbove-lower i j ((k, w) ∷ m) h a = (omega (arith, a.0), AllAbove-lower i j m h a.1)

  insert-AllAbove :
      (i k : ℕ) (v : V) (m : List (ℕ × V)) → i < k → AllAbove i m → AllAbove i (map_insert k v m)
  unfolding map_insert
  insert-AllAbove i k v [] h a = (h, tt)
  insert-AllAbove i k v ((j, w) ∷ m) h a =
      ground (arith, h, a.0, a.1, insert-AllAbove i k v m h a.1)

  erase-AllAbove : (i k : ℕ) (m : List (ℕ × V)) → AllAbove i m → AllAbove i (map_erase k m)
  unfolding map_erase
  erase-AllAbove i k [] a = tt
  erase-AllAbove i k ((j, w) ∷ m) a = ground (arith, a.0, a.1, erase-AllAbove i k m a.1)

  pub erase-Rising : (k : ℕ) (m : List (ℕ × V)) → Rising m → Rising (map_erase k m)
  unfolding map_erase
  erase-Rising k [] r = tt
  erase-Rising k ((j, w) ∷ m) r =
      ground (arith, r.0, r.1, erase-AllAbove j k m r.0, erase-Rising k m r.1)

  AllAbove-eq : (j k : ℕ) (m : List (ℕ × V)) → j ≡ k → AllAbove j m → AllAbove k m
  AllAbove-eq j k m e a = subst (λ (q : ℕ). AllAbove q m) e a

  pub insert-Rising : (k : ℕ) (v : V) (m : List (ℕ × V)) → Rising m → Rising (map_insert k v m)
  unfolding map_insert
  insert-Rising k v [] r = (tt, tt)
  insert-Rising k v ((j, w) ∷ m) r = ground (
    arith,
    r.0,
    r.1,
    insert-AllAbove j k v m,
    insert-Rising k v m r.1,
    AllAbove-lower k j m,
    AllAbove-eq j k m,
  )

  pub erase_absent : (k : ℕ) (m : List (ℕ × V)) → map_find k m ≡ none → map_erase k m ≡ m
  unfolding map_find map_erase
  erase_absent k [] h = refl
  erase_absent k ((j, w) ∷ m) h = ground (arith, erase_absent k m)

  -- An entry that was put in and taken out again leaves no trace.
  pub erase-insert :
      (k : ℕ) (v : V) (m : List (ℕ × V)) → Rising m → map_erase k (map_insert k v m) ≡ map_erase k m
  unfolding map_insert map_erase
  erase-insert k v [] r = ground arith
  erase-insert k v ((j, w) ∷ m) r =
      let gone : k < j → map_erase k m ≡ m =
        λ lt. erase_absent k m (find_above k k m (AllAbove-lower k j m lt r.0) refl) in
      ground (arith, gone, erase-insert k v m r.1, ltb→lt k j)

  -- The second of two entries under one key is the one that stays.
  pub insert-insert :
      (k : ℕ) (v w : V) (m : List (ℕ × V)) → map_insert k v (map_insert k w m) ≡ map_insert k v m
  unfolding map_insert
  insert-insert k v w [] = ground arith
  insert-insert k v w ((j, u) ∷ m) = ground (arith, insert-insert k v w m)
