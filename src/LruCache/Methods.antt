-- ===== src/LruCache/Methods.antt =====
-- `set`, `get`, `del` and `exists` of LruCache (Sylar/DataStructure/LRU_Cache.h), with the map and the
-- loop gone: what each does to the list of items.
use my_sylar_server.Base.{
  ℕ, suc, ◌≡◌, ◌≢◌, refl, sym, ◌∙◌, inl, inr, none, some, List, ◌∷◌, false, Bool, ◌||◌, length,
  take, ltb, ◌==◌, if◌then◌else◌, Bool-cases, arith,
}
use my_sylar_server.LruCache.{
  LruCache, prune, set, get, del, exists, get_max_allowed_size, inc_prune, inc_set, inc_get,
  inc_del, inc_hit,
}
use my_sylar_server.LruCache.Keyed.{
  contains, find, remove, contains-erase_self, find_contained, find_absent, find-remove_ne,
}
use my_sylar_server.LruCache.Valid.{IsValid}
use my_sylar_server.LruCache.Touch.{touch-IsValid, insert-IsValid, erase-IsValid, status-IsValid}
use my_sylar_server.LruCache.Prune.{prune_loop_lem}

module _ {ℓ} {K V : Type ℓ} where
  -- No pruning is due.
  abbrev pub roomy : LruCache K V → ℕ → Bool
  roomy c n = (c.max_size == 0) || ltb n (get_max_allowed_size c)

  -- What a prune leaves of a list of items.
  abbrev pub trim : LruCache K V → List (K × V) → List (K × V)
  trim c xs = if roomy c (length xs) then xs else take c.max_size xs

module _ {ℓ} {K V : Type ℓ} (dec : Discrete K) where
  -- A prune never fails, and keeps the invariant and the most recent items.
  prune_lem :
      (c : LruCache K V)
      → IsValid dec c
      → (c' : LruCache K V) × (n : ℕ) × (prune dec c ≡ some (c', n))
        × IsValid dec c'
        × (c'.keys ≡ trim c c.keys)
  unfolding prune
  prune_lem c v = elim (Bool-cases (roomy c (length c.cache))) [
    | inl room ↦ (c, 0, rw room, v, rw (← v.same_length, room))
    | inr full ↦
        let (c', n, looped, p) =
          prune_loop_lem dec (suc (length c.cache)) c v (omega (arith, v.same_length)) in
        (
          record c' { status = inc_prune n c'.status },
          n,
          rw (full, looped),
          record {
            agree = p.valid.agree;
            distinct_cache = p.valid.distinct_cache;
            distinct_keys = p.valid.distinct_keys;
            same_length = p.valid.same_length;
          },
          p.kept ∙ rw (← v.same_length, full),
        )
  ]

  -- `set` on a valid cache: it never fails, the cache stays valid, and the item stands in front: a
  -- key that is there is moved, a new one is put in front and the list is then trimmed.
  pub set_lem :
      (k : K) (v : V) (c : LruCache K V)
      → IsValid dec c
      → (c' : LruCache K V) × (set dec k v c ≡ some c')
        × IsValid dec c'
        × (c'.keys
            ≡ (if exists dec k c then (k, v) ∷ remove dec k c.keys else trim c ((k, v) ∷ c.keys)))
  unfolding set exists get_max_allowed_size
  set_lem k v c valid = elim (Bool-cases (contains dec k c.cache)) [
    | inl old ↦ (
      record c { keys = (k, v) ∷ remove dec k c.keys; status = inc_set c.status },
      rw old,
      touch-IsValid dec k v c (inc_set c.status) valid old,
      rw old,
    )
    | inr new ↦
        let (c', n, pruned, valid', kept) =
          prune_lem
            (record c { keys = (k, v) ∷ c.keys; cache = k ∷ c.cache; status = inc_set c.status })
            (insert-IsValid dec k v c (inc_set c.status) valid new) in
        (c', rw (new, pruned), valid', kept ∙ rw new)
  ]

  -- `get` on a valid cache: it returns the item's value, if the key is there, and then moves the
  -- item to the front and counts a hit; a miss changes only the count of calls.
  pub get_lem :
      (k : K) (c : LruCache K V)
      → IsValid dec c
      → IsValid dec (get dec k c).0
        × ((get dec k c).1 ≡ find dec k c.keys)
        × ((get dec k c).0.keys
            ≡ elim (find dec k c.keys) [ none ↦ c.keys | some v ↦ (k, v) ∷ remove dec k c.keys ])
        × ((get dec k c).0.status ≡ elim (find dec k c.keys) [
          | none ↦ inc_get c.status
          | some v ↦ inc_hit (inc_get c.status)
        ])
  unfolding get
  get_lem k c valid = elim (Bool-cases (contains dec k c.cache)) [
    | inl there ↦
        let (v, found) = find_contained dec k c.keys (sym (valid.agree k) ∙ there) in
        rw (there, found)
          (touch-IsValid dec k v c (inc_hit (inc_get c.status)) valid there, refl, refl, refl)
    | inr absent ↦
        let missing = find_absent dec k c.keys (sym (valid.agree k) ∙ absent) in
        rw (absent, missing) (status-IsValid dec c (inc_get c.status) valid, refl, refl, refl)
  ]

  -- `del` on a valid cache: it says whether the key was there, and the cache stays valid without the
  -- key; every other key keeps its value, and the limits and what was pruned stay.
  pub del_lem :
      (k q : K) (c : LruCache K V)
      → IsValid dec c
      → q ≢ k
      → IsValid dec (del dec k c).0
        × ((del dec k c).1 ≡ exists dec k c)
        × (exists dec k (del dec k c).0 ≡ false)
        × (find dec q (del dec k c).0.keys ≡ find dec q c.keys)
        × ((del dec k c).0.max_size ≡ c.max_size)
        × ((del dec k c).0.pruned ≡ c.pruned)
  unfolding del exists
  del_lem k q c valid other = elim (Bool-cases (contains dec k c.cache)) [
    | inl there ↦ rw there (
      erase-IsValid dec k c (inc_del c.status) valid there,
      refl,
      contains-erase_self dec k c.cache valid.distinct_cache,
      find-remove_ne dec q k c.keys other,
      refl,
      refl,
    )
    | inr absent ↦
        rw absent (status-IsValid dec c (inc_del c.status) valid, refl, absent, refl, refl, refl)
  ]
