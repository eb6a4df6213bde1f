-- ===== src/LruCache.antt =====
-- Sylar/DataStructure/LRU_Cache.h and cache_status.h: the classes CacheStatus and LruCache, over keys
-- with decidable equality. Child modules: `Keyed` (lists of keyed items),
-- `Valid` (the invariant), `Prune`, `Touch`, `Methods` (each method) and `History` (what can be seen
-- after `set`).
--
-- `m_keys` is the list of items, most recently used first. `m_cache` maps a key to an iterator into
-- that list; an iterator of a list stays with its item when items are moved or erased around it, so
-- it is modelled by the key of its item, and `m_cache` by the list of its keys. A method takes
-- the cache and returns the new one beside its result. A lock spans each method's body, so a method
-- is one step.
pub mod Keyed
pub mod Valid
pub mod Prune
pub mod Touch
pub mod Methods
pub mod History
mod Tests
use my_sylar_server.Base.{
  ℕ, zero, suc, ◌+◌, ◌-◌, ◌*◌, ◌%◌, ◌^◌, Option, none, some, List, [], ◌∷◌, ◌++◌, Bool, true, false,
  length, ltb, leb, ◌==◌, ◌||◌, if◌then◌else◌,
}
use Keyed.{find, remove, contains, erase_key, last_item, drop_last}

-- `CacheStatus`; the counters are `int64_t`, and are taken not to reach 2^63.
pub record CacheStatus : Type 0 where
  pub get : ℕ
  pub set : ℕ
  pub del : ℕ
  pub timeout : ℕ
  pub prune : ℕ
  pub hit : ℕ

unfoldable pub inc_get : CacheStatus → CacheStatus
inc_get s = record s { get = s.get + 1 }

unfoldable pub inc_set : CacheStatus → CacheStatus
inc_set s = record s { set = s.set + 1 }

unfoldable pub inc_del : CacheStatus → CacheStatus
inc_del s = record s { del = s.del + 1 }

unfoldable pub inc_prune : ℕ → CacheStatus → CacheStatus
inc_prune v s = record s { prune = s.prune + v }

unfoldable pub inc_hit : CacheStatus → CacheStatus
inc_hit s = record s { hit = s.hit + 1 }

unfoldable pub merge : CacheStatus → CacheStatus → CacheStatus
merge s o = record {
  get = s.get + o.get;
  set = s.set + o.set;
  del = s.del + o.del;
  timeout = s.timeout + o.timeout;
  prune = s.prune + o.prune;
  hit = s.hit + o.hit;
}

abbrev pub new_status : CacheStatus
new_status = record { get = 0; set = 0; del = 0; timeout = 0; prune = 0; hit = 0 }

-- `LruCache`. `pruned` is what the prune callback `m_cb` was called with, latest last.
pub record LruCache {ℓ} (K V : Type ℓ) : Type ℓ where
  pub cache : List K
  pub keys : List (K × V)
  pub max_size : ℕ
  pub elasticity : ℕ
  pub status : CacheStatus
  pub pruned : List (K × V)

module _ {ℓ} {K V : Type ℓ} where
  -- The constructor.
  unfoldable pub lru_cache : ℕ → ℕ → LruCache K V
  lru_cache max_size elasticity = record {
    cache = [];
    keys = [];
    max_size = max_size;
    elasticity = elasticity;
    status = new_status;
    pruned = [];
  }

  -- The sum is a `size_t`.
  unfoldable pub get_max_allowed_size : LruCache K V → ℕ
  get_max_allowed_size c = (c.max_size + c.elasticity) % 2 ^ 64

  -- `m_cache.size()`
  unfoldable pub size : LruCache K V → ℕ
  size c = length c.cache

  unfoldable pub empty : LruCache K V → Bool
  empty c = length c.cache == 0

  unfoldable pub clear : LruCache K V → LruCache K V
  clear c = record c { cache = []; keys = [] }

  unfoldable pub set_max_size : ℕ → LruCache K V → LruCache K V
  set_max_size v c = record c { max_size = v }

  unfoldable pub set_elasticity : ℕ → LruCache K V → LruCache K V
  set_elasticity v c = record c { elasticity = v }

module _ {ℓ} {K V : Type ℓ} (dec : Discrete K) where
  -- The loop of `prune`: `fuel` bounds the rounds, and `back()` of an empty list, which is
  -- undefined, gives `none`. The number is the count of the loop.
  unfoldable pub prune_loop : ℕ → LruCache K V → Option (LruCache K V × ℕ)
  prune_loop zero c = none
  prune_loop (suc fuel) c = elim (ltb c.max_size (length c.cache)) [
    | false ↦ some (c, 0)
    | true ↦ elim (last_item c.keys) [
      | none ↦ none
      | some back ↦
          elim (prune_loop fuel (record c {
            cache = erase_key dec back.0 c.cache;
            keys = drop_last c.keys;
            pruned = c.pruned ++ back ∷ [];
          })) [ none ↦ none | some (c', count) ↦ some (c', suc count) ]
    ]
  ]

  -- One round more than there are keys is enough.
  unfoldable pub prune : LruCache K V → Option (LruCache K V × ℕ)
  unfolding prune_loop get_max_allowed_size
  prune c =
      if (c.max_size == 0) || ltb (length c.cache) (get_max_allowed_size c)
      then some (c, 0)
      else elim (prune_loop (suc (length c.cache)) c) [
        | none ↦ none
        | some (c', count) ↦ some (record c' { status = inc_prune count c'.status }, count)
      ]

  unfoldable pub set : K → V → LruCache K V → Option (LruCache K V)
  unfolding prune
  set k v c₀ =
      let c = record c₀ { status = inc_set c₀.status } in
      if contains dec k c.cache
      then some (record c { keys = (k, v) ∷ remove dec k c.keys })
      else elim (prune (record c { keys = (k, v) ∷ c.keys; cache = k ∷ c.cache })) [
        | none ↦ none
        | some (c', _) ↦ some c'
      ]

  -- Both `get`s: the value, if there is one.
  unfoldable pub get : K → LruCache K V → LruCache K V × Option V
  get k c₀ =
      let c = record c₀ { status = inc_get c₀.status } in
      if contains dec k c.cache
      then elim (find dec k c.keys) [
        | none ↦ (c, none)
        | some v ↦
            (record c { keys = (k, v) ∷ remove dec k c.keys; status = inc_hit c.status }, some v)
      ]
      else (c, none)

  unfoldable pub del : K → LruCache K V → LruCache K V × Bool
  del k c₀ =
      let c = record c₀ { status = inc_del c₀.status } in
      if contains dec k c.cache
      then (record c { keys = remove dec k c.keys; cache = erase_key dec k c.cache }, true)
      else (c, false)

  unfoldable pub exists : K → LruCache K V → Bool
  exists k c = contains dec k c.cache
