-- ===== src/LruCache/Valid.antt =====
-- The invariant of LruCache (Sylar/DataStructure/LRU_Cache.h): the map and the list hold the same keys,
-- each once.
use my_sylar_server.Base.{ℕ, ◌≡◌, refl, length}
use my_sylar_server.LruCache.{LruCache, lru_cache, clear}
use my_sylar_server.LruCache.Keyed.{contains, names, Distinct}

module _ {ℓ} {K V : Type ℓ} (dec : Discrete K) where
  pub record IsValid (c : LruCache K V) : Type ℓ where
    pub agree : (k : K) → contains dec k c.cache ≡ contains dec k (names c.keys)
    pub distinct_cache : Distinct dec c.cache
    pub distinct_keys : Distinct dec (names c.keys)
    pub same_length : length c.cache ≡ length c.keys

  pub lru_cache-IsValid : (max_size elasticity : ℕ) → IsValid (lru_cache max_size elasticity)
  unfolding lru_cache
  lru_cache-IsValid m e = record {
    agree = λ k. refl;
    distinct_cache = tt;
    distinct_keys = tt;
    same_length = refl;
  }

  pub clear-IsValid : (c : LruCache K V) → IsValid (clear c)
  unfolding clear
  clear-IsValid c = record {
    agree = λ k. refl;
    distinct_cache = tt;
    distinct_keys = tt;
    same_length = refl;
  }
