-- ===== src/HashLruCache.antt =====
-- HashLruCache (Sylar/DataStructure/LRU_Cache.h): LruCaches that share the keys by their hash. Each one's
-- pointer to the common CacheStatus is modelled by handing the status in and taking it back. The
-- hash is a parameter. `none` is an access outside `m_datas`, which a cache without buckets makes,
-- or a failed prune. A limit is divided in double and rounded up, which is exact below 2^53.
pub mod Laws
mod Tests
use my_sylar_server.Base.{
  ℕ, zero, suc, ◌+◌, ◌-◌, ◌*◌, ◌/◌, ◌%◌, ◌^◌, Option, none, some, List, [], ◌∷◌, Bool, true, false,
  ◌&&◌, get_elem?, replicate, ◌==◌,
}
use my_sylar_server.Base
use my_sylar_server.Base.Chained.{◌>>=◌}
use my_sylar_server.LruCache
use my_sylar_server.LruCache.{LruCache, CacheStatus, lru_cache, new_status}

pub record HashLruCache {ℓ} (K V : Type ℓ) : Type ℓ where
  pub bucket : ℕ
  pub max_size : ℕ
  pub elasticity : ℕ
  pub datas : List (LruCache K V)
  pub status : CacheStatus

-- `std::ceil(n * 1.0 / bucket)`
abbrev pub per_bucket : ℕ → ℕ → ℕ
per_bucket n bucket = (n + (bucket - 1)) / bucket

module _ {ℓ} {K V : Type ℓ} where
  unfoldable pub hash_lru_cache : ℕ → ℕ → ℕ → HashLruCache K V
  unfolding lru_cache
  hash_lru_cache bucket max_size elasticity = record {
    bucket = bucket;
    max_size = per_bucket max_size bucket * bucket % 2 ^ 64;
    elasticity = per_bucket elasticity bucket * bucket % 2 ^ 64;
    datas =
        replicate bucket (lru_cache (per_bucket max_size bucket) (per_bucket elasticity bucket));
    status = new_status;
  }

  abbrev pub sum_sizes : List (LruCache K V) → ℕ
  sum_sizes [] = 0
  sum_sizes (d ∷ ds) = LruCache.size d + sum_sizes ds

  unfoldable pub size : HashLruCache K V → ℕ
  size c = sum_sizes c.datas % 2 ^ 64

  abbrev pub all_empty : List (LruCache K V) → Bool
  all_empty [] = true
  all_empty (d ∷ ds) = LruCache.empty d && all_empty ds

  unfoldable pub empty : HashLruCache K V → Bool
  empty c = all_empty c.datas

  abbrev pub clear_all : List (LruCache K V) → List (LruCache K V)
  clear_all [] = []
  clear_all (d ∷ ds) = LruCache.clear d ∷ clear_all ds

  unfoldable pub clear : HashLruCache K V → HashLruCache K V
  clear c = record c { datas = clear_all c.datas }

  abbrev pub limit_all : ℕ → List (LruCache K V) → List (LruCache K V)
  limit_all v [] = []
  limit_all v (d ∷ ds) = LruCache.set_max_size v d ∷ limit_all v ds

  unfoldable pub set_max_size : ℕ → HashLruCache K V → HashLruCache K V
  set_max_size v c = record c {
    max_size = per_bucket v c.bucket * c.bucket % 2 ^ 64;
    datas = limit_all (per_bucket v c.bucket) c.datas;
  }

  abbrev pub elasticity_all : ℕ → List (LruCache K V) → List (LruCache K V)
  elasticity_all v [] = []
  elasticity_all v (d ∷ ds) = LruCache.set_elasticity v d ∷ elasticity_all v ds

  unfoldable pub set_elasticity : ℕ → HashLruCache K V → HashLruCache K V
  set_elasticity v c = record c {
    elasticity = per_bucket v c.bucket * c.bucket % 2 ^ 64;
    datas = elasticity_all (per_bucket v c.bucket) c.datas;
  }

  unfoldable pub get_max_allowed_size : HashLruCache K V → ℕ
  get_max_allowed_size c = (c.max_size + c.elasticity) % 2 ^ 64

  -- A bucket with the common status, and the cache behind a call of it.
  abbrev pub shared : HashLruCache K V → LruCache K V → LruCache K V
  shared c d = record d { status = c.status }

  abbrev pub with_bucket : ℕ → LruCache K V → HashLruCache K V → HashLruCache K V
  with_bucket i d c = record c { datas = Base.set c.datas i d; status = d.status }

module _ {ℓ} {K V : Type ℓ} (dec : Discrete K) (hash : K → ℕ) where
  abbrev pub bucket_of : K → HashLruCache K V → ℕ
  bucket_of k c = hash k % c.bucket

  unfoldable pub set : K → V → HashLruCache K V → Option (HashLruCache K V)
  set k v c = do
    d ← get_elem? c.datas (bucket_of k c)
    d' ← LruCache.set dec k v (shared c d)
    some (with_bucket (bucket_of k c) d' c)

  unfoldable pub get : K → HashLruCache K V → Option (HashLruCache K V × Option V)
  get k c = do
    d ← get_elem? c.datas (bucket_of k c)
    let r = LruCache.get dec k (shared c d) in some (with_bucket (bucket_of k c) r.0 c, r.1)

  unfoldable pub del : K → HashLruCache K V → Option (HashLruCache K V × Bool)
  del k c = do
    d ← get_elem? c.datas (bucket_of k c)
    let r = LruCache.del dec k (shared c d) in some (with_bucket (bucket_of k c) r.0 c, r.1)

  unfoldable pub exists : K → HashLruCache K V → Option Bool
  exists k c = do d ← get_elem? c.datas (bucket_of k c); some (LruCache.exists dec k (shared c d))
