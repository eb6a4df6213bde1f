-- ===== src/HashLruCache/Laws.antt =====
-- Correctness of HashLruCache (Sylar/DataStructure/LRU_Cache.h): every bucket is a valid LruCache, and a
-- key is looked for where it was set.
use native.Mathlib.Nat.{mod-lt}
use my_sylar_server.Base.{
  ◌==◌, if◌then◌else◌, ℕ, zero, suc, ◌%◌, ◌<◌, ◌≡◌, ◌≢◌, refl, sym, ◌∙◌, subst, Option, none, some,
  List, [], ◌∷◌, get_elem?, length, length-set, replicate, length-replicate, arith,
}
use my_sylar_server.Base
use my_sylar_server.LruCache
use my_sylar_server.LruCache.{LruCache, lru_cache}
use my_sylar_server.LruCache.Valid
use my_sylar_server.LruCache.Touch.{status-IsValid}
use my_sylar_server.LruCache.Methods.{set_lem, get_lem}
use my_sylar_server.LruCache.History.{get-set}
use my_sylar_server.HashLruCache.{
  HashLruCache, hash_lru_cache, per_bucket, set, get, bucket_of, shared, with_bucket,
}

module _ {ℓ} {A : Type ℓ} where
  within : (xs : List A) (i : ℕ) → i < length xs → (x : A) × (get_elem? xs i ≡ some x)
  within [] i h = absurd (omega arith)
  within (x ∷ xs) zero h = (x, refl)
  within (x ∷ xs) (suc i) h = within xs i (omega arith)

  get_elem?-replicate :
      (n : ℕ) (a : A) (i : ℕ) (x : A) → get_elem? (replicate n a) i ≡ some x → a ≡ x
  get_elem?-replicate zero a i x h = cc
  get_elem?-replicate (suc n) a zero x h = cc
  get_elem?-replicate (suc n) a (suc i) x h = get_elem?-replicate n a i x h

  set_self : (xs : List A) (i : ℕ) (v : A) → i < length xs → get_elem? (Base.set xs i v) i ≡ some v
  set_self [] i v h = absurd (omega arith)
  set_self (x ∷ xs) zero v h = refl
  set_self (x ∷ xs) (suc i) v h = set_self xs i v (omega arith)

  -- A write inside the list, seen at any place.
  set_at :
      (xs : List A) (i j : ℕ) (v : A)
      → i < length xs
      → get_elem? (Base.set xs i v) j ≡ (if j == i then some v else get_elem? xs j)
  set_at [] i j v h = absurd (omega arith)
  set_at (x ∷ xs) zero zero v h = refl
  set_at (x ∷ xs) zero (suc j) v h = ground arith
  set_at (x ∷ xs) (suc i) zero v h = ground arith
  set_at (x ∷ xs) (suc i) (suc j) v h = ground (arith, set_at xs i j v (omega arith))

  -- A property of all elements is one of those behind a write.
  set_each :
      (P : A → Type ℓ) (xs : List A) (i : ℕ) (v : A)
      → ((j : ℕ) (x : A) → get_elem? xs j ≡ some x → P x)
      → P v
      → (j : ℕ) (x : A) → get_elem? (Base.set xs i v) j ≡ some x
      → P x
  set_each P [] i v all new j x h = cc
  set_each P (y ∷ ys) zero v all new zero x h = let same : v ≡ x = cc in subst P same new
  set_each P (y ∷ ys) zero v all new (suc j) x h = all (suc j) x h
  set_each P (y ∷ ys) (suc i) v all new zero x h = all zero x h
  set_each P (y ∷ ys) (suc i) v all new (suc j) x h = set_each P ys i v (λ n. all (suc n)) new j x h

module _ {ℓ} {K V : Type ℓ} (dec : Discrete K) where
  pub record IsValid (c : HashLruCache K V) : Type ℓ where
    pub filled : length c.datas ≡ c.bucket
    pub some_bucket : 0 < c.bucket
    pub each : (i : ℕ) (d : LruCache K V) → get_elem? c.datas i ≡ some d → Valid.IsValid dec d

  -- A new cache with a bucket is valid.
  pub hash_lru_cache-IsValid :
      (bucket max_size elasticity : ℕ)
      → 0 < bucket
      → IsValid (hash_lru_cache bucket max_size elasticity)
  unfolding hash_lru_cache
  hash_lru_cache-IsValid bucket max_size elasticity some_bucket =
      let fresh = lru_cache (per_bucket max_size bucket) (per_bucket elasticity bucket) in
      record {
        filled = length-replicate bucket fresh;
        some_bucket = some_bucket;
        each = λ i d h. subst (Valid.IsValid dec) (get_elem?-replicate bucket fresh i d h) (
            Valid.lru_cache-IsValid dec (per_bucket max_size bucket)
              (per_bucket elasticity bucket));
      }

  with_bucket-IsValid :
      (i : ℕ) (d : LruCache K V) (c : HashLruCache K V)
      → IsValid c
      → Valid.IsValid dec d
      → IsValid (with_bucket i d c)
  with_bucket-IsValid i d c v w = record {
    filled = length-set c.datas i d ∙ v.filled;
    some_bucket = v.some_bucket;
    each = set_each (Valid.IsValid dec) c.datas i d v.each w;
  }

  module _ (hash : K → ℕ) where
    bucket_of-lt :
        (k : K) (c : HashLruCache K V) → IsValid c → bucket_of dec hash k c < length c.datas
    bucket_of-lt k c v = omega (arith, v.filled, mod-lt (hash k) {m = c.bucket} v.some_bucket)

    -- `set` on a valid cache succeeds, leaves it valid and changes only the key's bucket, by the
    -- `set` of LruCache; `get` then returns the value, whatever the limits are, leaves the cache valid, and changes no
    -- other bucket either.
    pub set_get_lem :
        (k : K) (v : V) (c : HashLruCache K V)
        → IsValid c
        → (c' c'' : HashLruCache K V) × (d d' d'' : LruCache K V) × (get_elem? c.datas
              (bucket_of dec hash k c)
            ≡ some d)
          × (LruCache.set dec k v (shared c d) ≡ some d')
          × (set dec hash k v c ≡ some c')
          × IsValid c'
          × ((j : ℕ)
              → get_elem? c'.datas j
                ≡ (if j == bucket_of dec hash k c then some d' else get_elem? c.datas j))
          × (get dec hash k c' ≡ some (c'', some v))
          × IsValid c''
          × ((j : ℕ)
              → get_elem? c''.datas j
                ≡ (if j == bucket_of dec hash k c then some d'' else get_elem? c'.datas j))
    unfolding set get
    set_get_lem k v c valid =
        let i = bucket_of dec hash k c in
        let inside = bucket_of-lt k c valid in
        let (d, found) = within c.datas i inside in
        let d_valid = status-IsValid dec d c.status (valid.each i d found) in
        let (d', done, d'_valid, _) = set_lem dec k v (shared c d) d_valid in
        let (e, again, value) = get-set dec k v (shared c d) d_valid in
        let same : e ≡ d' = cc in
        let c' = with_bucket i d' c in
        let c'_valid = with_bucket-IsValid i d' c valid d'_valid in
        let d'' = (LruCache.get dec k d').0 in
        let got : (LruCache.get dec k d').1 ≡ some v =
          subst (λ x. (LruCache.get dec k x).1 ≡ some v) same value in
        (
          c',
          with_bucket i d'' c',
          d,
          d',
          d'',
          found,
          done,
          rw (found, done),
          c'_valid,
          λ j. set_at c.datas i j d' inside,
          rw (set_self c.datas i d' inside, got),
          with_bucket-IsValid i d'' c' c'_valid (get_lem dec k d' d'_valid).0,
          λ j. set_at c'.datas i j d'' (omega (arith, inside, length-set c.datas i d')),
        )
