-- ===== src/HashLruCache/Tests.antt =====
-- HashLruCache (Sylar/DataStructure/LRU_Cache.h) at concrete inputs.
use native.Mathlib.Decide.{ℕ_discrete}
use my_sylar_server.Base.{ℕ, ◌≡◌, some, get_elem?, ◌==◌, if◌then◌else◌, arith}
use my_sylar_server.LruCache
use my_sylar_server.LruCache.{LruCache}
use my_sylar_server.HashLruCache.{HashLruCache, hash_lru_cache, set, get}
use my_sylar_server.HashLruCache.Laws.{IsValid, hash_lru_cache-IsValid, set_get_lem}

-- Two buckets of one item each; the hash of a number is the number.
abbrev fresh : HashLruCache ℕ ℕ
fresh = hash_lru_cache 2 2 2

set_get_lem_example :
    (c' c'' : HashLruCache ℕ ℕ) × (d d' d'' : LruCache ℕ ℕ) × (get_elem? fresh.datas 1 ≡ some d)
    × (LruCache.set ℕ_discrete 3 30 (record d { status = fresh.status }) ≡ some d')
    × (set ℕ_discrete (λ k. k) 3 30 fresh ≡ some c')
    × IsValid ℕ_discrete c'
    × ((j : ℕ) → get_elem? c'.datas j ≡ (if j == 1 then some d' else get_elem? fresh.datas j))
    × (get ℕ_discrete (λ k. k) 3 c' ≡ some (c'', some 30))
    × IsValid ℕ_discrete c''
    × ((j : ℕ) → get_elem? c''.datas j ≡ (if j == 1 then some d'' else get_elem? c'.datas j))
unfolding hash_lru_cache
set_get_lem_example =
    set_get_lem ℕ_discrete (λ k. k) 3 30 fresh
      (hash_lru_cache-IsValid ℕ_discrete 2 2 2 (omega arith))
