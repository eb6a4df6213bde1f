-- ===== src/LruCache/Tests.antt =====
-- The theorems about LruCache (Sylar/DataStructure/LRU_Cache.h) at concrete inputs.
use native.Mathlib.Decide.{ℕ_discrete}
use my_sylar_server.Base.{ℕ, ◌≡◌, refl, some, [], ◌∷◌, ◌≤◌, length, if◌then◌else◌, arith}
use my_sylar_server.LruCache.{LruCache, new_status, prune_loop, set, exists}
use my_sylar_server.LruCache.Keyed.{contains, remove}
use my_sylar_server.LruCache.Valid.{IsValid}
use my_sylar_server.LruCache.Prune.{Pruned, prune_loop_lem}
use my_sylar_server.LruCache.History.{set-bound}
use my_sylar_server.LruCache.Methods.{trim, set_lem}

-- A cache of at most two items that holds two.
abbrev full : LruCache ℕ ℕ
full = record {
  cache = 2 ∷ 1 ∷ [];
  keys = (2, 20) ∷ (1, 10) ∷ [];
  max_size = 2;
  elasticity = 1;
  status = new_status;
  pruned = [];
}

full-IsValid : IsValid ℕ_discrete full
unfolding contains ℕ_discrete
full-IsValid = record {
  agree = λ k. refl;
  distinct_cache = (refl, (refl, tt));
  distinct_keys = (refl, (refl, tt));
  same_length = refl;
}

prune_loop_lem_example :
    (c' : LruCache ℕ ℕ) × (count : ℕ) × (prune_loop ℕ_discrete 3 (record full { max_size = 1 })
      ≡ some (c', count))
    × Pruned ℕ_discrete (record full { max_size = 1 }) c' count
prune_loop_lem_example =
    prune_loop_lem ℕ_discrete 3 (record full { max_size = 1 })
      (record {
        agree = full-IsValid.agree;
        distinct_cache = full-IsValid.distinct_cache;
        distinct_keys = full-IsValid.distinct_keys;
        same_length = full-IsValid.same_length;
      })
      (omega arith)

set_lem_example :
    (c' : LruCache ℕ ℕ) × (set ℕ_discrete 3 30 full ≡ some c')
    × IsValid ℕ_discrete c'
    × (c'.keys ≡ (
        if exists ℕ_discrete 3 full
        then (3, 30) ∷ remove ℕ_discrete 3 full.keys
        else trim full ((3, 30) ∷ full.keys)))
set_lem_example = set_lem ℕ_discrete 3 30 full full-IsValid

set-bound_example :
    (c' : LruCache ℕ ℕ) × (set ℕ_discrete 3 30 full ≡ some c') × (length c'.keys ≤ 3)
set-bound_example =
    set-bound ℕ_discrete 3 30 full full-IsValid (omega arith) (omega arith) (omega arith)
