-- ===== src/LruCache/Touch.antt =====
-- The three ways in which the methods of LruCache (Sylar/DataStructure/LRU_Cache.h) change the map and
-- the list keep them in step.
use my_sylar_server.Base.{suc, ◌≡◌, sym, ap, ◌∙◌, ◌∷◌, true, false, arith}
use my_sylar_server.LruCache.{LruCache, CacheStatus}
use my_sylar_server.LruCache.Keyed.{
  contains, erase_key, remove, names, length-remove, contains-cons_self, contains-cons_ne,
  contains-erase_self, contains-erase_ne, erase-Distinct, length-erase, names-remove,
}
use my_sylar_server.LruCache.Valid.{IsValid}

module _ {ℓ} {K V : Type ℓ} (dec : Discrete K) where
  module _ (k : K) (v : V) (c : LruCache K V) (s : CacheStatus) (valid : IsValid dec c) where
    -- A key that is there moves to the front.
    pub touch-IsValid :
        contains dec k c.cache ≡ true
        → IsValid dec (record c { keys = (k, v) ∷ remove dec k c.keys; status = s })
    touch-IsValid h = record {
      agree = agree;
      distinct_cache = valid.distinct_cache;
      distinct_keys = rw (names-remove dec k c.keys) (
        contains-erase_self dec k (names c.keys) valid.distinct_keys,
        erase-Distinct dec k (names c.keys) valid.distinct_keys,
      );
      same_length = valid.same_length ∙ sym (length-remove dec k c.keys (sym (valid.agree k) ∙ h));
    }
      where
        agree : (j : K) → contains dec j c.cache ≡ contains dec j (k ∷ names (remove dec k c.keys))
        agree j = elim (dec k j) [
          | yes p ↦ rw (← p) (h ∙ sym (contains-cons_self dec k (names (remove dec k c.keys))))
          | no p ↦
              valid.agree j
              ∙ sym (
                  contains-cons_ne dec j k (names (remove dec k c.keys)) p
                  ∙ rw (names-remove dec k c.keys)
                      (contains-erase_ne dec j k (names c.keys) (λ q. p (sym q))))
        ]

    -- A new key comes to the front of both.
    pub insert-IsValid :
        contains dec k c.cache ≡ false
        → IsValid dec (record c { keys = (k, v) ∷ c.keys; cache = k ∷ c.cache; status = s })
    insert-IsValid h = record {
      agree = agree;
      distinct_cache = (h, valid.distinct_cache);
      distinct_keys = (sym (valid.agree k) ∙ h, valid.distinct_keys);
      same_length = ap suc valid.same_length;
    }
      where
        agree : (j : K) → contains dec j (k ∷ c.cache) ≡ contains dec j (k ∷ names c.keys)
        agree j = elim (dec k j) [
          | yes p ↦
              rw (← p)
                (contains-cons_self dec k c.cache ∙ sym (contains-cons_self dec k (names c.keys)))
          | no p ↦
              contains-cons_ne dec j k c.cache p
              ∙ valid.agree j
              ∙ sym (contains-cons_ne dec j k (names c.keys) p)
        ]

  module _ (c : LruCache K V) (s : CacheStatus) (valid : IsValid dec c) where
    pub status-IsValid : IsValid dec (record c { status = s })
    status-IsValid = record {
      agree = valid.agree;
      distinct_cache = valid.distinct_cache;
      distinct_keys = valid.distinct_keys;
      same_length = valid.same_length;
    }

  module _ (k : K) (c : LruCache K V) (s : CacheStatus) (valid : IsValid dec c) where
    -- A key that is erased is gone from both.
    pub erase-IsValid :
        contains dec k c.cache ≡ true
        → IsValid dec
            (record c { keys = remove dec k c.keys; cache = erase_key dec k c.cache; status = s })
    erase-IsValid h = record {
      agree = agree;
      distinct_cache = erase-Distinct dec k c.cache valid.distinct_cache;
      distinct_keys =
          rw (names-remove dec k c.keys) (erase-Distinct dec k (names c.keys) valid.distinct_keys);
      same_length = omega (
        arith,
        length-erase dec k c.cache h,
        length-remove dec k c.keys (sym (valid.agree k) ∙ h),
        valid.same_length,
      );
    }
      where
        agree :
            (j : K)
            → contains dec j (erase_key dec k c.cache)
              ≡ contains dec j (names (remove dec k c.keys))
        agree j = rw (names-remove dec k c.keys) (elim (dec k j) [
          | yes p ↦ rw (← p) (
              contains-erase_self dec k c.cache valid.distinct_cache
              ∙ sym (contains-erase_self dec k (names c.keys) valid.distinct_keys))
          | no p ↦
              contains-erase_ne dec j k c.cache (λ q. p (sym q))
              ∙ valid.agree j
              ∙ sym (contains-erase_ne dec j k (names c.keys) (λ q. p (sym q)))
        ])
