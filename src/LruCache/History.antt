-- ===== src/LruCache/History.antt =====
-- What can be seen of a LruCache (Sylar/DataStructure/LRU_Cache.h) after `set`: what `get` returns and
-- how many items there are.
use native.Mathlib.Nat.{mod-eq_of_lt}
use my_sylar_server.Base.{
  ℕ, zero, suc, ◌+◌, ◌%◌, ◌^◌, ◌≤◌, ◌<◌, ◌≡◌, refl, sym, ◌∙◌, inl, inr, some, List, ◌∷◌, false,
  length, take, ltb, ltb→lt, ◌==◌, Bool-cases, length-take, arith,
}
use my_sylar_server.LruCache.{LruCache, set, get, exists, get_max_allowed_size}
use my_sylar_server.LruCache.Keyed.{find, length-remove}
use my_sylar_server.LruCache.Valid.{IsValid}
use my_sylar_server.LruCache.Methods.{roomy, trim, set_lem, get_lem}

take-front {ℓ} :
    {A : Type ℓ} (n : ℕ) (x : A) (xs : List A)
    → (n == 0) ≡ false
    → (ys : List A) × (take n (x ∷ xs) ≡ x ∷ ys)
take-front zero x xs h = cc
take-front (suc n) x xs h = (take n xs, refl)

module _ {ℓ} {K V : Type ℓ} (dec : Discrete K) where
  find-front : (k : K) (v : V) (xs : List (K × V)) → find dec k ((k, v) ∷ xs) ≡ some v
  unfolding find
  find-front k v xs = ground arith

  -- The newest item is never trimmed.
  trim-front :
      (c : LruCache K V) (x : K × V) (xs : List (K × V))
      → (ys : List (K × V)) × (trim c (x ∷ xs) ≡ x ∷ ys)
  unfolding get_max_allowed_size
  trim-front c x xs = elim (Bool-cases (roomy c (suc (length xs)))) [
    | inl room ↦ (xs, rw room)
    | inr full ↦ let (ys, e) = take-front c.max_size x xs (ground arith) in (ys, rw full e)
  ]

  -- Right after `set`, `get` returns the value that was set, whatever the limits of the cache are.
  pub get-set :
      (k : K) (v : V) (c : LruCache K V)
      → IsValid dec c
      → (c' : LruCache K V) × (set dec k v c ≡ some c') × ((get dec k c').1 ≡ some v)
  get-set k v c valid =
      let (c', done, valid', keys) = set_lem dec k v c valid in
      let (rest_valid, found, _, _) = get_lem dec k c' valid' in
      let front : find dec k c'.keys ≡ some v = rw keys (elim (Bool-cases (exists dec k c)) [
        | inl old ↦ rw old (find-front k v _)
        | inr new ↦ let (ys, e) = trim-front c (k, v) c.keys in rw (new, e) (find-front k v ys)
      ]) in
      (c', done, found ∙ front)

  trim-bound :
      (c : LruCache K V) (xs : List (K × V))
      → 0 < c.max_size
      → c.max_size + c.elasticity < 2 ^ 64
      → length (trim c xs) ≤ c.max_size + c.elasticity
  unfolding get_max_allowed_size
  trim-bound c xs some_room no_wrap =
      let allowed = (c.max_size + c.elasticity) % 2 ^ 64 in
      let no_mod : allowed ≡ c.max_size + c.elasticity = mod-eq_of_lt no_wrap in
      let limited : (c.max_size == 0) ≡ false = ground arith in
      elim (Bool-cases (ltb (length xs) allowed)) [
        | inl room ↦ rw (limited, room) (omega (arith, ltb→lt _ _ room))
        | inr full ↦ rw (limited, full) (omega (arith, length-take c.max_size xs))
      ]

  -- On a valid cache whose limit is set and does not wrap, `set` succeeds and keeps the number of items
  -- within `m_maxSize + m_elasticity`.
  pub set-bound :
      (k : K) (v : V) (c : LruCache K V)
      → IsValid dec c
      → 0 < c.max_size
      → c.max_size + c.elasticity < 2 ^ 64
      → length c.keys ≤ c.max_size + c.elasticity
      → (c' : LruCache K V) × (set dec k v c ≡ some c')
        × (length c'.keys ≤ c.max_size + c.elasticity)
  unfolding exists
  set-bound k v c valid some_room no_wrap before =
      let (c', done, _, keys) = set_lem dec k v c valid in
      let bound : length c'.keys ≤ c.max_size + c.elasticity =
        rw keys (elim (Bool-cases (exists dec k c)) [
          | inl old ↦
              rw old (omega (arith, before, length-remove dec k c.keys (sym (valid.agree k) ∙ old)))
          | inr new ↦ rw new (trim-bound c ((k, v) ∷ c.keys) some_room no_wrap)
        ]) in
      (c', done, bound)
