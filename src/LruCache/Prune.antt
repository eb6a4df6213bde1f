-- ===== src/LruCache/Prune.antt =====
-- `prune` of LruCache (Sylar/DataStructure/LRU_Cache.h): what its loop leaves.
use my_sylar_server.Base.{
  ℕ, zero, suc, ◌-◌, ◌≤◌, ◌<◌, ◌≡◌, ◌≢◌, refl, sym, ap, ◌∙◌, inl, inr, some, List, [], ◌∷◌, ◌++◌,
  true, false, Bool, ◌||◌, length, take, drop, ltb, ltb→lt, ltb→le, Bool-cases, length-append,
  take_all, drop_all, append-nil, append_assoc, arith,
}
use mathlib.Core.List.{reverse, reverse-append, map-append}
use my_sylar_server.Base.Slices.{take-append_left, drop-append_left}
use my_sylar_server.LruCache.{LruCache, prune_loop}
use my_sylar_server.LruCache.Keyed.{
  contains, erase_key, last_item, drop_last, names, contains-append, contains-erase_self,
  contains-erase_ne, erase-Distinct, length-erase, Distinct-front, Distinct-last, last_item-append,
  drop_last-append, split_last,
}
use my_sylar_server.LruCache.Valid.{IsValid}

module _ {ℓ} {K V : Type ℓ} (dec : Discrete K) where
  -- The cache behind the loop: the `max_size` items used most recently stay, and the others went
  -- through the callback, the one used longest ago first.
  pub record Pruned (c c' : LruCache K V) (count : ℕ) : Type ℓ where
    pub valid : IsValid dec c'
    pub kept : c'.keys ≡ take c.max_size c.keys
    pub called : c'.pruned ≡ c.pruned ++ reverse (drop c.max_size c.keys)
    pub counted : count ≡ length c.keys - c.max_size
    pub same_max : c'.max_size ≡ c.max_size
    pub same_elasticity : c'.elasticity ≡ c.elasticity
    pub same_status : c'.status ≡ c.status

  -- One round: the last item leaves the list and the map.
  abbrev dropped : LruCache K V → List (K × V) → K × V → LruCache K V
  dropped c front b = record c {
    cache = erase_key dec b.0 c.cache;
    keys = front;
    pruned = c.pruned ++ b ∷ [];
  }

  module _ (c : LruCache K V) (front : List (K × V)) (b : K × V)
      (e : c.keys ≡ front ++ b ∷ []) where
    names-split : names c.keys ≡ names front ++ b.0 ∷ []
    names-split = rw e (map-append (λ x. x.0) front (b ∷ []))

    length-split : length c.keys ≡ suc (length front)
    length-split = omega (arith, ap length e, length-append front (b ∷ []))

    take-split : c.max_size < length c.keys → take c.max_size front ≡ take c.max_size c.keys
    take-split h =
        rw e (sym (take-append_left c.max_size front (b ∷ []) (omega (arith, length-split))))

    called-split :
        c.max_size < length c.keys
        → c.pruned ++ b ∷ [] ++ reverse (drop c.max_size front)
          ≡ c.pruned ++ reverse (drop c.max_size c.keys)
    called-split h =
        rw (e, drop-append_left c.max_size front (b ∷ []) (omega (arith, length-split)))
          (append_assoc c.pruned (b ∷ []) (reverse (drop c.max_size front))
            ∙ ap (◌++◌ c.pruned) (sym (reverse-append (drop c.max_size front) (b ∷ []))))

    last-split : last_item c.keys ≡ some b
    last-split = rw e (last_item-append front b)

    drop_last-split : drop_last c.keys ≡ front
    drop_last-split = rw e (drop_last-append front b)

    last_other : (k : K) → b.0 ≢ k → (x : Bool) → (x || contains dec k (b.0 ∷ [])) ≡ x
    unfolding contains
    last_other k p true = refl
    last_other k p false = ground arith

    contained : IsValid dec c → contains dec b.0 c.cache ≡ true
    unfolding contains
    contained v =
        v.agree b.0
        ∙ rw names-split (
            contains-append dec b.0 (names front) (b.0 ∷ [])
            ∙ itself (contains dec b.0 (names front)))
      where
        itself : (x : Bool) → (x || contains dec b.0 (b.0 ∷ [])) ≡ true
        itself true = refl
        itself false = ground arith

    dropped-agree :
        IsValid dec c
        → (k : K) → contains dec k (erase_key dec b.0 c.cache) ≡ contains dec k (names front)
    unfolding contains
    dropped-agree v k = elim (dec b.0 k) [
      | yes p ↦ rw (← p) (
          contains-erase_self dec b.0 c.cache v.distinct_cache
          ∙ sym (Distinct-last dec (names front) b.0 (rw names-split at v.distinct_keys)))
      | no p ↦
          contains-erase_ne dec k b.0 c.cache (λ q. p (sym q))
          ∙ v.agree k
          ∙ rw names-split (
              contains-append dec k (names front) (b.0 ∷ [])
              ∙ last_other k p (contains dec k (names front)))
    ]

    dropped-IsValid : IsValid dec c → IsValid dec (dropped c front b)
    dropped-IsValid v = record {
      agree = dropped-agree v;
      distinct_cache = erase-Distinct dec b.0 c.cache v.distinct_cache;
      distinct_keys = Distinct-front dec (names front) b.0 (rw names-split at v.distinct_keys);
      same_length = omega (
        arith,
        length-erase dec b.0 c.cache (contained v),
        v.same_length,
        ap length e,
        length-append front (b ∷ []),
      );
    }

  prune_round :
      (fuel : ℕ) (c c' : LruCache K V) (b : K × V) (count : ℕ)
      → ltb c.max_size (length c.cache) ≡ true
      → last_item c.keys ≡ some b
      → prune_loop dec fuel (dropped c (drop_last c.keys) b) ≡ some (c', count)
      → prune_loop dec (suc fuel) c ≡ some (c', suc count)
  unfolding prune_loop
  prune_round fuel c c' b count over last looped = rw (prune_loop, over, last, looped)

  -- On a valid cache, with one more round than there are items, the loop of `prune` ends: the
  -- `max_size` items used most recently stay, the others went through the callback with the one used
  -- longest ago first, and the count is theirs.
  pub prune_loop_lem :
      (fuel : ℕ) (c : LruCache K V)
      → IsValid dec c
      → length c.keys < fuel
      → (c' : LruCache K V) × (count : ℕ) × (prune_loop dec fuel c ≡ some (c', count))
        × Pruned c c' count
  unfolding prune_loop
  prune_loop_lem zero c v h = absurd (omega arith)
  prune_loop_lem (suc fuel) c v h = elim (Bool-cases (ltb c.max_size (length c.cache))) [
    | inr done ↦
        let small : length c.keys ≤ c.max_size = omega (arith, ltb→le _ _ done, v.same_length) in
        (
          c,
          0,
          rw (prune_loop, done),
          record {
            valid = v;
            kept = sym (take_all c.max_size c.keys small);
            called = rw (drop_all c.max_size c.keys small) (sym (append-nil c.pruned));
            counted = omega arith;
            same_max = refl;
            same_elasticity = refl;
            same_status = refl;
          },
        )
    | inl over ↦
        let large : c.max_size < length c.keys = omega (arith, ltb→lt _ _ over, v.same_length) in
        let (front, b, e) = split_last c.keys (omega arith) in
        let len = length-split c front b e in
        let (c', count, looped, p) =
          prune_loop_lem fuel (dropped c front b) (dropped-IsValid c front b e v) (omega arith) in
        (
          c',
          suc count,
          prune_round fuel c c' b count over (last-split c front b e)
              (rw (drop_last-split c front b e) looped),
          record {
            valid = p.valid;
            kept = p.kept ∙ take-split c front b e large;
            called = p.called ∙ called-split c front b e large;
            counted = omega (arith, p.counted, len, large);
            same_max = p.same_max;
            same_elasticity = p.same_elasticity;
            same_status = p.same_status;
          },
        )
  ]
