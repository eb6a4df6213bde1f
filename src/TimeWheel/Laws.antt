-- ===== src/TimeWheel/Laws.antt =====
-- What the methods of TimeWheel (Sylar/timer.cc) do to a ring whose slots are all there.
use Prim.Native.Nat.{min}
use native.Mathlib.Nat.{mod-lt}
use my_sylar_server.Base.{
  ℕ, zero, suc, ◌+◌, ◌-◌, ◌/◌, ◌%◌, ◌^◌, ◌≤◌, ◌<◌, ◌≡◌, ◌≢◌, refl, sym, ◌∙◌, inl, inr, some, List,
  [], ◌∷◌, ◌++◌, true, length, get_elem?, set, length-set, leb, leb→le, le→ltb, Bool-cases, arith,
  ap, subst, ◌⊎◌,
}
use my_sylar_server.Base.Turns.{turn}
use my_sylar_server.TimeWheel.{
  TimeWheel, TimerSlot, still_running, never, empty_slot, slot_of, add_timer, next_loop,
  get_next_timer, expired_loop, get_expired_timers,
}

some_elem {ℓ} :
    {A : Type ℓ} (xs : List A) (i : ℕ) → i < length xs → (x : A) × (get_elem? xs i ≡ some x)
some_elem [] i h = absurd (omega arith)
some_elem (x ∷ xs) zero h = (x, refl)
some_elem (x ∷ xs) (suc i) h = some_elem xs i (omega arith)

elem-lt {ℓ} : {A : Type ℓ} (xs : List A) (i : ℕ) (x : A) → get_elem? xs i ≡ some x → i < length xs
elem-lt [] i x h = cc
elem-lt (y ∷ xs) zero x h = omega arith
elem-lt (y ∷ xs) (suc i) x h = omega (arith, elem-lt xs i x h)

get_elem?-set_self {ℓ} :
    {A : Type ℓ} (xs : List A) (i : ℕ) (v : A) → i < length xs → get_elem? (set xs i v) i ≡ some v
get_elem?-set_self [] i v h = absurd (omega arith)
get_elem?-set_self (x ∷ xs) zero v h = refl
get_elem?-set_self (x ∷ xs) (suc i) v h = get_elem?-set_self xs i v (omega arith)

List-cases {ℓ} : {A : Type ℓ} (xs : List A) → (xs ≡ []) ⊎ ((y : A) × (ys : List A) × (xs ≡ y ∷ ys))
List-cases [] = inl refl
List-cases (y ∷ ys) = inr (y, ys, refl)

some-injective {ℓ} : {A : Type ℓ} {x y : A} → some x ≡ some y → x ≡ y
some-injective h = cc

module _ {ℓ} {T : Type ℓ} where
  pub record IsValid (w : TimeWheel T) : Type ℓ where
    pub filled : length w.slots ≡ w.slot_size
    pub inside : w.current_slot < w.slot_size
    pub ticking : 0 < w.tick_ms

  slot_of-lt : (w : TimeWheel T) (i : ℕ) → IsValid w → slot_of w i < length w.slots
  slot_of-lt w i v = omega (
    arith,
    v.filled,
    mod-lt ((w.current_slot + i) % 2 ^ 64) {m = w.slot_size} (omega (arith, v.inside)),
  )

  -- Every slot of a list is due.
  abbrev pub AllDue : ℕ → List (TimerSlot T) → Type 0
  AllDue now [] = Unit {0}
  AllDue now (s ∷ ss) = (s.expiration ≤ now) × AllDue now ss

  AllDue-elem :
      (now : ℕ) (ss : List (TimerSlot T)) (i : ℕ) (s : TimerSlot T)
      → AllDue now ss
      → get_elem? ss i ≡ some s
      → s.expiration ≤ now
  AllDue-elem now [] i s due e = cc
  AllDue-elem now (x ∷ ss) zero s due e =
      let same : x ≡ s = cc in omega (arith, due.0, ap (λ (t : TimerSlot T). t.expiration) same)
  AllDue-elem now (x ∷ ss) (suc i) s due e = AllDue-elem now ss i s due.1 e

  AllDue-set :
      (now : ℕ) (ss : List (TimerSlot T)) (i : ℕ) → AllDue now ss → AllDue now (set ss i empty_slot)
  AllDue-set now [] i due = tt
  AllDue-set now (x ∷ ss) zero due = (omega arith, due.1)
  AllDue-set now (x ∷ ss) (suc i) due = (due.0, AllDue-set now ss i due.1)

  -- While every slot is due, the loop of `getExpiredTimers` does not end: no number of rounds is
  -- enough.
  expired_loop_endless :
      (fuel now : ℕ) (w : TimeWheel T) (expired : List T)
      → IsValid w
      → AllDue now w.slots
      → expired_loop fuel now w expired ≡ still_running
  unfolding expired_loop
  expired_loop_endless zero now w expired v due = refl
  expired_loop_endless (suc fuel) now w expired v due =
      let (slot, found) = some_elem w.slots w.current_slot (omega (arith, v.filled, v.inside)) in
      let late = AllDue-elem now w.slots w.current_slot slot due found in
      let again =
        expired_loop_endless fuel now
          (record w { slots = set w.slots w.current_slot empty_slot; current_slot = slot_of w 1 })
          (expired ++ slot.timers)
          (record {
            filled = length-set w.slots w.current_slot empty_slot ∙ v.filled;
            inside = omega (arith, slot_of-lt w 1 v, v.filled);
            ticking = v.ticking;
          })
          (AllDue-set now w.slots w.current_slot due) in
      rw (expired_loop, found, le→ltb now slot.expiration late) again

  -- `getExpiredTimers` never returns on a valid wheel whose slots are all due.
  pub get_expired_timers_endless :
      (fuel now : ℕ) (w : TimeWheel T)
      → IsValid w
      → AllDue now w.slots
      → get_expired_timers fuel now w ≡ still_running
  unfolding get_expired_timers
  get_expired_timers_endless fuel now w v due = expired_loop_endless fuel now w [] v due

  -- A slot that holds timers and lets `getNextTimer` wait so long.
  abbrev pub Asks : ℕ → TimerSlot T → ℕ → Type ℓ
  Asks now s wait = (s.timers ≢ []) × (wait ≡ s.expiration - now)

  -- The wait of a walk over slots: the least of `next` and what the slots that hold timers ask for.
  record Waits (w : TimeWheel T) (rounds i now next wait : ℕ) : Type ℓ where
    below_start : wait ≤ next
    below :
        (k : ℕ) (s : TimerSlot T)
        → k < rounds
        → get_elem? w.slots (slot_of w (i + k)) ≡ some s
        → s.timers ≢ []
        → wait ≤ s.expiration - now
    reached :
        (wait ≡ next)
        ⊎ ((j : ℕ) × (s : TimerSlot T) × (get_elem? w.slots j ≡ some s) × Asks now s wait)

  -- One slot more in front of those that the loop has still to see.
  below-cons :
      (w : TimeWheel T) {slot : TimerSlot T} (rounds i now wait : ℕ)
      → get_elem? w.slots (slot_of w i) ≡ some slot
      → (slot.timers ≢ [] → wait ≤ slot.expiration - now)
      → ((k : ℕ) (s : TimerSlot T)
          → k < rounds
          → get_elem? w.slots (slot_of w (suc i + k)) ≡ some s
          → s.timers ≢ []
          → wait ≤ s.expiration - now)
      → (k : ℕ) (s : TimerSlot T) → k < suc rounds
      → get_elem? w.slots (slot_of w (i + k)) ≡ some s
      → s.timers ≢ []
      → wait ≤ s.expiration - now
  below-cons w {slot} rounds i now wait found first others zero s hi at busy =
      let place : i + 0 ≡ i = omega arith in
      let same : slot ≡ s =
        some-injective
          (sym found ∙ ap (λ (q : ℕ). get_elem? w.slots (slot_of w q)) (sym place) ∙ at) in
      subst (λ (t : TimerSlot T). t.timers ≢ [] → wait ≤ t.expiration - now) same first busy
  below-cons w {slot} rounds i now wait found first others (suc k) s hi at busy =
      let place : suc i + k ≡ i + suc k = omega arith in
      others k s (omega arith) (ap (λ (q : ℕ). get_elem? w.slots (slot_of w q)) place ∙ at) busy

  next_loop_lem :
      (rounds i now next : ℕ) (w : TimeWheel T)
      → IsValid w
      → (wait : ℕ) × (next_loop rounds i now next w ≡ some wait) × Waits w rounds i now next wait
  unfolding next_loop
  next_loop_lem zero i now next w v = (
    next,
    refl,
    record {
      below_start = omega arith;
      below = λ k s hi at busy. absurd (omega arith);
      reached = inl refl;
    },
  )
  next_loop_lem (suc rounds) i now next w v =
      let (slot, found) = some_elem w.slots (slot_of w i) (slot_of-lt w i v) in
      elim (List-cases slot.timers) [
        | inl idle ↦
            let (wait, returns, r) = next_loop_lem rounds (suc i) now next w v in
            (
              wait,
              rw (next_loop, found, idle) returns,
              record {
                below_start = r.below_start;
                below = below-cons w rounds i now wait found (λ busy. absurd (busy idle)) r.below;
                reached = r.reached;
              },
            )
        | inr (t, ts, busy) ↦
            let some_timers : slot.timers ≢ [] = λ none_left. cc in
            elim (Bool-cases (leb slot.expiration now)) [
              | inl due ↦ (
                0,
                rw (next_loop, found, busy, due),
                record {
                  below_start = omega arith;
                  below = λ k s hi at b. omega arith;
                  reached =
                      inr (slot_of w i, slot, found, (some_timers, omega (arith, leb→le _ _ due)));
                },
              )
              | inr later ↦
                  let own = slot.expiration - now in
                  let (wait, returns, r) = next_loop_lem rounds (suc i) now (min next own) w v in
                  (
                    wait,
                    rw (next_loop, found, busy, later) returns,
                    record {
                      below_start = omega (arith, r.below_start);
                      below =
                          below-cons w rounds i now wait found (λ _. omega (arith, r.below_start))
                            r.below;
                      reached = elim r.reached [
                        | inr slot_asks ↦ inr slot_asks
                        | inl e ↦ elim (Bool-cases (leb next own)) [
                          | inl sooner ↦ inl (omega (arith, leb→le _ _ sooner))
                          | inr sooner ↦ inr (slot_of w i, slot, found, (some_timers, ground arith))
                        ]
                      ];
                    },
                  )
            ]
      ]

  -- `getNextTimer` of a valid wheel of at most 2^63 slots returns. What it returns is at most the time
  -- until any slot that holds timers is due, 0 for one that is due; and it is that time of some slot that
  -- holds timers, or ~0.
  pub get_next_timer_lem :
      (now : ℕ) (w : TimeWheel T)
      → IsValid w
      → w.slot_size ≤ 2 ^ 63
      → (wait : ℕ) × (get_next_timer now w ≡ some wait)
        × ((j : ℕ) (s : TimerSlot T)
            → get_elem? w.slots j ≡ some s
            → s.timers ≢ []
            → wait ≤ s.expiration - now)
        × ((wait ≡ never)
            ⊎ ((j : ℕ) × (s : TimerSlot T) × (get_elem? w.slots j ≡ some s) × Asks now s wait))
  unfolding get_next_timer
  get_next_timer_lem now w v small =
      let (wait, returns, r) = next_loop_lem w.slot_size 0 now never w v in
      (
        wait,
        returns,
        λ j s at busy.
            let inside : j < w.slot_size = omega (arith, elem-lt w.slots j s at, v.filled) in
            let (k, less, e) = turn w.slot_size w.current_slot j v.inside inside in
            let whole : (w.current_slot + (0 + k)) % 2 ^ 64 ≡ w.current_slot + k =
              omega (arith, v.inside) in
            let place : slot_of w (0 + k) ≡ j = ap (λ (t : ℕ). t % w.slot_size) whole ∙ e in
            r.below k s less (ap (get_elem? w.slots) place ∙ at) busy,
        r.reached,
      )

  -- A timer that is not overdue goes to the back of the slot which lies its ticks ahead; that slot's
  -- expiration becomes the timer's, whatever it was, and the wheel stays valid.
  pub add_timer_lem :
      (now next : ℕ) (timer : T) (w : TimeWheel T)
      → IsValid w
      → now ≤ next
      → (w' : TimeWheel T) × (old : TimerSlot T) × (get_elem? w.slots
            (slot_of w ((next - now) / w.tick_ms))
          ≡ some old)
        × (add_timer now timer next w ≡ some (w', true))
        × (get_elem? w'.slots (slot_of w ((next - now) / w.tick_ms))
            ≡ some (record { timers = old.timers ++ timer ∷ []; expiration = next }))
        × IsValid w'
  unfolding add_timer
  add_timer_lem now next timer w v later =
      let slot = slot_of w ((next - now) / w.tick_ms) in
      let (old, found) = some_elem w.slots slot (slot_of-lt w _ v) in
      let new : TimerSlot T = record { timers = old.timers ++ timer ∷ []; expiration = next } in
      (
        record w { slots = set w.slots slot new },
        old,
        found,
        rw (le→ltb next now later, found),
        get_elem?-set_self w.slots slot new (slot_of-lt w _ v),
        record {
          filled = length-set w.slots slot new ∙ v.filled;
          inside = v.inside;
          ticking = v.ticking;
        },
      )
