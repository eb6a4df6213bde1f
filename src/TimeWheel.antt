-- ===== src/TimeWheel.antt =====
-- Sylar/timer.h and Sylar/timer.cc: the class TimeWheel, a ring of slots of timers. Child module:
-- `Laws` (what the methods do).
--
-- `T` is the type of the pointers to timers. A method takes the time `now`, which the source reads
-- from the clock under its lock, and `add_timer` takes the field `m_next` of its timer. An access
-- to a slot that is not there gives `none`.
pub mod Laws
mod Tests
use Prim.Native.Nat.{min}
use my_sylar_server.Base.{
  ℕ, zero, suc, ◌+◌, ◌-◌, ◌*◌, ◌/◌, ◌%◌, ◌^◌, Option, none, some, List, [], ◌∷◌, ◌++◌, Bool, true,
  false, map, replicate, get_elem?, set, ltb, leb, if◌then◌else◌,
}

-- `TimerSlot`
pub record TimerSlot {ℓ} (T : Type ℓ) : Type ℓ where
  pub timers : List T
  pub expiration : ℕ

-- `TimeWheel`
pub record TimeWheel {ℓ} (T : Type ℓ) : Type ℓ where
  pub slot_size : ℕ
  pub tick_ms : ℕ
  pub current_slot : ℕ
  pub slots : List (TimerSlot T)

-- What a loop comes to: it ends, it is not at its end when the fuel is used up, or it leaves the slots.
pub data Run {ℓ} (A : Type ℓ) : Type ℓ where
  ended : A → Run A
  still_running no_slot : Run A

-- `~0ull`
abbrev pub never : ℕ
never = 18446744073709551615

module _ {ℓ} {T : Type ℓ} where
  abbrev pub empty_slot : TimerSlot T
  empty_slot = record { timers = []; expiration = 0 }

  -- The constructor.
  unfoldable pub time_wheel : ℕ → ℕ → TimeWheel T
  time_wheel slot_size tick_ms = record {
    slot_size = slot_size;
    tick_ms = tick_ms;
    current_slot = 0;
    slots = replicate slot_size empty_slot;
  }

  -- `(m_currentSlot + ticks) % m_slotSize`, where the sum is a `size_t`
  abbrev pub slot_of : TimeWheel T → ℕ → ℕ
  slot_of w ticks = (w.current_slot + ticks) % 2 ^ 64 % w.slot_size

  unfoldable pub add_timer : ℕ → T → ℕ → TimeWheel T → Option (TimeWheel T × Bool)
  add_timer now timer next w =
      if ltb next now
      then some (w, false)
      else let slot = slot_of w ((next - now) / w.tick_ms) in
        elim (get_elem? w.slots slot) [
          | none ↦ none
          | some s ↦
              let s' : TimerSlot T = record {
                timers = s.timers ++ timer ∷ [];
                expiration = next;
              } in
              some (record w { slots = set w.slots slot s' }, true)
        ]

  -- The loop of `get_next_timer`, with `rounds` slots to go.
  unfoldable pub next_loop : ℕ → ℕ → ℕ → ℕ → TimeWheel T → Option ℕ
  next_loop zero i now next w = some next
  next_loop (suc rounds) i now next w = elim (get_elem? w.slots (slot_of w i)) [
    | none ↦ none
    | some slot ↦ elim slot.timers [
      | [] ↦ next_loop rounds (suc i) now next w
      | timer ∷ timers ↦ elim (leb slot.expiration now) [
        | true ↦ some 0
        | false ↦ next_loop rounds (suc i) now (min next (slot.expiration - now)) w
      ]
    ]
  ]

  unfoldable pub get_next_timer : ℕ → TimeWheel T → Option ℕ
  unfolding next_loop
  get_next_timer now w = next_loop w.slot_size 0 now never w

  -- The loop of `getExpiredTimers`. The source bounds its rounds by nothing, so `fuel` does.
  unfoldable pub expired_loop : ℕ → ℕ → TimeWheel T → List T → Run (TimeWheel T × List T)
  expired_loop zero now w expired = still_running
  expired_loop (suc fuel) now w expired = elim (get_elem? w.slots w.current_slot) [
    | none ↦ no_slot
    | some slot ↦ elim (ltb now slot.expiration) [
      | true ↦ ended (w, expired)
      | false ↦
          expired_loop fuel now
            (record w { slots = set w.slots w.current_slot empty_slot; current_slot = slot_of w 1 })
            (expired ++ slot.timers)
    ]
  ]

  unfoldable pub get_expired_timers : ℕ → ℕ → TimeWheel T → Run (TimeWheel T × List T)
  unfolding expired_loop
  get_expired_timers fuel now w = expired_loop fuel now w []

  unfoldable pub clear : TimeWheel T → TimeWheel T
  clear w = record w { slots = map (λ _. empty_slot) w.slots; current_slot = 0 }
