-- ===== src/TimerManager/Refreshed.antt =====
-- What Timer::refresh (Sylar/timer.cc) does to the wheel: the entry that the timer has stays where it
-- is, and there is one more.
use my_sylar_server.Base.{
  ℕ, zero, suc, ◌+◌, ◌-◌, ◌/◌, ◌≤◌, ◌≡◌, true, false, not, some, List, [], ◌∷◌, ◌++◌, get_elem?,
  set, ◌==◌, if◌then◌else◌, arith, le→ltb, ==_refl,
}
use my_sylar_server.TimeWheel
use my_sylar_server.TimeWheel.{TimerSlot, slot_of}
use my_sylar_server.TimeWheel.Laws.{IsValid, add_timer_lem}
use my_sylar_server.TimerManager.{Timer, TimerManager, plus, is_set, with_timer, wheel_add, refresh}

-- How often a timer stands in a slot, and in the wheel.
abbrev pub times : ℕ → List ℕ → ℕ
times id [] = 0
times id (x ∷ xs) = (if x == id then 1 else 0) + times id xs

abbrev pub entries : ℕ → List (TimerSlot ℕ) → ℕ
entries id [] = 0
entries id (s ∷ ss) = times id s.timers + entries id ss

times-append : (id : ℕ) (xs ys : List ℕ) → times id (xs ++ ys) ≡ times id xs + times id ys
times-append id [] ys = omega arith
times-append id (x ∷ xs) ys = omega (arith, times-append id xs ys)

entries-set :
    (id : ℕ) (ss : List (TimerSlot ℕ)) (i : ℕ) (old new : TimerSlot ℕ)
    → get_elem? ss i ≡ some old
    → entries id (set ss i new) + times id old.timers ≡ entries id ss + times id new.timers
entries-set id [] i old new h = cc
entries-set id (s ∷ ss) zero old new h = let same : s ≡ old = cc in rw same (omega arith)
entries-set id (s ∷ ss) (suc i) old new h = omega (arith, entries-set id ss i old new h)

times_one : (id : ℕ) → times id (id ∷ []) ≡ 1
times_one id = rw (==_refl id)

-- A timer that is entered stands in the wheel once more than before.
wheel_add-entries :
    (now id next : ℕ) (m : TimerManager)
    → IsValid m.wheel
    → now ≤ next
    → (m' : TimerManager) × (wheel_add now id next m ≡ some (true, m'))
      × (entries id m'.wheel.slots ≡ entries id m.wheel.slots + 1)
unfolding wheel_add TimeWheel.add_timer
wheel_add-entries now id next m v later =
    let slot = slot_of m.wheel ((next - now) / m.wheel.tick_ms) in
    let (w', old, found, added, newer, valid) = add_timer_lem now next id m.wheel v later in
    let new : TimerSlot ℕ = record { timers = old.timers ++ id ∷ []; expiration = next } in
    (
      record m { wheel = record m.wheel { slots = set m.wheel.slots slot new } },
      rw (le→ltb next now later, found),
      omega (
        arith,
        entries-set id m.wheel.slots slot old new found,
        times-append id old.timers (id ∷ []),
        times_one id,
      ),
    )

-- A timer that is refreshed stands in the wheel once more than before: it is not taken out first.
pub refresh_lem :
    (now wheel_now id c : ℕ) (t : Timer) (m : TimerManager)
    → get_elem? m.timers id ≡ some t
    → t.cb ≡ some c
    → IsValid m.wheel
    → wheel_now ≤ plus now t.ms
    → (m' : TimerManager) × (refresh now wheel_now id m ≡ some (true, m'))
      × (entries id m'.wheel.slots ≡ entries id m.wheel.slots + 1)
unfolding refresh
refresh_lem now wheel_now id c t m found live v later =
    let (m', e, f) =
      wheel_add-entries wheel_now id (plus now t.ms)
        (with_timer id (record t { next = plus now t.ms }) m) v later in
    let held : not (is_set t.cb) ≡ false = rw live in (m', rw (found, held) e, f)
