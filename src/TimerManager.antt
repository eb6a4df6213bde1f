-- ===== src/TimerManager.antt =====
-- Timer and TimerManager (Sylar/timer.h, Sylar/timer.cc) over the wheel of TimeWheel.antt. The
-- timers are a list, and a pointer to a timer is its place there; a callback is its name. Each
-- reading of a clock is an argument: a method that reads it before the wheel does takes `now` for
-- its own reading and `wheel_now` for the wheel's. `none` is an access to a timer or a slot that is
-- not there. Each method is one step, though listExpiredCb takes the lock anew for each timer.
pub mod Cancelled
pub mod Runs
pub mod Refreshed
mod Tests
use my_sylar_server.Base.{
  ℕ, zero, suc, ◌+◌, ◌-◌, ◌%◌, ◌^◌, Option, none, some, List, [], ◌∷◌, ◌++◌, Bool, true, false,
  ◌&&◌, ◌||◌, not, get_elem?, set, length, ltb, ◌==◌, if◌then◌else◌,
}
use my_sylar_server.Base.Chained.{◌>>=◌}
use my_sylar_server.TimeWheel
use my_sylar_server.TimeWheel.{TimeWheel, Run, ended, still_running, no_slot, time_wheel, never}

pub record Timer : Type 0 where
  pub recurring : Bool
  pub ms : ℕ
  pub next : ℕ
  pub cb : Option ℕ

pub record TimerManager : Type 0 where
  pub wheel : TimeWheel ℕ
  pub timers : List Timer
  pub tickled : Bool
  pub last_monotonic_time : ℕ
  pub last_system_time : ℕ

-- A sum of uint64_t.
abbrev pub plus : ℕ → ℕ → ℕ
plus a b = (a + b) % 2 ^ 64

-- A difference of uint64_t.
abbrev pub minus : ℕ → ℕ → ℕ
minus a b = (a + 2 ^ 64 - b) % 2 ^ 64

pub timer_manager : ℕ → ℕ → TimerManager
timer_manager monotonic system = record {
  wheel = time_wheel 60 1000;
  timers = [];
  tickled = false;
  last_monotonic_time = monotonic;
  last_system_time = system;
}

abbrev pub with_timer : ℕ → Timer → TimerManager → TimerManager
with_timer id t m = record m { timers = set m.timers id t }

-- `m_timeWheel.addTimer` of a timer.
pub wheel_add : ℕ → ℕ → ℕ → TimerManager → Option (Bool × TimerManager)
wheel_add wheel_now id next m = do
  r ← TimeWheel.add_timer wheel_now id next m.wheel
  some (r.1, record m { wheel = r.0 })

-- The timer, whether onTimerInsertedAtFront is called, and the manager.
unfoldable pub add_timer : ℕ → ℕ → ℕ → ℕ → Bool → TimerManager → Option (ℕ × Bool × TimerManager)
unfolding wheel_add
add_timer now wheel_now ms cb recurring m =
    let id = length m.timers in
    let t : Timer = record { recurring = recurring; ms = ms; next = plus now ms; cb = some cb } in
    do
      r ← wheel_add wheel_now id (plus now ms) (record m { timers = m.timers ++ t ∷ [] })
      some (id, r.0, record r.1 { tickled = r.1.tickled || r.0 })

abbrev pub is_set : Option ℕ → Bool
is_set none = false
is_set (some c) = true

unfoldable pub cancel : ℕ → TimerManager → Option (Bool × TimerManager)
cancel id m = do
  t ← get_elem? m.timers id
  some (is_set t.cb, with_timer id (record t { cb = none }) m)

unfoldable pub refresh : ℕ → ℕ → ℕ → TimerManager → Option (Bool × TimerManager)
unfolding wheel_add
refresh now wheel_now id m = do
  t ← get_elem? m.timers id
  if not (is_set t.cb)
      then some (false, m)
      else wheel_add wheel_now id (plus now t.ms)
          (with_timer id (record t { next = plus now t.ms }) m)

unfoldable pub reset : ℕ → ℕ → ℕ → ℕ → Bool → TimerManager → Option (Bool × TimerManager)
unfolding wheel_add
reset now wheel_now id ms from_now m = do
  t ← get_elem? m.timers id
  if ms == t.ms && not from_now
      then some (true, m)
      else if not (is_set t.cb)
      then some (false, m)
      else let start = if from_now then now else minus t.next t.ms in
        wheel_add wheel_now id (plus start ms)
          (with_timer id (record t { ms = ms; next = plus start ms }) m)

unfoldable pub get_next_timer : ℕ → TimerManager → Option (ℕ × TimerManager)
get_next_timer now m = do
  next ← TimeWheel.get_next_timer now m.wheel
  some (next, record m { tickled = false })

unfoldable pub has_timer : ℕ → TimerManager → Option Bool
has_timer now m = do next ← TimeWheel.get_next_timer now m.wheel; some (not (next == never))

-- A timer whose callback was listed: a recurring one is entered again.
unfoldable pub expire : ℕ → ℕ → ℕ → Timer → TimerManager → Option TimerManager
unfolding wheel_add
expire now_ms wheel_now id t m =
    if not t.recurring then some (with_timer id (record t { cb = none }) m) else do
      r ←
          wheel_add wheel_now id (plus now_ms t.ms)
            (with_timer id (record t { next = plus now_ms t.ms }) m)
      some r.1

-- The loop of listExpiredCb over the expired timers; `later` gives the reading of the clock by how
-- many timers are still to come.
unfoldable pub list_loop :
    ℕ → (ℕ → ℕ) → List ℕ → List (Option ℕ) → TimerManager → Option (List (Option ℕ) × TimerManager)
unfolding expire
list_loop now_ms later [] cbs m = some (cbs, m)
list_loop now_ms later (id ∷ expired) cbs m = do
  t ← get_elem? m.timers id
  m' ← expire now_ms (later (length expired)) id t m
  list_loop now_ms later expired (cbs ++ t.cb ∷ []) m'

abbrev pub or_no_slot {ℓ} : {A : Type ℓ} → Option A → Run A
or_no_slot none = no_slot
or_no_slot (some a) = ended a

abbrev pub listed :
    ℕ → (ℕ → ℕ) → Run (TimeWheel ℕ × List ℕ) → TimerManager → Run (List (Option ℕ) × TimerManager)
listed now_ms later (ended (w, expired)) m =
    or_no_slot (list_loop now_ms later expired [] (record m { wheel = w }))
listed now_ms later still_running m = still_running
listed now_ms later no_slot m = no_slot

-- `fuel` bounds the loop of getExpiredTimers, as in TimeWheel.
unfoldable pub list_expired_cb :
    ℕ → ℕ → ℕ → (ℕ → ℕ) → TimerManager → Run (List (Option ℕ) × TimerManager)
unfolding list_loop
list_expired_cb fuel wheel_now now_ms later m =
    listed now_ms later (TimeWheel.get_expired_timers fuel wheel_now m.wheel) m

-- abs of a difference that is read as an int64_t.
abbrev pub distance : ℕ → ℕ
distance d = if ltb d (2 ^ 63) then d else 2 ^ 64 - d

unfoldable pub detect_time_anomaly : ℕ → ℕ → TimerManager → Bool × TimerManager
detect_time_anomaly monotonic system m = (
  ltb 1000
      (distance (minus (minus monotonic m.last_monotonic_time) (minus system m.last_system_time))),
  record m { last_monotonic_time = monotonic; last_system_time = system },
)
