-- ===== src/TimeWheel/Tests.antt =====
-- The theorems about TimeWheel (Sylar/timer.cc) at concrete inputs.
use my_sylar_server.Base.{ℕ, ◌≤◌, ◌≡◌, ◌≢◌, refl, ◌⊎◌, ◌-◌, get_elem?, some, [], ◌∷◌, arith}
use my_sylar_server.TimeWheel.{
  TimeWheel, TimerSlot, never, get_next_timer, get_expired_timers, still_running,
}
use my_sylar_server.TimeWheel.Laws.{IsValid, Asks, get_expired_timers_endless, get_next_timer_lem}

-- Four slots of 1000 ms, the second one current; timer 7 is due at 2500 in the slot behind it.
abbrev four : TimeWheel ℕ
four = record {
  slot_size = 4;
  tick_ms = 1000;
  current_slot = 1;
  slots =
      record { timers = []; expiration = 0 }
      ∷ record { timers = []; expiration = 0 }
      ∷ record { timers = 7 ∷ []; expiration = 2500 }
      ∷ record { timers = []; expiration = 0 }
      ∷ [];
}

four-IsValid : IsValid four
four-IsValid = record { filled = refl; inside = omega arith; ticking = omega arith }

get_expired_timers_endless_example : get_expired_timers 100 5000 four ≡ still_running
get_expired_timers_endless_example =
    get_expired_timers_endless 100 5000 four four-IsValid
      (omega arith, (omega arith, (omega arith, (omega arith, tt))))

get_next_timer_lem_example :
    (wait : ℕ) × (get_next_timer 1000 four ≡ some wait)
    × ((j : ℕ) (s : TimerSlot ℕ)
        → get_elem? four.slots j ≡ some s
        → s.timers ≢ []
        → wait ≤ s.expiration - 1000)
    × ((wait ≡ never)
        ⊎ ((j : ℕ) × (s : TimerSlot ℕ) × (get_elem? four.slots j ≡ some s) × Asks 1000 s wait))
get_next_timer_lem_example = get_next_timer_lem 1000 four four-IsValid (omega arith)
