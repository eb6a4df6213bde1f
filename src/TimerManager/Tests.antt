-- ===== src/TimerManager/Tests.antt =====
-- TimerManager (Sylar/timer.cc) at concrete calls.
use my_sylar_server.Base.{
  ℕ, ◌+◌, ◌≡◌, refl, true, false, some, none, [], ◌∷◌, get_elem?, zero, suc, arith,
}
use my_sylar_server.TimeWheel.{get_expired_timers}
use my_sylar_server.TimeWheel.Laws.{IsValid}
use my_sylar_server.TimerManager.{
  Timer, TimerManager, cancel, refresh, list_expired_cb, detect_time_anomaly,
}
use my_sylar_server.TimerManager.Runs.{lists, run, cancel_lem}
use my_sylar_server.TimerManager.Cancelled.{Spares}
use my_sylar_server.TimerManager.Refreshed.{entries, refresh_lem}

-- Two slots of 1000 ms; timer 0 waits in the current one with callback 5 and is due at 100.
abbrev timer : Timer
timer = record { recurring = false; ms = 100; next = 100; cb = some 5 }

abbrev manager : TimerManager
manager = record {
  wheel = record {
    slot_size = 2;
    tick_ms = 1000;
    current_slot = 0;
    slots =
        record { timers = 0 ∷ []; expiration = 100 }
        ∷ record { timers = []; expiration = 900 }
        ∷ [];
  };
  timers = timer ∷ [];
  tickled = false;
  last_monotonic_time = 0;
  last_system_time = 0;
}

-- It is listed at 200, and is then without its callback.
fires :
    run (lists 9 200 200 (λ n. 200) ∷ []) manager
    ≡ some (
      some 5 ∷ [],
      record manager {
        wheel = record {
          slot_size = 2;
          tick_ms = 1000;
          current_slot = 1;
          slots =
              record { timers = []; expiration = 0 }
              ∷ record { timers = []; expiration = 900 }
              ∷ [];
        };
        timers = record timer { cb = none } ∷ [];
      },
    )
unfolding run list_expired_cb get_expired_timers
fires = refl

abbrev after_cancel : TimerManager
after_cancel = record manager { timers = record timer { cb = none } ∷ [] }

cancels_it : cancel 0 manager ≡ some (true, after_cancel)
unfolding cancel
cancels_it = refl

jump : (detect_time_anomaly 1000 9000 manager).0 ≡ true
unfolding detect_time_anomaly
jump = refl

only_timer : (i : ℕ) (t : Timer) → get_elem? manager.timers i ≡ some t → t.cb ≡ some 5 → i ≡ 0
only_timer zero t e f = refl
only_timer (suc i) t e f = cc

lists_nothing :
    run (lists 9 200 200 (λ n. 200) ∷ []) after_cancel
    ≡ some (
      none ∷ [],
      record after_cancel {
        wheel = record {
          slot_size = 2;
          tick_ms = 1000;
          current_slot = 1;
          slots =
              record { timers = []; expiration = 0 }
              ∷ record { timers = []; expiration = 900 }
              ∷ [];
        };
      },
    )
unfolding run list_expired_cb get_expired_timers
lists_nothing = refl

cancel_lem_example : Spares 5 (none ∷ [])
cancel_lem_example =
    cancel_lem 5 0 manager (lists 9 200 200 (λ n. 200) ∷ []) only_timer cancels_it (tt, tt)
      lists_nothing

manager-IsValid : IsValid manager.wheel
manager-IsValid = record { filled = refl; inside = omega arith; ticking = omega arith }

refresh_lem_example :
    (m' : TimerManager) × (refresh 50 50 0 manager ≡ some (true, m'))
    × (entries 0 m'.wheel.slots ≡ entries 0 manager.wheel.slots + 1)
refresh_lem_example = refresh_lem 50 50 0 5 timer manager refl refl manager-IsValid (omega arith)
