-- ===== src/TimerManager/Runs.antt =====
-- TimerManager (Sylar/timer.cc) under any sequence of calls: a callback whose only timer was
-- cancelled is never handed out again.
use my_sylar_server.Base.{
  ℕ, zero, suc, ◌≡◌, ◌≢◌, refl, subst, Option, none, some, List, [], ◌∷◌, ◌++◌, Bool, get_elem?,
  set, All, arith,
}
use my_sylar_server.Base.Chained.{◌>>=◌, through}
use my_sylar_server.TimeWheel.{Run, ended, still_running, no_slot, get_expired_timers, TimeWheel}
use my_sylar_server.TimerManager.{
  Timer, TimerManager, with_timer, add_timer, cancel, refresh, reset, get_next_timer, list_loop,
  listed, or_no_slot, list_expired_cb,
}
use my_sylar_server.TimerManager.Cancelled.{
  Lacks, Spares, add_timer-Lacks, cancel-Lacks, refresh-Lacks, reset-Lacks, get_next_timer-Lacks,
  list_loop-Lacks,
}

-- A call, with its readings of the clocks.
pub data Call : Type 0 where
  adds : (now wheel_now ms cb : ℕ) → Bool → Call
  cancels : (id : ℕ) → Call
  refreshes : (now wheel_now id : ℕ) → Call
  resets : (now wheel_now id ms : ℕ) → Bool → Call
  asks : (now : ℕ) → Call
  lists : (fuel wheel_now now_ms : ℕ) → (ℕ → ℕ) → Call

abbrev pub returned {ℓ} : {A : Type ℓ} → Run A → Option A
returned (ended a) = some a
returned still_running = none
returned no_slot = none

-- What a call hands out, and the manager behind it; none if it does not return.
pub step : Call → TimerManager → Option (List (Option ℕ) × TimerManager)
step (adds now wheel_now ms cb recurring) m = do
  r ← add_timer now wheel_now ms cb recurring m
  some ([], r.2)
step (cancels id) m = do r ← cancel id m; some ([], r.1)
step (refreshes now wheel_now id) m = do r ← refresh now wheel_now id m; some ([], r.1)
step (resets now wheel_now id ms from_now) m = do
  r ← reset now wheel_now id ms from_now m
  some ([], r.1)
step (asks now) m = do r ← get_next_timer now m; some ([], r.1)
step (lists fuel wheel_now now_ms later) m =
    returned (list_expired_cb fuel wheel_now now_ms later m)

unfoldable pub run : List Call → TimerManager → Option (List (Option ℕ) × TimerManager)
unfolding step
run [] m = some ([], m)
run (call ∷ calls) m = do r ← step call m; rest ← run calls r.1; some (r.0 ++ rest.0, rest.1)

abbrev pub Other : ℕ → Call → Type 0
Other c (adds now wheel_now ms cb recurring) = cb ≢ c
Other c call = Unit {0}

-- Only the timer `id` may hold the callback.
abbrev pub OnlyAt : ℕ → ℕ → List Timer → Type 0
OnlyAt c id ts = (i : ℕ) (t : Timer) → get_elem? ts i ≡ some t → t.cb ≡ some c → i ≡ id

nowhere-Lacks :
    (c : ℕ) (ts : List Timer)
    → ((i : ℕ) (t : Timer) → get_elem? ts i ≡ some t → t.cb ≢ some c)
    → Lacks c ts
nowhere-Lacks c [] h = tt
nowhere-Lacks c (t ∷ ts) h = (h 0 t refl, nowhere-Lacks c ts (λ i. h (suc i)))

set-OnlyAt :
    (c id : ℕ) (ts : List Timer) (t : Timer)
    → OnlyAt c id ts
    → t.cb ≢ some c
    → Lacks c (set ts id t)
set-OnlyAt c id [] t only n = tt
set-OnlyAt c zero (u ∷ ts) t only n =
    (n, nowhere-Lacks c ts (λ i v e f. absurd (omega (arith, only (suc i) v e f))))
set-OnlyAt c (suc id) (u ∷ ts) t only n = (
  λ f. absurd (omega (arith, only 0 u refl f)),
  set-OnlyAt c id ts t (λ i v e f. omega (arith, only (suc i) v e f)) n,
)

from_slot {ℓ} : {A : Type ℓ} (o : Option A) {a : A} → returned (or_no_slot o) ≡ some a → o ≡ some a
from_slot none h = cc
from_slot (some b) h = h

module _ (c : ℕ) where
  Spares-append : (xs ys : List (Option ℕ)) → Spares c xs → Spares c ys → Spares c (xs ++ ys)
  Spares-append [] ys hx hy = hy
  Spares-append (x ∷ xs) ys hx hy = (hx.0, Spares-append xs ys hx.1 hy)

  -- A call that hands out nothing.
  quiet :
      (m : TimerManager) {r : List (Option ℕ) × TimerManager}
      → ◌≡◌ {A = Option (List (Option ℕ) × TimerManager)} (some ([], m)) (some r)
      → Lacks c m.timers
      → Spares c r.0 × Lacks c r.1.timers
  quiet m {r} h l =
      let same : ([], m) ≡ r = cc in subst (λ q. Spares c q.0 × Lacks c q.1.timers) same (tt, l)

  listed-Lacks :
      (now_ms : ℕ) (later : ℕ → ℕ) (wheel_run : Run (TimeWheel ℕ × List ℕ)) (m : TimerManager)
      {r : List (Option ℕ) × TimerManager}
      → returned (listed now_ms later wheel_run m) ≡ some r
      → Lacks c m.timers
      → Spares c r.0 × Lacks c r.1.timers
  listed-Lacks now_ms later still_running m h l = cc
  listed-Lacks now_ms later no_slot m h l = cc
  listed-Lacks now_ms later (ended (w, expired)) m {r} h l =
      list_loop-Lacks c now_ms later expired [] (record m { wheel = w })
        (from_slot (list_loop now_ms later expired [] (record m { wheel = w })) h) tt l

  list_expired_cb-Lacks :
      (fuel wheel_now now_ms : ℕ) (later : ℕ → ℕ) (m : TimerManager)
      {r : List (Option ℕ) × TimerManager}
      → returned (list_expired_cb fuel wheel_now now_ms later m) ≡ some r
      → Lacks c m.timers
      → Spares c r.0 × Lacks c r.1.timers
  unfolding list_expired_cb
  list_expired_cb-Lacks fuel wheel_now now_ms later m h l =
      listed-Lacks now_ms later (get_expired_timers fuel wheel_now m.wheel) m h l

  step-Lacks :
      (call : Call) (m : TimerManager) {r : List (Option ℕ) × TimerManager}
      → step call m ≡ some r
      → Other c call
      → Lacks c m.timers
      → Spares c r.0 × Lacks c r.1.timers
  unfolding step
  step-Lacks (adds now wheel_now ms cb recurring) m {r} h other l =
      let (x, e, f) = through (add_timer now wheel_now ms cb recurring m) _ h in
      quiet x.2 f (add_timer-Lacks c now wheel_now ms cb recurring m e other l)
  step-Lacks (cancels id) m h other l =
      let (x, e, f) = through (cancel id m) _ h in quiet x.1 f (cancel-Lacks c id m e l)
  step-Lacks (refreshes now wheel_now id) m h other l =
      let (x, e, f) = through (refresh now wheel_now id m) _ h in
      quiet x.1 f (refresh-Lacks c now wheel_now id m e l)
  step-Lacks (resets now wheel_now id ms from_now) m h other l =
      let (x, e, f) = through (reset now wheel_now id ms from_now m) _ h in
      quiet x.1 f (reset-Lacks c now wheel_now id ms from_now m e l)
  step-Lacks (asks now) m h other l =
      let (x, e, f) = through (get_next_timer now m) _ h in
      quiet x.1 f (get_next_timer-Lacks c now m e l)
  step-Lacks (lists fuel wheel_now now_ms later) m h other l =
      list_expired_cb-Lacks fuel wheel_now now_ms later m h l

  run-Lacks :
      (calls : List Call) (m : TimerManager) {r : List (Option ℕ) × TimerManager}
      → run calls m ≡ some r
      → All (Other c) calls
      → Lacks c m.timers
      → Spares c r.0
  unfolding run
  run-Lacks [] m {r} h others l = let same : ([], m) ≡ r = cc in subst (λ q. Spares c q.0) same tt
  run-Lacks (call ∷ calls) m {r} h others l =
      let (x, e, f) = through (step call m) _ h in
      let (y, e', f') = through (run calls x.1) _ f in
      let s = step-Lacks call m e others.0 l in
      let same : (x.0 ++ y.0, y.1) ≡ r = cc in
      subst (λ q. Spares c q.0) same
        (Spares-append x.0 y.0 s.0 (run-Lacks calls x.1 e' others.1 s.1))

  -- A callback whose only timer was cancelled is not handed out by any later call.
  pub cancel_lem :
      (id : ℕ) (m : TimerManager) (calls : List Call) {b : Bool} {m' : TimerManager}
      {r : List (Option ℕ) × TimerManager}
      → OnlyAt c id m.timers
      → cancel id m ≡ some (b, m')
      → All (Other c) calls
      → run calls m' ≡ some r
      → Spares c r.0
  unfolding cancel
  cancel_lem id m calls {b} {m'} only h others returns =
      let (t, e, f) = through (get_elem? m.timers id) _ h in
      let same : with_timer id (record t { cb = none }) m ≡ m' = cc in
      run-Lacks calls m' returns others
        (subst (λ q. Lacks c q.timers) same (set-OnlyAt c id m.timers _ only (λ q. cc)))
