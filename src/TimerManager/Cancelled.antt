-- ===== src/TimerManager/Cancelled.antt =====
-- TimerManager (Sylar/timer.cc) under any sequence of calls: what becomes of a callback that no timer
-- holds any more.
use my_sylar_server.Base.{
  ℕ, zero, suc, ◌≡◌, ◌≢◌, sym, subst, ap, Option, none, some, List, [], ◌∷◌, ◌++◌, Bool, true,
  false, not, get_elem?, set, length, All, inl, inr, Bool-cases, ◌==◌, ◌&&◌, ◌||◌, if◌then◌else◌,
}
use my_sylar_server.Base.Chained.{through}
use my_sylar_server.TimeWheel
use my_sylar_server.TimeWheel.{TimeWheel, Run, ended, still_running, no_slot, get_expired_timers}
use my_sylar_server.TimerManager.{
  Timer, TimerManager, plus, minus, is_set, with_timer, wheel_add, add_timer, cancel, refresh,
  reset, get_next_timer, expire, list_loop,
}

-- No timer holds the callback.
abbrev pub Lacks : ℕ → List Timer → Type 0
Lacks c = All (λ t. t.cb ≢ some c)

pub get-Lacks :
    {c : ℕ} (ts : List Timer) (i : ℕ) {t : Timer}
    → Lacks c ts
    → get_elem? ts i ≡ some t
    → t.cb ≢ some c
get-Lacks [] i h e = cc
get-Lacks {c} (u ∷ ts) zero {t} h e = let same : u ≡ t = cc in subst (λ x. x.cb ≢ some c) same h.0
get-Lacks (t ∷ ts) (suc i) h e = get-Lacks ts i h.1 e

pub set-Lacks :
    {c : ℕ} (ts : List Timer) (i : ℕ) (t : Timer)
    → Lacks c ts
    → t.cb ≢ some c
    → Lacks c (set ts i t)
set-Lacks [] i t h n = tt
set-Lacks (u ∷ ts) zero t h n = (n, h.1)
set-Lacks (u ∷ ts) (suc i) t h n = (h.0, set-Lacks ts i t h.1 n)

append-Lacks :
    {c : ℕ} (ts : List Timer) (t : Timer) → Lacks c ts → t.cb ≢ some c → Lacks c (ts ++ t ∷ [])
append-Lacks [] t h n = (n, tt)
append-Lacks (u ∷ ts) t h n = (h.0, append-Lacks ts t h.1 n)

-- The wheel is all that an entry changes.
timers-wheel_add :
    (now id next : ℕ) (m : TimerManager) {r : Bool × TimerManager}
    → wheel_add now id next m ≡ some r
    → r.1.timers ≡ m.timers
unfolding wheel_add
timers-wheel_add now id next m {r} h =
    let (x, e, f) = through (TimeWheel.add_timer now id next m.wheel) _ h in
    let same : (x.1, record m { wheel = x.0 }) ≡ r = cc in ap (λ p. p.1.timers) (sym same)

module _ (c : ℕ) where
  wheel_add-Lacks :
      (now id next : ℕ) (m : TimerManager) {r : Bool × TimerManager}
      → wheel_add now id next m ≡ some r
      → Lacks c m.timers
      → Lacks c r.1.timers
  wheel_add-Lacks now id next m h l = subst (Lacks c) (sym (timers-wheel_add now id next m h)) l

  pub add_timer-Lacks :
      (now wheel_now ms cb : ℕ) (recurring : Bool) (m : TimerManager) {r : ℕ × Bool × TimerManager}
      → add_timer now wheel_now ms cb recurring m ≡ some r
      → cb ≢ c
      → Lacks c m.timers
      → Lacks c r.2.timers
  unfolding add_timer
  add_timer-Lacks now wheel_now ms cb recurring m {r} h other l =
      let t : Timer = record { recurring = recurring; ms = ms; next = plus now ms; cb = some cb } in
      let (x, e, f) =
        through
          (wheel_add wheel_now (length m.timers) (plus now ms)
            (record m { timers = m.timers ++ t ∷ [] }))
          _ h in
      let same : (length m.timers, x.0, record x.1 { tickled = x.1.tickled || x.0 }) ≡ r = cc in
      subst (λ q. Lacks c q.2.timers) same
        (wheel_add-Lacks wheel_now (length m.timers) (plus now ms) _ e
          (append-Lacks m.timers t l (λ q. other cc)))

  pub cancel-Lacks :
      (id : ℕ) (m : TimerManager) {r : Bool × TimerManager}
      → cancel id m ≡ some r
      → Lacks c m.timers
      → Lacks c r.1.timers
  unfolding cancel
  cancel-Lacks id m {r} h l =
      let (t, e, f) = through (get_elem? m.timers id) _ h in
      let same : (is_set t.cb, with_timer id (record t { cb = none }) m) ≡ r = cc in
      subst (λ q. Lacks c q.1.timers) same (set-Lacks m.timers id _ l (λ q. cc))

  pub refresh-Lacks :
      (now wheel_now id : ℕ) (m : TimerManager) {r : Bool × TimerManager}
      → refresh now wheel_now id m ≡ some r
      → Lacks c m.timers
      → Lacks c r.1.timers
  unfolding refresh
  refresh-Lacks now wheel_now id m {r} h l =
      let (t, e, f) = through (get_elem? m.timers id) _ h in
      elim (Bool-cases (not (is_set t.cb))) [
        | inl dead ↦
            let same : (false, m) ≡ r = cc (rw dead at f) in subst (λ q. Lacks c q.1.timers) same l
        | inr live ↦
            wheel_add-Lacks wheel_now id (plus now t.ms) _ (rw live at f)
              (set-Lacks m.timers id _ l (get-Lacks m.timers id l e))
      ]

  pub reset-Lacks :
      (now wheel_now id ms : ℕ) (from_now : Bool) (m : TimerManager) {r : Bool × TimerManager}
      → reset now wheel_now id ms from_now m ≡ some r
      → Lacks c m.timers
      → Lacks c r.1.timers
  unfolding reset
  reset-Lacks now wheel_now id ms from_now m {r} h l =
      let (t, e, f) = through (get_elem? m.timers id) _ h in
      elim (Bool-cases (ms == t.ms && not from_now)) [
        | inl same_ms ↦
            let same : (true, m) ≡ r = cc (rw same_ms at f) in
            subst (λ q. Lacks c q.1.timers) same l
        | inr other ↦ elim (Bool-cases (not (is_set t.cb))) [
          | inl dead ↦
              let same : (false, m) ≡ r = cc (rw (other, dead) at f) in
              subst (λ q. Lacks c q.1.timers) same l
          | inr live ↦
              wheel_add-Lacks wheel_now id (plus (if from_now then now else minus t.next t.ms) ms) _
                (rw (other, live) at f) (set-Lacks m.timers id _ l (get-Lacks m.timers id l e))
        ]
      ]

  pub get_next_timer-Lacks :
      (now : ℕ) (m : TimerManager) {r : ℕ × TimerManager}
      → get_next_timer now m ≡ some r
      → Lacks c m.timers
      → Lacks c r.1.timers
  unfolding get_next_timer
  get_next_timer-Lacks now m {r} h l =
      let (next, e, f) = through (TimeWheel.get_next_timer now m.wheel) _ h in
      let same : (next, record m { tickled = false }) ≡ r = cc in
      subst (λ q. Lacks c q.1.timers) same l

  expire-Lacks :
      (now_ms wheel_now id : ℕ) (t : Timer) (m : TimerManager) {m' : TimerManager}
      → expire now_ms wheel_now id t m ≡ some m'
      → t.cb ≢ some c
      → Lacks c m.timers
      → Lacks c m'.timers
  unfolding expire
  expire-Lacks now_ms wheel_now id t m {m'} h n l = elim (Bool-cases (not t.recurring)) [
    | inl once ↦
        let same : with_timer id (record t { cb = none }) m ≡ m' = cc (rw once at h) in
        subst (λ q. Lacks c q.timers) same (set-Lacks m.timers id _ l (λ q. cc))
    | inr again ↦
        let (x, e, f) =
          through
            (wheel_add wheel_now id (plus now_ms t.ms)
              (with_timer id (record t { next = plus now_ms t.ms }) m))
            _ (rw again at h) in
        let same : x.1 ≡ m' = cc in
        subst (λ q. Lacks c q.timers) same
          (wheel_add-Lacks wheel_now id (plus now_ms t.ms) _ e (set-Lacks m.timers id _ l n))
  ]

  -- The callbacks that are handed out.
  abbrev pub Spares : List (Option ℕ) → Type 0
  Spares = All (λ cb. cb ≢ some c)

  append-Spares :
      (xs : List (Option ℕ)) (x : Option ℕ) → Spares xs → x ≢ some c → Spares (xs ++ x ∷ [])
  append-Spares [] x h n = (n, tt)
  append-Spares (y ∷ xs) x h n = (h.0, append-Spares xs x h.1 n)

  pub list_loop-Lacks :
      (now_ms : ℕ) (later : ℕ → ℕ) (expired : List ℕ) (cbs : List (Option ℕ)) (m : TimerManager)
      {r : List (Option ℕ) × TimerManager}
      → list_loop now_ms later expired cbs m ≡ some r
      → Spares cbs
      → Lacks c m.timers
      → Spares r.0 × Lacks c r.1.timers
  unfolding list_loop
  list_loop-Lacks now_ms later [] cbs m {r} h s l =
      let same : (cbs, m) ≡ r = cc in subst (λ q. Spares q.0 × Lacks c q.1.timers) same (s, l)
  list_loop-Lacks now_ms later (id ∷ expired) cbs m h s l =
      let (t, e, f) = through (get_elem? m.timers id) _ h in
      let (m', e', f') = through (expire now_ms (later (length expired)) id t m) _ f in
      let n = get-Lacks m.timers id l e in
      list_loop-Lacks now_ms later expired (cbs ++ t.cb ∷ []) m' f' (append-Spares cbs t.cb s n)
        (expire-Lacks now_ms (later (length expired)) id t m e' n l)
