-- ===== src/FiberSemaphore/Runs.antt =====
-- A FiberSemaphore (Sylar/mutex.cc) under any sequence of calls.
use my_sylar_server.Base.{
  ℕ, ◌+◌, ◌^◌, ◌≤◌, ◌<◌, ◌≡◌, refl, ap, ◌∙◌, sym, Bool, true, false, ◌⊎◌, inl, inr, List, [], ◌∷◌,
  ◌++◌, ltb, length, arith, append-nil, append_assoc, Bool-cases, length-append,
}
use my_sylar_server.FiberSemaphore.{
  Waiter, FiberSemaphore, fiber_semaphore, try_wait, wait, notify, notified,
}

pub data Call : Type 0 where
  tries : Call
  waits : Waiter → Call
  notifies : Call

-- What a run has come to: the semaphore, how many callers went on at once, and who had to wait.
pub record History : Type 0 where
  pub semaphore : FiberSemaphore
  pub granted : ℕ
  pub blocked : List Waiter
  pub notices : ℕ

abbrev pub one_if : Bool → ℕ
one_if true = 1
one_if false = 0

abbrev pub waiter_if : Bool → Waiter → List Waiter
waiter_if true w = []
waiter_if false w = w ∷ []

pub step : Call → History → History
unfolding try_wait wait notify
step tries h = record h {
  semaphore = (try_wait h.semaphore).1;
  granted = h.granted + one_if (try_wait h.semaphore).0;
}
step (waits w) h = record h {
  semaphore = (wait w h.semaphore).1;
  granted = h.granted + one_if (wait w h.semaphore).0;
  blocked = h.blocked ++ waiter_if (wait w h.semaphore).0 w;
}
step notifies h = record h { semaphore = notify h.semaphore; notices = h.notices + 1 }

unfoldable pub run : List Call → History → History
unfolding step
run [] h = h
run (c ∷ cs) h = run cs (step c h)

abbrev pub start : ℕ → History
start initial = record {
  semaphore = fiber_semaphore initial;
  granted = 0;
  blocked = [];
  notices = 0;
}

-- Permits are neither lost nor made; waiters are served in their order; nobody waits while there is
-- a permit.
pub record IsFair (initial : ℕ) (h : History) : Type 0 where
  pub conserved :
      h.granted + length h.semaphore.scheduled + h.semaphore.concurrency ≡ initial + h.notices
  pub in_order : h.blocked ≡ h.semaphore.scheduled ++ h.semaphore.waiters
  pub no_idle_permit : (h.semaphore.concurrency ≡ 0) ⊎ (h.semaphore.waiters ≡ [])

no_waiter :
    (h : History)
    → ltb 0 h.semaphore.concurrency ≡ true
    → (h.semaphore.concurrency ≡ 0) ⊎ (h.semaphore.waiters ≡ [])
    → h.semaphore.waiters ≡ []
no_waiter h free (inl exhausted) = absurd (ground arith)
no_waiter h free (inr empty) = empty

notified-IsFair :
    {initial : ℕ} (h : History) (ws : List Waiter)
    → h.semaphore.waiters ≡ ws
    → initial + h.notices + 1 < 2 ^ 64
    → IsFair initial h
    → IsFair initial (record h { semaphore = notified ws h.semaphore; notices = h.notices + 1 })
notified-IsFair h [] e few v = record {
  conserved = omega (arith, v.conserved);
  in_order = v.in_order;
  no_idle_permit = inr e;
}
notified-IsFair h (next ∷ rest) e few v = record {
  conserved = omega (arith, v.conserved, length-append h.semaphore.scheduled (next ∷ []));
  in_order =
      v.in_order
      ∙ ap (λ l. h.semaphore.scheduled ++ l) e
      ∙ sym (append_assoc h.semaphore.scheduled (next ∷ []) rest);
  no_idle_permit = elim v.no_idle_permit [ inl exhausted ↦ inl exhausted | inr empty ↦ cc ];
}

step-IsFair :
    {initial : ℕ} (c : Call) (h : History)
    → initial + h.notices + 1 < 2 ^ 64
    → IsFair initial h
    → IsFair initial (step c h)
unfolding step
step-IsFair tries h few v = elim (Bool-cases (ltb 0 h.semaphore.concurrency)) [
  | inl free ↦ rw free record {
    conserved = ground (arith, v.conserved);
    in_order = v.in_order;
    no_idle_permit = inr (no_waiter h free v.no_idle_permit);
  }
  | inr full ↦ rw full record {
    conserved = omega (arith, v.conserved);
    in_order = v.in_order;
    no_idle_permit = v.no_idle_permit;
  }
]
step-IsFair (waits w) h few v = elim (Bool-cases (ltb 0 h.semaphore.concurrency)) [
  | inl free ↦ rw free record {
    conserved = ground (arith, v.conserved);
    in_order = append-nil h.blocked ∙ v.in_order;
    no_idle_permit = inr (no_waiter h free v.no_idle_permit);
  }
  | inr full ↦ rw full record {
    conserved = omega (arith, v.conserved);
    in_order =
        ap (λ l. l ++ w ∷ []) v.in_order
        ∙ append_assoc h.semaphore.scheduled h.semaphore.waiters (w ∷ []);
    no_idle_permit = inl (ground arith);
  }
]
step-IsFair {initial} notifies h few v = notified-IsFair h h.semaphore.waiters refl few v

notices-step : (c : Call) (h : History) → (step c h).notices ≤ h.notices + 1
unfolding step
notices-step tries h = omega arith
notices-step (waits w) h = omega arith
notices-step notifies h = omega arith

run_from :
    {initial : ℕ} (cs : List Call) (h : History)
    → initial + h.notices + length cs < 2 ^ 64
    → IsFair initial h
    → IsFair initial (run cs h)
unfolding run
run_from [] h few v = v
run_from (c ∷ cs) h few v =
    run_from cs (step c h) (omega (arith, notices-step c h)) (step-IsFair c h (omega arith) v)

-- Every sequence of calls keeps the three laws.
pub run-IsFair :
    (initial : ℕ) (cs : List Call)
    → initial + length cs < 2 ^ 64
    → IsFair initial (run cs (start initial))
run-IsFair initial cs few =
    run_from cs (start initial) (omega arith)
      (record { conserved = omega arith; in_order = refl; no_idle_permit = inr refl })
