-- ===== src/FiberSemaphore/Tests.antt =====
-- FiberSemaphore (Sylar/mutex.cc) at concrete calls.
use my_sylar_server.Base.{◌≡◌, refl, List, [], ◌∷◌, arith}
use my_sylar_server.FiberSemaphore.Runs.{
  Call, tries, waits, notifies, run, start, IsFair, run-IsFair,
}

-- One permit, three waiting fibers and two notices.
abbrev calls : List Call
calls = waits (1, 5) ∷ waits (1, 6) ∷ waits (2, 7) ∷ tries ∷ notifies ∷ notifies ∷ notifies ∷ []

woken : (run calls (start 1)).semaphore.scheduled ≡ (1, 6) ∷ (2, 7) ∷ []
unfolding run
woken = refl

left_over : (run calls (start 1)).semaphore.concurrency ≡ 1
unfolding run
left_over = refl

run-IsFair_example : IsFair 1 (run calls (start 1))
run-IsFair_example = run-IsFair 1 calls (omega arith)
