-- ===== src/FiberSemaphore.antt =====
-- FiberSemaphore (Sylar/mutex.cc, mutex.h): permits, and the fibers that wait for one. A waiter is
-- the scheduler and the fiber of the caller; `scheduled` lists the waiters that `notify` has handed
-- to their scheduler, the oldest first. The spinlock makes each method one step. SYLAR_ASSERT of a
-- caller with a scheduler holds for every caller here.
pub mod Runs
mod Tests
use my_sylar_server.Base.{
  ℕ, ◌+◌, ◌-◌, ◌%◌, ◌^◌, Bool, true, false, List, [], ◌∷◌, ◌++◌, if◌then◌else◌, ltb,
}

abbrev pub Waiter : Type 0
Waiter = ℕ × ℕ

pub record FiberSemaphore : Type 0 where
  pub concurrency : ℕ
  pub waiters : List Waiter
  pub scheduled : List Waiter

abbrev pub fiber_semaphore : ℕ → FiberSemaphore
fiber_semaphore initial = record { concurrency = initial; waiters = []; scheduled = [] }

pub try_wait : FiberSemaphore → Bool × FiberSemaphore
try_wait s =
    if ltb 0 s.concurrency then (true, record s { concurrency = s.concurrency - 1 }) else (false, s)

-- True if the caller goes on, and false if it yields.
pub wait : Waiter → FiberSemaphore → Bool × FiberSemaphore
wait w s =
    if ltb 0 s.concurrency
    then (true, record s { concurrency = s.concurrency - 1 })
    else (false, record s { waiters = s.waiters ++ w ∷ [] })

-- What `notify` does by its waiters.
abbrev pub notified : List Waiter → FiberSemaphore → FiberSemaphore
notified [] s = record s { concurrency = (s.concurrency + 1) % 2 ^ 64 }
notified (next ∷ rest) s = record s { waiters = rest; scheduled = s.scheduled ++ next ∷ [] }

pub notify : FiberSemaphore → FiberSemaphore
notify s = notified s.waiters s

pub reset : FiberSemaphore → FiberSemaphore
reset s = record s { concurrency = 0 }
