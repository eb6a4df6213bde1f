-- ===== src/IoManager.antt =====
-- IOManager (Sylar/iomanager.cc, iomanager.h): the events of descriptors, their registration with
-- epoll, the count of pending events and the tasks that a triggered event hands to its scheduler
-- (Scheduler::schedule of Sylar/scheduler.h). epoll is a parameter with the documented effect of
-- epoll_ctl on the interest list. A descriptor is not negative. Each method is one step, as the
-- mutex of the descriptor's context makes it; that another thread resizes the table between the two
-- locks of addEvent is left out. `none` is a failed SYLAR_ASSERT or a call through
-- a null pointer.
pub mod Methods
pub mod View
pub mod Refine
pub mod Laws
pub mod Fire
pub mod Registry
pub mod Reported
pub mod Refusals
pub mod Steps
mod Tests
use my_sylar_server.Base.{
  ℕ, zero, suc, ◌+◌, ◌-◌, ◌*◌, ◌/◌, ◌%◌, ◌^◌, ◌≡◌, Bool, true, false, ◌&&◌, not, Option, none, some,
  List, [], ◌∷◌, ◌++◌, if◌then◌else◌, ◌==◌, ltb, leb, length, get_elem?, set, take,
}
use my_sylar_server.Base.Chained.{◌>>=◌}
use Prim.Native.Nat.{bit_and, bit_or, bit_xor}

-- EPOLLIN and EPOLLOUT have the values of READ and WRITE.
abbrev pub read_event : ℕ
read_event = 0x1

abbrev pub write_event : ℕ
write_event = 0x4

abbrev pub epollerr : ℕ
epollerr = 0x8

abbrev pub epollhup : ℕ
epollhup = 0x10

abbrev pub epollet : ℕ
epollet = 0x80000000

pub data Op : Type 0 where
  ctl_add : Op
  ctl_mod : Op
  ctl_del : Op

-- What an entry of the interest list is after a successful epoll_ctl.
abbrev pub after : Op → ℕ → Option ℕ
after ctl_add events = some events
after ctl_mod events = some events
after ctl_del events = none

-- epoll_ctl is true where it returns 0.
pub record Epoll (K : Type 0) : Type 0 where
  pub ctl : Op → ℕ → ℕ → K → Bool × K
  pub interest : K → ℕ → Option ℕ
  pub ctl_done :
      (op : Op) (fd events : ℕ) (k : K)
      → (ctl op fd events k).0 ≡ true
      → (i : ℕ)
      → interest (ctl op fd events k).1 i ≡ (if i == fd then after op events else interest k i)
  pub ctl_failed :
      (op : Op) (fd events : ℕ) (k : K)
      → (ctl op fd events k).0 ≡ false
      → (i : ℕ) → interest (ctl op fd events k).1 i ≡ interest k i

-- A fiber or a callback, by its name.
pub data Task : Type 0 where
  resume : ℕ → Task
  callback : ℕ → Task

pub record EventContext : Type 0 where
  pub scheduler : Option ℕ
  pub fiber : Option ℕ
  pub cb : Option ℕ

pub record FdContext : Type 0 where
  pub read : EventContext
  pub write : EventContext
  pub fd : ℕ
  pub events : ℕ

-- `scheduled` lists what was handed to a scheduler, the oldest first.
pub record IoManager (K : Type 0) : Type 0 where
  pub kernel : K
  pub tickle_fd : ℕ
  pub contexts : List FdContext
  pub pending_event_count : ℕ
  pub scheduled : List (ℕ × Task)

-- Scheduler::GetThis(), Fiber::GetThis() and whether that fiber is in the state EXEC.
pub record Caller : Type 0 where
  pub scheduler : Option ℕ
  pub fiber : ℕ
  pub executing : Bool

abbrev pub empty_context : EventContext
empty_context = record { scheduler = none; fiber = none; cb = none }

abbrev pub fd_context : ℕ → FdContext
fd_context i = record { read = empty_context; write = empty_context; fd = i; events = 0 }

abbrev pub is_null : Option ℕ → Bool
is_null none = true
is_null (some x) = false

-- `events & event`, as a test.
unfoldable pub has : ℕ → ℕ → Bool
has events event = not (bit_and events event == 0)

-- `events & ~event`
unfoldable pub without : ℕ → ℕ → ℕ
without events event = bit_and events (bit_xor event 0xffffffff)

unfoldable pub get_context : ℕ → FdContext → Option EventContext
get_context event c =
    if event == read_event then some c.read else if event == write_event then some c.write else none

-- A write through the reference that getContext returns.
unfoldable pub set_context : ℕ → EventContext → FdContext → FdContext
set_context event x c =
    if event == read_event then record c { read = x } else record c { write = x }

-- The tasks that Scheduler::schedule appends for a pointer to a callback or to a fiber; an empty one
-- is dropped.
abbrev pub handed : ℕ → EventContext → List (ℕ × Task)
handed s x = elim x.cb [
  | some f ↦ (s, callback f) ∷ []
  | none ↦ elim x.fiber [ some f ↦ (s, resume f) ∷ [] | none ↦ [] ]
]

-- The pointer's target is swapped out.
abbrev pub taken : EventContext → EventContext
taken x = elim x.cb [
  | some f ↦ record x { cb = none; scheduler = none }
  | none ↦ record x { fiber = none; scheduler = none }
]

-- FdContext::triggerEvent: the context behind it, and what is scheduled.
unfoldable pub trigger_event : ℕ → FdContext → Option (FdContext × List (ℕ × Task))
unfolding has without get_context set_context
trigger_event event c = if not (has c.events event) then none else do
  x ← get_context event c
  s ← x.scheduler
  some (set_context event (taken x) (record c { events = without c.events event }), handed s x)

abbrev pub decremented : ℕ → ℕ
decremented n = (n + 2 ^ 64 - 1) % 2 ^ 64

unfoldable pub fresh_from : ℕ → ℕ → List FdContext
fresh_from i zero = []
fresh_from i (suc n) = fd_context i ∷ fresh_from (suc i) n

-- The assignment of addEvent to a context that has to be empty.
unfoldable pub fill : Caller → Option ℕ → EventContext → Option EventContext
fill caller cb x =
    if is_null x.scheduler && is_null x.fiber && is_null x.cb
    then elim cb [
      | some f ↦ some (record x { scheduler = caller.scheduler; cb = some f })
      | none ↦
          if caller.executing
          then some (record x { scheduler = caller.scheduler; fiber = some caller.fiber })
          else none
    ]
    else none

unfoldable pub context_resize : {K : Type 0} → ℕ → IoManager K → IoManager K
unfolding fresh_from
context_resize size m = record m {
  contexts = take size m.contexts ++ fresh_from (length m.contexts) (size - length m.contexts);
}

-- The context of the descriptor, which grows the table if it is not there.
unfoldable pub grow : {K : Type 0} → ℕ → IoManager K → IoManager K
unfolding context_resize
grow fd m = if ltb fd (length m.contexts) then m else context_resize (fd * 3 / 2) m

module _ {K : Type 0} (epoll : Epoll K) where
  open epoll use {ctl}

  -- The constructor: the descriptor that wakes the loop is registered, and there are 32 contexts.
  unfoldable pub io_manager : ℕ → K → Option (IoManager K)
  unfolding context_resize
  io_manager tickle_fd k =
      let r = ctl ctl_add tickle_fd (bit_or read_event epollet) k in
      if r.0
      then some (
          context_resize 32 (record {
            kernel = r.1;
            tickle_fd = tickle_fd;
            contexts = [];
            pending_event_count = 0;
            scheduled = [];
          }))
      else none

  -- Behind the lock of the context; true stands for 0, and false for -1.
  unfoldable pub add_to :
      Caller → ℕ → ℕ → Option ℕ → FdContext → IoManager K → Option (Bool × IoManager K)
  unfolding has get_context set_context fill
  add_to caller fd event cb c m =
      if has c.events event
      then none
      else let op = if c.events == 0 then ctl_add else ctl_mod in
        let r = ctl op fd (bit_or (bit_or epollet c.events) event) m.kernel in
        if not r.0 then some (false, record m { kernel = r.1 }) else do
          x ← get_context event c
          x' ← fill caller cb x
          let c' = set_context event x' (record c { events = bit_or c.events event })
          some (
            true,
            record m {
              kernel = r.1;
              pending_event_count = (m.pending_event_count + 1) % 2 ^ 64;
              contexts = set m.contexts fd c';
            },
          )

  unfoldable pub add_event : Caller → ℕ → ℕ → Option ℕ → IoManager K → Option (Bool × IoManager K)
  unfolding grow add_to
  add_event caller fd event cb m = do
    let m' = grow fd m
    c ← get_elem? m'.contexts fd
    add_to caller fd event cb c m'
