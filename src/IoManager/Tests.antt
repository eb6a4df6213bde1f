-- ===== src/IoManager/Tests.antt =====
-- The theorems about IOManager (Sylar/iomanager.cc) at concrete inputs.
use my_sylar_server.Base.{
  ℕ, zero, suc, ◌≡◌, ◌≢◌, refl, Bool, true, false, ◌&&◌, ◌||◌, Option, none, some, List, [], ◌∷◌,
  if◌then◌else◌, ◌==◌, get_elem?, replicate, arith,
}
use my_sylar_server.IoManager.{
  after, has, Epoll, IoManager, FdContext, fd_context, Caller, callback, resume, io_manager,
  add_event,
}
use my_sylar_server.IoManager.Methods.{cancel_event, handle, ready, stopping}
use my_sylar_server.IoManager.View.{
  View, blank, concretes, total, wanted_at, wanted_at-blank, Event, Represents,
}
use my_sylar_server.IoManager.Refine.{grown, call}
use my_sylar_server.IoManager.Laws.{by_callback, by_fiber}
use my_sylar_server.IoManager.Registry.{at, Moves, add_event_lem, cancel_event_lem}
use my_sylar_server.IoManager.Reported.{Fires, fires_read, fires_write, handle_lem}
use my_sylar_server.IoManager.Fire.{left}
use my_sylar_server.IoManager.Steps.{Reach, Stands, Reach-Stands, stopping_lem, adds, here, next}

abbrev Kernel : Type 0
Kernel = ℕ → Option ℕ

-- An epoll that agrees to everything.
abbrev agreeing : Epoll Kernel
agreeing = record {
  ctl = λ op fd events k. (true, λ i. if i == fd then after op events else k i);
  interest = λ k i. k i;
  ctl_done = λ op fd events k done i. refl;
  ctl_failed = λ op fd events k failed i. cc;
}

abbrev nothing : Kernel
nothing i = none

abbrev caller : Caller
caller = record { scheduler = some 1; fiber = 7; executing = true }

abbrev started : IoManager Kernel
started = record {
  kernel = λ i. if i == 3 then some 0x80000001 else none;
  tickle_fd = 3;
  contexts = concretes 0 (replicate 32 blank);
  pending_event_count = 0;
  scheduled = [];
}

start : io_manager agreeing 3 nothing ≡ some started
unfolding io_manager concretes
start = refl

-- A callback waits to read descriptor 0.
abbrev waiting_views : List View
waiting_views = record { read = some (1, callback 9); write = none } ∷ replicate 31 blank

abbrev waiting_kernel : Kernel
waiting_kernel i = if i == 0 then some 0x80000001 else if i == 3 then some 0x80000001 else none

abbrev waiting : IoManager Kernel
waiting = record {
  kernel = waiting_kernel;
  tickle_fd = 3;
  contexts = concretes 0 waiting_views;
  pending_event_count = 1;
  scheduled = [];
}

asked : add_event agreeing caller 0 1 (some 9) started ≡ some (true, waiting)
unfolding add_event concretes
asked = refl

reached : Reach agreeing started waiting
reached = next here (
    adds caller (some 9) (1, callback 9) 0 Event.read true (by_callback 1 9 7 true) (omega arith)
      (λ e. omega arith) asked)

waiting_interest : (i : ℕ) → i ≢ 3 → waiting_kernel i ≡ wanted_at (get_elem? waiting_views i)
waiting_interest zero other = refl
waiting_interest (suc i) other = ground (arith, wanted_at-blank [] 31 i)

waiting-Represents : Represents agreeing waiting_views waiting
unfolding total
waiting-Represents = record {
  contexts_are = refl;
  registered = waiting_interest;
  counted = refl;
  enough = omega arith;
}

Reach-Stands_example : Stands agreeing waiting
Reach-Stands_example = Reach-Stands agreeing 3 nothing (λ i other. refl) start reached

at_rest : stopping true started ≡ true
unfolding stopping
at_rest = refl

reads : (has 1 1 ≡ true) × (has 1 4 ≡ false) × (has 5 1 ≡ true) × (has 5 4 ≡ true)
unfolding has
reads = (refl, refl, refl, refl)

stopping_lem_example :
    (agreeing.interest started.kernel 5 ≡ none)
    × ((c : FdContext) → get_elem? started.contexts 5 ≡ some c → c ≡ fd_context 5)
stopping_lem_example =
    stopping_lem agreeing 3 nothing true (λ i other. refl) start here at_rest 5 (λ e. omega arith)

add_event_lem_example :
    (b : Bool) × (m' : IoManager Kernel) × (add_event agreeing caller 40 4 none waiting
      ≡ some (b, m'))
    × Moves agreeing 40 blank
        (record { read = none; write = some (1, resume 7) })
        []
        (grown 40 waiting_views)
        waiting
        b
        m'
add_event_lem_example =
    add_event_lem agreeing waiting-Represents 40 Event.write (by_fiber 1 7) (λ e. omega arith) refl

cancel_event_lem_example :
    (b : Bool) × (m' : IoManager Kernel) × (cancel_event agreeing 0 1 waiting ≡ some (b, m'))
    × Moves agreeing 0 (at waiting_views 0) blank ((1, callback 9) ∷ []) waiting_views waiting b m'
cancel_event_lem_example =
    cancel_event_lem agreeing waiting-Represents 0 Event.read (omega arith) (λ e. omega arith) refl

handle_lem_example :
    let v = at waiting_views 0 in
    let r = fires_read 1 v in
    let w = fires_write 1 v in
    (m' : IoManager Kernel) × (handle agreeing (ready 0 1) waiting ≡ some m')
    × Fires agreeing 0 r w v waiting_views waiting
        ((r || w) && (call agreeing 0 v (left r w v) waiting).0)
        m'
handle_lem_example =
    handle_lem agreeing waiting-Represents 0 (omega arith) (λ e. omega arith) 1 (λ e. refl)
      (λ e. cc reads.1)
