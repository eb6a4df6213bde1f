-- ===== src/IoManager/Methods.antt =====
-- The methods of IOManager that take an event away (Sylar/iomanager.cc): delEvent, cancelEvent,
-- cancelAll, and what idle does with the events that epoll_wait reports. A report carries a pointer
-- to the context that the descriptor had when its events were registered. As the table only grows,
-- that is the one in the table, and a report is modelled by the descriptor.
use my_sylar_server.Base.{
  ℕ, ◌%◌, ◌^◌, ltb, Bool, true, false, ◌&&◌, not, Option, some, List, [], ◌∷◌, ◌++◌, if◌then◌else◌,
  ◌==◌, leb, length, get_elem?, set,
}
use my_sylar_server.Base.Chained.{◌>>=◌}
use Prim.Native.Nat.{bit_and, bit_or}
use my_sylar_server.IoManager.{
  Epoll, IoManager, FdContext, Op, ctl_mod, ctl_del, read_event, write_event, epollerr, epollhup,
  epollet, empty_context, has, without, get_context, set_context, trigger_event, decremented,
}

-- What epoll_wait reports: the wake-up descriptor, or the context of a descriptor with its events.
pub data Ready : Type 0 where
  tickled : Ready
  ready : ℕ → ℕ → Ready

abbrev pub op_for : ℕ → Op
op_for events = if events == 0 then ctl_del else ctl_mod

-- triggerEvent and `--m_pendingEventCount` if the test holds.
unfoldable pub trigger_if :
    {K : Type 0} → Bool → ℕ → ℕ → FdContext × IoManager K → Option (FdContext × IoManager K)
unfolding trigger_event
trigger_if test fd event (c, m) = if not test then some (c, m) else do
  t ← trigger_event event c
  some (
    t.0,
    record m {
      pending_event_count = decremented m.pending_event_count;
      contexts = set m.contexts fd t.0;
      scheduled = m.scheduled ++ t.1;
    },
  )

-- An error or a hang-up counts as every event that is registered.
unfoldable pub widened : ℕ → ℕ → ℕ
widened events reported =
    if not (bit_and reported (bit_or epollerr epollhup) == 0)
    then bit_or reported (bit_and (bit_or read_event write_event) events)
    else reported

unfoldable pub real_events : ℕ → ℕ
unfolding has
real_events reported =
    bit_or (if has reported read_event then read_event else 0)
      (if has reported write_event then write_event else 0)

-- stopping(timeout): `idle` tells whether there is no timer and the scheduler has nothing to do.
unfoldable pub stopping : {K : Type 0} → Bool → IoManager K → Bool
stopping idle m = idle && m.pending_event_count == 0

-- `(int)m_fdContexts.size() <= fd` of a descriptor that is not negative.
unfoldable pub outside : {K : Type 0} → ℕ → IoManager K → Bool
outside fd m =
    let size = length m.contexts % 2 ^ 32 in if ltb size (2 ^ 31) then leb size fd else true

module _ {K : Type 0} (epoll : Epoll K) where
  open epoll use {ctl}

  unfoldable pub del_in : ℕ → ℕ → FdContext → IoManager K → Option (Bool × IoManager K)
  unfolding has without get_context set_context
  del_in fd event c m =
      if not (has c.events event)
      then some (false, m)
      else let new_events = without c.events event in
        let r = ctl (op_for new_events) fd (bit_or epollet new_events) m.kernel in
        if not r.0 then some (false, record m { kernel = r.1 }) else do
          x ← get_context event c
          let c' = set_context event empty_context (record c { events = new_events })
          some (
            true,
            record m {
              kernel = r.1;
              pending_event_count = decremented m.pending_event_count;
              contexts = set m.contexts fd c';
            },
          )

  unfoldable pub del_event : ℕ → ℕ → IoManager K → Option (Bool × IoManager K)
  unfolding outside del_in
  del_event fd event m =
      if outside fd m then some (false, m) else do c ← get_elem? m.contexts fd; del_in fd event c m

  unfoldable pub cancel_in : ℕ → ℕ → FdContext → IoManager K → Option (Bool × IoManager K)
  unfolding has without trigger_event
  cancel_in fd event c m =
      if not (has c.events event)
      then some (false, m)
      else let new_events = without c.events event in
        let r = ctl (op_for new_events) fd (bit_or epollet new_events) m.kernel in
        if not r.0 then some (false, record m { kernel = r.1 }) else do
          t ← trigger_event event c
          some (
            true,
            record m {
              kernel = r.1;
              pending_event_count = decremented m.pending_event_count;
              contexts = set m.contexts fd (record t.0 { events = new_events });
              scheduled = m.scheduled ++ t.1;
            },
          )

  unfoldable pub cancel_event : ℕ → ℕ → IoManager K → Option (Bool × IoManager K)
  unfolding outside cancel_in
  cancel_event fd event m =
      if outside fd m
      then some (false, m)
      else do c ← get_elem? m.contexts fd; cancel_in fd event c m

  unfoldable pub cancel_all_in : ℕ → FdContext → IoManager K → Option (Bool × IoManager K)
  unfolding has trigger_if
  cancel_all_in fd c m =
      if c.events == 0
      then some (false, m)
      else let r = ctl ctl_del fd 0 m.kernel in
        if not r.0 then some (false, record m { kernel = r.1 }) else do
          s ← trigger_if (has c.events read_event) fd read_event (c, record m { kernel = r.1 })
          t ← trigger_if (has s.0.events write_event) fd write_event s
          some (true, record t.1 { contexts = set t.1.contexts fd (record t.0 { events = 0 }) })

  unfoldable pub cancel_all : ℕ → IoManager K → Option (Bool × IoManager K)
  unfolding outside cancel_all_in
  cancel_all fd m =
      if outside fd m then some (false, m) else do c ← get_elem? m.contexts fd; cancel_all_in fd c m

  -- A context whose reported events are `real`.
  unfoldable pub fire : ℕ → ℕ → FdContext → IoManager K → Option (IoManager K)
  unfolding has without trigger_if
  fire real fd c m =
      if bit_and c.events real == 0
      then some m
      else let left_events = without c.events real in
        let r = ctl (op_for left_events) fd (bit_or epollet left_events) m.kernel in
        if not r.0 then some (record m { kernel = r.1 }) else do
          s ← trigger_if (has real read_event) fd read_event (c, record m { kernel = r.1 })
          t ← trigger_if (has real write_event) fd write_event s
          some t.1

  unfoldable pub handle : Ready → IoManager K → Option (IoManager K)
  unfolding fire widened real_events
  handle tickled m = some m
  handle (ready fd reported) m = do
    c ← get_elem? m.contexts fd
    fire (real_events (widened c.events reported)) fd c m

  -- The loop of idle over what one epoll_wait reports.
  unfoldable pub handle_all : List Ready → IoManager K → Option (IoManager K)
  unfolding handle
  handle_all [] m = some m
  handle_all (r ∷ rs) m = do m' ← handle r m; handle_all rs m'
