-- ===== src/IoManager/Laws.antt =====
-- What addEvent, delEvent, cancelEvent and cancelAll of IOManager (Sylar/iomanager.cc) do to the
-- context of one descriptor, for every view that the context can stand for.
use my_sylar_server.Base.{
  ℕ, ◌+◌, ◌%◌, ◌^◌, ◌≡◌, refl, Bool, true, false, not, Option, none, some, List, [], ◌∷◌, ◌++◌,
  if◌then◌else◌, set, subst,
}
use my_sylar_server.IoManager.{Epoll, IoManager, resume, callback, Caller, decremented, add_to}
use my_sylar_server.IoManager.Methods.{del_in, cancel_in}
use my_sylar_server.IoManager.View.{Waiting, View, concrete, Event, value, slot, put}
use my_sylar_server.IoManager.Refine.{call}

-- The caller of addEvent, with its scheduler, waits with a callback or with its own fiber.
pub data Asks : Caller → Option ℕ → Waiting → Type 0 where
  by_callback :
      (s f g : ℕ) (e : Bool)
      → Asks (record { scheduler = some s; fiber = g; executing = e }) (some f) (s, callback f)
  by_fiber :
      (s g : ℕ)
      → Asks (record { scheduler = some s; fiber = g; executing = true }) none (s, resume g)

module _ {K : Type 0} (epoll : Epoll K) (fd : ℕ) (m : IoManager K) where
  -- The state behind a change of view, with what epoll_ctl left.
  abbrev pub moved : View → ℕ → List Waiting → K → IoManager K
  moved v' p out k = record m {
    kernel = k;
    contexts = set m.contexts fd (concrete fd v');
    pending_event_count = p;
    scheduled = out;
  }

  abbrev pub answer : View → View → ℕ → List Waiting → Option (Bool × IoManager K)
  answer v v' p out =
      let r = call epoll fd v v' m in
      if not r.0 then some (false, record m { kernel = r.1 }) else some (true, moved v' p out r.1)

  add_read :
      {caller : Caller} {cb : Option ℕ} {w : Waiting} (r u : Option Waiting)
      → Asks caller cb w
      → r ≡ none
      → add_to epoll caller fd 1 cb (concrete fd (record { read = r; write = u })) m
        ≡ answer
            (record { read = r; write = u })
            (record { read = some w; write = u })
            ((m.pending_event_count + 1) % 2 ^ 64)
            m.scheduled
  unfolding add_to
  add_read (some x) u a free = cc
  add_read none none (by_callback s f g e) free = refl
  add_read none none (by_fiber s g) free = refl
  add_read none (some x) (by_callback s f g e) free = refl
  add_read none (some x) (by_fiber s g) free = refl

  add_write :
      {caller : Caller} {cb : Option ℕ} {w : Waiting} (r u : Option Waiting)
      → Asks caller cb w
      → u ≡ none
      → add_to epoll caller fd 4 cb (concrete fd (record { read = r; write = u })) m
        ≡ answer
            (record { read = r; write = u })
            (record { read = r; write = some w })
            ((m.pending_event_count + 1) % 2 ^ 64)
            m.scheduled
  unfolding add_to
  add_write r (some x) a free = cc
  add_write none none (by_callback s f g e) free = refl
  add_write none none (by_fiber s g) free = refl
  add_write (some x) none (by_callback s f g e) free = refl
  add_write (some x) none (by_fiber s g) free = refl

  pub add_to_lem :
      {caller : Caller} {cb : Option ℕ} {w : Waiting} (e : Event) (v : View)
      → Asks caller cb w
      → slot e v ≡ none
      → add_to epoll caller fd (value e) cb (concrete fd v) m
        ≡ answer v (put e (some w) v) ((m.pending_event_count + 1) % 2 ^ 64) m.scheduled
  add_to_lem Event.read v a free = add_read v.read v.write a free
  add_to_lem Event.write v a free = add_write v.read v.write a free

  del_read :
      {w : Waiting} (r u : Option Waiting)
      → r ≡ some w
      → del_in epoll fd 1 (concrete fd (record { read = r; write = u })) m
        ≡ answer
            (record { read = r; write = u })
            (record { read = none; write = u })
            (decremented m.pending_event_count)
            m.scheduled
  unfolding del_in
  del_read none u taken = cc
  del_read (some x) none taken = refl
  del_read (some x) (some y) taken = refl

  del_write :
      {w : Waiting} (r u : Option Waiting)
      → u ≡ some w
      → del_in epoll fd 4 (concrete fd (record { read = r; write = u })) m
        ≡ answer
            (record { read = r; write = u })
            (record { read = r; write = none })
            (decremented m.pending_event_count)
            m.scheduled
  unfolding del_in
  del_write r none taken = cc
  del_write none (some x) taken = refl
  del_write (some x) (some y) taken = refl

  pub del_in_lem :
      {w : Waiting} (e : Event) (v : View)
      → slot e v ≡ some w
      → del_in epoll fd (value e) (concrete fd v) m
        ≡ answer v (put e none v) (decremented m.pending_event_count) m.scheduled
  del_in_lem Event.read v taken = del_read v.read v.write taken
  del_in_lem Event.write v taken = del_write v.read v.write taken

  cancel_read :
      (w : Waiting) (u : Option Waiting)
      → cancel_in epoll fd 1 (concrete fd (record { read = some w; write = u })) m
        ≡ answer
            (record { read = some w; write = u })
            (record { read = none; write = u })
            (decremented m.pending_event_count)
            (m.scheduled ++ w ∷ [])
  unfolding cancel_in
  cancel_read (s, resume f) none = refl
  cancel_read (s, callback f) none = refl
  cancel_read (s, resume f) (some y) = refl
  cancel_read (s, callback f) (some y) = refl

  cancel_write :
      (r : Option Waiting) (w : Waiting)
      → cancel_in epoll fd 4 (concrete fd (record { read = r; write = some w })) m
        ≡ answer
            (record { read = r; write = some w })
            (record { read = r; write = none })
            (decremented m.pending_event_count)
            (m.scheduled ++ w ∷ [])
  unfolding cancel_in
  cancel_write none (s, resume f) = refl
  cancel_write none (s, callback f) = refl
  cancel_write (some x) (s, resume f) = refl
  cancel_write (some x) (s, callback f) = refl

  -- A view with the slot written out.
  pub put-slot : (e : Event) (v : View) {o : Option Waiting} → slot e v ≡ o → put e o v ≡ v
  put-slot Event.read v same = rw (← same)
  put-slot Event.write v same = rw (← same)

  cancel_put :
      (e : Event) (v : View) (w : Waiting)
      → cancel_in epoll fd (value e) (concrete fd (put e (some w) v)) m
        ≡ answer
            (put e (some w) v)
            (put e none v)
            (decremented m.pending_event_count)
            (m.scheduled ++ w ∷ [])
  cancel_put Event.read v w = cancel_read w v.write
  cancel_put Event.write v w = cancel_write v.read w

  pub cancel_in_lem :
      {w : Waiting} (e : Event) (v : View)
      → slot e v ≡ some w
      → cancel_in epoll fd (value e) (concrete fd v) m
        ≡ answer v (put e none v) (decremented m.pending_event_count) (m.scheduled ++ w ∷ [])
  cancel_in_lem {w} e v taken =
      subst
        (λ u.
          cancel_in epoll fd (value e) (concrete fd u) m
          ≡ answer u (put e none v) (decremented m.pending_event_count) (m.scheduled ++ w ∷ []))
        (put-slot e v taken) (cancel_put e v w)
