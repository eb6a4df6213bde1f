-- ===== src/IoManager/Refusals.antt =====
-- Calls of IOManager (Sylar/iomanager.cc) that find nothing to do: an event that is entered already,
-- one that is not entered, a descriptor without a context, a report that comes too late.
use my_sylar_server.Base.{
  ℕ, ◌<◌, ◌≡◌, ◌≢◌, refl, ap, subst, ◌∙◌, Bool, true, false, ◌||◌, Option, none, some, List, length,
  get_elem?, arith, inl, inr, ◌⊎◌,
}
use my_sylar_server.IoManager.Laws.{put-slot}
use my_sylar_server.IoManager.{resume, callback, Epoll, IoManager, Caller, add_event, add_to, grow}
use my_sylar_server.IoManager.Methods.{
  outside, del_event, del_in, cancel_event, cancel_in, cancel_all, fire,
}
use my_sylar_server.IoManager.View.{
  Waiting, View, blank, Event, value, slot, put, concrete, Represents,
}
use my_sylar_server.IoManager.Refine.{call, grown, grow-Represents, context_at}
use my_sylar_server.IoManager.Fire.{real_of, is_some, cancel_all_in_lem}
use my_sylar_server.IoManager.Registry.{
  at, get_elem?-at, at-grown, lt-grown, inside_views, tickle_fd-grow,
}

module _ {K : Type 0} (epoll : Epoll K) (fd : ℕ) (m : IoManager K) where
  add_fields :
      (caller : Caller) (cb : Option ℕ) (a b : Option Waiting) (x : Waiting)
      → (add_to epoll caller fd 1 cb (concrete fd (record { read = some x; write = b })) m ≡ none)
        × (add_to epoll caller fd 4 cb (concrete fd (record { read = a; write = some x })) m ≡ none)
  unfolding add_to
  add_fields caller cb none none x = (refl, refl)
  add_fields caller cb none (some y) x = (refl, refl)
  add_fields caller cb (some y) none x = (refl, refl)
  add_fields caller cb (some y) (some z) x = (refl, refl)

  add_to-put :
      (caller : Caller) (cb : Option ℕ) (e : Event) (v : View) (x : Waiting)
      → add_to epoll caller fd (value e) cb (concrete fd (put e (some x) v)) m ≡ none
  add_to-put caller cb Event.read v x = (add_fields caller cb v.read v.write x).0
  add_to-put caller cb Event.write v x = (add_fields caller cb v.read v.write x).1

  pub add_to_taken :
      (caller : Caller) (cb : Option ℕ) (e : Event) (v : View) {x : Waiting}
      → slot e v ≡ some x
      → add_to epoll caller fd (value e) cb (concrete fd v) m ≡ none
  add_to_taken caller cb e v {x} taken =
      subst (λ u. add_to epoll caller fd (value e) cb (concrete fd u) m ≡ none)
        (put-slot epoll fd m e v taken) (add_to-put caller cb e v x)

  free_fields :
      (a b : Option Waiting)
      → (del_in epoll fd 1 (concrete fd (record { read = none; write = b })) m ≡ some (false, m))
        × (del_in epoll fd 4 (concrete fd (record { read = a; write = none })) m ≡ some (false, m))
        × (cancel_in epoll fd 1 (concrete fd (record { read = none; write = b })) m
            ≡ some (false, m))
        × (cancel_in epoll fd 4 (concrete fd (record { read = a; write = none })) m
            ≡ some (false, m))
  unfolding del_in cancel_in
  free_fields none none = (refl, refl, refl, refl)
  free_fields none (some y) = (refl, refl, refl, refl)
  free_fields (some y) none = (refl, refl, refl, refl)
  free_fields (some y) (some z) = (refl, refl, refl, refl)

  del_in-put :
      (e : Event) (v : View)
      → del_in epoll fd (value e) (concrete fd (put e none v)) m ≡ some (false, m)
  del_in-put Event.read v = (free_fields v.read v.write).0
  del_in-put Event.write v = (free_fields v.read v.write).1

  cancel_in-put :
      (e : Event) (v : View)
      → cancel_in epoll fd (value e) (concrete fd (put e none v)) m ≡ some (false, m)
  cancel_in-put Event.read v = (free_fields v.read v.write).2
  cancel_in-put Event.write v = (free_fields v.read v.write).3

  del_in_free :
      (e : Event) (v : View)
      → slot e v ≡ none
      → del_in epoll fd (value e) (concrete fd v) m ≡ some (false, m)
  del_in_free e v free =
      subst (λ u. del_in epoll fd (value e) (concrete fd u) m ≡ some (false, m))
        (put-slot epoll fd m e v free) (del_in-put e v)

  cancel_in_free :
      (e : Event) (v : View)
      → slot e v ≡ none
      → cancel_in epoll fd (value e) (concrete fd v) m ≡ some (false, m)
  cancel_in_free e v free =
      subst (λ u. cancel_in epoll fd (value e) (concrete fd u) m ≡ some (false, m))
        (put-slot epoll fd m e v free) (cancel_in-put e v)

  -- Reports that are not among the registered events: nothing happens, or the assertion fails.
  pub stray :
      (r w : Bool) (a b : Option Waiting)
      → ((r ≡ true → is_some a ≡ true) × (w ≡ true → is_some b ≡ true))
        ⊎ ((m' : IoManager K)
            → fire epoll (real_of r w) fd (concrete fd (record { read = a; write = b })) m ≡ some m'
            → (m' ≡ m)
              ⊎ ((call epoll fd (record { read = a; write = b }) blank m).0 ≡ false)
                × (m' ≡ record m {
                  kernel = (call epoll fd (record { read = a; write = b }) blank m).1;
                }))
  unfolding fire
  stray false false a b = inl (λ e. cc, λ e. cc)
  stray true false (some x) b = inl (λ e. refl, λ e. cc)
  stray false true a (some y) = inl (λ e. cc, λ e. refl)
  stray true true (some x) (some y) = inl (λ e. refl, λ e. refl)
  stray true false none none = inr (λ m' h. inl cc)
  stray true false none (some y) = inr (λ m' h. inl cc)
  stray false true none none = inr (λ m' h. inl cc)
  stray false true (some x) none = inr (λ m' h. inl cc)
  stray true true none none = inr (λ m' h. inl cc)
  stray true true (some (s, resume f)) none = inr (λ m' h. inr (ground arith))
  stray true true (some (s, callback f)) none = inr (λ m' h. inr (ground arith))
  stray true true none (some y) = inr (λ m' h. inr (ground arith))

module _ {K : Type 0} (epoll : Epoll K) {vs : List View} {m : IoManager K}
    (p : Represents epoll vs m) where
  -- A descriptor that is refused.
  module _ (fd : ℕ) (refused : outside fd m ≡ true) where
    pub del_event_outside : (event : ℕ) → del_event epoll fd event m ≡ some (false, m)
    unfolding del_event
    del_event_outside event = rw refused

    pub cancel_event_outside : (event : ℕ) → cancel_event epoll fd event m ≡ some (false, m)
    unfolding cancel_event
    cancel_event_outside event = rw refused

    pub cancel_all_outside : cancel_all epoll fd m ≡ some (false, m)
    unfolding cancel_all
    cancel_all_outside = rw refused

  module _ (fd : ℕ) (inside_contexts : outside fd m ≡ false) (other : fd ≢ m.tickle_fd) where
    inside : fd < length vs
    inside = inside_views epoll p fd inside_contexts

    there : get_elem? m.contexts fd ≡ some (concrete fd (at vs fd))
    there = context_at epoll p fd (at vs fd) (get_elem?-at vs fd inside) other

    pub del_event_free :
        (e : Event) → slot e (at vs fd) ≡ none → del_event epoll fd (value e) m ≡ some (false, m)
    unfolding del_event
    del_event_free e free = rw (inside_contexts, there) (del_in_free epoll fd m e (at vs fd) free)

    pub cancel_event_free :
        (e : Event) → slot e (at vs fd) ≡ none → cancel_event epoll fd (value e) m ≡ some (false, m)
    unfolding cancel_event
    cancel_event_free e free =
        rw (inside_contexts, there) (cancel_in_free epoll fd m e (at vs fd) free)

    pub cancel_all_free :
        (is_some (at vs fd).read || is_some (at vs fd).write) ≡ false
        → cancel_all epoll fd m ≡ some (false, m)
    unfolding cancel_all
    cancel_all_free free =
        rw (inside_contexts, there) (cancel_all_in_lem epoll fd m (at vs fd) ∙ rw free)

  -- Entering an event twice is a failed assertion.
  pub add_event_taken :
      (caller : Caller) (cb : Option ℕ) (fd : ℕ) (e : Event) {x : Waiting}
      → fd ≢ m.tickle_fd
      → slot e (at vs fd) ≡ some x
      → add_event epoll caller fd (value e) cb m ≡ none
  unfolding add_event
  add_event_taken caller cb fd e other taken =
      let g = grow-Represents epoll fd p in
      let same = at-grown fd vs fd in
      let inside = get_elem?-at (grown fd vs) fd (lt-grown fd vs p.enough) ∙ ap some same in
      rw (context_at epoll g fd (at vs fd) inside (λ q. other (q ∙ tickle_fd-grow fd m)))
        (add_to_taken epoll fd (grow fd m) caller cb e (at vs fd) taken)
