-- ===== src/IoManager/Steps.antt =====
-- An IOManager (Sylar/iomanager.cc) under any sequence of calls: each method that returns, and each
-- event that the loop of idle handles, is a step.
use my_sylar_server.Base.{
  ℕ, zero, suc, ◌+◌, ◌-◌, ◌*◌, ◌/◌, ◌^◌, ◌<◌, ◌≡◌, ◌≢◌, refl, sym, ap, subst, ◌∙◌, Bool, true,
  false, ◌&&◌, ◌||◌, Option, none, some, List, [], ◌∷◌, if◌then◌else◌, ◌==◌, ltb, length, get_elem?,
  set, replicate, arith, inl, inr, Bool-cases, Option-cases, ltb→lt, length-set, length-append,
  length-replicate, get_elem?-none,
}
use my_sylar_server.IoManager.{
  Epoll, IoManager, FdContext, fd_context, fresh_from, ctl_add, Caller, io_manager, add_event,
}
use my_sylar_server.IoManager.Methods.{
  outside, del_event, cancel_event, cancel_all, handle, ready, stopping,
}
use my_sylar_server.IoManager.View.{
  Waiting, View, blank, weight, total, total-le, get_elem?-concretes-some, length-concretes,
  total_blank, concretes, fresh_from-concretes, wanted_at, wanted_at-blank, Event, value, slot,
  Represents,
}
use my_sylar_server.IoManager.Laws.{Asks}
use my_sylar_server.IoManager.Fire.{left, is_some}
use my_sylar_server.IoManager.Refine.{call, grown, refused}
use my_sylar_server.IoManager.Refusals.{
  stray, add_event_taken, del_event_free, del_event_outside, cancel_event_free,
  cancel_event_outside, cancel_all_free, cancel_all_outside,
}
use my_sylar_server.IoManager.Registry.{
  at, get_elem?-at, length-contexts, inside_views, add_event_lem, del_event_lem, cancel_event_known,
}
use my_sylar_server.IoManager.Reported.{
  handle-fire, fires_read, fires_write, handle_lem, cancel_all_lem,
}

==_ne : (a b : ℕ) → a ≢ b → (a == b) ≡ false
==_ne a b h = ground arith

few_if :
    (b : Bool) (vs : List View) (i : ℕ) (v : View)
    → length vs < 2 ^ 32
    → length (if b then set vs i v else vs) < 2 ^ 32
few_if true vs i v few = omega (arith, length-set vs i v)
few_if false vs i v few = few

few_grown :
    (fd : ℕ) (vs : List View) → fd < 2 ^ 31 → length vs < 2 ^ 32 → length (grown fd vs) < 2 ^ 32
few_grown fd vs small few = ground (
  arith,
  length-append vs (replicate (fd * 3 / 2 - length vs) blank),
  length-replicate (fd * 3 / 2 - length vs) blank,
)

blank_fields :
    (a b : Option Waiting)
    → weight (record { read = a; write = b }) ≡ 0
    → ◌≡◌ {A = View} (record { read = a; write = b }) blank
blank_fields none none h = refl
blank_fields (some x) b h = absurd (omega arith)
blank_fields a (some x) h = absurd (omega arith)

blank_of_total : (vs : List View) (i : ℕ) → total vs ≡ 0 → at vs i ≡ blank
unfolding total
blank_of_total [] i h = refl
blank_of_total (v ∷ vs) zero h = blank_fields v.read v.write (omega arith)
blank_of_total (v ∷ vs) (suc i) h = blank_of_total vs i (omega arith)

wanted_at-get_elem? : (vs : List View) (i : ℕ) → at vs i ≡ blank → wanted_at (get_elem? vs i) ≡ none
wanted_at-get_elem? [] i h = refl
wanted_at-get_elem? (v ∷ vs) zero h = rw h
wanted_at-get_elem? (v ∷ vs) (suc i) h = wanted_at-get_elem? vs i h

blank_context :
    (vs : List View) (i : ℕ) {c : FdContext}
    → at vs i ≡ blank
    → get_elem? (concretes 0 vs) i ≡ some c
    → c ≡ fd_context i
blank_context vs i {c} h found = elim (Bool-cases (ltb i (length vs))) [
  | inl inside ↦
      let here =
        get_elem?-concretes-some 0 vs i blank (get_elem?-at vs i (ltb→lt _ _ inside) ∙ ap some h) in
      let e : 0 + i ≡ i = omega arith in cc (rw e at here)
  | inr outside ↦ cc (get_elem?-none (concretes 0 vs) i (ground (arith, length-concretes 0 vs)))
]

module _ {K : Type 0} (epoll : Epoll K) where
  open epoll use {ctl, interest, ctl_done}

  pub data Step (m m' : IoManager K) : Type 0 where
    adds :
        (caller : Caller) (cb : Option ℕ) (w : Waiting) (fd : ℕ) (e : Event) (b : Bool)
        → Asks caller cb w
        → fd < 2 ^ 31
        → fd ≢ m.tickle_fd
        → add_event epoll caller fd (value e) cb m ≡ some (b, m')
        → Step m m'
    dels :
        (fd : ℕ) (e : Event) (b : Bool)
        → fd ≢ m.tickle_fd
        → del_event epoll fd (value e) m ≡ some (b, m')
        → Step m m'
    cancels :
        (fd : ℕ) (e : Event) (b : Bool)
        → fd ≢ m.tickle_fd
        → cancel_event epoll fd (value e) m ≡ some (b, m')
        → Step m m'
    cancels_all :
        (fd : ℕ) (b : Bool) → fd ≢ m.tickle_fd → cancel_all epoll fd m ≡ some (b, m') → Step m m'
    handles :
        (fd reported : ℕ)
        → fd < length m.contexts
        → fd ≢ m.tickle_fd
        → handle epoll (ready fd reported) m ≡ some m'
        → Step m m'

  pub data Reach (s : IoManager K) : IoManager K → Type 0 where
    here : Reach s s
    next : {m m' : IoManager K} → Reach s m → Step m m' → Reach s m'

  -- A view stands behind the state, with less than 2^32 contexts.
  abbrev pub Stands : IoManager K → Type 0
  Stands m = (vs : List View) × Represents epoll vs m × (length vs < 2 ^ 32)

  -- A report that is handled leaves a view, whatever it says.
  handle-Stands :
      {vs : List View} {m m' : IoManager K} (p : Represents epoll vs m)
      → length vs < 2 ^ 32
      → (fd reported : ℕ) → fd < length m.contexts
      → fd ≢ m.tickle_fd
      → handle epoll (ready fd reported) m ≡ some m'
      → Stands m'
  handle-Stands {vs} {m} {m'} p few fd reported has_context other h =
      let inside : fd < length vs = omega (arith, length-contexts epoll p) in
      let v = at vs fd in
      let r = fires_read reported v in
      let w = fires_write reported v in
      let fires = sym (handle-fire epoll p fd inside other reported) ∙ h in
      elim (stray epoll fd m r w v.read v.write) [
        | inl known ↦
            let (m2, h2, q) =
              handle_lem epoll p fd inside other reported (λ e. known.0 (rw e))
                (λ e. known.1 (rw e)) in
            let same : m2 ≡ m' = cc in
            (
              _,
              subst (Represents epoll _) same q.0,
              few_if ((r || w) && (call epoll fd v (left r w v) m).0) vs fd (left r w v) few,
            )
        | inr unknown ↦ elim (unknown m' fires) [
          | inl e ↦ (vs, subst (Represents epoll vs) (sym e) p, few)
          | inr (failed, e) ↦ (
            vs,
            subst (Represents epoll vs) (sym e)
                (refused epoll p fd v (get_elem?-at vs fd inside) other _ _ failed),
            few,
          )
        ]
      ]

  -- Two results of one call are one.
  same_result :
      {r : Option (Bool × IoManager K)} {b b' : Bool} {m m' : IoManager K} {ws : List View}
      → r ≡ some (b, m)
      → r ≡ some (b', m')
      → Represents epoll ws m
      → length ws < 2 ^ 32
      → Stands m'
  same_result {m} {m'} {ws} h k p few =
      let e : m ≡ m' = cc in (ws, subst (Represents epoll ws) e p, few)

  Step-Stands : {m m' : IoManager K} → Step m m' → Stands m → Stands m'
  Step-Stands (adds caller cb w fd e b a small other h) (vs, r, few) =
      elim (Option-cases (slot e (at vs fd))) [
        | inl free ↦
            let (b', m2, h2, q) = add_event_lem epoll r fd e a other free in
            same_result h2 h q.1 (few_if b' (grown fd vs) fd _ (few_grown fd vs small few))
        | inr (x, taken) ↦ cc (add_event_taken epoll r caller cb fd e other taken)
      ]
  Step-Stands {m} (dels fd e b other h) (vs, r, few) = elim (Bool-cases (outside fd m)) [
    | inr inside ↦ elim (Option-cases (slot e (at vs fd))) [
      | inl free ↦ same_result (del_event_free epoll r fd inside other e free) h r few
      | inr (x, taken) ↦
          let (b', m2, h2, q) = del_event_lem epoll r fd e inside other taken in
          same_result h2 h q.1 (few_if b' vs fd _ few)
    ]
    | inl refusal ↦ same_result (del_event_outside epoll r fd refusal (value e)) h r few
  ]
  Step-Stands {m} (cancels fd e b other h) (vs, r, few) = elim (Bool-cases (outside fd m)) [
    | inr inside ↦ elim (Option-cases (slot e (at vs fd))) [
      | inl free ↦ same_result (cancel_event_free epoll r fd inside other e free) h r few
      | inr (x, taken) ↦
          let (b', m2, h2, q) = cancel_event_known epoll r fd e inside other taken in
          same_result h2 h q.1 (few_if b' vs fd _ few)
    ]
    | inl refusal ↦ same_result (cancel_event_outside epoll r fd refusal (value e)) h r few
  ]
  Step-Stands {m} (cancels_all fd b other h) (vs, r, few) = elim (Bool-cases (outside fd m)) [
    | inr inside ↦ elim (Bool-cases (is_some (at vs fd).read || is_some (at vs fd).write)) [
      | inl any ↦
          let (b', m2, h2, q) =
            cancel_all_lem epoll r fd (inside_views epoll r fd inside) other inside any in
          same_result h2 h q.1.0 (few_if b' vs fd _ few)
      | inr nothing ↦ same_result (cancel_all_free epoll r fd inside other nothing) h r few
    ]
    | inl refusal ↦ same_result (cancel_all_outside epoll r fd refusal) h r few
  ]
  Step-Stands (handles fd reported inside other h) (vs, r, few) =
      handle-Stands r few fd reported inside other h

  -- The constructor's result.
  io_manager-Stands :
      (tickle_fd : ℕ) (k : K) {m : IoManager K}
      → ((i : ℕ) → i ≢ tickle_fd → interest k i ≡ none)
      → io_manager epoll tickle_fd k ≡ some m
      → Represents epoll (replicate 32 blank) m
  unfolding io_manager
  io_manager-Stands tickle_fd k {m} fresh h =
      let r = ctl ctl_add tickle_fd 0x80000001 k in
      elim (Bool-cases r.0) [
        | inl done ↦
            let m0 : IoManager K = record {
              kernel = r.1;
              tickle_fd = tickle_fd;
              contexts = fresh_from 0 32;
              pending_event_count = 0;
              scheduled = [];
            } in
            let e : m0 ≡ m = cc (rw done at h) in
            subst (Represents epoll (replicate 32 blank)) e record {
              contexts_are = fresh_from-concretes 0 32;
              registered = λ i other.
                  ctl_done ctl_add tickle_fd 0x80000001 k done i
                  ∙ rw (==_ne i tickle_fd other) (fresh i other ∙ sym (wanted_at-blank [] 32 i));
              counted = omega (arith, total_blank 32);
              enough = omega arith;
            }
        | inr failed ↦ cc (rw failed at h)
      ]

  -- In every reachable state the contexts, the interest list of epoll and the count of pending
  -- events agree on one view.
  pub Reach-Stands :
      (tickle_fd : ℕ) (k : K) {s m : IoManager K}
      → ((i : ℕ) → i ≢ tickle_fd → interest k i ≡ none)
      → io_manager epoll tickle_fd k ≡ some s
      → Reach s m
      → Stands m
  Reach-Stands tickle_fd k fresh start here =
      (_, io_manager-Stands tickle_fd k fresh start, omega arith)
  Reach-Stands tickle_fd k fresh start (next r st) =
      Step-Stands st (Reach-Stands tickle_fd k fresh start r)

  -- A manager that may stop has no task that waits and no event registered with epoll.
  pub stopping_lem :
      (tickle_fd : ℕ) (k : K) {s m : IoManager K} (idle : Bool)
      → ((i : ℕ) → i ≢ tickle_fd → interest k i ≡ none)
      → io_manager epoll tickle_fd k ≡ some s
      → Reach s m
      → stopping idle m ≡ true
      → (fd : ℕ) → fd ≢ m.tickle_fd
      → (interest m.kernel fd ≡ none)
        × ((c : FdContext) → get_elem? m.contexts fd ≡ some c → c ≡ fd_context fd)
  unfolding stopping
  stopping_lem tickle_fd k {s} {m} idle fresh start reach stops fd other =
      let (vs, p, few) = Reach-Stands tickle_fd k fresh start reach in
      let none_waits : total vs ≡ 0 = ground (arith, p.counted, total-le vs) in
      let nothing = blank_of_total vs fd none_waits in
      (
        p.registered fd other ∙ wanted_at-get_elem? vs fd nothing,
        λ c found. blank_context vs fd nothing (rw p.contexts_are at found),
      )
