-- ===== src/IoManager/Registry.antt =====
-- addEvent, delEvent, cancelEvent and cancelAll of IOManager (Sylar/iomanager.cc) as operations of
-- a registry of waiting tasks.
use native.Mathlib.Nat.{mod-eq_of_lt}
use my_sylar_server.Base.{
  ℕ, zero, suc, ◌+◌, ◌-◌, ◌*◌, ◌/◌, ◌%◌, ◌^◌, ◌≤◌, ◌<◌, ◌≡◌, ◌≢◌, refl, sym, ap, ◌∙◌, Bool, true,
  false, Option, none, some, List, [], ◌∷◌, ◌++◌, if◌then◌else◌, ◌==◌, ltb, length, get_elem?,
  get_or, set, replicate, arith, inl, inr, length-append, length-replicate, Bool-cases, leb,
}
use Prim.Native.Nat.{bit_or}
use my_sylar_server.IoManager.{
  after, Epoll, IoManager, Caller, epollet, grow, decremented, add_event,
}
use my_sylar_server.IoManager.Methods.{outside, del_event, cancel_event}
use my_sylar_server.IoManager.View.{
  Waiting, View, blank, mask, weight, total, wanted, Event, value, slot, put, op_from, Represents,
  length-concretes, total-set,
}
use my_sylar_server.IoManager.Refine.{grown, call, grow-Represents, context_at, refused, changed}
use my_sylar_server.IoManager.Laws.{Asks, moved, answer, add_to_lem, del_in_lem, cancel_in_lem}

-- What the registry knows of a descriptor; one without a context has nothing.
abbrev pub at : List View → ℕ → View
at vs fd = get_or vs fd blank

abbrev pub enter : ℕ → Event → Option Waiting → List View → List View
enter fd e o vs = set vs fd (put e o (at vs fd))

pub get_elem?-at : (vs : List View) (i : ℕ) → i < length vs → get_elem? vs i ≡ some (at vs i)
get_elem?-at [] i h = absurd (omega arith)
get_elem?-at (v ∷ vs) zero h = refl
get_elem?-at (v ∷ vs) (suc i) h = get_elem?-at vs i (omega arith)

at_beyond : (vs : List View) (i : ℕ) → length vs ≤ i → at vs i ≡ blank
at_beyond [] i h = refl
at_beyond (v ∷ vs) zero h = absurd (omega arith)
at_beyond (v ∷ vs) (suc i) h = at_beyond vs i (omega arith)

at-blank : (vs : List View) (n i : ℕ) → at (vs ++ replicate n blank) i ≡ at vs i
at-blank [] zero i = refl
at-blank [] (suc n) zero = refl
at-blank [] (suc n) (suc i) = at-blank [] n i
at-blank (v ∷ vs) n zero = refl
at-blank (v ∷ vs) n (suc i) = at-blank vs n i

pub at-grown : (fd : ℕ) (vs : List View) (i : ℕ) → at (grown fd vs) i ≡ at vs i
at-grown fd vs i = elim (Bool-cases (ltb fd (length vs))) [
  | inl inside ↦ rw inside
  | inr outside ↦ rw outside (at-blank vs (fd * 3 / 2 - length vs) i)
]

pub lt-grown : (fd : ℕ) (vs : List View) → 32 ≤ length vs → fd < length (grown fd vs)
lt-grown fd vs h = ground (
  arith,
  length-append vs (replicate (fd * 3 / 2 - length vs) blank),
  length-replicate (fd * 3 / 2 - length vs) blank,
)

-- One operation of epoll_ctl leads from each view to each other one.
pub after-op_from :
    (v v' : View)
    → (mask v ≡ 0 → mask v' ≢ 0)
    → after (op_from v v') (bit_or epollet (mask v')) ≡ wanted v'
after-op_from v v' h = elim (Bool-cases (mask v == 0)) [
  | inl empty ↦ elim (Bool-cases (mask v' == 0)) [
    | inl gone ↦ absurd (h (ground arith) (ground arith))
    | inr filled ↦ rw (empty, filled)
  ]
  | inr full ↦ elim (Bool-cases (mask v' == 0)) [
    | inl gone ↦ rw (full, gone)
    | inr filled ↦ rw (full, filled)
  ]
]

slot-blank : (e : Event) → slot e blank ≡ none
slot-blank Event.read = refl
slot-blank Event.write = refl

weight-put :
    (e : Event) (w : Waiting) (v : View)
    → slot e v ≡ none
    → weight (put e (some w) v) ≡ weight v + 1
weight-put Event.read w v free = rw free (omega arith)
weight-put Event.write w v free = rw free (omega arith)

weight-slot :
    (e : Event) (v : View) {w : Waiting} → slot e v ≡ some w → weight v ≡ weight (put e none v) + 1
weight-slot Event.read v taken = rw taken (omega arith)
weight-slot Event.write v taken = rw taken (omega arith)

mask-put : (e : Event) (w : Waiting) (v : View) → mask (put e (some w) v) ≢ 0
mask-put Event.read w v z = omega arith
mask-put Event.write w v z = omega arith

mask-slot : (e : Event) (v : View) {w : Waiting} → slot e v ≡ some w → mask v ≢ 0
mask-slot Event.read v taken z = ground arith
mask-slot Event.write v taken z = ground arith

inside_of :
    (vs : List View) (fd : ℕ) (e : Event) {w : Waiting}
    → slot e (at vs fd) ≡ some w
    → fd < length vs
inside_of vs fd e h = elim (Bool-cases (ltb fd (length vs))) [
  | inl inside ↦ ground arith
  | inr outside ↦ cc (rw (at_beyond vs fd (ground arith)) at h, slot-blank e)
]

module _ {K : Type 0} (fd : ℕ) (m : IoManager K) where
  pub kernel-grow : (grow fd m).kernel ≡ m.kernel
  unfolding grow
  kernel-grow = ground arith

  pub scheduled-grow : (grow fd m).scheduled ≡ m.scheduled
  unfolding grow
  scheduled-grow = ground arith

  pub tickle_fd-grow : (grow fd m).tickle_fd ≡ m.tickle_fd
  unfolding grow
  tickle_fd-grow = ground arith

module _ {K : Type 0} (epoll : Epoll K) where
  pub length-contexts :
      {vs : List View} {m : IoManager K} → Represents epoll vs m → length m.contexts ≡ length vs
  length-contexts {vs} r = ap length r.contexts_are ∙ length-concretes 0 vs

module _ {K : Type 0} (epoll : Epoll K) where
  open epoll use {ctl}

  -- epoll was asked for the change and answered `b`: only if it agreed is the view another.
  abbrev pub Moves :
      ℕ → View → View → List Waiting → List View → IoManager K → Bool → IoManager K → Type 0
  Moves fd v v' out vs m b m' =
      (b ≡ (call epoll fd v v' m).0)
      × Represents epoll (if b then set vs fd v' else vs) m'
      × (m'.scheduled ≡ (if b then out else m.scheduled))
      × (m'.tickle_fd ≡ m.tickle_fd)

  answer-Moves :
      {vs : List View} {m : IoManager K} (r : Represents epoll vs m) (fd : ℕ) (v v' : View) (p : ℕ)
      (out : List Waiting)
      → get_elem? vs fd ≡ some v
      → fd ≢ m.tickle_fd
      → (mask v ≡ 0 → mask v' ≢ 0)
      → p ≡ total (set vs fd v') % 2 ^ 64
      → (b : Bool) × (m' : IoManager K) × (answer epoll fd m v v' p out ≡ some (b, m'))
        × Moves fd v v' out vs m b m'
  answer-Moves {vs} {m} r fd v v' p out here other step counted =
      elim (Bool-cases (call epoll fd v v' m).0) [
        | inl done ↦ (
          true,
          moved epoll fd m v' p out (call epoll fd v v' m).1,
          rw done,
          (
            sym done,
            changed epoll r fd v here other v' _ _ (after-op_from v v' step) done p out counted,
            refl,
            refl,
          ),
        )
        | inr failed ↦ (
          false,
          record m { kernel = (call epoll fd v v' m).1 },
          rw failed,
          (sym failed, refused epoll r fd v here other _ _ failed, refl, refl),
        )
      ]

  Moves-grow :
      (m : IoManager K) (fd : ℕ) (v v' : View) (vs : List View) {b : Bool} {m' : IoManager K}
      → Moves fd v v' (grow fd m).scheduled vs (grow fd m) b m'
      → Moves fd v v' m.scheduled vs m b m'
  Moves-grow m fd v v' vs {b} h = (
    h.0 ∙ ap (λ k. (ctl (op_from v v') fd (bit_or epollet (mask v')) k).0) (kernel-grow fd m),
    h.1,
    h.2 ∙ ap (λ l. if b then l else l) (scheduled-grow fd m),
    h.3 ∙ tickle_fd-grow fd m,
  )

  -- The event is entered if epoll agrees; the table grows for a new descriptor.
  pub add_event_lem :
      {vs : List View} {m : IoManager K} (r : Represents epoll vs m) {caller : Caller}
      {cb : Option ℕ} {w : Waiting} (fd : ℕ) (e : Event)
      → Asks caller cb w
      → fd ≢ m.tickle_fd
      → slot e (at vs fd) ≡ none
      → (b : Bool) × (m' : IoManager K) × (add_event epoll caller fd (value e) cb m ≡ some (b, m'))
        × Moves fd (at vs fd) (put e (some w) (at vs fd)) m.scheduled (grown fd vs) m b m'
  unfolding add_event
  add_event_lem {vs} {m} r {w} fd e a other free =
      let g = grow-Represents epoll fd r in
      let v = at vs fd in
      let v' = put e (some w) v in
      let ws = grown fd vs in
      let here : get_elem? ws fd ≡ some v =
        get_elem?-at ws fd (lt-grown fd vs r.enough) ∙ ap some (at-grown fd vs fd) in
      let found = context_at epoll g fd v here (λ q. other (q ∙ tickle_fd-grow fd m)) in
      let p = ((grow fd m).pending_event_count + 1) % 2 ^ 64 in
      let (b, m', e1, e2) =
        answer-Moves g fd v v' p (grow fd m).scheduled here (λ q. other (q ∙ tickle_fd-grow fd m))
          (λ z. mask-put e w v)
          (omega (arith, g.counted, total-set ws fd v' v here, weight-put e w v free)) in
      (
        b,
        m',
        rw found (add_to_lem epoll fd (grow fd m) e v a free ∙ e1),
        Moves-grow m fd v v' ws e2,
      )

  -- A descriptor that is not refused has a context.
  pub inside_views :
      {vs : List View} {m : IoManager K} (r : Represents epoll vs m) (fd : ℕ)
      → outside fd m ≡ false
      → fd < length vs
  unfolding outside
  inside_views {vs} {m} r fd h =
      let size = length m.contexts % 2 ^ 32 in
      elim (Bool-cases (ltb size (2 ^ 31))) [
        | inl small ↦
            let below : leb size fd ≡ false = rw small at h in
            let less : fd < size = ground arith in omega (arith, less, length-contexts epoll r)
        | inr large ↦ cc (rw large at h)
      ]

  -- With less than 2^31 contexts only a descriptor without one is refused.
  inside_of_few :
      {vs : List View} {m : IoManager K} (r : Represents epoll vs m) (fd : ℕ)
      → length vs < 2 ^ 31
      → fd < length vs
      → outside fd m ≡ false
  unfolding outside
  inside_of_few {vs} {m} r fd few inside =
      let same = length-contexts epoll r in
      let whole : length m.contexts % 2 ^ 32 ≡ length m.contexts = mod-eq_of_lt (omega arith) in
      rw whole (ground arith)

  pub del_event_lem :
      {vs : List View} {m : IoManager K} (r : Represents epoll vs m) (fd : ℕ) (e : Event)
      {w : Waiting}
      → outside fd m ≡ false
      → fd ≢ m.tickle_fd
      → slot e (at vs fd) ≡ some w
      → (b : Bool) × (m' : IoManager K) × (del_event epoll fd (value e) m ≡ some (b, m'))
        × Moves fd (at vs fd) (put e none (at vs fd)) m.scheduled vs m b m'
  unfolding del_event
  del_event_lem {vs} {m} r fd e {w} known other taken =
      let v = at vs fd in
      let inside = inside_of vs fd e taken in
      let here = get_elem?-at vs fd inside in
      let (b, m', e1, e2) =
        answer-Moves r fd v (put e none v) (decremented m.pending_event_count) m.scheduled here
          other (λ z. absurd (mask-slot e v taken z))
          (omega
            (arith, r.counted, total-set vs fd (put e none v) v here, weight-slot e v taken)) in
      (
        b,
        m',
        rw (known, context_at epoll r fd v here other) (del_in_lem epoll fd m e v taken ∙ e1),
        e2,
      )

  pub cancel_event_known :
      {vs : List View} {m : IoManager K} (r : Represents epoll vs m) (fd : ℕ) (e : Event)
      {w : Waiting}
      → outside fd m ≡ false
      → fd ≢ m.tickle_fd
      → slot e (at vs fd) ≡ some w
      → (b : Bool) × (m' : IoManager K) × (cancel_event epoll fd (value e) m ≡ some (b, m'))
        × Moves fd (at vs fd) (put e none (at vs fd)) (m.scheduled ++ w ∷ []) vs m b m'
  unfolding cancel_event
  cancel_event_known {vs} {m} r fd e {w} known other taken =
      let v = at vs fd in
      let inside = inside_of vs fd e taken in
      let here = get_elem?-at vs fd inside in
      let (b, m', e1, e2) =
        answer-Moves r fd v (put e none v) (decremented m.pending_event_count)
          (m.scheduled ++ w ∷ []) here other (λ z. absurd (mask-slot e v taken z))
          (omega
            (arith, r.counted, total-set vs fd (put e none v) v here, weight-slot e v taken)) in
      (
        b,
        m',
        rw (known, context_at epoll r fd v here other) (cancel_in_lem epoll fd m e v taken ∙ e1),
        e2,
      )

  -- With less than 2^31 contexts cancelEvent of a registered event succeeds exactly if epoll_ctl does;
  -- then its task is scheduled, it leaves the view, and nothing else changes.
  pub cancel_event_lem :
      {vs : List View} {m : IoManager K} (r : Represents epoll vs m) (fd : ℕ) (e : Event)
      {w : Waiting}
      → length vs < 2 ^ 31
      → fd ≢ m.tickle_fd
      → slot e (at vs fd) ≡ some w
      → (b : Bool) × (m' : IoManager K) × (cancel_event epoll fd (value e) m ≡ some (b, m'))
        × Moves fd (at vs fd) (put e none (at vs fd)) (m.scheduled ++ w ∷ []) vs m b m'
  cancel_event_lem {vs} r fd e few other taken =
      cancel_event_known r fd e (inside_of_few r fd few (inside_of vs fd e taken)) other taken
