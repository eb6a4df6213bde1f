-- ===== src/IoManager/Reported.antt =====
-- The events that epoll_wait reports to IOManager::idle (Sylar/iomanager.cc), and cancelAll, as
-- operations of the registry of waiting tasks.
use my_sylar_server.Base.{
  ℕ, ◌+◌, ◌/◌, ◌%◌, ◌^◌, ◌<◌, ◌≡◌, ◌≢◌, refl, sym, ◌∙◌, Bool, true, false, not, ◌&&◌, ◌||◌, Option,
  none, some, List, if◌then◌else◌, ◌==◌, length, get_elem?, set, arith, inl, inr, Bool-cases,
}
use my_sylar_server.Base.Words.{bit_and_one, bit_and_pow, bit_or_step}
use Prim.Native.Nat.{bit_or, bit_and}
use my_sylar_server.IoManager.{ctl_del, Epoll, IoManager, epollerr, epollhup, has}
use my_sylar_server.IoManager.Methods.{
  outside, cancel_all, fire, handle, ready, widened, real_events,
}
use my_sylar_server.IoManager.View.{
  Waiting, View, blank, mask, weight, concrete, total, Represents, total-set,
}
use my_sylar_server.IoManager.Refine.{call, context_at, refused, changed}
use my_sylar_server.IoManager.Laws.{moved}
use my_sylar_server.IoManager.Fire.{
  real_of, left, fired, fire_lem, cleared, cancel_all_in_lem, is_some, lower, push,
}
use my_sylar_server.IoManager.Registry.{at, get_elem?-at, after-op_from}

-- The bits of `|`.
has_read : (x y : ℕ) → has (bit_or x y) 1 ≡ (has x 1 || has y 1)
unfolding has
has_read x y =
    ground (arith, bit_and_one (bit_or x y), bit_and_one x, bit_and_one y, bit_or_step x y)

has_write : (x y : ℕ) → has (bit_or x y) 4 ≡ (has x 4 || has y 4)
unfolding has
has_write x y = ground (
  arith,
  bit_and_pow 2 (bit_or x y),
  bit_and_pow 2 x,
  bit_and_pow 2 y,
  bit_or_step x y,
  bit_or_step (x / 2) (y / 2),
  bit_or_step (x / 2 / 2) (y / 2 / 2),
)

-- The reported word says that the descriptor failed or was hung up.
abbrev pub broken : ℕ → Bool
broken reported = not (bit_and reported (bit_or epollerr epollhup) == 0)

-- Which events fire: the reported ones, and with an error all that are registered.
abbrev pub fires_read : ℕ → View → Bool
fires_read reported v = has reported 1 || (broken reported && is_some v.read)

abbrev pub fires_write : ℕ → View → Bool
fires_write reported v = has reported 4 || (broken reported && is_some v.write)

registered_bits :
    (r w : Option Waiting)
    → let n = bit_and 5 (mask (record { read = r; write = w })) in
      (has n 1 ≡ is_some r) × (has n 4 ≡ is_some w)
unfolding has
registered_bits none none = (refl, refl)
registered_bits none (some y) = (refl, refl)
registered_bits (some x) none = (refl, refl)
registered_bits (some x) (some y) = (refl, refl)

sum_bits : (a b : Bool) → bit_or (if a then 1 else 0) (if b then 4 else 0) ≡ real_of a b
sum_bits false false = refl
sum_bits false true = refl
sum_bits true false = refl
sum_bits true true = refl

real_events-real_of : (x : ℕ) → real_events x ≡ real_of (has x 1) (has x 4)
unfolding real_events
real_events-real_of x = sum_bits (not (bit_and x 1 == 0)) (not (bit_and x 4 == 0))

or-false : (b : Bool) → (b || false) ≡ b
or-false true = refl
or-false false = refl

real_events-widened :
    (v : View) (reported : ℕ)
    → real_events (widened (mask v) reported)
      ≡ real_of (fires_read reported v) (fires_write reported v)
unfolding widened
real_events-widened v reported = elim (Bool-cases (broken reported)) [
  | inl failed ↦
      let (br, bw) = registered_bits v.read v.write in
      let n = bit_and 5 (mask v) in
      rw failed (
        real_events-real_of (bit_or reported n)
        ∙ rw (has_read reported n, has_write reported n, br, bw))
  | inr sound ↦ rw (sound, or-false, or-false) (real_events-real_of reported)
]

counted_down :
    (r w : Bool) (a b : Option Waiting) (p t t' : ℕ)
    → (r ≡ true → is_some a ≡ true)
    → (w ≡ true → is_some b ≡ true)
    → p ≡ t % 2 ^ 64
    → t' + weight (record { read = a; write = b })
      ≡ t + weight (left r w (record { read = a; write = b }))
    → lower w (lower r p) ≡ t' % 2 ^ 64
counted_down false false a b p t t' x y e h = omega arith
counted_down true w none b p t t' x y e h = cc (x refl)
counted_down r true a none p t t' x y e h = cc (y refl)
counted_down true false (some a) b p t t' x y e h = omega arith
counted_down false true a (some b) p t t' x y e h = omega arith
counted_down true true (some a) (some b) p t t' x y e h = omega arith

weight_cleared :
    (a b : Option Waiting)
    → weight (left (is_some a) (is_some b) (record { read = a; write = b })) ≡ 0
weight_cleared none none = refl
weight_cleared none (some y) = refl
weight_cleared (some x) none = refl
weight_cleared (some x) (some y) = refl

mask-left :
    (r w : Bool) (a b : Option Waiting)
    → (r ≡ true → is_some a ≡ true)
    → (w ≡ true → is_some b ≡ true)
    → (r || w) ≡ true
    → mask (record { read = a; write = b }) ≢ 0
mask-left false false a b x y f z = cc
mask-left true w none b x y f z = cc (x refl)
mask-left r true a none x y f z = cc (y refl)
mask-left true w (some a) b x y f z = omega arith
mask-left r true a (some b) x y f z = omega arith

only_registered :
    (bit failed : Bool) (o : Option Waiting)
    → (bit ≡ true → is_some o ≡ true)
    → (bit || (failed && is_some o)) ≡ true
    → is_some o ≡ true
only_registered true failed o h e = h refl
only_registered false true o h e = e
only_registered false false o h e = cc

module _ {K : Type 0} (epoll : Epoll K) where
  open epoll use {ctl}

  -- Behind a report of the events `r` and `w` on which epoll answers `b`.
  abbrev pub Fires : ℕ → Bool → Bool → View → List View → IoManager K → Bool → IoManager K → Type 0
  Fires fd r w v vs m b m' =
      Represents epoll (if b then set vs fd (left r w v) else vs) m'
      × (m'.scheduled ≡ (if b then push w v.write (push r v.read m.scheduled) else m.scheduled))
      × (m'.tickle_fd ≡ m.tickle_fd)

  fired-Fires :
      {vs : List View} {m : IoManager K} (p : Represents epoll vs m) (fd : ℕ) (v : View)
      (r w : Bool)
      → get_elem? vs fd ≡ some v
      → fd ≢ m.tickle_fd
      → (r ≡ true → is_some v.read ≡ true)
      → (w ≡ true → is_some v.write ≡ true)
      → (r || w) ≡ true
      → (m' : IoManager K) × (fired epoll fd m r w v ≡ some m')
        × Fires fd r w v vs m (call epoll fd v (left r w v) m).0 m'
  fired-Fires {vs} {m} p fd v r w here other hr hw filled =
      let v' = left r w v in
      let count = lower w (lower r m.pending_event_count) in
      let out = push w v.write (push r v.read m.scheduled) in
      elim (Bool-cases (call epoll fd v v' m).0) [
        | inl done ↦ (
          moved epoll fd m v' count out (call epoll fd v v' m).1,
          rw done,
          rw done (
            changed epoll p fd v here other v' _ _
                (after-op_from v v' (λ z. absurd (mask-left r w v.read v.write hr hw filled z)))
                done count out
                (counted_down r w v.read v.write m.pending_event_count (total vs)
                  (total (set vs fd v')) hr hw p.counted (total-set vs fd v' v here)),
            refl,
            refl,
          ),
        )
        | inr failed ↦ (
          record m { kernel = (call epoll fd v v' m).1 },
          rw failed,
          rw failed (refused epoll p fd v here other _ _ failed, refl, refl),
        )
      ]

  module _ {vs : List View} {m : IoManager K} (p : Represents epoll vs m) (fd : ℕ)
      (inside : fd < length vs) (other : fd ≢ m.tickle_fd) where
    found : get_elem? m.contexts fd ≡ some (concrete fd (at vs fd))
    found = context_at epoll p fd (at vs fd) (get_elem?-at vs fd inside) other

    pub handle-fire :
        (reported : ℕ)
        → handle epoll (ready fd reported) m
          ≡ fire epoll
              (real_of (fires_read reported (at vs fd)) (fires_write reported (at vs fd)))
              fd
              (concrete fd (at vs fd))
              m
    unfolding handle
    handle-fire reported = rw (found, real_events-widened (at vs fd) reported)

    -- The tasks of the reported events are scheduled, reading first, if epoll agrees.
    pub handle_lem :
        (reported : ℕ)
        → (has reported 1 ≡ true → is_some (at vs fd).read ≡ true)
        → (has reported 4 ≡ true → is_some (at vs fd).write ≡ true)
        → let v = at vs fd in
          let r = fires_read reported v in
          let w = fires_write reported v in
          (m' : IoManager K) × (handle epoll (ready fd reported) m ≡ some m')
          × Fires fd r w v vs m ((r || w) && (call epoll fd v (left r w v) m).0) m'
    handle_lem reported hr hw =
        let v = at vs fd in
        let r = fires_read reported v in
        let w = fires_write reported v in
        let hr' = only_registered (has reported 1) (broken reported) v.read hr in
        let hw' = only_registered (has reported 4) (broken reported) v.write hw in
        elim (Bool-cases (r || w)) [
          | inl any ↦
              let (m', e, f) =
                fired-Fires p fd v r w (get_elem?-at vs fd inside) other hr' hw' any in
              (m', handle-fire reported ∙ fire_lem epoll fd m r w v hr' hw' ∙ rw any e, rw any f)
          | inr nothing ↦ (
            m,
            handle-fire reported ∙ fire_lem epoll fd m r w v hr' hw' ∙ rw nothing,
            rw nothing (p, refl, refl),
          )
        ]

    pub cancel_all_lem :
        outside fd m ≡ false
        → (is_some (at vs fd).read || is_some (at vs fd).write) ≡ true
        → (b : Bool) × (m' : IoManager K) × (cancel_all epoll fd m ≡ some (b, m'))
          × ((b ≡ (ctl ctl_del fd 0 m.kernel).0) × Fires fd true true (at vs fd) vs m b m')
    unfolding cancel_all
    cancel_all_lem known any =
        let v = at vs fd in
        let k = (ctl ctl_del fd 0 m.kernel).1 in
        let count = lower (is_some v.write) (lower (is_some v.read) m.pending_event_count) in
        let out = push true v.write (push true v.read m.scheduled) in
        let start : cancel_all epoll fd m ≡ cleared epoll fd m v =
          rw (known, found) (cancel_all_in_lem epoll fd m v ∙ rw any) in
        elim (Bool-cases (ctl ctl_del fd 0 m.kernel).0) [
          | inl done ↦ (
            true,
            moved epoll fd m blank count out k,
            rw (start, done),
            (
              sym done,
              (
                changed epoll p fd v (get_elem?-at vs fd inside) other blank ctl_del 0 refl done
                    count out
                    (counted_down (is_some v.read) (is_some v.write) v.read v.write
                      m.pending_event_count (total vs) (total (set vs fd blank)) (λ e. e) (λ e. e)
                      p.counted
                      (omega (
                        arith,
                        total-set vs fd blank v (get_elem?-at vs fd inside),
                        weight_cleared v.read v.write,
                      ))),
                refl,
                refl,
              ),
            ),
          )
          | inr failed ↦ (
            false,
            record m { kernel = k },
            rw (start, failed),
            (
              sym failed,
              (refused epoll p fd v (get_elem?-at vs fd inside) other _ _ failed, refl, refl),
            ),
          )
        ]
