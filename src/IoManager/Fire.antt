-- ===== src/IoManager/Fire.antt =====
-- cancelAll and the events that idle fires (Sylar/iomanager.cc): both events of a descriptor in one
-- call, for every view that its context can stand for.
use my_sylar_server.Base.{
  ℕ, zero, suc, ◌+◌, ◌≡◌, ◌≢◌, refl, ap, ◌∙◌, Bool, true, false, not, ◌||◌, Option, none, some,
  List, [], ◌∷◌, ◌++◌, if◌then◌else◌, set,
}
use my_sylar_server.IoManager.{Epoll, IoManager, resume, callback, decremented, ctl_del}
use my_sylar_server.IoManager.Methods.{cancel_all_in, fire}
use my_sylar_server.IoManager.View.{Waiting, View, blank, concrete}
use my_sylar_server.IoManager.Refine.{call}
use my_sylar_server.IoManager.Laws.{moved}

abbrev pub real_of : Bool → Bool → ℕ
real_of r w = (if r then 1 else 0) + (if w then 4 else 0)

-- What is left of a slot whose event fires or does not.
abbrev pub left_of : Bool → Option Waiting → Option Waiting
left_of fires o = if fires then none else o

abbrev pub left : Bool → Bool → View → View
left r w v = record { read = left_of r v.read; write = left_of w v.write }

abbrev pub push : Bool → Option Waiting → List Waiting → List Waiting
push true (some x) out = out ++ x ∷ []
push true none out = out
push false o out = out

abbrev pub lower : Bool → ℕ → ℕ
lower fires p = if fires then decremented p else p

abbrev pub is_some : Option Waiting → Bool
is_some none = false
is_some (some x) = true

pub set_set {ℓ} : {A : Type ℓ} (xs : List A) (i : ℕ) (a b : A) → set (set xs i a) i b ≡ set xs i b
set_set [] i a b = refl
set_set (x ∷ xs) zero a b = refl
set_set (x ∷ xs) (suc i) a b = ap (◌∷◌ x) (set_set xs i a b)

module _ {K : Type 0} (epoll : Epoll K) (fd : ℕ) (m : IoManager K) where
  open epoll use {ctl}

  abbrev pub fired : Bool → Bool → View → Option (IoManager K)
  fired r w v =
      let a = call epoll fd v (left r w v) m in
      if not a.0
      then some (record m { kernel = a.1 })
      else some (
          moved epoll fd m (left r w v) (lower w (lower r m.pending_event_count))
            (push w v.write (push r v.read m.scheduled)) a.1)

  fire_read :
      (x : Waiting) (u : Option Waiting)
      → fire epoll 1 fd (concrete fd (record { read = some x; write = u })) m
        ≡ fired true false (record { read = some x; write = u })
  unfolding fire
  fire_read (s, resume f) none = refl
  fire_read (s, callback f) none = refl
  fire_read (s, resume f) (some y) = refl
  fire_read (s, callback f) (some y) = refl

  fire_write :
      (r : Option Waiting) (x : Waiting)
      → fire epoll 4 fd (concrete fd (record { read = r; write = some x })) m
        ≡ fired false true (record { read = r; write = some x })
  unfolding fire
  fire_write none (s, resume f) = refl
  fire_write none (s, callback f) = refl
  fire_write (some y) (s, resume f) = refl
  fire_write (some y) (s, callback f) = refl

  fire_both :
      (x y : Waiting)
      → fire epoll 5 fd (concrete fd (record { read = some x; write = some y })) m
        ≡ fired true true (record { read = some x; write = some y })
  unfolding fire
  fire_both (s, resume f) (t, resume g) = rw set_set
  fire_both (s, resume f) (t, callback g) = rw set_set
  fire_both (s, callback f) (t, resume g) = rw set_set
  fire_both (s, callback f) (t, callback g) = rw set_set

  fire_none :
      (r w : Option Waiting)
      → fire epoll 0 fd (concrete fd (record { read = r; write = w })) m ≡ some m
  unfolding fire
  fire_none none none = refl
  fire_none none (some x) = refl
  fire_none (some x) none = refl
  fire_none (some x) (some y) = refl

  fire_fields :
      (r w : Bool) (a b : Option Waiting)
      → (r ≡ true → is_some a ≡ true)
      → (w ≡ true → is_some b ≡ true)
      → fire epoll (real_of r w) fd (concrete fd (record { read = a; write = b })) m
        ≡ (if r || w then fired r w (record { read = a; write = b }) else some m)
  fire_fields false false a b p q = fire_none a b
  fire_fields true w none b p q = cc (p refl)
  fire_fields true false (some x) b p q = fire_read x b
  fire_fields r true a none p q = cc (q refl)
  fire_fields false true a (some y) p q = fire_write a y
  fire_fields true true (some x) (some y) p q = fire_both x y

  -- The reported events are among those that are registered.
  pub fire_lem :
      (r w : Bool) (v : View)
      → (r ≡ true → is_some v.read ≡ true)
      → (w ≡ true → is_some v.write ≡ true)
      → fire epoll (real_of r w) fd (concrete fd v) m ≡ (if r || w then fired r w v else some m)
  fire_lem r w v = fire_fields r w v.read v.write

  fire_stale_read :
      (u : Waiting)
      → fire epoll 5 fd (concrete fd (record { read = none; write = some u })) m ≡ (
          let a = call epoll fd (record { read = none; write = some u }) blank m in
          if not a.0 then some (record m { kernel = a.1 }) else none)
  unfolding fire
  fire_stale_read u = refl

  fire_stale_write :
      (u : Waiting)
      → fire epoll 5 fd (concrete fd (record { read = some u; write = none })) m ≡ (
          let a = call epoll fd (record { read = some u; write = none }) blank m in
          if not a.0 then some (record m { kernel = a.1 }) else none)
  unfolding fire
  fire_stale_write (s, resume f) = refl
  fire_stale_write (s, callback f) = refl

  stale_fields :
      (a b : Option Waiting)
      → is_some a ≢ is_some b
      → (call epoll fd (record { read = a; write = b }) blank m).0 ≡ true
      → fire epoll 5 fd (concrete fd (record { read = a; write = b })) m ≡ none
  stale_fields none none one done = absurd (one refl)
  stale_fields (some x) (some y) one done = absurd (one refl)
  stale_fields none (some y) one done = fire_stale_read y ∙ rw done
  stale_fields (some x) none one done = fire_stale_write x ∙ rw done

  -- Both events are reported and one of them is not registered.
  pub fire_stale :
      (v : View)
      → is_some v.read ≢ is_some v.write
      → (call epoll fd v blank m).0 ≡ true
      → fire epoll 5 fd (concrete fd v) m ≡ none
  fire_stale v = stale_fields v.read v.write

  abbrev pub cleared : View → Option (Bool × IoManager K)
  cleared v =
      let a = ctl ctl_del fd 0 m.kernel in
      if not a.0
      then some (false, record m { kernel = a.1 })
      else some (
        true,
        moved epoll fd m blank
            (lower (is_some v.write) (lower (is_some v.read) m.pending_event_count))
            (push true v.write (push true v.read m.scheduled)) a.1,
      )

  cancel_one :
      (x : Waiting)
      → cancel_all_in epoll fd (concrete fd (record { read = some x; write = none })) m
        ≡ cleared (record { read = some x; write = none })
  unfolding cancel_all_in
  cancel_one (s, resume f) = rw set_set
  cancel_one (s, callback f) = rw set_set

  cancel_other :
      (y : Waiting)
      → cancel_all_in epoll fd (concrete fd (record { read = none; write = some y })) m
        ≡ cleared (record { read = none; write = some y })
  unfolding cancel_all_in
  cancel_other (s, resume f) = rw set_set
  cancel_other (s, callback f) = rw set_set

  cancel_both :
      (x y : Waiting)
      → cancel_all_in epoll fd (concrete fd (record { read = some x; write = some y })) m
        ≡ cleared (record { read = some x; write = some y })
  unfolding cancel_all_in
  cancel_both (s, resume f) (t, resume g) = rw (set_set, set_set)
  cancel_both (s, resume f) (t, callback g) = rw (set_set, set_set)
  cancel_both (s, callback f) (t, resume g) = rw (set_set, set_set)
  cancel_both (s, callback f) (t, callback g) = rw (set_set, set_set)

  cancel_fields :
      (r w : Option Waiting)
      → cancel_all_in epoll fd (concrete fd (record { read = r; write = w })) m ≡ (
          if is_some r || is_some w
          then cleared (record { read = r; write = w })
          else some (false, m))
  unfolding cancel_all_in
  cancel_fields none none = refl
  cancel_fields (some x) none = cancel_one x
  cancel_fields none (some y) = cancel_other y
  cancel_fields (some x) (some y) = cancel_both x y

  pub cancel_all_in_lem :
      (v : View)
      → cancel_all_in epoll fd (concrete fd v) m
        ≡ (if is_some v.read || is_some v.write then cleared v else some (false, m))
  cancel_all_in_lem v = cancel_fields v.read v.write
