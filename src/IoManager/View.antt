-- ===== src/IoManager/View.antt =====
-- What an IOManager (Sylar/iomanager.cc) promises: for each descriptor and each of its two events
-- the task that waits for it, if there is one. `Represents` ties this view to the contexts, to the
-- interest list of epoll and to the count of pending events.
use my_sylar_server.Base.{
  ℕ, zero, suc, ◌+◌, ◌*◌, ◌%◌, ◌^◌, ◌≤◌, ◌≡◌, ◌≢◌, refl, ap, Option, none, some, List, [], ◌∷◌,
  ◌++◌, if◌then◌else◌, ◌==◌, length, get_elem?, set, replicate, arith,
}
use Prim.Native.Nat.{bit_or}
use my_sylar_server.IoManager.{
  Op, ctl_add, ctl_mod, ctl_del, Epoll, IoManager, FdContext, EventContext, Task, resume, callback,
  read_event, write_event, epollet, empty_context, fd_context, fresh_from,
}

-- The scheduler and the task.
abbrev pub Waiting : Type 0
Waiting = ℕ × Task

pub record View : Type 0 where
  pub read : Option Waiting
  pub write : Option Waiting

abbrev pub blank : View
blank = record { read = none; write = none }

abbrev pub context_of : Option Waiting → EventContext
context_of none = empty_context
context_of (some (s, resume f)) = record { scheduler = some s; fiber = some f; cb = none }
context_of (some (s, callback f)) = record { scheduler = some s; fiber = none; cb = some f }

abbrev pub bit_of : ℕ → Option Waiting → ℕ
bit_of bit none = 0
bit_of bit (some w) = bit

abbrev pub mask : View → ℕ
mask v = bit_of read_event v.read + bit_of write_event v.write

abbrev pub weight : View → ℕ
weight v = bit_of 1 v.read + bit_of 1 v.write

abbrev pub concrete : ℕ → View → FdContext
concrete i v = record {
  read = context_of v.read;
  write = context_of v.write;
  fd = i;
  events = mask v;
}

unfoldable pub concretes : ℕ → List View → List FdContext
concretes i [] = []
concretes i (v ∷ vs) = concrete i v ∷ concretes (suc i) vs

-- How many tasks wait.
unfoldable pub total : List View → ℕ
total [] = 0
total (v ∷ vs) = weight v + total vs

abbrev pub wanted : View → Option ℕ
wanted v = if mask v == 0 then none else some (bit_or epollet (mask v))

abbrev pub wanted_at : Option View → Option ℕ
wanted_at none = none
wanted_at (some v) = wanted v

-- The events of a descriptor; NONE is no argument of a method.
pub data Event : Type 0 where
  read : Event
  write : Event

abbrev pub value : Event → ℕ
value Event.read = read_event
value Event.write = write_event

abbrev pub slot : Event → View → Option Waiting
slot Event.read v = v.read
slot Event.write v = v.write

abbrev pub put : Event → Option Waiting → View → View
put Event.read w v = record v { read = w }
put Event.write w v = record v { write = w }

-- The operation of epoll_ctl that leads from one view to another.
abbrev pub op_from : View → View → Op
op_from v v' = if mask v == 0 then ctl_add else if mask v' == 0 then ctl_del else ctl_mod

module _ {K : Type 0} (epoll : Epoll K) where
  open epoll use {interest}

  pub record Represents (vs : List View) (m : IoManager K) : Type 0 where
    pub contexts_are : m.contexts ≡ concretes 0 vs
    pub registered : (i : ℕ) → i ≢ m.tickle_fd → interest m.kernel i ≡ wanted_at (get_elem? vs i)
    pub counted : m.pending_event_count ≡ total vs % 2 ^ 64
    pub enough : 32 ≤ length vs

pub get_elem?-concretes-some :
    (k : ℕ) (vs : List View) (i : ℕ) (v : View)
    → get_elem? vs i ≡ some v
    → get_elem? (concretes k vs) i ≡ some (concrete (k + i) v)
unfolding concretes
get_elem?-concretes-some k [] i v h = cc
get_elem?-concretes-some k (u ∷ vs) zero v h = ground arith
get_elem?-concretes-some k (u ∷ vs) (suc i) v h =
    ground (arith, get_elem?-concretes-some (suc k) vs i v)

pub length-concretes : (k : ℕ) (vs : List View) → length (concretes k vs) ≡ length vs
unfolding concretes
length-concretes k [] = refl
length-concretes k (v ∷ vs) = ap suc (length-concretes (suc k) vs)

pub set-concretes :
    (k : ℕ) (vs : List View) (i : ℕ) (v : View)
    → set (concretes k vs) i (concrete (k + i) v) ≡ concretes k (set vs i v)
unfolding concretes
set-concretes k [] i v = refl
set-concretes k (u ∷ vs) zero v = ground arith
set-concretes k (u ∷ vs) (suc i) v = ground (arith, set-concretes (suc k) vs i v)

pub concretes-append :
    (k : ℕ) (vs ws : List View)
    → concretes k (vs ++ ws) ≡ concretes k vs ++ concretes (k + length vs) ws
unfolding concretes
concretes-append k [] ws = ground arith
concretes-append k (v ∷ vs) ws = ground (arith, concretes-append (suc k) vs ws)

pub fresh_from-concretes : (k n : ℕ) → fresh_from k n ≡ concretes k (replicate n blank)
unfolding concretes fresh_from
fresh_from-concretes k zero = refl
fresh_from-concretes k (suc n) = ap (◌∷◌ (fd_context k)) (fresh_from-concretes (suc k) n)

pub total-set :
    (vs : List View) (i : ℕ) (u v : View)
    → get_elem? vs i ≡ some v
    → total (set vs i u) + weight v ≡ total vs + weight u
unfolding total
total-set [] i u v h = cc
total-set (w ∷ vs) zero u v h = ground arith
total-set (w ∷ vs) (suc i) u v h = ground (arith, total-set vs i u v)

pub total-append : (vs ws : List View) → total (vs ++ ws) ≡ total vs + total ws
unfolding total
total-append [] ws = omega arith
total-append (v ∷ vs) ws = omega (arith, total-append vs ws)

pub total_blank : (n : ℕ) → total (replicate n blank) ≡ 0
unfolding total
total_blank zero = refl
total_blank (suc n) = omega (arith, total_blank n)

pub weight-le : (v : View) → weight v ≤ 2
weight-le v = ground arith

pub total-le : (vs : List View) → total vs ≤ 2 * length vs
unfolding total
total-le [] = omega arith
total-le (v ∷ vs) = omega (arith, total-le vs, weight-le v)

pub get_elem?-set_self :
    (vs : List View) (i : ℕ) (u : View) {v : View}
    → get_elem? vs i ≡ some v
    → get_elem? (set vs i u) i ≡ some u
get_elem?-set_self [] i u h = cc
get_elem?-set_self (w ∷ vs) zero u h = refl
get_elem?-set_self (w ∷ vs) (suc i) u h = get_elem?-set_self vs i u h

pub get_elem?-set_ne :
    (vs : List View) (i j : ℕ) (u : View) → j ≢ i → get_elem? (set vs i u) j ≡ get_elem? vs j
get_elem?-set_ne [] i j u h = refl
get_elem?-set_ne (w ∷ vs) zero zero u h = absurd (h refl)
get_elem?-set_ne (w ∷ vs) zero (suc j) u h = refl
get_elem?-set_ne (w ∷ vs) (suc i) zero u h = refl
get_elem?-set_ne (w ∷ vs) (suc i) (suc j) u h = get_elem?-set_ne vs i j u (λ e. h (ap suc e))

pub wanted_at-blank :
    (vs : List View) (n i : ℕ)
    → wanted_at (get_elem? (vs ++ replicate n blank) i) ≡ wanted_at (get_elem? vs i)
wanted_at-blank [] zero i = refl
wanted_at-blank [] (suc n) zero = refl
wanted_at-blank [] (suc n) (suc i) = wanted_at-blank [] n i
wanted_at-blank (v ∷ vs) n zero = refl
wanted_at-blank (v ∷ vs) n (suc i) = wanted_at-blank vs n i
