-- ===== src/LoadBalance/Stats.antt =====
-- HolderStats and HolderStatsSet of Sylar/streams/load_balance.h and load_balance.cc: the counters of an item, one
-- slot for each of the last seconds. Child module: `Slots`. A counter is a `uint32_t`; the weights, which are floats, are not
-- modelled.
pub mod Slots
use my_sylar_server.Base.{
  ℕ, zero, suc, ◌+◌, ◌-◌, ◌%◌, ◌^◌, ◌≤◌, ◌<◌, ◌≡◌, ◌≢◌, refl, sym, ap, ◌∙◌, Option, none, some,
  List, [], ◌∷◌, Bool, true, false, length, ltb, leb, ◌==◌, if◌then◌else◌, arith, Bool-cases, inl,
  inr, set, get_elem?, replicate,
}

pub record HolderStats : Type 0 where
  pub used_time : ℕ
  pub total : ℕ
  pub doing : ℕ
  pub timeouts : ℕ
  pub oks : ℕ
  pub errs : ℕ

-- `incUsedTime` to `incErrs`, and `decDoing`
abbrev pub add_fetch : ℕ → ℕ → ℕ
add_fetch x v = (x + v) % 2 ^ 32

abbrev pub sub_fetch : ℕ → ℕ → ℕ
sub_fetch x v = (x + 2 ^ 32 - v % 2 ^ 32) % 2 ^ 32

unfoldable pub inc_used_time : ℕ → HolderStats → HolderStats
inc_used_time v s = record s { used_time = add_fetch s.used_time v }

unfoldable pub inc_total : ℕ → HolderStats → HolderStats
inc_total v s = record s { total = add_fetch s.total v }

unfoldable pub inc_doing : ℕ → HolderStats → HolderStats
inc_doing v s = record s { doing = add_fetch s.doing v }

unfoldable pub inc_timeouts : ℕ → HolderStats → HolderStats
inc_timeouts v s = record s { timeouts = add_fetch s.timeouts v }

unfoldable pub inc_oks : ℕ → HolderStats → HolderStats
inc_oks v s = record s { oks = add_fetch s.oks v }

unfoldable pub inc_errs : ℕ → HolderStats → HolderStats
inc_errs v s = record s { errs = add_fetch s.errs v }

unfoldable pub dec_doing : ℕ → HolderStats → HolderStats
dec_doing v s = record s { doing = sub_fetch s.doing v }

-- The initial values, which are also what `clear` sets.
abbrev pub cleared : HolderStats
cleared = record { used_time = 0; total = 0; doing = 0; timeouts = 0; oks = 0; errs = 0 }

unfoldable pub clear : HolderStats → HolderStats
clear s = record s { used_time = 0; total = 0; doing = 0; timeouts = 0; oks = 0; errs = 0 }

pub record HolderStatsSet : Type 0 where
  pub last_update_time : ℕ
  pub stats : List HolderStats

unfoldable pub holder_stats_set : ℕ → HolderStatsSet
holder_stats_set size = record { last_update_time = 0; stats = replicate size cleared }

-- One slot is cleared.
unfoldable pub clear_at : List HolderStats → ℕ → List HolderStats
unfolding clear
clear_at [] i = []
clear_at (s ∷ stats) zero = clear s ∷ stats
clear_at (s ∷ stats) (suc i) = s ∷ clear_at stats i

-- The loop of `init` from the second `t` on, with `rounds` slots to go.
unfoldable pub init_loop : ℕ → ℕ → ℕ → List HolderStats → List HolderStats
init_loop zero t now stats = stats
init_loop (suc rounds) t now stats = elim (leb t now) [
  | true ↦ init_loop rounds ((t + 1) % 2 ^ 32) now (clear_at stats (t % length stats))
  | false ↦ stats
]

unfoldable pub init : ℕ → HolderStatsSet → HolderStatsSet
unfolding init_loop
init now s =
    if ltb s.last_update_time now
    then record {
      last_update_time = now;
      stats = init_loop (length s.stats) ((s.last_update_time + 1) % 2 ^ 32) now s.stats;
    }
    else s

-- `get`: the set behind the call, and the place of the slot that it gives; without slots the remainder
-- is undefined.
unfoldable pub get : ℕ → HolderStatsSet → Option (HolderStatsSet × ℕ)
unfolding init
get now s = if length s.stats == 0 then none else some (init now s, now % length s.stats)

-- The loop of `getTotal`.
unfoldable pub add_stats : HolderStats → List HolderStats → HolderStats
add_stats rt [] = rt
add_stats rt (i ∷ stats) =
    add_stats
      (record {
        used_time = add_fetch rt.used_time i.used_time;
        total = add_fetch rt.total i.total;
        doing = add_fetch rt.doing i.doing;
        timeouts = add_fetch rt.timeouts i.timeouts;
        oks = add_fetch rt.oks i.oks;
        errs = add_fetch rt.errs i.errs;
      })
      stats

unfoldable pub get_total : HolderStatsSet → HolderStats
unfolding add_stats
get_total s = add_stats cleared s.stats
