-- ===== src/Base/Turns.antt =====
-- A turn around a ring of places.
use native.Mathlib.Nat.{mod-eq_of_lt, add-mod_right}
use my_sylar_server.Base.{
  ℕ, ◌+◌, ◌-◌, ◌%◌, ◌<◌, ◌≡◌, inl, inr, ap, ◌∙◌, ltb, arith, Bool-cases, ltb→lt, ltb→le,
}

-- Every place is met on a turn from `r` on.
pub turn : (n r j : ℕ) → r < n → j < n → (k : ℕ) × (k < n) × ((r + k) % n ≡ j)
turn n r j h h' = elim (Bool-cases (ltb j r)) [
  | inl behind ↦ (
    j + n - r,
    omega (arith, ltb→lt j r behind),
    ap (λ (t : ℕ). t % n) (omega (arith, ltb→lt j r behind)) ∙ add-mod_right j n ∙ mod-eq_of_lt h',
  )
  | inr ahead ↦ (
    j - r,
    omega (arith, ltb→le j r ahead),
    ap (λ (t : ℕ). t % n) (omega (arith, ltb→le j r ahead)) ∙ mod-eq_of_lt h',
  )
]
