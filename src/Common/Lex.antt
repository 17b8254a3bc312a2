-- ===== src/Common/Lex.antt =====
-- Numbers in the form `a * n + r` with a remainder below `n` compare as pairs do.
use Prim.Native.Nat.{ℕ, ◌+◌, ◌*◌, ◌/◌, ◌%◌, ◌≤◌, ◌<◌}
use mathlib.Core.Path.{◌≡◌, ap, ◌∙◌}
use mathlib.Core.Logic.{◌⊎◌, inl, inr}
use native.Mathlib.Decide.{dec_lt}
use native.Mathlib.Omega.{arith}
use native.Mathlib.Nat.{
  mul-add-mod_self_right, mod-eq_of_lt, mul-add-div_right, mul-le-mul_right, div-eq_of_lt,
}

pub mul_step : (a b n : ℕ) → a < b → a * n + n ≤ b * n
mul_step a b n h = omega (arith, mul-le-mul_right n h)

module _ (n a r b t : ℕ) (hr : r < n) (ht : t < n) where
  pub lex_le : a * n + r ≤ b * n + t → (a < b) ⊎ ((a ≡ b) × (r ≤ t))
  lex_le h = elim (dec_lt a b) [
    | yes p ↦ inl p
    | no p ↦ elim (dec_lt b a) [
      | yes q ↦ absurd (omega (arith, mul_step b a n q))
      | no q ↦ let e : a ≡ b = omega arith in inr (e, omega (arith, ap (λ (x : ℕ). x * n) e))
    ]
  ]

  pub le_lex : (a < b) ⊎ ((a ≡ b) × (r ≤ t)) → a * n + r ≤ b * n + t
  le_lex (inl p) = omega (arith, mul_step a b n p)
  le_lex (inr p) = omega (arith, ap (λ (x : ℕ). x * n) p.0, p.1)

pub div_unique : (n a r : ℕ) → r < n → (a * n + r) / n ≡ a
div_unique n a r h = mul-add-div_right {m = n} (omega arith) a r ∙ omega (arith, div-eq_of_lt h)

pub mod_unique : (n a r : ℕ) → r < n → (a * n + r) % n ≡ r
mod_unique n a r h = mul-add-mod_self_right a n r ∙ mod-eq_of_lt h
