-- ===== src/Common/Bits.antt =====
-- A mask of `k` ones keeps the remainder by `2 ^ k`: `x & (size - 1)` for a power of two.
use Prim.Native.Nat.{
  ℕ, zero, suc, ◌+◌, ◌-◌, ◌*◌, ◌/◌, ◌%◌, ◌^◌, ◌≤◌, ◌<◌, min, bit_and, digits, bit_and-bitwise,
}
use mathlib.Core.Path.{◌≡◌, sym, ap, ◌∙◌}
use native.Mathlib.Omega.{arith}
use native.Mathlib.Nat.{
  pow-suc, one-le-pow, mod-lt, div-add-mod, mul-add-mod_self_left, mod-eq_of_lt, zero-mod, le_refl,
}

pub pow-pos : (k : ℕ) → 0 < 2 ^ k
pow-pos k = one-le-pow k 2 (omega arith)

-- The last binary digit of a remainder.
mod-double : (x p : ℕ) → 0 < p → x % (p * 2) ≡ (x / 2 % p) * 2 + x % 2
mod-double x p h =
    ap (λ t. t % (p * 2)) split ∙ mul-add-mod_self_left (p * 2) q s ∙ mod-eq_of_lt small
  where
    q : ℕ
    q = x / 2 / p

    s : ℕ
    s = (x / 2 % p) * 2 + x % 2

    half : p * q + x / 2 % p ≡ x / 2
    half = div-add-mod (x / 2) p

    split : x ≡ p * 2 * q + s
    split = omega (arith, half)

    small : s < p * 2
    small = omega (arith, mod-lt (x / 2) h)

mask : (k : ℕ) → ℕ
mask k = 2 ^ k - 1

mask-suc : (k : ℕ) → (mask (suc k) / 2 ≡ mask k) × (mask (suc k) % 2 ≡ 1)
unfolding mask
mask-suc k = omega (arith, pow-suc 2 k, pow-pos k)

masked_digits : (n a k : ℕ) → a ≤ n → digits (λ _. 0) min n a (mask k) ≡ a % 2 ^ k
unfolding mask
masked_digits zero zero k h = sym (zero-mod (2 ^ k))
masked_digits zero (suc a) k h = absurd (omega arith)
masked_digits (suc n) zero k h = sym (zero-mod (2 ^ k))
masked_digits (suc n) (suc a) zero h = omega (arith, masked_digits n (suc a / 2) 0 (omega arith))
masked_digits (suc n) (suc a) (suc k) h =
    rw ((mask-suc k).0, (mask-suc k).1, pow-suc 2 k)
      (omega (
        arith,
        masked_digits n (suc a / 2) k (omega arith),
        mod-double (suc a) (2 ^ k) (pow-pos k),
      ))

-- The mask in the form the sources write it.
pub bit_and-mask : (x k : ℕ) → bit_and x (2 ^ k - 1) ≡ x % 2 ^ k
unfolding mask
bit_and-mask x k = bit_and-bitwise x (2 ^ k - 1) ∙ masked_digits x x k (le_refl x)
