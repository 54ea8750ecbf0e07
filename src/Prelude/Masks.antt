-- ===== src/Prelude/Masks.antt =====
-- A mask of the lowest digits keeps the rest of a division by a power of two.
use Prim.Native.Nat.{
  ℕ, zero, suc, ◌+◌, ◌-◌, ◌*◌, ◌/◌, ◌%◌, ◌^◌, ◌≤◌, ◌<◌, min, bit_and, digits, bit_and-bitwise,
}
use mathlib.Core.Path.{◌≡◌, sym, ap, ◌∙◌}
use native.Mathlib.Nat.{
  div-add-mod, mod-lt, mod-eq_of_lt, add-mul-mod_self_left, mul_assoc, pow-suc, zero-mod,
}
use native.Mathlib.Omega.{arith}

-- The rest of a division by twice a number, by that of the half.
half-mod : (a m : ℕ) → 1 ≤ m → (a / 2) % m * 2 + a % 2 ≡ a % (2 * m)
half-mod a m h =
    let small : (a / 2) % m < m = mod-lt (a / 2) (omega arith) in
    let whole : m * (a / 2 / m) + (a / 2) % m ≡ a / 2 = div-add-mod (a / 2) m in
    let assoc : 2 * m * (a / 2 / m) ≡ 2 * (m * (a / 2 / m)) = mul_assoc 2 m (a / 2 / m) in
    let split : ((a / 2) % m * 2 + a % 2) + 2 * m * (a / 2 / m) ≡ a = omega (arith, whole, assoc) in
    sym (mod-eq_of_lt (omega (arith, small)))
    ∙ sym (add-mul-mod_self_left ((a / 2) % m * 2 + a % 2) (2 * m) (a / 2 / m))
    ∙ ap (λ x. x % (2 * m)) split

pub pow_pos : (k : ℕ) → 1 ≤ 2 ^ k
pow_pos zero = omega arith
pow_pos (suc k) = omega (arith, pow-suc 2 k, pow_pos k)

digits-mask : (fuel a k : ℕ) → a ≤ fuel → digits (λ b. 0) min fuel a (2 ^ k - 1) ≡ a % 2 ^ k
digits-mask zero a k h =
    let none : a ≡ 0 = omega arith in sym (zero-mod (2 ^ k)) ∙ ap (λ x. x % 2 ^ k) (sym none)
digits-mask (suc n) zero k h = sym (zero-mod (2 ^ k))
digits-mask (suc n) (suc a) zero h =
    let rest = digits-mask n (suc a / 2) 0 (omega arith) in omega (arith, rest)
digits-mask (suc n) (suc a) (suc k) h =
    let double : 2 ^ suc k ≡ 2 ^ k * 2 = pow-suc 2 k in
    let some : 1 ≤ 2 ^ k = pow_pos k in
    let half : (2 ^ suc k - 1) / 2 ≡ 2 ^ k - 1 = omega (arith, double, some) in
    let odd : (2 ^ suc k - 1) % 2 ≡ 1 = omega (arith, double, some) in
    let rest = digits-mask n (suc a / 2) k (omega arith) in
    let low : min (suc a % 2) 1 ≡ suc a % 2 = omega arith in
    let twice : 2 * 2 ^ k ≡ 2 ^ suc k = omega (arith, double) in
    rw (half, odd, rest, low) (half-mod (suc a) (2 ^ k) some ∙ ap (λ m. suc a % m) twice)

-- `a & (2^k - 1)`
pub bit_and-mask : (a k : ℕ) → bit_and a (2 ^ k - 1) ≡ a % 2 ^ k
bit_and-mask a k = (λ i. bit_and-bitwise a (2 ^ k - 1) i) ∙ digits-mask a a k (omega arith)
