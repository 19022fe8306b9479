-- ===== src/Prelude/Bits.antt =====
-- Facts about `bit_and`, `bit_or` and `bit_xor` at variables, for every width.
use Prim.Native.Nat.{
  ℕ, zero, suc, ◌+◌, ◌-◌, ◌*◌, ◌/◌, ◌%◌, ◌^◌, ◌≤◌, ◌<◌, min, max, bit_and, bit_or, bit_xor, digits,
  bitwise, bit_and-bitwise, bit_or-bitwise, bit_xor-bitwise, differ,
}
use mathlib.Core.Path.{◌≡◌, refl, sym, ap, ap₂}
use native.Mathlib.Nat.{le_refl}
use native.Mathlib.Nat.{pow-suc, pow-succ', zero-add, suc-add, div-one, div-div-eq-div-mul}
use native.Mathlib.Omega.{arith}

-- `bitwise` with more fuel than digits is `bitwise`, by induction on a bound `k` of the fuel.
module _ (ends : ℕ → ℕ) (digit : ℕ → ℕ → ℕ) where
  digits_enough :
      (k fuel x y : ℕ) → fuel ≤ k → x ≤ fuel → digits ends digit fuel x y ≡ bitwise ends digit x y
  digits_enough k fuel zero y low fits = elim fuel as (λ n. digits ends digit n 0 y ≡ ends y) [
    | zero ↦ refl
    | suc n ↦ refl
  ]
  digits_enough k zero (suc x) y low fits = absurd (omega (arith, fits))
  digits_enough zero (suc fuel) (suc x) y low fits = absurd (omega (arith, low))
  digits_enough (suc k) (suc fuel) (suc x) y low fits =
      let long =
        digits_enough k fuel (suc x / 2) (y / 2) (omega (arith, low)) (omega (arith, fits)) in
      let short = digits_enough k x (suc x / 2) (y / 2) (omega (arith, low, fits)) (omega arith) in
      omega (arith, long, short)

  -- The equation of the lowest digit, where the end agrees with it.
  lowest_digit :
      ((y : ℕ) → ends y ≡ ends (y / 2) * 2 + digit 0 (y % 2))
      → (x y : ℕ)
      → bitwise ends digit x y ≡ bitwise ends digit (x / 2) (y / 2) * 2 + digit (x % 2) (y % 2)
  lowest_digit agree zero y = agree y
  lowest_digit agree (suc x) y =
      omega (arith, digits_enough x x (suc x / 2) (y / 2) (le_refl x) (omega arith))

pub bit_and_step : (a b : ℕ) → bit_and a b ≡ bit_and (a / 2) (b / 2) * 2 + min (a % 2) (b % 2)
bit_and_step a b = simp bit_and-bitwise (lowest_digit (λ y. 0) min (λ y. omega arith) a b)

pub bit_or_step : (a b : ℕ) → bit_or a b ≡ bit_or (a / 2) (b / 2) * 2 + max (a % 2) (b % 2)
bit_or_step a b = simp bit_or-bitwise (lowest_digit (λ y. y) max (λ y. omega arith) a b)

-- A bound by strong induction on the first operand: the fuel `n` is at least `a`.
bit_and_below : (n a b : ℕ) → a ≤ n → bit_and a b ≤ b
bit_and_below n zero b h = simp bit_and-bitwise (omega arith)
bit_and_below zero (suc a) b h = absurd (omega arith)
bit_and_below (suc n) (suc a) b h =
    omega (arith, bit_and_step (suc a) b, bit_and_below n (suc a / 2) (b / 2) (omega arith))

pub bit_and-le_right : (a b : ℕ) → bit_and a b ≤ b
bit_and-le_right a b = bit_and_below a a b (le_refl a)

bit_and-zero : (n a : ℕ) → a ≤ n → bit_and a 0 ≡ 0
bit_and-zero n a h = omega (arith, bit_and_below n a 0 h)

pub pow_pos : (k : ℕ) → 0 < 2 ^ k
pow_pos zero = omega arith
pow_pos (suc k) = rw (pow-suc 2 k) (omega (arith, pow_pos k))

mod_double : (m a : ℕ) → 0 < m → a / 2 % m * 2 + a % 2 ≡ a % (2 * m)
mod_double m a h = grind arith

mask_double :
    (m a : ℕ) → 0 < m → bit_and (a / 2) (m - 1) ≡ a / 2 % m → bit_and a (2 * m - 1) ≡ a % (2 * m)
mask_double m a h e =
    let odd : (2 * m - 1) / 2 ≡ m - 1 = omega arith in
    omega (arith, bit_and_step a (2 * m - 1), ap (bit_and (a / 2)) odd, mod_double m a h)

-- A mask of `k` ones keeps the `k` lowest digits.
pub bit_and-mask : (k a : ℕ) → bit_and a (2 ^ k - 1) ≡ a % 2 ^ k
bit_and-mask zero a = omega (arith, bit_and-zero a a (le_refl a))
bit_and-mask (suc k) a =
    rw (pow-succ' 2 k) (mask_double (2 ^ k) a (pow_pos k) (bit_and-mask k (a / 2)))

pub bit_xor_step : (a b : ℕ) → bit_xor a b ≡ bit_xor (a / 2) (b / 2) * 2 + differ (a % 2) (b % 2)
bit_xor_step a b = simp bit_xor-bitwise (lowest_digit (λ y. y) differ (λ y. omega arith) a b)

differ-lt : (x y : ℕ) → x < 2 → y < 2 → differ x y < 2
differ-lt zero y h k = k
differ-lt (suc zero) zero h k = omega arith
differ-lt (suc zero) (suc y) h k = omega arith
differ-lt (suc (suc x)) y h k = absurd (omega arith)

xor_half : (m a b : ℕ) → a < 2 * m → b < 2 * m → bit_xor (a / 2) (b / 2) < m → bit_xor a b < 2 * m
xor_half m a b h k l =
    omega (arith, bit_xor_step a b, differ-lt (a % 2) (b % 2) (omega arith) (omega arith))

-- Numbers of `k` digits have an exclusive or of `k` digits.
pub bit_xor-lt : (k a b : ℕ) → a < 2 ^ k → b < 2 ^ k → bit_xor a b < 2 ^ k
bit_xor-lt zero a b h l =
    let a0 : a ≡ 0 = omega arith in let b0 : b ≡ 0 = omega arith in rw (a0, b0) (omega arith)
bit_xor-lt (suc k) a b h l =
    let m = 2 ^ k in
    let a_lt : a < 2 * m = rw (pow-succ' 2 k) at h in
    let b_lt : b < 2 * m = rw (pow-succ' 2 k) at l in
    rw (pow-succ' 2 k)
      (xor_half m a b a_lt b_lt (bit_xor-lt k (a / 2) (b / 2) (omega arith) (omega arith)))

bit_or-zero : (n a : ℕ) → a ≤ n → bit_or a 0 ≡ a
bit_or-zero n zero h = simp bit_or-bitwise (omega arith)
bit_or-zero zero (suc a) h = absurd (omega arith)
bit_or-zero (suc n) (suc a) h =
    omega (arith, bit_or_step (suc a) 0, bit_or-zero n (suc a / 2) (omega arith))

-- `(h << 1) | b` for a single bit `b`.
pub or_double : (h b : ℕ) → b < 2 → bit_or (h * 2) b ≡ h * 2 + b
or_double h b l =
    let half : h * 2 / 2 ≡ h = omega arith in
    let none : b / 2 ≡ 0 = omega arith in
    omega (arith, bit_or_step (h * 2) b, ap₂ bit_or half none, bit_or-zero h h (le_refl h))

pub pow_add : (a b : ℕ) → 2 ^ (a + b) ≡ 2 ^ a * 2 ^ b
pow_add zero b = rw (zero-add b) (omega arith)
pow_add (suc a) b = rw (suc-add a b, pow-succ' 2 (a + b), pow-succ' 2 a, pow_add a b) (omega arith)

bit_and_half : (a b : ℕ) → bit_and a b / 2 ≡ bit_and (a / 2) (b / 2)
bit_and_half a b = omega (arith, bit_and_step a b)

-- A shift to the right goes through the digits.
pub bit_and_shift : (k a b : ℕ) → bit_and a b / 2 ^ k ≡ bit_and (a / 2 ^ k) (b / 2 ^ k)
bit_and_shift zero a b = rw (div-one (bit_and a b), div-one a, div-one b) refl
bit_and_shift (suc k) a b =
    rw
      (
        pow-succ' 2 k,
        sym (div-div-eq-div-mul (bit_and a b) 2 (2 ^ k)),
        sym (div-div-eq-div-mul a 2 (2 ^ k)),
        sym (div-div-eq-div-mul b 2 (2 ^ k)),
        bit_and_half a b,
      )
      (bit_and_shift k (a / 2) (b / 2))
