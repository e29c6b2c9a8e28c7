-- ===== src/Prelude/Bits.antt =====
-- `bit_and` at variables: the masks `x & (2^k - 1)` and the power-of-two test.
use Prim.Native.Nat.{
  ℕ, zero, suc, ◌+◌, ◌-◌, ◌*◌, ◌/◌, ◌%◌, ◌^◌, ◌≤◌, ◌<◌, min, bit_and, digits, bit_and-bitwise,
}
use mathlib.Core.Path.{◌≡◌, refl, sym, ap, ◌∙◌}
use native.Mathlib.Omega.{arith}
use native.Mathlib.Nat.{pow-suc, div-add-mod, mod-lt, add-mul-mod_self_left, mod-eq_of_lt, mod_self}
use native.Mathlib.Decide.{dec_lt, ℕ_discrete}
use mathlib.Core.Bool.{Bool, true, not, ◌&&◌}
use mathlib.Core.Logic.{◌↔◌}
use usbmidi.Prelude.Tests.{◌==◌}

-- `bit_and` as the library explains it, with a bound on the digits
abbrev common : ℕ → ℕ → ℕ → ℕ
common bound x y = digits (λ n. zero) min bound x y

-- Any bound that is large enough gives the same.
common-bit_and : (top bound x y : ℕ) → bound ≤ top → x ≤ bound → common bound x y ≡ bit_and x y
common-bit_and top zero zero y in_top in_bound = sym (bit_and-bitwise 0 y)
common-bit_and top (suc bound) zero y in_top in_bound = sym (bit_and-bitwise 0 y)
common-bit_and top zero (suc x) y in_top in_bound = absurd (omega arith)
common-bit_and zero (suc bound) (suc x) y in_top in_bound = absurd (omega arith)
common-bit_and (suc top) (suc bound) (suc x) y in_top in_bound =
    let half = suc x / 2 in
    let one = common-bit_and top bound half (y / 2) (omega arith) (omega arith) in
    let other = common-bit_and top x half (y / 2) (omega arith) (omega arith) in
    omega (arith, one, other, bit_and-bitwise (suc x) y)

pub bit_and_step : (x y : ℕ) → bit_and x y ≡ bit_and (x / 2) (y / 2) * 2 + min (x % 2) (y % 2)
bit_and_step zero y =
    let none_left : bit_and 0 y ≡ 0 = bit_and-bitwise 0 y in
    let none_left_half : bit_and 0 (y / 2) ≡ 0 = bit_and-bitwise 0 (y / 2) in
    omega (arith, none_left, none_left_half)
bit_and_step (suc k) y =
    let half = common-bit_and k k (suc k / 2) (y / 2) (omega arith) (omega arith) in
    omega (arith, half, bit_and-bitwise (suc k) y)

bit_and-zero_below : (top x : ℕ) → x < top → bit_and x 0 ≡ 0
bit_and-zero_below zero x lt = absurd (omega arith)
bit_and-zero_below (suc top) x lt = elim (ℕ_discrete x 0) [
  | yes e ↦ ap (λ k. bit_and k 0) e
  | no ne ↦ omega (arith, bit_and_step x 0, bit_and-zero_below top (x / 2) (omega arith))
]

pub bit_and-zero : (x : ℕ) → bit_and x 0 ≡ 0
bit_and-zero x = bit_and-zero_below (x + 1) x (omega arith)

pub pow_pos : (k : ℕ) → 0 < 2 ^ k
pow_pos zero = omega arith
pow_pos (suc k) = omega (arith, pow-suc 2 k, pow_pos k)

-- the lowest digit of a remainder, and the others
mod_halves : (a p : ℕ) → 0 < p → a % (2 * p) ≡ 2 * (a / 2 % p) + a % 2
mod_halves a p h =
    let q = a / 2 / p in
    let e : a ≡ (2 * (a / 2 % p) + a % 2) + 2 * p * q = omega (arith, div-add-mod (a / 2) p) in
    let fits : 2 * (a / 2 % p) + a % 2 < 2 * p = omega (arith, mod-lt (a / 2) h) in
    ap (λ n. n % (2 * p)) e
    ∙ add-mul-mod_self_left (2 * (a / 2 % p) + a % 2) (2 * p) q
    ∙ mod-eq_of_lt fits

-- Masking by `2^k - 1` is the remainder by `2^k`.
pub bit_and_mask : (k a : ℕ) → bit_and a (2 ^ k - 1) ≡ a % 2 ^ k
bit_and_mask zero a = omega (arith, bit_and-zero a)
bit_and_mask (suc k) a = ground (
  arith,
  bit_and_step a (2 ^ suc k - 1),
  pow-suc 2 k,
  pow_pos k,
  bit_and_mask k (a / 2),
  mod_halves a (2 ^ k),
)

-- `n != 0 && (n & (n - 1)) == 0` of classic/ring.c
unfoldable pub is_power_of_two : ℕ → Bool
is_power_of_two n = not (n == 0) && bit_and n (n - 1) == 0

bit_and_self : (n a : ℕ) → a ≤ n → bit_and a a ≡ a
bit_and_self n zero h = refl
bit_and_self zero (suc a) h = absurd (omega arith)
bit_and_self (suc n) (suc a) h =
    omega (arith, bit_and_step (suc a) (suc a), bit_and_self n (suc a / 2) (omega arith))

-- Below an odd number above 1 the halves agree, so a bit is left.
odd-bit_and : (a : ℕ) → a % 2 ≡ 1 → bit_and a (a - 1) ≡ 0 → a ≡ 1
odd-bit_and a odd h = omega (
  arith,
  bit_and_step a (a - 1),
  bit_and_self a (a / 2) (omega arith),
  ap (λ n. bit_and (a / 2) n) (halves a odd),
)
  where
    halves : (a : ℕ) → a % 2 ≡ 1 → (a - 1) / 2 ≡ a / 2
    halves a odd = omega arith

power_of_fuel : (n a : ℕ) → a ≤ n → 0 < a → bit_and a (a - 1) ≡ 0 → (k : ℕ) × (a ≡ 2 ^ k)
power_of_fuel zero a le pos h = absurd (omega arith)
power_of_fuel (suc n) a le pos h = elim (dec_lt (a % 2) 1) [
  | no odd ↦ (0, odd-bit_and a (omega arith) h)
  | yes even ↦
      let below : (a - 1) / 2 ≡ a / 2 - 1 = omega arith in
      let half =
        power_of_fuel n (a / 2) (omega arith) (omega arith)
          (omega (arith, bit_and_step a (a - 1), ap (λ n. bit_and (a / 2) n) below)) in
      (suc half.0, omega (arith, half.1, pow-suc 2 half.0))
]

bit_and_pow : (k : ℕ) → bit_and (2 ^ k) (2 ^ k - 1) ≡ 0
bit_and_pow k = omega (arith, bit_and_mask k (2 ^ k), mod_self (2 ^ k))

-- The test of the ring's size accepts exactly the powers of two.
pub is_power_of_two_iff : (n : ℕ) → (is_power_of_two n ≡ true) ↔ ((k : ℕ) × (n ≡ 2 ^ k))
unfolding is_power_of_two
is_power_of_two_iff n = (
  λ h. power_of_fuel n n (omega arith) (ground arith) (ground arith),
  λ (k, e). rw e (ground (arith, pow_pos k, bit_and_pow k)),
)
