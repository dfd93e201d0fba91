-- ===== src/Base/Bits.antt =====
-- One step of `bit_and` and `bit_or` from the lowest digit, and a single bit that was set.
use Prim.Native.Nat.{
  ℕ, zero, suc, ◌+◌, ◌-◌, ◌*◌, ◌/◌, ◌%◌, ◌^◌, ◌<◌, ◌≤◌, max, min, bit_and, bit_or, digits,
  bit_and-bitwise, bit_or-bitwise,
}
use mathlib.Core.Path.{◌≡◌, refl, sym, ap, ap₂, ◌∙◌}
use mathlib.Core.Logic.{◌≢◌}
use native.Mathlib.Nat.{mul_assoc, mul_comm}
use native.Mathlib.Omega.{arith}

module _ (z : ℕ → ℕ) (f : ℕ → ℕ → ℕ) where
  enough_fuel : (n m a b : ℕ) → a ≤ n → a ≤ m → digits z f n a b ≡ digits z f m a b
  enough_fuel zero zero zero b p q = refl
  enough_fuel zero (suc m) zero b p q = refl
  enough_fuel (suc n) zero zero b p q = refl
  enough_fuel (suc n) (suc m) zero b p q = refl
  enough_fuel zero m (suc a) b p q = absurd (omega arith)
  enough_fuel (suc n) zero (suc a) b p q = absurd (omega arith)
  enough_fuel (suc n) (suc m) (suc a) b p q =
      omega (arith, enough_fuel n m (suc a / 2) (b / 2) (omega arith) (omega arith))

  lowest :
      (a b : ℕ)
      → digits z f (suc a) (suc a) b
        ≡ digits z f (suc a / 2) (suc a / 2) (b / 2) * 2 + f (suc a % 2) (b % 2)
  lowest a b =
      omega (arith, enough_fuel a (suc a / 2) (suc a / 2) (b / 2) (omega arith) (omega arith))

pub bit_or-lowest : (a b : ℕ) → bit_or a b ≡ bit_or (a / 2) (b / 2) * 2 + max (a % 2) (b % 2)
bit_or-lowest zero b = omega (arith, bit_or-bitwise 0 b, bit_or-bitwise 0 (b / 2))
bit_or-lowest (suc a) b =
    omega
      (arith, bit_or-bitwise (suc a) b, bit_or-bitwise (suc a / 2) (b / 2), lowest (λ b. b) max a b)

pub bit_and-lowest : (a b : ℕ) → bit_and a b ≡ bit_and (a / 2) (b / 2) * 2 + min (a % 2) (b % 2)
bit_and-lowest zero b = omega (arith, bit_and-bitwise 0 b, bit_and-bitwise 0 (b / 2))
bit_and-lowest (suc a) b =
    omega (
      arith,
      bit_and-bitwise (suc a) b,
      bit_and-bitwise (suc a / 2) (b / 2),
      lowest (λ b. 0) min a b,
    )

zero_fuel : (n a : ℕ) → a ≤ n → bit_and a 0 ≡ 0
zero_fuel n zero h = bit_and-bitwise 0 0
zero_fuel zero (suc a) h = absurd (omega arith)
zero_fuel (suc n) (suc a) h =
    omega (arith, bit_and-lowest (suc a) 0, zero_fuel n (suc a / 2) (omega arith))

pub bit_and-zero : (a : ℕ) → bit_and a 0 ≡ 0
bit_and-zero a = zero_fuel a a (omega arith)

self_fuel : (n a : ℕ) → a ≤ n → bit_and a a ≡ a
self_fuel n zero h = bit_and-bitwise 0 0
self_fuel zero (suc a) h = absurd (omega arith)
self_fuel (suc n) (suc a) h =
    omega (arith, bit_and-lowest (suc a) (suc a), self_fuel n (suc a / 2) (omega arith))

bit_and_self : (a : ℕ) → bit_and a a ≡ a
bit_and_self a = self_fuel a a (omega arith)

least_fuel : (n a b : ℕ) → a ≤ n → bit_and a b ≤ a
least_fuel n zero b h = omega (arith, bit_and-bitwise 0 b)
least_fuel zero (suc a) b h = absurd (omega arith)
least_fuel (suc n) (suc a) b h =
    omega (arith, bit_and-lowest (suc a) b, least_fuel n (suc a / 2) (b / 2) (omega arith))

pub bit_and-le : (a b : ℕ) → bit_and a b ≤ a
bit_and-le a b = least_fuel a a b (omega arith)

-- `a & (a - 1)`, for an odd number and for an even one.
pub bit_and-odd : (a : ℕ) → a % 2 ≡ 1 → bit_and a (a - 1) ≡ a - 1
bit_and-odd a h =
    let same : (a - 1) / 2 ≡ a / 2 = omega arith in
    omega (arith, bit_and-lowest a (a - 1), ap (bit_and (a / 2)) same, bit_and_self (a / 2))

pub bit_and-even : (a : ℕ) → a % 2 ≡ 0 → a ≢ 0 → bit_and a (a - 1) ≡ 2 * bit_and (a / 2) (a / 2 - 1)
bit_and-even a h nz =
    let less : (a - 1) / 2 ≡ a / 2 - 1 = omega arith in
    omega (arith, bit_and-lowest a (a - 1), ap (bit_and (a / 2)) less)

or_zero_fuel : (n a : ℕ) → a ≤ n → bit_or a 0 ≡ a
or_zero_fuel n zero h = bit_or-bitwise 0 0
or_zero_fuel zero (suc a) h = absurd (omega arith)
or_zero_fuel (suc n) (suc a) h =
    omega (arith, bit_or-lowest (suc a) 0, or_zero_fuel n (suc a / 2) (omega arith))

pub bit_or-zero : (a : ℕ) → bit_or a 0 ≡ a
bit_or-zero a = or_zero_fuel a a (omega arith)

-- `1 << k`.
abbrev pub bit : ℕ → ℕ
bit zero = 1
bit (suc k) = 2 * bit k

or_double : (a b : ℕ) → bit_or a (2 * b) ≡ bit_or (a / 2) b * 2 + a % 2
or_double a b =
    let half : 2 * b / 2 ≡ b = omega arith in
    omega (arith, bit_or-lowest a (2 * b), ap (bit_or (a / 2)) half)

and_double : (a b : ℕ) → bit_and a (2 * b) ≡ bit_and (a / 2) b * 2
and_double a b =
    let half : 2 * b / 2 ≡ b = omega arith in
    omega (arith, bit_and-lowest a (2 * b), ap (bit_and (a / 2)) half)

-- `(a | b) & b` for a single bit `b`.
pub bit_or-bit_and_ne : (k a : ℕ) → bit_and (bit_or a (bit k)) (bit k) ≢ 0
bit_or-bit_and_ne zero a h = omega (arith, bit_and-lowest (bit_or a 1) 1, bit_or-lowest a 1)
bit_or-bit_and_ne (suc k) a h =
    let rest : bit_or a (2 * bit k) / 2 ≡ bit_or (a / 2) (bit k) =
      omega (arith, or_double a (bit k)) in
    bit_or-bit_and_ne k (a / 2)
      (omega (arith, and_double (bit_or a (2 * bit k)) (bit k), ap (λ x. bit_and x (bit k)) rest))

-- Bit `k`, and what stands above it.
abbrev pub half : ℕ → ℕ → ℕ
half zero m = m
half (suc k) m = half k (m / 2)

-- `(a & m) & b` for a single bit `b` that the mask `m` clears.
pub bit_and-bit_and-zero : (k a m : ℕ) → half k m % 2 ≡ 0 → bit_and (bit_and a m) (bit k) ≡ 0
bit_and-bit_and-zero zero a m h =
    omega
      (arith, bit_and-lowest (bit_and a m) 1, bit_and-lowest a m, bit_and-zero (bit_and a m / 2))
bit_and-bit_and-zero (suc k) a m h =
    let rest : bit_and a m / 2 ≡ bit_and (a / 2) (m / 2) = omega (arith, bit_and-lowest a m) in
    omega (
      arith,
      and_double (bit_and a m) (bit k),
      ap (λ x. bit_and x (bit k)) rest,
      bit_and-bit_and-zero k (a / 2) (m / 2) h,
    )

-- `n << k`.
abbrev shift : ℕ → ℕ → ℕ
shift zero n = n
shift (suc k) n = 2 * shift k n

shift_lem : (k n : ℕ) → shift k n ≡ n * 2 ^ k
shift_lem zero n = grind arith
shift_lem (suc k) n =
    let two : n * 2 ^ suc k ≡ n * (2 * 2 ^ k) = ap (λ x. n * x) (omega arith) in
    omega (
      arith,
      shift_lem k n,
      two,
      mul_assoc n 2 (2 ^ k),
      mul_comm n 2,
      mul_assoc 2 n (2 ^ k),
      ap (λ x. x * 2 ^ k) (mul_comm n 2),
    )

and_low : (k n a : ℕ) → a < 2 ^ k → bit_and (shift k n + a) (2 ^ k - 1) ≡ a
and_low zero n a lt = omega (arith, bit_and-zero (n + a))
and_low (suc k) n a lt =
    let h : (2 * shift k n + a) / 2 ≡ shift k n + a / 2 = omega arith in
    let m : (2 ^ suc k - 1) / 2 ≡ 2 ^ k - 1 = omega arith in
    omega (
      arith,
      bit_and-lowest (2 * shift k n + a) (2 ^ suc k - 1),
      ap₂ bit_and h m,
      and_low k n (a / 2) (omega arith),
    )

or_low : (k n a : ℕ) → a < 2 ^ k → bit_or (shift k n + a) (2 ^ k - 1) ≡ shift k n + (2 ^ k - 1)
or_low zero n a lt = omega (arith, bit_or-zero (n + a))
or_low (suc k) n a lt =
    let h : (2 * shift k n + a) / 2 ≡ shift k n + a / 2 = omega arith in
    let m : (2 ^ suc k - 1) / 2 ≡ 2 ^ k - 1 = omega arith in
    omega (
      arith,
      bit_or-lowest (2 * shift k n + a) (2 ^ suc k - 1),
      ap₂ bit_or h m,
      or_low k n (a / 2) (omega arith),
    )

-- A word and a mask of its lowest `k` bits.
pub bit_and-mask : (k n a : ℕ) → a < 2 ^ k → bit_and (n * 2 ^ k + a) (2 ^ k - 1) ≡ a
bit_and-mask k n a lt =
    ap (λ x. bit_and (x + a) (2 ^ k - 1)) (sym (shift_lem k n)) ∙ and_low k n a lt

pub bit_or-mask :
    (k n a : ℕ) → a < 2 ^ k → bit_or (n * 2 ^ k + a) (2 ^ k - 1) ≡ n * 2 ^ k + (2 ^ k - 1)
bit_or-mask k n a lt =
    ap (λ x. bit_or (x + a) (2 ^ k - 1)) (sym (shift_lem k n))
    ∙ (or_low k n a lt ∙ ap (λ x. x + (2 ^ k - 1)) (shift_lem k n))
