-- ===== src/Base/Bytes.antt =====
-- `bit_and` and `bit_or` of words that are put together from parts.
use Prim.Native.Nat.{ℕ, zero, suc, ◌+◌, ◌*◌, ◌/◌, ◌%◌, ◌^◌, ◌<◌, min, max, bit_and, bit_or}
use mathlib.Core.Path.{◌≡◌, refl, ap, ap₂}
use native.Mathlib.Nat.{mul_assoc, mul_comm}
use native.Mathlib.Omega.{arith}
use lt.Base.Bits.{bit_or-lowest, bit_and-lowest}

pub mul-two-pow : (n k : ℕ) → n * 2 ^ suc k ≡ 2 * (n * 2 ^ k)
mul-two-pow n k =
    let two : n * 2 ^ suc k ≡ n * (2 * 2 ^ k) = ap (λ x. n * x) (omega arith) in
    omega
      (arith, two, mul_assoc n 2 (2 ^ k), mul_assoc 2 n (2 ^ k), ap (λ x. x * 2 ^ k) (mul_comm n 2))

-- An operation that works on each digit works on the parts of a word.
module _ (op f : ℕ → ℕ → ℕ) (zeros : op 0 0 ≡ 0)
    (lowest : (a b : ℕ) → op a b ≡ op (a / 2) (b / 2) * 2 + f (a % 2) (b % 2)) where
  split :
      (k m n a b : ℕ)
      → a < 2 ^ k
      → b < 2 ^ k
      → op (m * 2 ^ k + a) (n * 2 ^ k + b) ≡ op m n * 2 ^ k + op a b
  split zero m n a b p q =
      let az : a ≡ 0 = omega arith in
      let bz : b ≡ 0 = omega arith in
      let left : m * 2 ^ 0 + a ≡ m = omega arith in
      let right : n * 2 ^ 0 + b ≡ n = omega arith in
      omega (arith, zeros, ap₂ op left right, ap₂ op az bz)
  split (suc k) m n a b p q =
      let u = m * 2 ^ suc k + a in
      let v = n * 2 ^ suc k + b in
      let half_u : u / 2 ≡ m * 2 ^ k + a / 2 = omega (arith, mul-two-pow m k) in
      let half_v : v / 2 ≡ n * 2 ^ k + b / 2 = omega (arith, mul-two-pow n k) in
      let low : f (u % 2) (v % 2) ≡ f (a % 2) (b % 2) =
        ap₂ f (omega (arith, mul-two-pow m k)) (omega (arith, mul-two-pow n k)) in
      omega (
        arith,
        lowest u v,
        ap₂ op half_u half_v,
        low,
        split k m n (a / 2) (b / 2) (omega arith) (omega arith),
        mul-two-pow (op m n) k,
        lowest a b,
      )

pub bit_or-split :
    (k m n a b : ℕ)
    → a < 2 ^ k
    → b < 2 ^ k
    → bit_or (m * 2 ^ k + a) (n * 2 ^ k + b) ≡ bit_or m n * 2 ^ k + bit_or a b
bit_or-split = split bit_or max refl bit_or-lowest

pub bit_and-split :
    (k m n a b : ℕ)
    → a < 2 ^ k
    → b < 2 ^ k
    → bit_and (m * 2 ^ k + a) (n * 2 ^ k + b) ≡ bit_and m n * 2 ^ k + bit_and a b
bit_and-split = split bit_and min refl bit_and-lowest

-- The result of `|` fits where both sides do.
pub bit_or-lt : (k a b : ℕ) → a < 2 ^ k → b < 2 ^ k → bit_or a b < 2 ^ k
bit_or-lt zero a b p q =
    let az : a ≡ 0 = omega arith in let bz : b ≡ 0 = omega arith in omega (arith, ap₂ bit_or az bz)
bit_or-lt (suc k) a b p q =
    omega (arith, bit_or-lowest a b, bit_or-lt k (a / 2) (b / 2) (omega arith) (omega arith))
