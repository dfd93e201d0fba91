-- ===== src/Endian/Swaps.antt =====
-- The byte swaps (include/Endian.h) and the operations on digits.
use Prim.Native.Nat.{bit_and, bit_or}
use lt.Base.{ℕ, ◌+◌, ◌*◌, ◌/◌, ◌%◌, ◌^◌, ◌<◌, ◌≡◌, sym, ap, ap₂, ◌∙◌, arith, bit_and-le}
use lt.Base.Bytes.{bit_or-split, bit_and-split, bit_or-lt}
use lt.Endian.{byteswap16, byteswap32, byteswap64}

pub byteswap16_twice : (x : ℕ) → x < 2 ^ 16 → byteswap16 (byteswap16 x) ≡ x
unfolding byteswap16
byteswap16_twice x lt = omega arith

pub byteswap16-lt : (x : ℕ) → byteswap16 x < 2 ^ 16
unfolding byteswap16
byteswap16-lt x = omega arith

pub byteswap32-lt : (x : ℕ) → byteswap32 x < 2 ^ 32
unfolding byteswap32
byteswap32-lt x = omega (arith, byteswap16-lt (x % 2 ^ 16), byteswap16-lt (x / 2 ^ 16 % 2 ^ 16))

pub byteswap32_twice : (x : ℕ) → x < 2 ^ 32 → byteswap32 (byteswap32 x) ≡ x
unfolding byteswap32
byteswap32_twice x lt =
    let lo = byteswap16 (x % 2 ^ 16) in
    let hi = byteswap16 (x / 2 ^ 16 % 2 ^ 16) in
    let first : (lo * 2 ^ 16 + hi) % 2 ^ 16 ≡ hi =
      omega (arith, byteswap16-lt (x / 2 ^ 16 % 2 ^ 16)) in
    let second : (lo * 2 ^ 16 + hi) / 2 ^ 16 % 2 ^ 16 ≡ lo =
      omega (arith, byteswap16-lt (x / 2 ^ 16 % 2 ^ 16), byteswap16-lt (x % 2 ^ 16)) in
    omega (
      arith,
      ap byteswap16 first,
      ap byteswap16 second,
      byteswap16_twice (x / 2 ^ 16 % 2 ^ 16) (omega arith),
      byteswap16_twice (x % 2 ^ 16) (omega arith),
    )

-- The swaps go through an operation on digits.
module _ (op : ℕ → ℕ → ℕ)
    (split : (k m n a b : ℕ)
      → a < 2 ^ k
      → b < 2 ^ k
      → op (m * 2 ^ k + a) (n * 2 ^ k + b) ≡ op m n * 2 ^ k + op a b)
    (bound : (k a b : ℕ) → a < 2 ^ k → b < 2 ^ k → op a b < 2 ^ k) where
  byteswap16-op :
      (x y : ℕ) → x < 2 ^ 16 → y < 2 ^ 16 → byteswap16 (op x y) ≡ op (byteswap16 x) (byteswap16 y)
  unfolding byteswap16
  byteswap16-op x y p q =
      let xh = x / 256 in
      let yh = y / 256 in
      let xl = x % 256 in
      let yl = y % 256 in
      let whole : op x y ≡ op xh yh * 2 ^ 8 + op xl yl =
        ap₂ op (omega arith) (omega arith) ∙ split 8 xh yh xl yl (omega arith) (omega arith) in
      let back : op (xl * 256 + xh % 256) (yl * 256 + yh % 256) ≡ op xl yl * 2 ^ 8 + op xh yh =
        ap₂ op (omega arith) (omega arith) ∙ split 8 xl yl xh yh (omega arith) (omega arith) in
      omega (
        arith,
        whole,
        back,
        bound 8 xh yh (omega arith) (omega arith),
        bound 8 xl yl (omega arith) (omega arith),
      )

  byteswap32-op :
      (x y : ℕ) → x < 2 ^ 32 → y < 2 ^ 32 → byteswap32 (op x y) ≡ op (byteswap32 x) (byteswap32 y)
  unfolding byteswap32
  byteswap32-op x y p q =
      let xh = x / 2 ^ 16 in
      let yh = y / 2 ^ 16 in
      let xl = x % 2 ^ 16 in
      let yl = y % 2 ^ 16 in
      let whole : op x y ≡ op xh yh * 2 ^ 16 + op xl yl =
        ap₂ op (omega arith) (omega arith) ∙ split 16 xh yh xl yl (omega arith) (omega arith) in
      let small_l = bound 16 xl yl (omega arith) (omega arith) in
      let small_h = bound 16 xh yh (omega arith) (omega arith) in
      let low : op x y % 2 ^ 16 ≡ op xl yl = omega arith in
      let high : op x y / 2 ^ 16 % 2 ^ 16 ≡ op xh yh = omega arith in
      let top_x : byteswap16 (xh % 2 ^ 16) ≡ byteswap16 xh = ap byteswap16 (omega arith) in
      let top_y : byteswap16 (yh % 2 ^ 16) ≡ byteswap16 yh = ap byteswap16 (omega arith) in
      ap₂ (λ l h. byteswap16 l * 2 ^ 16 + byteswap16 h) low high
      ∙ (ap₂ (λ l h. l * 2 ^ 16 + h) (byteswap16-op xl yl (omega arith) (omega arith))
            (byteswap16-op xh yh (omega arith) (omega arith))
          ∙ (sym (
                split 16 (byteswap16 xl) (byteswap16 yl) (byteswap16 xh) (byteswap16 yh)
                  (byteswap16-lt xh) (byteswap16-lt yh))
              ∙ ap₂ op (ap (λ h. byteswap16 xl * 2 ^ 16 + h) (sym top_x))
                  (ap (λ h. byteswap16 yl * 2 ^ 16 + h) (sym top_y))))

pub byteswap32-bit_or :
    (x y : ℕ)
    → x < 2 ^ 32
    → y < 2 ^ 32
    → byteswap32 (bit_or x y) ≡ bit_or (byteswap32 x) (byteswap32 y)
byteswap32-bit_or = byteswap32-op bit_or bit_or-split bit_or-lt

pub byteswap32-bit_and :
    (x y : ℕ)
    → x < 2 ^ 32
    → y < 2 ^ 32
    → byteswap32 (bit_and x y) ≡ bit_and (byteswap32 x) (byteswap32 y)
byteswap32-bit_and =
    byteswap32-op bit_and bit_and-split (λ k a b p q. omega (arith, bit_and-le a b))

byteswap64_twice : (x : ℕ) → x < 2 ^ 64 → byteswap64 (byteswap64 x) ≡ x
unfolding byteswap64
byteswap64_twice x lt =
    let lo = byteswap32 (x % 2 ^ 32) in
    let hi = byteswap32 (x / 2 ^ 32 % 2 ^ 32) in
    let first : (lo * 2 ^ 32 + hi) % 2 ^ 32 ≡ hi =
      omega (arith, byteswap32-lt (x / 2 ^ 32 % 2 ^ 32)) in
    let second : (lo * 2 ^ 32 + hi) / 2 ^ 32 % 2 ^ 32 ≡ lo =
      omega (arith, byteswap32-lt (x / 2 ^ 32 % 2 ^ 32), byteswap32-lt (x % 2 ^ 32)) in
    omega (
      arith,
      ap byteswap32 first,
      ap byteswap32 second,
      byteswap32_twice (x / 2 ^ 32 % 2 ^ 32) (omega arith),
      byteswap32_twice (x % 2 ^ 32) (omega arith),
    )

-- Each swap of a word undoes itself: of 16, of 32 and of 64 bits.
pub byteswap_twice :
    (x y z : ℕ)
    → x < 2 ^ 16
    → y < 2 ^ 32
    → z < 2 ^ 64
    → (byteswap16 (byteswap16 x) ≡ x)
      × (byteswap32 (byteswap32 y) ≡ y)
      × (byteswap64 (byteswap64 z) ≡ z)
byteswap_twice x y z p q r = (byteswap16_twice x p, byteswap32_twice y q, byteswap64_twice z r)
