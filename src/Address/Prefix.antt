-- ===== src/Address/Prefix.antt =====
-- Network masks and their prefix lengths (src/address.cc).
use Prim.Native.Nat.{bit_and}
use lt.Base.{
  ℕ, zero, suc, ◌+◌, ◌-◌, ◌*◌, ◌/◌, ◌%◌, ◌^◌, ◌<◌, ◌≤◌, ◌≡◌, ◌≢◌, refl, sym, ap, ◌∙◌, List, [], ◌∷◌,
  Option, none, some, ◌==◌, ◌⊎◌, inl, inr, ==_iff, ==_false, Bool-cases, arith, bit_and-odd,
  bit_and-even, bit_and-le, All,
}
use lt.Address.Masks.{
  create_mask, modify, fill_to, zeros, subnet_mask, count_loop, count_bytes, mask_length,
}

-- The set bits among the lowest `w`.
unfoldable pub ones : ℕ → ℕ → ℕ
ones zero v = 0
ones (suc w) v = v % 2 + ones w (v / 2)

ones_zero : (w : ℕ) → ones w 0 ≡ 0
unfolding ones
ones_zero zero = refl
ones_zero (suc w) = omega (arith, ones_zero w)

pub ones_most : (w v : ℕ) → ones w v ≤ w
unfolding ones
ones_most zero v = omega arith
ones_most (suc w) v = omega (arith, ones_most w (v / 2))

even_or_odd : (v : ℕ) → (v % 2 ≡ 0) ⊎ (v % 2 ≡ 1)
even_or_odd v = ground arith

-- A round clears one bit.
ones_cleared : (w v : ℕ) → v < 2 ^ w → v ≢ 0 → suc (ones w (bit_and v (v - 1))) ≡ ones w v
unfolding ones
ones_cleared zero v lt nz = absurd (omega arith)
ones_cleared (suc w) v lt nz = elim (even_or_odd v) [
  | inl e ↦
      let u = v / 2 in
      let low : bit_and v (v - 1) % 2 ≡ 0 = omega (arith, bit_and-even v e nz) in
      let high : bit_and v (v - 1) / 2 ≡ bit_and u (u - 1) = omega (arith, bit_and-even v e nz) in
      omega (arith, low, ap (ones w) high, ones_cleared w u (ground arith) (λ z. omega arith))
  | inr o ↦
      let low : bit_and v (v - 1) % 2 ≡ 0 = omega (arith, bit_and-odd v o) in
      let high : bit_and v (v - 1) / 2 ≡ v / 2 = omega (arith, bit_and-odd v o) in
      omega (arith, low, ap (ones w) high)
]

-- `CountBytes` counts the set bits of a word, in at most as many rounds as the word has bits.
pub count_loop-ones :
    (w fuel v : ℕ) → v < 2 ^ w → ones w v ≤ fuel → count_loop fuel v ≡ some (ones w v)
unfolding count_loop
count_loop-ones w zero v lt le = elim (Bool-cases (v == 0)) [
  | inl e ↦ rw e (ap some (sym (ap (ones w) ((==_iff v 0).0 e) ∙ ones_zero w)))
  | inr e ↦ absurd (omega (arith, ones_cleared w v lt (==_false v 0 e)))
]
count_loop-ones w (suc fuel) v lt le = elim (Bool-cases (v == 0)) [
  | inl e ↦ rw e (ap some (sym (ap (ones w) ((==_iff v 0).0 e) ∙ ones_zero w)))
  | inr e ↦
      let one = ones_cleared w v lt (==_false v 0 e) in
      let rest =
        count_loop-ones w fuel (bit_and v (v - 1)) (omega (arith, bit_and-le v (v - 1)))
          (omega arith) in
      rw (e, rest) (ap some one)
]

pub count_bytes-ones : (v : ℕ) → v < 256 → count_bytes v ≡ some (ones 8 v)
unfolding count_bytes
count_bytes-ones v lt = count_loop-ones 8 8 v lt (ones_most 8 v)

-- The number of set bits of an address.
unfoldable pub total : List ℕ → ℕ
total [] = 0
total (b ∷ bs) = ones 8 b + total bs

pub mask_length-total : (bs : List ℕ) → All (λ b. b < 256) bs → mask_length bs ≡ some (total bs)
unfolding mask_length total
mask_length-total [] h = refl
mask_length-total (b ∷ bs) h =
    rw (mask_length, count_bytes-ones b h.0, mask_length-total bs h.1) refl

total-zeros : (n : ℕ) → total (zeros n) ≡ 0
unfolding total zeros
total-zeros zero = refl
total-zeros (suc n) = omega (arith, total-zeros n, ones_zero 8)

ones_full : ones 8 0xff ≡ 8
unfolding ones
ones_full = refl

zeros_bytes : (n : ℕ) → All (λ b. b < 256) (zeros n)
unfolding zeros
zeros_bytes zero = tt
zeros_bytes (suc n) = (omega arith, zeros_bytes n)

-- Full bytes before byte `q`, and `v` there.
record Mask (q v : ℕ) (bs : List ℕ) : Type 0 where
  sum : total (fill_to q 0xff bs) ≡ 8 * q + ones 8 v
  bytes : All (λ b. b < 256) (fill_to q 0xff bs)

modify-Mask :
    (q n v : ℕ)
    → q < n
    → v < 256
    → (bs : List ℕ) × (modify q (λ b. v) (zeros n) ≡ some bs) × Mask q v bs
unfolding modify zeros fill_to total
modify-Mask q zero v lt small = absurd (omega arith)
modify-Mask zero (suc n) v lt small = (
  v ∷ zeros n,
  refl,
  record { sum = omega (arith, total-zeros n); bytes = (small, zeros_bytes n) },
)
modify-Mask (suc q) (suc n) v lt small =
    let (bs, eq, m) = modify-Mask q n v (omega arith) small in
    (
      0 ∷ bs,
      rw eq refl,
      record { sum = omega (arith, m.sum, ones_full); bytes = (omega arith, m.bytes) },
    )

last_byte : (r : ℕ) → r < 8 → ones 8 (0xff - create_mask r) ≡ r
unfolding create_mask ones
last_byte zero lt = refl
last_byte (suc zero) lt = refl
last_byte (suc (suc zero)) lt = refl
last_byte (suc (suc (suc zero))) lt = refl
last_byte (suc (suc (suc (suc zero)))) lt = refl
last_byte (suc (suc (suc (suc (suc zero))))) lt = refl
last_byte (suc (suc (suc (suc (suc (suc zero)))))) lt = refl
last_byte (suc (suc (suc (suc (suc (suc (suc zero))))))) lt = refl
last_byte (suc (suc (suc (suc (suc (suc (suc (suc r)))))))) lt = absurd (omega arith)

-- The IPv6 network mask of a prefix length below 128 has that prefix length, as it is read from the
-- mask of an interface: the loop of `CountBytes` ends within eight rounds on each byte.
pub mask_length-subnet_mask :
    (prefix_len : ℕ)
    → prefix_len < 128
    → (mask : List ℕ) × (subnet_mask prefix_len ≡ some mask) × (mask_length mask ≡ some prefix_len)
unfolding subnet_mask
mask_length-subnet_mask prefix_len lt =
    let q = prefix_len / 8 in
    let r = prefix_len % 8 in
    let (bs, eq, m) = modify-Mask q 16 (0xff - create_mask r) (omega arith) (omega arith) in
    (
      fill_to q 0xff bs,
      ap
          (λ (o : Option (List ℕ)). elim o as (λ _. Option (List ℕ)) [
            | none ↦ none
            | some subnet ↦ some (fill_to q 0xff subnet)
          ])
          eq,
      mask_length-total _ m.bytes ∙ ap some (omega (arith, m.sum, last_byte r (omega arith))),
    )
