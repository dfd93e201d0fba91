-- ===== src/Address/Subnets.antt =====
-- The networks of IPv4 addresses (src/address.cc).
use Prim.Native.Nat.{bit_and, bit_or}
use lt.Base.{
  ℕ, zero, suc, ◌+◌, ◌-◌, ◌*◌, ◌^◌, ◌<◌, ◌≤◌, ◌≡◌, sym, ap, ◌∙◌, false, ◌||◌, some, if_false, arith,
  ltb, bit_and-mask, bit_or-mask, bit_and-zero,
}
use native.Mathlib.Nat.{add-suc, add-zero, add-mul, mul-le-mul_right, one-le-pow}
use lt.Base.Bytes.{bit_and-split, mul-two-pow}
use lt.Endian.{byteswap16, byteswap32}
use lt.Endian.Swaps.{byteswap32-bit_or, byteswap32-bit_and}
use lt.Address.Ipv4.{
  found, new_ipv4, create_mask, complement, masked, broadcast_address, network_address, subnet_mask,
}

-- The two parts of a word below 2 ^ (w + k).
pub pow-add : (w k : ℕ) → 2 ^ w * 2 ^ k ≡ 2 ^ (w + k)
pow-add w zero = omega (arith, ap (λ n. 2 ^ n) (add-zero w))
pow-add w (suc k) =
    let next : 2 ^ (w + suc k) ≡ 2 * 2 ^ (w + k) = ap (λ n. 2 ^ n) (add-suc w k) ∙ omega arith in
    omega (arith, mul-two-pow (2 ^ w) k, pow-add w k, next)

-- A mask of the highest `w` bits keeps them and clears the others.
high_mask :
    (w k hi lo : ℕ)
    → hi < 2 ^ w
    → lo < 2 ^ k
    → bit_and (hi * 2 ^ k + lo) ((2 ^ w - 1) * 2 ^ k) ≡ hi * 2 ^ k
high_mask w k hi lo p q =
    let zero_low : (2 ^ w - 1) * 2 ^ k ≡ (2 ^ w - 1) * 2 ^ k + 0 = omega arith in
    let kept : bit_and hi (2 ^ w - 1) ≡ hi =
      ap (λ x. bit_and x (2 ^ w - 1)) (omega arith) ∙ bit_and-mask w 0 hi p in
    ap (bit_and (hi * 2 ^ k + lo)) zero_low
    ∙ (bit_and-split k hi (2 ^ w - 1) lo 0 q (one-le-pow k 2 (omega arith))
        ∙ omega (arith, bit_and-zero lo, ap (λ x. x * 2 ^ k) kept))

-- The swap goes through `~`.
byteswap32-complement : (x : ℕ) → x < 2 ^ 32 → byteswap32 (complement x) ≡ complement (byteswap32 x)
unfolding byteswap32 byteswap16
byteswap32-complement x lt = omega arith

module _ (p k hi lo : ℕ) (whole : p + k ≡ 32) (high : hi < 2 ^ p) (low : lo < 2 ^ k) where
  abbrev m : ℕ
  m = 2 ^ p - 1

  all_ones : 2 ^ p * 2 ^ k ≡ 2 ^ 32
  all_ones = pow-add p k ∙ ap (λ n. 2 ^ n) whole

  high_ones : m * 2 ^ k + 2 ^ k ≡ 2 ^ 32
  high_ones =
      let one = one-le-pow p 2 (omega arith) in
      let again : 2 ^ p * 2 ^ k ≡ (m + 1) * 2 ^ k = ap (λ x. x * 2 ^ k) (omega arith) in
      omega (arith, all_ones, again, add-mul m 1 (2 ^ k))

  complement_low : complement (2 ^ k - 1) ≡ m * 2 ^ k
  complement_low = omega (arith, high_ones, one-le-pow k 2 (omega arith))

  word-lt : hi * 2 ^ k + lo < 2 ^ 32
  word-lt =
      let le : hi * 2 ^ k ≤ m * 2 ^ k = mul-le-mul_right (2 ^ k) (omega arith) in
      omega (arith, high_ones, le)

  network_lem :
      bit_and (byteswap32 (hi * 2 ^ k + lo)) (byteswap32 (complement (2 ^ k - 1)))
      ≡ byteswap32 (hi * 2 ^ k)
  network_lem =
      sym (byteswap32-bit_and (hi * 2 ^ k + lo) (complement (2 ^ k - 1)) word-lt (omega arith))
      ∙ ap byteswap32 (ap (bit_and (hi * 2 ^ k + lo)) complement_low ∙ high_mask p k hi lo high low)

  broadcast_lem :
      bit_or (byteswap32 (hi * 2 ^ k + lo)) (byteswap32 (2 ^ k - 1))
      ≡ byteswap32 (hi * 2 ^ k + (2 ^ k - 1))
  broadcast_lem =
      sym (byteswap32-bit_or (hi * 2 ^ k + lo) (2 ^ k - 1) word-lt (omega (arith, high_ones)))
      ∙ ap byteswap32 (bit_or-mask k hi lo low)

  mask_lem : complement (byteswap32 (2 ^ k - 1)) ≡ byteswap32 (m * 2 ^ k)
  mask_lem =
      sym (byteswap32-complement (2 ^ k - 1) (omega (arith, high_ones)))
      ∙ ap byteswap32 complement_low

-- For a prefix of 2 to 32 bits, of an address whose first `prefix_len` bits are `hi` and whose other
-- bits are `lo`: the network's address keeps `hi` and clears the rest, the broadcast address keeps
-- `hi` and sets the rest, both with the port of the address; the subnet mask sets the first bits and
-- clears the rest, at port 0.
pub subnets :
    (prefix_len hi lo port : ℕ)
    → 2 ≤ prefix_len
    → prefix_len ≤ 32
    → hi < 2 ^ prefix_len
    → lo < 2 ^ (32 - prefix_len)
    → let rest = 2 ^ (32 - prefix_len) in
      let a = new_ipv4 (hi * rest + lo) port in
      (network_address prefix_len a ≡ found (new_ipv4 (hi * rest) port))
      × (broadcast_address prefix_len a ≡ found (new_ipv4 (hi * rest + (rest - 1)) port))
      × (subnet_mask prefix_len ≡ found (new_ipv4 ((2 ^ prefix_len - 1) * rest) 0))
unfolding network_address broadcast_address subnet_mask create_mask masked new_ipv4 byteswap16
subnets prefix_len hi lo port least most high low =
    let k = 32 - prefix_len in
    let addr = byteswap32 (hi * 2 ^ k + lo) in
    let whole : prefix_len + k ≡ 32 = omega arith in
    let mask : create_mask prefix_len ≡ some (2 ^ k - 1) =
      if_false (ltb prefix_len 2 || ltb 32 prefix_len) _ _ (ground arith) in
    let within : ltb 32 prefix_len ≡ false = ground arith in
    let at_port = λ (addr : ℕ). found (record { port = byteswap16 port; addr = addr }) in
    (
      if_false (ltb 32 prefix_len) _ _ within
          ∙ (ap
                (λ o.
                  masked o (λ mask. bit_and addr (byteswap32 (complement mask))) (byteswap16 port))
                mask
              ∙ ap at_port (network_lem prefix_len k hi lo whole high low)),
      if_false (ltb 32 prefix_len) _ _ within
          ∙ (ap (λ o. masked o (λ mask. bit_or addr (byteswap32 mask)) (byteswap16 port)) mask
              ∙ ap at_port (broadcast_lem prefix_len k hi lo whole high low)),
      ap (λ o. masked o (λ mask. complement (byteswap32 mask)) 0) mask
          ∙ ap (λ addr. found (record { port = byteswap16 0; addr = addr }))
              (mask_lem prefix_len k hi lo whole high low),
    )
