-- ===== src/Address/Networks.antt =====
-- The broadcast and the network address of an IPv6 address (src/address.cc).
use Prim.Native.Nat.{bit_and, bit_or}
use lt.Base.{
  ℕ, suc, ◌+◌, ◌-◌, ◌*◌, ◌/◌, ◌%◌, ◌^◌, ◌<◌, ◌≡◌, refl, sym, ap, ◌∙◌, List, [], ◌∷◌, ◌++◌, map,
  Option, none, some, arith, length, bit_and-mask, bit_or-mask,
}
use lt.Address.Masks.{create_mask, modify, fill_from, broadcast_address, network_address}

modify-at :
    (front back : List ℕ) (v : ℕ) (f : ℕ → ℕ)
    → modify (length front) f (front ++ v ∷ back) ≡ some (front ++ f v ∷ back)
unfolding modify
modify-at [] back v f = refl
modify-at (x ∷ xs) back v f = rw (modify-at xs back v f) refl

fill_from-all : (back : List ℕ) (w : ℕ) → fill_from 0 w back ≡ map (λ _. w) back
unfolding fill_from
fill_from-all [] w = refl
fill_from-all (x ∷ xs) w = ap (λ ys. w ∷ ys) (fill_from-all xs w)

fill_from-after :
    (front back : List ℕ) (v w : ℕ)
    → fill_from (suc (length front)) w (front ++ v ∷ back) ≡ front ++ v ∷ map (λ _. w) back
unfolding fill_from
fill_from-after [] back v w = ap (λ ys. v ∷ ys) (fill_from-all back w)
fill_from-after (x ∷ xs) back v w = ap (λ ys. x ∷ ys) (fill_from-after xs back v w)

-- The two steps of both calls.
filled : ℕ → ℕ → Option (List ℕ) → Option (List ℕ)
filled i w none = none
filled i w (some bs) = some (fill_from i w bs)

filled-modify :
    (i : ℕ) (front back : List ℕ) (v w : ℕ) (f : ℕ → ℕ)
    → length front ≡ i
    → filled (i + 1) w (modify i f (front ++ v ∷ back)) ≡ some (front ++ f v ∷ map (λ _. w) back)
unfolding filled
filled-modify i front back v w f e =
    let next : i + 1 ≡ suc (length front) = omega arith in
    ap (λ j. filled (i + 1) w (modify j f (front ++ v ∷ back))) (sym e)
    ∙ (ap (filled (i + 1) w) (modify-at front back v f)
        ∙ (ap (λ j. some (fill_from j w (front ++ f v ∷ back))) next
            ∙ ap some (fill_from-after front back (f v) w)))

-- For a prefix that ends in the byte after `front`, whose bits are `hi` in the prefix and `lo` after
-- it: the broadcast address keeps the bits of the prefix and sets all others. The network address
-- clears the bytes after that byte, but of that byte it keeps `lo` and clears the bits of the prefix.
pub broadcast_network :
    (prefix_len hi lo : ℕ) (front back : List ℕ)
    → length front ≡ prefix_len / 8
    → lo < 2 ^ (8 - prefix_len % 8)
    → let k = 8 - prefix_len % 8 in
      let addr = front ++ (hi * 2 ^ k + lo) ∷ back in
      (broadcast_address prefix_len addr
        ≡ some (front ++ (hi * 2 ^ k + (2 ^ k - 1)) ∷ map (λ _. 0xff) back))
      × (network_address prefix_len addr ≡ some (front ++ lo ∷ map (λ _. 0) back))
unfolding broadcast_address network_address create_mask filled
broadcast_network prefix_len hi lo front back e lt =
    let k = 8 - prefix_len % 8 in
    let i = prefix_len / 8 in
    let v = hi * 2 ^ k + lo in
    (
      filled-modify i front back v 0xff (λ b. bit_or b (2 ^ k - 1)) e
          ∙ ap (λ x. some (front ++ x ∷ map (λ _. 0xff) back)) (bit_or-mask k hi lo lt),
      filled-modify i front back v 0 (λ b. bit_and b (2 ^ k - 1)) e
          ∙ ap (λ x. some (front ++ x ∷ map (λ _. 0) back)) (bit_and-mask k hi lo lt),
    )
