-- ===== src/Address/Masks.antt =====
-- The masks of IPv6 addresses and the prefix length of a network mask (src/address.cc). An address is
-- the list of the bytes of `s6_addr`; an access out of bounds is `none`.
use Prim.Native.Nat.{bit_and, bit_or}
use lt.Base.{
  ℕ, zero, suc, ◌+◌, ◌-◌, ◌/◌, ◌%◌, ◌^◌, List, [], ◌∷◌, Option, none, some, ◌==◌, if◌then◌else◌,
}

-- `CreateMask<uint8_t>(bits)` for `bits` below 8, in `int`.
unfoldable pub create_mask : ℕ → ℕ
create_mask bits = 2 ^ (8 - bits) - 1

-- `s6_addr[i] = f(s6_addr[i])`
unfoldable pub modify : ℕ → (ℕ → ℕ) → List ℕ → Option (List ℕ)
modify i f [] = none
modify zero f (b ∷ bs) = some (f b ∷ bs)
modify (suc i) f (b ∷ bs) = elim (modify i f bs) [ none ↦ none | some rest ↦ some (b ∷ rest) ]

-- `for (i = from; i < 16; ++i) s6_addr[i] = v;`
unfoldable pub fill_from : ℕ → ℕ → List ℕ → List ℕ
fill_from i v [] = []
fill_from zero v (b ∷ bs) = v ∷ fill_from zero v bs
fill_from (suc i) v (b ∷ bs) = b ∷ fill_from i v bs

-- `for (i = 0; i < to; ++i) s6_addr[i] = v;`
unfoldable pub fill_to : ℕ → ℕ → List ℕ → List ℕ
fill_to i v [] = []
fill_to zero v (b ∷ bs) = b ∷ bs
fill_to (suc i) v (b ∷ bs) = v ∷ fill_to i v bs

-- `IPv6Address::broadcastAddress` and `IPv6Address::networkAddress`.
unfoldable pub broadcast_address : ℕ → List ℕ → Option (List ℕ)
unfolding create_mask modify fill_from
broadcast_address prefix_len addr =
    elim (modify (prefix_len / 8) (λ b. bit_or b (create_mask (prefix_len % 8))) addr) [
      | none ↦ none
      | some baddr ↦ some (fill_from (prefix_len / 8 + 1) 0xff baddr)
    ]

unfoldable pub network_address : ℕ → List ℕ → Option (List ℕ)
unfolding create_mask modify fill_from
network_address prefix_len addr =
    elim (modify (prefix_len / 8) (λ b. bit_and b (create_mask (prefix_len % 8))) addr) [
      | none ↦ none
      | some baddr ↦ some (fill_from (prefix_len / 8 + 1) 0 baddr)
    ]

unfoldable pub zeros : ℕ → List ℕ
zeros zero = []
zeros (suc n) = 0 ∷ zeros n

-- `IPv6Address::subnetMask`.
unfoldable pub subnet_mask : ℕ → Option (List ℕ)
unfolding create_mask modify fill_to zeros
subnet_mask prefix_len =
    elim (modify (prefix_len / 8) (λ b. 0xff - create_mask (prefix_len % 8)) (zeros 16)) [
      | none ↦ none
      | some subnet ↦ some (fill_to (prefix_len / 8) 0xff subnet)
    ]

-- The loop of `CountBytes`, for a number of rounds; `none` if they are used up.
unfoldable pub count_loop : ℕ → ℕ → Option ℕ
count_loop zero value = if value == 0 then some 0 else none
count_loop (suc fuel) value =
    let rest : Option ℕ = elim (count_loop fuel (bit_and value (value - 1))) [
      | none ↦ none
      | some result ↦ some (suc result)
    ] in
    if value == 0 then some 0 else rest

-- `CountBytes` of a byte, and the sum of `GetInterfaceAddresses` over the bytes of a mask.
unfoldable pub count_bytes : ℕ → Option ℕ
unfolding count_loop
count_bytes value = count_loop 8 value

unfoldable pub mask_length : List ℕ → Option ℕ
unfolding count_bytes
mask_length [] = some 0
mask_length (b ∷ bs) = elim (count_bytes b) [
  | none ↦ none
  | some n ↦ elim (mask_length bs) [ none ↦ none | some m ↦ some (n + m) ]
]
