-- ===== src/Address/Ipv4.antt =====
-- IPv4 addresses (src/address.cc): of a `sockaddr_in` the port and the address as the memory has them,
-- in the order of the network. How the system reads and writes numbers is a parameter.
use Prim.Native.Nat.{bit_and, bit_or}
use lt.Base.{ℕ, ◌-◌, ◌/◌, ◌^◌, ◌||◌, List, [], ◌∷◌, ◌++◌, Option, none, some, if◌then◌else◌, ltb}
use lt.Endian.{byteswap16, byteswap32}
use lt.Address.Lookup.{colon}

pub record Ipv4Address : Type 0 where
  pub port : ℕ
  pub addr : ℕ

-- What a call that makes an address answers: nullptr, an address, or nothing that the language defines.
pub data Answer : Type 0 where
  undefined null : Answer
  found : Ipv4Address → Answer

-- `IPv4Address(address, port)`, both in the order of the machine.
unfoldable pub new_ipv4 : ℕ → ℕ → Ipv4Address
new_ipv4 address port = record { port = byteswap16 port; addr = byteswap32 address }

-- `IPv4Address::Create`; `inet_pton` is `none` for a text that is no address.
unfoldable pub create : (List ℕ → Option ℕ) → List ℕ → ℕ → Answer
create inet_pton address port = elim (inet_pton address) [
  | none ↦ null
  | some s_addr ↦ found (record { port = byteswap16 port; addr = s_addr })
]

-- `CreateMask<uint32_t>(bits)`: the shift and the subtraction are those of `int`.
unfoldable pub create_mask : ℕ → Option ℕ
create_mask bits = if ltb bits 2 || ltb 32 bits then none else some (2 ^ (32 - bits) - 1)

-- `~x` on 32 bits.
abbrev pub complement : ℕ → ℕ
complement x = 2 ^ 32 - 1 - x

-- The address with what a mask makes of `s_addr`.
unfoldable pub masked : Option ℕ → (ℕ → ℕ) → ℕ → Answer
masked none f port = undefined
masked (some mask) f port = found (record { port = port; addr = f mask })

-- `broadcastAddress`, `networkAddress` and `subnetMask`.
unfoldable pub broadcast_address : ℕ → Ipv4Address → Answer
unfolding create_mask masked
broadcast_address prefix_len a =
    if ltb 32 prefix_len
    then null
    else masked (create_mask prefix_len) (λ mask. bit_or a.addr (byteswap32 mask)) a.port

unfoldable pub network_address : ℕ → Ipv4Address → Answer
unfolding create_mask masked
network_address prefix_len a =
    if ltb 32 prefix_len
    then null
    else masked (create_mask prefix_len) (λ mask. bit_and a.addr (byteswap32 (complement mask)))
        a.port

unfoldable pub subnet_mask : ℕ → Answer
unfolding create_mask masked
subnet_mask prefix_len = masked (create_mask prefix_len) (λ mask. complement (byteswap32 mask)) 0

-- `getPort` and `setPort`.
unfoldable pub get_port : Ipv4Address → ℕ
get_port a = byteswap16 a.port

unfoldable pub set_port : ℕ → Ipv4Address → Ipv4Address
set_port v a = record a { port = byteswap16 v }

-- `insert`; `dec` writes a number.
unfoldable pub insert : (ℕ → List ℕ) → Ipv4Address → List ℕ
unfolding get_port
insert dec a =
    let addr = byteswap32 a.addr in
    let dot : List ℕ = 46 ∷ [] in
    dec (bit_and (addr / 2 ^ 24) 0xff)
    ++ (dot
        ++ (dec (bit_and (addr / 2 ^ 16) 0xff)
            ++ (dot
                ++ (dec (bit_and (addr / 2 ^ 8) 0xff)
                    ++ (dot ++ (dec (bit_and addr 0xff) ++ (colon ∷ dec (get_port a))))))))
