-- ===== src/Address/Numeric.antt =====
-- `IPAddress::Create` (src/address.cc): the address that a text of digits names. `getaddrinfo` is asked
-- with AI_NUMERICHOST, for any family.
use lt.Base.{ℕ, ◌/◌, ◌%◌, List, [], ◌∷◌, Option, none, some, if◌then◌else◌}
use lt.Address.Lookup.{Found, Resolver, create, is_ip}

-- `setPort`: both kinds of IP address begin with the port, its high byte first.
unfoldable pub with_port : ℕ → List ℕ → List ℕ
with_port port (a ∷ b ∷ rest) = port / 256 % 256 ∷ port % 256 ∷ rest
with_port port bytes = bytes

-- Null, or an address; the outer `none` is the read of an empty list of results.
unfoldable pub ip_create : Resolver → List ℕ → ℕ → Option (Option Found)
unfolding with_port create is_ip
ip_create getaddrinfo address port = elim (getaddrinfo address none 0 0 0) [
  | none ↦ some none
  | some [] ↦ none
  | some (first ∷ _) ↦
      let a = create first in
      some (if is_ip a then some (record a { bytes = with_port port a.bytes }) else none)
]
