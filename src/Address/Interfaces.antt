-- ===== src/Address/Interfaces.antt =====
-- The addresses of the interfaces of the machine (src/address.cc). What `getifaddrs` answers is an
-- argument: `none` for an error, else its list. The results of the calls are `none` where a null pointer
-- of that list is read. The multimap is the list of what was put into it, in order: the entries of one
-- key stay in the order in which they came.
use lt.Base.{
  ℕ, ◌+◌, ◌*◌, Bool, true, false, not, ◌&&◌, ◌||◌, List, [], ◌∷◌, ◌++◌, Option, none, some, ◌==◌,
  if◌then◌else◌, is_empty,
}
use lt.Address.Lookup.{Kind, ipv4, ipv6, Found, create}
use lt.Address.Masks.{zeros, count_loop, mask_length}

-- `ifa_name`, `ifa_addr` with its family and the rest, and of `ifa_netmask` the bytes of the address.
pub record Interface : Type 0 where
  pub name : List ℕ
  pub address : Option (ℕ × List ℕ)
  pub netmask : Option (List ℕ)

-- A number in memory, its lowest byte first.
unfoldable pub word_of : List ℕ → ℕ
word_of [] = 0
word_of (b ∷ bs) = b + 256 * word_of bs

-- `CountBytes` of the `s_addr` of a mask, or the sum over the bytes of `s6_addr`.
unfoldable pub prefix_len : ℕ → List ℕ → Option ℕ
unfolding word_of
prefix_len family mask = if family == 2 then count_loop 32 (word_of mask) else mask_length mask

-- An address with its prefix length, under the name of its interface.
pub record Entry : Type 0 where
  pub name : List ℕ
  pub address : Found
  pub prefix : ℕ

-- `family != AF_UNSPEC && family != next->ifa_addr->sa_family`, or a family that is not switched on.
abbrev pub is_other : ℕ → ℕ → Bool
is_other family own = (not (family == 0) && not (family == own)) || not (own == 2 || own == 10)

abbrev pub with_mask : List ℕ → ℕ × List ℕ → Option (List ℕ) → Option Entry
with_mask name address none = none
with_mask name address (some mask) = elim (prefix_len address.0 mask) [
  | none ↦ none
  | some n ↦ some (record { name = name; address = create address; prefix = n })
]

-- One round of the loop of `GetInterfaceAddresses(result, family)`, with the entries that it adds.
unfoldable pub entries_of : ℕ → Interface → Option (List Entry)
unfolding prefix_len
entries_of family i = elim i.address [
  | none ↦ none
  | some address ↦
      let entry = with_mask i.name address i.netmask in
      if is_other family address.0
      then some []
      else elim entry [ none ↦ none | some e ↦ some (e ∷ []) ]
]

abbrev pub before : Option (List Entry) → Option (List Entry) → Option (List Entry)
before none more = none
before (some es) none = none
before (some es) (some more) = some (es ++ more)

unfoldable pub gather : ℕ → List Interface → Option (List Entry)
unfolding entries_of
gather family [] = some []
gather family (i ∷ is) = before (entries_of family i) (gather family is)

-- `GetInterfaceAddresses(result, family)` on an empty multimap.
abbrev pub nonempty : Option (List Entry) → Option (Bool × List Entry)
nonempty none = none
nonempty (some es) = some (not (is_empty es), es)

unfoldable pub all_addresses : Option (List Interface) → ℕ → Option (Bool × List Entry)
unfolding gather
all_addresses none family = some (false, [])
all_addresses (some is) family = nonempty (gather family is)

-- The texts are equal.
unfoldable pub same_name : List ℕ → List ℕ → Bool
same_name [] [] = true
same_name [] (d ∷ ds) = false
same_name (c ∷ cs) [] = false
same_name (c ∷ cs) (d ∷ ds) = let rest = same_name cs ds in if c == d then rest else false

-- `equal_range(iface)`, pushed to the vector.
unfoldable pub equal_range : List ℕ → List Entry → List (Found × ℕ)
unfolding same_name
equal_range iface [] = []
equal_range iface (e ∷ es) =
    let rest = equal_range iface es in
    if same_name e.name iface then (e.address, e.prefix) ∷ rest else rest

-- `IPv4Address()` and `IPv6Address()`: every address, port 0.
abbrev pub any_address : Kind → ℕ → Found
any_address kind size = record { kind = kind; bytes = zeros size }

-- The end of `GetInterfaceAddresses(result, iface, family)`.
unfoldable pub named :
    List (Found × ℕ) → List ℕ → Option (Bool × List Entry) → Option (Bool × List (Found × ℕ))
unfolding equal_range
named result iface none = none
named result iface (some (ok, es)) =
    let found = result ++ equal_range iface es in
    if ok then some (not (is_empty found), found) else some (false, result)

-- `GetInterfaceAddresses(result, iface, family)`.
unfoldable pub interface_addresses :
    Option (List Interface) → List (Found × ℕ) → List ℕ → ℕ → Option (Bool × List (Found × ℕ))
unfolding all_addresses named zeros
interface_addresses getifaddrs result iface family =
    let four = if family == 2 || family == 0 then (any_address ipv4 14, 0) ∷ [] else [] in
    let six = if family == 10 || family == 0 then (any_address ipv6 26, 0) ∷ [] else [] in
    if is_empty iface || same_name iface (42 ∷ [])
    then some (true, result ++ (four ++ six))
    else named result iface (all_addresses getifaddrs family)
