-- ===== src/Address/Lookup.antt =====
-- `Address::Lookup` and the calls that choose from its result (src/address.cc). A host has no zero
-- byte. `getaddrinfo` is the record `Resolver`.
use lt.Base.{
  ℕ, Bool, true, false, not, List, [], ◌∷◌, ◌++◌, map, Option, none, some, ◌==◌, if◌then◌else◌,
  is_empty,
}

-- '[', ']' and ':'.
abbrev pub open_bracket : ℕ
open_bracket = 91

abbrev pub close_bracket : ℕ
close_bracket = 93

abbrev pub colon : ℕ
colon = 58

-- `memchr`: what is before the first byte `c`, and what is after it.
unfoldable pub memchr : ℕ → List ℕ → Option (List ℕ × List ℕ)
memchr c [] = none
memchr c (x ∷ xs) =
    let rest : Option (List ℕ × List ℕ) = elim (memchr c xs) [
      | none ↦ none
      | some (before, after) ↦ some (x ∷ before, after)
    ] in
    if x == c then some ([], xs) else rest

-- The node and the service, none for NULL.
abbrev pub Split : Type 0
Split = List ℕ × Option (List ℕ)

-- `if (*(endipv6 + 1) == ':') service = endipv6 + 2;`
unfoldable pub after_bracket : List ℕ → Option (List ℕ)
after_bracket [] = none
after_bracket (c ∷ service) = if c == colon then some service else none

-- The first test: `[xxx]:service`.
unfoldable pub bracketed : List ℕ → Split
unfolding memchr after_bracket
bracketed [] = ([], none)
bracketed (c ∷ rest) =
    let found : Split = elim (memchr close_bracket rest) [
      | none ↦ ([], none)
      | some (node, after) ↦ (node, after_bracket after)
    ] in
    if c == open_bracket then found else ([], none)

-- What follows the first colon, if it is found; with a second colon, `service` keeps pointing at the
-- first one.
unfoldable pub after_colon : Option (List ℕ × List ℕ) → Split
unfolding memchr
after_colon none = ([], none)
after_colon (some (node, service)) = elim (memchr colon service) [
  | none ↦ (node, some service)
  | some _ ↦ ([], some (colon ∷ service))
]

-- The second test: `xxx:service`.
unfoldable pub plain : List ℕ → Split
unfolding memchr after_colon
plain host = after_colon (memchr colon host)

-- `Address::Lookup`, before it asks the system.
unfoldable pub split_host : List ℕ → Split
unfolding bracketed plain
split_host host =
    let (node₆, service₆) = bracketed host in
    let (node₄, service₄) = plain host in
    if not (is_empty node₆)
    then (node₆, service₆)
    else ((if is_empty node₄ then host else node₄), service₄)

-- What `Address::Create` makes of a `sockaddr`, by its family; the bytes are the rest of it.
pub data Kind : Type 0 where
  ipv4 ipv6 unknown : Kind

pub record Found : Type 0 where
  pub kind : Kind
  pub bytes : List ℕ

-- AF_INET is 2 and AF_INET6 is 10.
unfoldable pub create : ℕ × List ℕ → Found
create (family, bytes) = record {
  kind = if family == 2 then ipv4 else if family == 10 then ipv6 else unknown;
  bytes = bytes;
}

-- `dynamic_pointer_cast<IPAddress>` succeeds.
unfoldable pub is_ip : Found → Bool
is_ip a = elim a.kind [ ipv4 ↦ true | ipv6 ↦ true | unknown ↦ false ]

-- `getaddrinfo` with the node, the service, the family, the type and the protocol: `none` for an
-- error, else the list of addresses, each with its family.
abbrev pub Resolver : Type 0
Resolver = List ℕ → Option (List ℕ) → ℕ → ℕ → ℕ → Option (List (ℕ × List ℕ))

module _ (getaddrinfo : Resolver) where
  -- `Address::Lookup`; `result` is what the vector held before.
  unfoldable pub lookup : List Found → List ℕ → ℕ → ℕ → ℕ → Bool × List Found
  unfolding split_host create
  lookup result host family type protocol =
      let (node, service) = split_host host in
      elim (getaddrinfo node service family type protocol) [
        | none ↦ (false, result)
        | some found ↦ (not (is_empty (result ++ map create found)), result ++ map create found)
      ]

  -- The first of a list.
  unfoldable pub first : List Found → Option Found
  first [] = none
  first (a ∷ _) = some a

  -- The first IP address of a list.
  unfoldable pub first_ip : List Found → Option Found
  unfolding is_ip
  first_ip [] = none
  first_ip (a ∷ rest) = let found = first_ip rest in if is_ip a then some a else found

  -- `LookupAny` and `LookupAnyIPAddress`.
  unfoldable pub lookup_any : List ℕ → ℕ → ℕ → ℕ → Option Found
  unfolding lookup first
  lookup_any host family type protocol =
      let (ok, result) = lookup [] host family type protocol in if ok then first result else none

  unfoldable pub lookup_any_ip : List ℕ → ℕ → ℕ → ℕ → Option Found
  unfolding lookup first_ip
  lookup_any_ip host family type protocol =
      let (ok, result) = lookup [] host family type protocol in if ok then first_ip result else none
