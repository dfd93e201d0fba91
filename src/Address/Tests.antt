-- ===== src/Address/Tests.antt =====
-- Runs of the functions on addresses (src/address.cc).
use lt.Base.{
  ℕ, ◌+◌, ◌-◌, ◌*◌, ◌^◌, ◌<◌, ◌≤◌, ◌≡◌, ◌≢◌, ◌↔◌, ◌⊎◌, refl, true, false, List, [], ◌∷◌, ◌++◌, none,
  some, arith, contains, length,
}
use lt.Address.Lookup.{open_bracket, split_host}
use lt.Address.Parts.{Host, in_brackets, print, parts, IsClear, starts_with, split_host-print}
use lt.Address.Masks.{subnet_mask, mask_length}
use lt.Address.Prefix.{mask_length-subnet_mask}
use lt.Address.Compare.{less, equal}
use lt.Address.Order.{lex, less-Total}
use lt.Address.Masks.{zeros}
use lt.Address.Text.{insert}
use lt.Address.Compressed.{starts_nonzero, short, insert-short}
use lt.Address.Unix.{UnixAddress, new_unix, get_path}
use lt.Address.Ipv4
use lt.Address.Subnets.{subnets}
use lt.Address.Dotted.{dotted, insert-new_ipv4}
use lt.Base.{All, map, not, is_empty}
use lt.Address.Prefix.{ones, total}
use lt.Address.Interfaces.{same_name, interface_addresses}
use lt.Address.Netmasks.{Described, IsMasked, interface_of, picked, interface_addresses-picked}
use lt.Address.Paths.{get_path-new_unix}

-- `[::1]:80`
abbrev loopback : Host
loopback = in_brackets (58 ∷ 58 ∷ 49 ∷ []) (some (56 ∷ 48 ∷ []))

loopback-IsClear : IsClear loopback
unfolding IsClear
loopback-IsClear = (refl, refl)

split_host-print_example : split_host (print loopback) ≡ parts loopback
split_host-print_example = split_host-print loopback loopback-IsClear

free : starts_with open_bracket (102 ∷ 101 ∷ 58 ∷ 58 ∷ 49 ∷ []) ≡ false
unfolding starts_with
free = refl

mask_length-subnet_mask_example :
    (mask : List ℕ) × (subnet_mask 42 ≡ some mask) × (mask_length mask ≡ some 42)
mask_length-subnet_mask_example = mask_length-subnet_mask 42 (omega arith)

abbrev two_bytes : List ℕ
two_bytes = 0x20 ∷ 0x01 ∷ []

less-Total_example :
    (less two_bytes (0x20 ∷ []) ≡ lex two_bytes (0x20 ∷ []))
    × (less two_bytes two_bytes ≡ false)
    × (less two_bytes (0x20 ∷ []) ≡ true → less (0x20 ∷ []) [] ≡ true → less two_bytes [] ≡ true)
    × (equal two_bytes (0x20 ∷ []) ≡ false
        → (less two_bytes (0x20 ∷ []) ≡ true) ⊎ (less (0x20 ∷ []) two_bytes ≡ true))
    × ((equal two_bytes (0x20 ∷ []) ≡ true) ↔ (two_bytes ≡ 0x20 ∷ []))
less-Total_example = less-Total two_bytes (0x20 ∷ []) []

-- `/s`
get_path-new_unix_example :
    let path : List ℕ = 47 ∷ 115 ∷ [] in
    (path ≢ []
      → contains path 0 ≡ false
      → length path < 108
      → (a : UnixAddress) × (new_unix path ≡ some a) × (get_path a ≡ path))
    × (length path < 108
        → (a : UnixAddress) × (new_unix (0 ∷ path) ≡ some a) × (get_path a ≡ 92 ∷ 48 ∷ path))
    × (108 ≤ length path → new_unix (0 ∷ path) ≡ none)
get_path-new_unix_example = get_path-new_unix (47 ∷ 115 ∷ [])

-- 10.2.3.4 at port 80, in a network of 8 bits.
subnets_example :
    let rest : ℕ = 2 ^ 24 in
    let a = Ipv4.new_ipv4 (10 * rest + 0x020304) 80 in
    (Ipv4.network_address 8 a ≡ Ipv4.found (Ipv4.new_ipv4 (10 * rest) 80))
    × (Ipv4.broadcast_address 8 a ≡ Ipv4.found (Ipv4.new_ipv4 (10 * rest + (rest - 1)) 80))
    × (Ipv4.subnet_mask 8 ≡ Ipv4.found (Ipv4.new_ipv4 ((2 ^ 8 - 1) * rest) 0))
subnets_example = subnets 8 10 0x020304 80 (omega arith) (omega arith) (omega arith) (omega arith)

-- One digit, enough for the groups below.
abbrev digit : ℕ → List ℕ
digit n = (48 + n) ∷ []

one_first : starts_nonzero (5 ∷ 0 ∷ []) ≡ true
unfolding starts_nonzero
one_first = refl

-- 1:2:0:0:0:0:5:0 at port 9.
insert-short_example :
    insert digit digit ((1 ∷ 2 ∷ []) ++ (zeros 4 ++ (5 ∷ 0 ∷ []))) 9
    ≡ short digit digit (1 ∷ 2 ∷ []) (5 ∷ 0 ∷ []) 9
insert-short_example = insert-short digit digit (1 ∷ 2 ∷ []) (5 ∷ 0 ∷ []) 3 9 refl one_first

-- `[1:2::5:0]:9`
insert_text :
    insert digit digit (1 ∷ 2 ∷ 0 ∷ 0 ∷ 0 ∷ 0 ∷ 5 ∷ 0 ∷ []) 9
    ≡ 91 ∷ 49 ∷ 58 ∷ 50 ∷ 58 ∷ 58 ∷ 53 ∷ 58 ∷ 48 ∷ 93 ∷ 58 ∷ 57 ∷ []
unfolding insert
insert_text = refl

insert-new_ipv4_example :
    let a = Ipv4.new_ipv4 0x0a020304 80 in
    (Ipv4.insert digit a ≡ dotted digit 10 2 3 4 80)
    × (Ipv4.get_port (Ipv4.set_port 443 a) ≡ 443)
    × (Ipv4.insert digit (Ipv4.set_port 443 a) ≡ dotted digit 10 2 3 4 443)
insert-new_ipv4_example =
    insert-new_ipv4 digit 10 2 3 4 80 443 (omega arith) (omega arith) (omega arith) (omega arith)
      (omega arith) (omega arith)

-- `lo` with 127.0.0.1 and ::1, and `e` with one address.
abbrev machine : List Described
machine =
    record { name = 108 ∷ 111 ∷ []; family = 2; bytes = 1 ∷ []; mask = 255 ∷ 0 ∷ 0 ∷ 0 ∷ [] }
    ∷ record { name = 101 ∷ []; family = 2; bytes = 2 ∷ []; mask = 255 ∷ 255 ∷ 240 ∷ 0 ∷ [] }
    ∷ record { name = 108 ∷ 111 ∷ []; family = 10; bytes = 3 ∷ []; mask = 255 ∷ 255 ∷ [] }
    ∷ []

machine-IsMasked : All IsMasked machine
machine-IsMasked =
    let byte : 255 < 256 = omega arith in
    let zero : 0 < 256 = omega arith in
    (
      ((byte, (zero, (zero, (zero, tt)))), λ e. refl),
      (
        ((byte, (byte, ((omega arith), (zero, tt)))), λ e. refl),
        (((byte, (byte, tt)), λ e. cc), tt),
      ),
    )

interface_addresses-picked_example :
    interface_addresses (some (map interface_of machine)) [] (108 ∷ 111 ∷ []) 0
    ≡ some (not (is_empty (picked (108 ∷ 111 ∷ []) 0 machine)), picked (108 ∷ 111 ∷ []) 0 machine)
unfolding same_name
interface_addresses-picked_example =
    interface_addresses-picked machine (108 ∷ 111 ∷ []) 0 machine-IsMasked refl refl

picked_lengths : map (λ r. r.1) (picked (108 ∷ 111 ∷ []) 0 machine) ≡ 8 ∷ 16 ∷ []
unfolding picked same_name total ones
picked_lengths = refl
