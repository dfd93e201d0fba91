-- ===== src/Address/Dotted.antt =====
-- The text of an IPv4 address (src/address.cc).
use Prim.Native.Nat.{bit_and}
use lt.Base.{ℕ, ◌+◌, ◌*◌, ◌/◌, ◌^◌, ◌<◌, ◌≡◌, refl, ap, ◌∙◌, List, ◌∷◌, ◌++◌, arith, bit_and-mask}
use lt.Endian.{byteswap16, byteswap32}
use lt.Endian.Swaps.{byteswap16_twice, byteswap32_twice}
use lt.Address.Lookup.{colon}
use lt.Address.Ipv4.{new_ipv4, insert, get_port, set_port}

-- A byte of a word.
byte_at : (q r x : ℕ) → r < 256 → x ≡ q * 256 + r → bit_and x 0xff ≡ r
byte_at q r x lt e = ap (λ x. bit_and x 0xff) e ∙ bit_and-mask 8 q r lt

abbrev pub dotted : (ℕ → List ℕ) → ℕ → ℕ → ℕ → ℕ → ℕ → List ℕ
dotted dec b3 b2 b1 b0 port =
    dec b3 ++ (46 ∷ (dec b2 ++ (46 ∷ (dec b1 ++ (46 ∷ (dec b0 ++ (colon ∷ dec port)))))))

abbrev word : ℕ → ℕ → ℕ → ℕ → ℕ
word b3 b2 b1 b0 = ((b3 * 256 + b2) * 256 + b1) * 256 + b0

of_swapped :
    (dec : ℕ → List ℕ) (b3 b2 b1 b0 port : ℕ)
    → b3 < 256
    → b2 < 256
    → b1 < 256
    → b0 < 256
    → port < 2 ^ 16
    → insert dec (record { port = byteswap16 port; addr = byteswap32 (word b3 b2 b1 b0) })
      ≡ dotted dec b3 b2 b1 b0 port
unfolding insert get_port
of_swapped dec b3 b2 b1 b0 port p3 p2 p1 p0 pp =
    let w = word b3 b2 b1 b0 in
    let back : byteswap32 (byteswap32 w) ≡ w = byteswap32_twice w (omega arith) in
    let e3 : bit_and (byteswap32 (byteswap32 w) / 2 ^ 24) 0xff ≡ b3 =
      byte_at 0 b3 _ p3 (omega (arith, back)) in
    let e2 : bit_and (byteswap32 (byteswap32 w) / 2 ^ 16) 0xff ≡ b2 =
      byte_at b3 b2 _ p2 (omega (arith, back)) in
    let e1 : bit_and (byteswap32 (byteswap32 w) / 2 ^ 8) 0xff ≡ b1 =
      byte_at (b3 * 256 + b2) b1 _ p1 (omega (arith, back)) in
    let e0 : bit_and (byteswap32 (byteswap32 w)) 0xff ≡ b0 =
      byte_at ((b3 * 256 + b2) * 256 + b1) b0 _ p0 (omega (arith, back)) in
    let ep : byteswap16 (byteswap16 port) ≡ port = byteswap16_twice port pp in
    rw (e3, e2, e1, e0, ep) refl

-- The text of the address that is made of four bytes and a port has the bytes in their order between
-- dots and the port after the colon, and a port that is set is the one that is read.
pub insert-new_ipv4 :
    (dec : ℕ → List ℕ) (b3 b2 b1 b0 port v : ℕ)
    → b3 < 256
    → b2 < 256
    → b1 < 256
    → b0 < 256
    → port < 2 ^ 16
    → v < 2 ^ 16
    → let a = new_ipv4 (((b3 * 256 + b2) * 256 + b1) * 256 + b0) port in
      (insert dec a ≡ dotted dec b3 b2 b1 b0 port)
      × (get_port (set_port v a) ≡ v)
      × (insert dec (set_port v a) ≡ dotted dec b3 b2 b1 b0 v)
unfolding new_ipv4 get_port set_port
insert-new_ipv4 dec b3 b2 b1 b0 port v p3 p2 p1 p0 pp pv = (
  of_swapped dec b3 b2 b1 b0 port p3 p2 p1 p0 pp,
  byteswap16_twice v pv,
  of_swapped dec b3 b2 b1 b0 v p3 p2 p1 p0 pv,
)
