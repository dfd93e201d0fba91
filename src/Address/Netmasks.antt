-- ===== src/Address/Netmasks.antt =====
-- Which addresses an interface has, and the prefix lengths of their masks (src/address.cc).
use lt.Base.{
  ℕ, zero, suc, ◌+◌, ◌*◌, ◌/◌, ◌%◌, ◌^◌, ◌<◌, ◌≡◌, refl, ap, ap₂, ◌∙◌, Bool, true, false, not, ◌&&◌,
  ◌||◌, List, [], ◌∷◌, ◌++◌, map, Option, none, some, ◌==◌, if◌then◌else◌, is_empty, length, All,
  Bool-cases, inl, inr, if_true, if_false, arith,
}
use mathlib.Core.Path.{subst}
use lt.Address.Subnets.{pow-add}
use native.Mathlib.Nat.{zero-add, suc-add}
use lt.Base.Bytes.{mul-two-pow}
use lt.Address.Lookup.{Found, create}
use lt.Address.Masks.{count_loop}
use lt.Address.Prefix.{ones, ones_most, total, count_loop-ones, mask_length-total}
use lt.Address.Interfaces.{
  Interface, word_of, prefix_len, Entry, is_other, entries_of, before, gather, nonempty, named,
  all_addresses, same_name, equal_range, interface_addresses,
}

-- The set bits of a word are those of its parts.
ones_parts : (k w b r : ℕ) → b < 2 ^ k → ones (k + w) (r * 2 ^ k + b) ≡ ones k b + ones w r
unfolding ones
ones_parts zero w b r lt =
    let whole : r * 2 ^ 0 + b ≡ r = omega arith in
    omega (arith, ap (ones w) whole, ap (λ n. ones n (r * 2 ^ 0 + b)) (zero-add w))
ones_parts (suc k) w b r lt =
    let v = r * 2 ^ suc k + b in
    let low : v % 2 ≡ b % 2 = omega (arith, mul-two-pow r k) in
    let high : v / 2 ≡ r * 2 ^ k + b / 2 = omega (arith, mul-two-pow r k) in
    omega (
      arith,
      ap (λ n. ones n v) (suc-add k w),
      low,
      ap (ones (k + w)) high,
      ones_parts k w (b / 2) r (omega arith),
    )

abbrev bits_of : List ℕ → ℕ
bits_of [] = 0
bits_of (b ∷ bs) = 8 + bits_of bs

bits_lem : (bs : List ℕ) → bits_of bs ≡ 8 * length bs
bits_lem [] = refl
bits_lem (b ∷ bs) = omega (arith, bits_lem bs)

word_of-lt : (bs : List ℕ) → All (λ b. b < 256) bs → word_of bs < 2 ^ bits_of bs
unfolding word_of
word_of-lt [] h = omega arith
word_of-lt (b ∷ bs) h = omega (arith, h.0, word_of-lt bs h.1, pow-add 8 (bits_of bs))

ones-word_of : (bs : List ℕ) → All (λ b. b < 256) bs → ones (bits_of bs) (word_of bs) ≡ total bs
unfolding word_of total ones
ones-word_of [] h = refl
ones-word_of (b ∷ bs) h =
    let swap : b + 256 * word_of bs ≡ word_of bs * 2 ^ 8 + b = omega arith in
    omega (
      arith,
      ap (ones (8 + bits_of bs)) swap,
      ones_parts 8 (bits_of bs) b (word_of bs) h.0,
      ones-word_of bs h.1,
    )

-- The prefix length of a mask is the number of its set bits, in either family.
prefix_len-total :
    (family : ℕ) (mask : List ℕ)
    → All (λ b. b < 256) mask
    → ((family == 2) ≡ true → length mask ≡ 4)
    → prefix_len family mask ≡ some (total mask)
unfolding prefix_len
prefix_len-total family mask h four = elim (Bool-cases (family == 2)) [
  | inl v4 ↦
      let w : bits_of mask ≡ 32 = omega (arith, bits_lem mask, four v4) in
      if_true (family == 2) _ _ v4
      ∙ subst (λ n. count_loop n (word_of mask) ≡ some (total mask)) w
          (count_loop-ones (bits_of mask) (bits_of mask) (word_of mask) (word_of-lt mask h)
              (ones_most (bits_of mask) (word_of mask))
            ∙ ap some (ones-word_of mask h))
  | inr v6 ↦ if_false (family == 2) _ _ v6 ∙ mask_length-total mask h
]

-- An interface that has an address, of which the mask is of its family.
pub record Described : Type 0 where
  pub name : List ℕ
  pub family : ℕ
  pub bytes : List ℕ
  pub mask : List ℕ

abbrev pub IsMasked : Described → Type 0
IsMasked d = All (λ b. b < 256) d.mask × ((d.family == 2) ≡ true → length d.mask ≡ 4)

abbrev pub interface_of : Described → Interface
interface_of d = record { name = d.name; address = some (d.family, d.bytes); netmask = some d.mask }

abbrev entry_of : Described → Entry
entry_of d = record { name = d.name; address = create (d.family, d.bytes); prefix = total d.mask }

abbrev listed : ℕ → List Described → List Entry
listed family [] = []
listed family (d ∷ ds) =
    if is_other family d.family then listed family ds else entry_of d ∷ listed family ds

-- The addresses of the interfaces named `iface` that have the family, each with the number of the set
-- bits of its mask.
unfoldable pub picked : List ℕ → ℕ → List Described → List (Found × ℕ)
picked iface family [] = []
picked iface family (d ∷ ds) =
    let rest = picked iface family ds in
    if not (is_other family d.family) && same_name d.name iface
    then (create (d.family, d.bytes), total d.mask) ∷ rest
    else rest

abbrev one_entry : Option Entry → Option (List Entry)
one_entry none = none
one_entry (some e) = some (e ∷ [])

abbrev with_prefix : Described → Option ℕ → Option Entry
with_prefix d none = none
with_prefix d (some n) =
    some (record { name = d.name; address = create (d.family, d.bytes); prefix = n })

entries_of-Described :
    (family : ℕ) (d : Described)
    → IsMasked d
    → entries_of family (interface_of d)
      ≡ some (if is_other family d.family then [] else entry_of d ∷ [])
unfolding entries_of
entries_of-Described family d h = elim (Bool-cases (is_other family d.family)) [
  | inl other ↦ rw other refl
  | inr own ↦ rw own (ap one_entry (ap (with_prefix d) (prefix_len-total d.family d.mask h.0 h.1)))
]

gather-listed :
    (family : ℕ) (ds : List Described)
    → All IsMasked ds
    → gather family (map interface_of ds) ≡ some (listed family ds)
unfolding gather
gather-listed family [] h = refl
gather-listed family (d ∷ ds) h =
    ap₂ before (entries_of-Described family d h.0) (gather-listed family ds h.1)
    ∙ ap some (unless (is_other family d.family))
  where
    unless :
        (b : Bool)
        → (if b then [] else entry_of d ∷ []) ++ listed family ds
          ≡ (if b then listed family ds else entry_of d ∷ listed family ds)
    unless true = refl
    unless false = refl

equal_range-listed :
    (iface : List ℕ) (family : ℕ) (ds : List Described)
    → equal_range iface (listed family ds) ≡ picked iface family ds
unfolding equal_range picked
equal_range-listed iface family [] = refl
equal_range-listed iface family (d ∷ ds) = elim (Bool-cases (is_other family d.family)) [
  | inl other ↦ rw other (equal_range-listed iface family ds)
  | inr own ↦ rw own (
      ap
        (λ rest.
          if same_name d.name iface
          then (create (d.family, d.bytes), total d.mask) ∷ rest
          else rest)
        (equal_range-listed iface family ds))
]

of_listed :
    (iface : List ℕ) (es : List Entry)
    → named [] iface (nonempty (some es))
      ≡ some (not (is_empty (equal_range iface es)), equal_range iface es)
unfolding equal_range named
of_listed iface [] = refl
of_listed iface (e ∷ es) = refl

-- The addresses of a named interface, neither "" nor "*", are those that the system lists under its name
-- and that have the family, in its order, each with the number of the set bits of its mask as the length
-- of its prefix; the call says whether there is one. Each listed interface has an address, and a mask of
-- bytes, four of them for IPv4.
pub interface_addresses-picked :
    (ds : List Described) (iface : List ℕ) (family : ℕ)
    → All IsMasked ds
    → is_empty iface ≡ false
    → same_name iface (42 ∷ []) ≡ false
    → interface_addresses (some (map interface_of ds)) [] iface family
      ≡ some (not (is_empty (picked iface family ds)), picked iface family ds)
unfolding interface_addresses all_addresses
interface_addresses-picked ds iface family h given star =
    if_false (is_empty iface || same_name iface (42 ∷ [])) _ _ (ground (arith, given, star))
    ∙ (ap (λ o. named [] iface (nonempty o)) (gather-listed family ds h)
        ∙ (of_listed iface (listed family ds)
            ∙ ap (λ r. some (not (is_empty r), r)) (equal_range-listed iface family ds)))
