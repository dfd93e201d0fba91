-- ===== src/Address/Parts.antt =====
-- How `Address::Lookup` takes a host apart (src/address.cc).
use mathlib.Core.List.{append-nil}
use lt.Base.{
  ℕ, ◌≡◌, refl, ap, ◌∙◌, Bool, true, false, not, List, [], ◌∷◌, ◌++◌, Option, none, some, ◌==◌,
  if_true, if_false, is_empty, contains, not-true, Bool-cases, inl, inr, arith,
}
use lt.Address.Lookup.{
  open_bracket, close_bracket, colon, memchr, after_bracket, after_colon, bracketed, plain,
  split_host, Split,
}

memchr-first :
    (c : ℕ) (before after : List ℕ)
    → contains before c ≡ false
    → memchr c (before ++ c ∷ after) ≡ some (before, after)
unfolding memchr
memchr-first c [] after lacks = if_true (c == c) _ _ (ground arith)
memchr-first c (x ∷ xs) after lacks =
    rw (memchr-first c xs after (ground arith)) (if_false (x == c) _ _ (ground arith))

memchr-none : (c : ℕ) (xs : List ℕ) → contains xs c ≡ false → memchr c xs ≡ none
unfolding memchr
memchr-none c [] lacks = refl
memchr-none c (x ∷ xs) lacks =
    rw (memchr-none c xs (ground arith)) (if_false (x == c) _ _ (ground arith))

-- How a host may be written: a node in brackets or bare, with a service or without.
pub data Host : Type 0 where
  in_brackets : (node : List ℕ) (service : Option (List ℕ)) → Host
  bare : (node : List ℕ) (service : Option (List ℕ)) → Host

pub suffix : Option (List ℕ) → List ℕ
suffix none = []
suffix (some service) = colon ∷ service

pub print : Host → List ℕ
unfolding suffix
print (in_brackets node service) = open_bracket ∷ (node ++ close_bracket ∷ suffix service)
print (bare node service) = node ++ suffix service

pub parts : Host → Split
parts (in_brackets node service) = (node, service)
parts (bare node service) = (node, service)

unfoldable pub starts_with : ℕ → List ℕ → Bool
starts_with c [] = false
starts_with c (x ∷ _) = x == c

pub lacks_colon : Option (List ℕ) → Bool
lacks_colon none = true
lacks_colon (some service) = not (contains service colon)

-- A node in brackets has no `]`. A bare one has no colon and does not start with a bracket, and its
-- service has no colon. No node is empty.
unfoldable pub IsClear : Host → Type 0
IsClear (in_brackets node service) = (is_empty node ≡ false) × (contains node close_bracket ≡ false)
IsClear (bare node service) =
    (is_empty node ≡ false)
    × (contains node colon ≡ false)
    × (starts_with open_bracket node ≡ false)
    × (lacks_colon service ≡ true)

after_bracket-suffix : (service : Option (List ℕ)) → after_bracket (suffix service) ≡ service
unfolding after_bracket suffix
after_bracket-suffix none = refl
after_bracket-suffix (some service) = refl

bracketed-bare :
    (host : List ℕ) → starts_with open_bracket host ≡ false → bracketed host ≡ ([], none)
unfolding bracketed starts_with
bracketed-bare [] free = refl
bracketed-bare (x ∷ xs) free = if_false (x == open_bracket) _ _ free

starts_with-append :
    (c : ℕ) (node rest : List ℕ)
    → is_empty node ≡ false
    → starts_with c (node ++ rest) ≡ starts_with c node
unfolding starts_with
starts_with-append c [] rest full = ground arith
starts_with-append c (x ∷ xs) rest full = refl

memchr-some :
    (c : ℕ) (xs : List ℕ) → contains xs c ≡ true → (r : List ℕ × List ℕ) × (memchr c xs ≡ some r)
unfolding memchr
memchr-some c [] has = ground arith
memchr-some c (x ∷ xs) has = elim (Bool-cases (x == c)) [
  | inl e ↦ (([], xs), if_true (x == c) _ _ e)
  | inr e ↦
      let (r, eq) = memchr-some c xs (ground arith) in
      ((x ∷ r.0, r.1), rw eq (if_false (x == c) _ _ e))
]

plain-bare :
    (node : List ℕ) (service : Option (List ℕ))
    → is_empty node ≡ false
    → contains node colon ≡ false
    → lacks_colon service ≡ true
    → plain (node ++ suffix service)
      ≡ (elim service [ none ↦ ([], none) | some s ↦ (node, some s) ])
unfolding plain suffix lacks_colon
plain-bare node none full lacks one =
    ap (λ xs. after_colon (memchr colon xs)) (append-nil node)
    ∙ ap after_colon (memchr-none colon node lacks)
plain-bare node (some service) full lacks one =
    ap after_colon (memchr-first colon node service lacks)
    ∙ rw (after_colon, memchr-none colon service (not-true _ one)) refl

-- `Lookup` finds the node and the service of a host that is written in one of the two ways, with a
-- service or without.
pub split_host-print : (h : Host) → IsClear h → split_host (print h) ≡ parts h
unfolding split_host bracketed print suffix parts IsClear
split_host-print (in_brackets node service) (full, lacks) =
    rw (memchr-first close_bracket node (suffix service) lacks, after_bracket-suffix service, full)
      refl
split_host-print (bare node none) (full, lacks, free, one) =
    rw
      (
        bracketed-bare (node ++ []) (starts_with-append open_bracket node [] full ∙ free),
        plain-bare node none full lacks one,
      )
      (ap {B = Split} (λ xs. (xs, none)) (append-nil node))
split_host-print (bare node (some service)) (full, lacks, free, one) =
    rw
      (
        bracketed-bare (node ++ colon ∷ service)
            (starts_with-append open_bracket node (colon ∷ service) full ∙ free),
        plain-bare node (some service) full lacks one,
        full,
      )
      refl

-- A host with two colons or more that does not start with a bracket, as an IPv6 address may be
-- written, is passed to the system whole, with a service that starts with the first colon.
pub split_host-colons :
    (node service : List ℕ)
    → starts_with open_bracket (node ++ colon ∷ service) ≡ false
    → contains node colon ≡ false
    → contains service colon ≡ true
    → split_host (node ++ colon ∷ service) ≡ (node ++ colon ∷ service, some (colon ∷ service))
unfolding split_host plain
split_host-colons node service free lacks more =
    let (r, eq) = memchr-some colon service more in
    rw
      (
        bracketed-bare (node ++ colon ∷ service) free,
        memchr-first colon node service lacks,
        after_colon,
        eq,
      )
      refl
