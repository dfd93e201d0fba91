-- ===== src/Address/Order.antt =====
-- The order of addresses (src/address.cc).
use lt.Base.{
  ℕ, suc, ◌≡◌, ◌↔◌, ◌⊎◌, inl, inr, refl, sym, ap, ap₂, ◌∙◌, Bool, true, false, List, [], ◌∷◌,
  if◌then◌else◌, Bool-cases, arith, ltb, length,
}
use lt.Address.Compare.{Sign, below, same, above, memcmp, min, decide, less, is_same, equal}

-- The order of words: by the first byte in which they differ, a prefix before what it starts.
pub lex : List ℕ → List ℕ → Bool
lex [] [] = false
lex [] (y ∷ ys) = true
lex (x ∷ xs) [] = false
lex (x ∷ xs) (y ∷ ys) =
    let rest = lex xs ys in if ltb x y then true else if ltb y x then false else rest

min-suc : (m n : ℕ) → min (suc m) (suc n) ≡ suc (min m n)
unfolding min
min-suc m n = ground arith

decide-suc : (s : Sign) (m n : ℕ) → decide s (suc m) (suc n) ≡ decide s m n
unfolding decide
decide-suc below m n = refl
decide-suc above m n = refl
decide-suc same m n = ground arith

pub less-lex : (a b : List ℕ) → less a b ≡ lex a b
unfolding less memcmp lex min decide
less-lex [] [] = refl
less-lex [] (y ∷ ys) = ground arith
less-lex (x ∷ xs) [] = ground arith
less-lex (x ∷ xs) (y ∷ ys) =
    let m = length xs in
    let n = length ys in
    let rest = decide-suc (memcmp (min m n) xs ys) m n ∙ less-lex xs ys in
    ap (λ k. decide (memcmp k (x ∷ xs) (y ∷ ys)) (suc m) (suc n)) (min-suc m n)
    ∙ elim (Bool-cases (ltb x y)) [
      | inl e ↦ rw e refl
      | inr e ↦ elim (Bool-cases (ltb y x)) [ inl f ↦ rw (e, f) refl | inr f ↦ rw (e, f) rest ]
    ]

equal-eq : (a b : List ℕ) → equal a b ≡ true → a ≡ b
unfolding equal memcmp is_same
equal-eq [] [] h = refl
equal-eq [] (y ∷ ys) h = ground arith
equal-eq (x ∷ xs) [] h = ground arith
equal-eq (x ∷ xs) (y ∷ ys) h =
    let first : x ≡ y = ground arith in
    let rest : equal xs ys ≡ true = ground arith in ap₂ (λ z zs. z ∷ zs) first (equal-eq xs ys rest)

equal_refl : (a : List ℕ) → equal a a ≡ true
unfolding equal memcmp is_same
equal_refl [] = refl
equal_refl (x ∷ xs) = ground (arith, equal_refl xs)

lex_irrefl : (a : List ℕ) → lex a a ≡ false
unfolding lex
lex_irrefl [] = refl
lex_irrefl (x ∷ xs) = ground (arith, lex_irrefl xs)

lex_trans : (a b c : List ℕ) → lex a b ≡ true → lex b c ≡ true → lex a c ≡ true
unfolding lex
lex_trans [] [] c h k = ground arith
lex_trans [] (y ∷ ys) [] h k = ground arith
lex_trans [] (y ∷ ys) (z ∷ zs) h k = refl
lex_trans (x ∷ xs) [] c h k = ground arith
lex_trans (x ∷ xs) (y ∷ ys) [] h k = ground arith
lex_trans (x ∷ xs) (y ∷ ys) (z ∷ zs) h k = ground (arith, lex_trans xs ys zs)

lex-total : (a b : List ℕ) → lex a b ≡ false → lex b a ≡ false → a ≡ b
unfolding lex
lex-total [] [] h k = refl
lex-total [] (y ∷ ys) h k = ground arith
lex-total (x ∷ xs) [] h k = ground arith
lex-total (x ∷ xs) (y ∷ ys) h k =
    let first : x ≡ y = ground arith in
    ap₂ (λ z zs. z ∷ zs) first (lex-total xs ys (ground arith) (ground arith))

-- `operator<` is the order of words, which is strict and total: no address is below itself, it is
-- transitive, and of two addresses that `operator==` tells apart, one is below the other;
-- `operator==` holds exactly for the same bytes.
pub less-Total :
    (a b c : List ℕ)
    → (less a b ≡ lex a b)
      × (less a a ≡ false)
      × (less a b ≡ true → less b c ≡ true → less a c ≡ true)
      × (equal a b ≡ false → (less a b ≡ true) ⊎ (less b a ≡ true))
      × ((equal a b ≡ true) ↔ (a ≡ b))
less-Total a b c = (
  less-lex a b,
  less-lex a a ∙ lex_irrefl a,
  (λ h k. less-lex a c ∙ lex_trans a b c (sym (less-lex a b) ∙ h) (sym (less-lex b c) ∙ k)),
  (λ ne. elim (Bool-cases (less a b)) [
    | inl h ↦ inl h
    | inr h ↦ elim (Bool-cases (less b a)) [
      | inl k ↦ inr k
      | inr k ↦
          let e = lex-total a b (sym (less-lex a b) ∙ h) (sym (less-lex b a) ∙ k) in
          absurd (ground (arith, ap (equal a) e, equal_refl a))
    ]
  ]),
  (equal-eq a b, (λ e. ap (equal a) (sym e) ∙ equal_refl a)),
)
