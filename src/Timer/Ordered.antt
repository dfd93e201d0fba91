-- ===== src/Timer/Ordered.antt =====
-- The set of timers (src/timer.cc, `m_timers`): lists in strict order of the comparator, and what
-- `insert`, `find` and `erase` do to them.
use lt.Base.{
  ℕ, ◌≡◌, refl, ◌∙◌, true, false, not, ◌&&◌, ◌||◌, List, [], ◌∷◌, none, some, inl, inr, arith,
  Bool-cases, ◌==◌, ==_iff, if◌then◌else◌, All, All-map, contains,
}
use lt.Timer.{Heap, comparator, set_insert, set_find, set_erase}
use lt.Timer.Order.{comparator_irrefl, comparator_trans, comparator_total, comparator-frame}

abbrev pub Before : Heap → ℕ → ℕ → Type 0
Before h p q = comparator h p q ≡ true

abbrev pub Sorted : Heap → List ℕ → Type 0
Sorted h [] = Unit
Sorted h (x ∷ xs) = All (Before h x) xs × Sorted h xs

-- The address that a list of conditions on its elements speaks of.
pub All-contains {κ} :
    (P : ℕ → Type κ) (xs : List ℕ) (q : ℕ) → All P xs → contains xs q ≡ true → P q
All-contains P [] q h e = cc
All-contains P (x ∷ xs) q h e = elim (Bool-cases (x == q)) [
  | inl same ↦ rw (← (==_iff x q).0 same) h.0
  | inr other ↦ All-contains P xs q h.1 (rw other at e)
]

module _ (h : Heap) where
  -- What comes before the first element of a sorted list is not in it.
  pub not_contains-Before : (p : ℕ) (xs : List ℕ) → All (Before h p) xs → contains xs p ≡ false
  not_contains-Before p [] a = refl
  not_contains-Before p (x ∷ xs) a =
      ground (arith, not_contains-Before p xs a.1, comparator_irrefl h p)

  pub All-Before-trans :
      (p q : ℕ) (xs : List ℕ) → Before h p q → All (Before h q) xs → All (Before h p) xs
  All-Before-trans p q xs e =
      All-map (Before h q) (Before h p) (λ r f. comparator_trans h p q r e f) xs

  pub set_insert-contains :
      (p q : ℕ) (xs : List ℕ) → contains (set_insert h p xs) q ≡ (p == q || contains xs q)
  unfolding set_insert
  set_insert-contains p q [] = refl
  set_insert-contains p q (x ∷ xs) =
      ground (arith, set_insert-contains p q xs, comparator_total h p x)

  set_insert-All :
      (p q : ℕ) (xs : List ℕ)
      → Before h q p
      → All (Before h q) xs
      → All (Before h q) (set_insert h p xs)
  unfolding set_insert
  set_insert-All p q [] e a = (e, tt)
  set_insert-All p q (x ∷ xs) e a = ground (arith, set_insert-All p q xs e a.1)

  pub set_insert-Sorted : (p : ℕ) (xs : List ℕ) → Sorted h xs → Sorted h (set_insert h p xs)
  unfolding set_insert
  set_insert-Sorted p [] s = (tt, tt)
  set_insert-Sorted p (x ∷ xs) s =
      ground (arith, set_insert-Sorted p xs s.1, set_insert-All p x xs, All-Before-trans p x xs)

  pub set_erase-contains :
      (p q : ℕ) (xs : List ℕ)
      → Sorted h xs
      → contains (set_erase p xs) q ≡ (contains xs q && not (p == q))
  unfolding set_erase
  set_erase-contains p q [] s = refl
  set_erase-contains p q (x ∷ xs) s =
      ground (arith, set_erase-contains p q xs s.1, not_contains-Before x xs s.0)

  set_erase-All : (P : ℕ → Type 0) (p : ℕ) (xs : List ℕ) → All P xs → All P (set_erase p xs)
  unfolding set_erase
  set_erase-All P p [] a = tt
  set_erase-All P p (x ∷ xs) a = ground (arith, set_erase-All P p xs a.1)

  pub set_erase-Sorted : (p : ℕ) (xs : List ℕ) → Sorted h xs → Sorted h (set_erase p xs)
  unfolding set_erase
  set_erase-Sorted p [] s = tt
  set_erase-Sorted p (x ∷ xs) s =
      ground (arith, set_erase-Sorted p xs s.1, set_erase-All (Before h x) p xs s.0)

  -- `find` finds exactly what is in the set.
  pub set_find_lem :
      (p : ℕ) (xs : List ℕ)
      → Sorted h xs
      → set_find h p xs ≡ (if contains xs p then some p else none)
  unfolding set_find
  set_find_lem p [] s = refl
  set_find_lem p (x ∷ xs) s = ground (
    arith,
    set_find_lem p xs s.1,
    not_contains-Before x xs s.0,
    comparator_irrefl h p,
    comparator_total h x p,
    not_contains-Before p xs,
    All-Before-trans p x xs,
  )

-- A change that leaves the deadlines of the listed timers leaves the list sorted.
All-Before-frame :
    (h k : Heap) (p : ℕ) (xs : List ℕ)
    → (k p).next ≡ (h p).next
    → ((q : ℕ) → contains xs q ≡ true → (k q).next ≡ (h q).next)
    → All (Before h p) xs
    → All (Before k p) xs
All-Before-frame h k p [] e f a = tt
All-Before-frame h k p (x ∷ xs) e f a = (
  comparator-frame h k p x e (f x (ground arith)) ∙ a.0,
  All-Before-frame h k p xs e (λ q c. f q (ground arith)) a.1,
)

pub Sorted-frame :
    (h k : Heap) (xs : List ℕ)
    → ((q : ℕ) → contains xs q ≡ true → (k q).next ≡ (h q).next)
    → Sorted h xs
    → Sorted k xs
Sorted-frame h k [] f s = tt
Sorted-frame h k (x ∷ xs) f s = (
  All-Before-frame h k x xs (f x (ground arith)) (λ q c. f q (ground arith)) s.0,
  Sorted-frame h k xs (λ q c. f q (ground arith)) s.1,
)
