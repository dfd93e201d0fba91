-- ===== src/Timer/Expiry.antt =====
-- What `listExpiredCb` takes out (src/timer.cc): exactly the timers whose deadline has come.
use lt.Base.{
  ℕ, ◌≤◌, ◌<◌, ◌≡◌, ◌≢◌, refl, ap, Bool, true, false, not, ◌||◌, inl, inr, List, [], ◌∷◌, arith,
  Bool-cases, leb, contains, is_empty, All,
}
use lt.Timer.{Heap, comparator, skip_now, split_expired, none_due}
use lt.Timer.Order.{comparator-le}
use lt.Timer.Ordered.{Before, Sorted}
use lt.Timer.Pending.{select}

-- A timer that is due at a time.
abbrev pub is_due : Heap → ℕ → ℕ → Bool
is_due h now p = leb (h p).next now

abbrev pub Positive : ℕ → Type 0
Positive p = p ≢ 0

-- In a sorted list nothing that follows a timer that is still to come is due.
pub none_due_after :
    (h : Heap) (now p : ℕ) (xs : List ℕ)
    → p ≢ 0
    → now < (h p).next
    → All (Before h p) xs
    → (select (is_due h now) xs ≡ []) × (select (λ q. not (is_due h now q)) xs ≡ xs)
none_due_after h now p [] hp lt a = (refl, refl)
none_due_after h now p (x ∷ xs) hp lt a =
    ground (arith, none_due_after h now p xs hp lt a.1, comparator-le h p x a.0 hp)

-- The loop after `lower_bound` goes on to the last timer that is due.
skip_now_lem :
    (h : Heap) (now : ℕ) (xs : List ℕ)
    → Sorted h xs
    → All Positive xs
    → All (λ p. now ≤ (h p).next) xs
    → skip_now h now xs ≡ (select (is_due h now) xs, select (λ p. not (is_due h now p)) xs)
unfolding skip_now
skip_now_lem h now [] s pos le = refl
skip_now_lem h now (x ∷ xs) s pos le = ground (
  arith,
  skip_now_lem h now xs s.1 pos.1 le.1,
  λ (lt : now < (h x).next). none_due_after h now x xs pos.0 lt s.0,
)

-- With `now_timer` for the key.
module _ (h : Heap) (now tmp : ℕ) (key : (h tmp).next ≡ now) (htmp : tmp ≢ 0) where
  after_key :
      (p : ℕ) (xs : List ℕ)
      → p ≢ 0
      → now ≤ (h p).next
      → All (Before h p) xs
      → All (λ q. now ≤ (h q).next) xs
  after_key p [] hp le a = tt
  after_key p (x ∷ xs) hp le a =
      ground (arith, comparator-le h p x a.0 hp, after_key p xs hp le a.1)

  before_key : (p : ℕ) → p ≢ 0 → comparator h p tmp ≡ true → (h p).next ≤ now
  unfolding comparator
  before_key p hp e = ground arith

  from_key : (p : ℕ) → p ≢ 0 → comparator h p tmp ≡ false → now ≤ (h p).next
  unfolding comparator
  from_key p hp e = ground arith

  pub split_expired_lem :
      (xs : List ℕ)
      → Sorted h xs
      → All Positive xs
      → split_expired false now tmp h xs
        ≡ (select (is_due h now) xs, select (λ p. not (is_due h now p)) xs)
  unfolding split_expired
  split_expired_lem [] s pos = refl
  split_expired_lem (x ∷ xs) s pos = elim (Bool-cases (comparator h x tmp)) [
    | inl before ↦ ground (arith, before_key x pos.0 before, split_expired_lem xs s.1 pos.1)
    | inr from ↦ rw from (
        skip_now_lem h now (x ∷ xs) s pos
          (from_key x pos.0 from, after_key x xs pos.0 (from_key x pos.0 from) s.0))
  ]

pub select-all : (xs : List ℕ) → select (λ q. true) xs ≡ xs
select-all [] = refl
select-all (x ∷ xs) = ap (◌∷◌ x) (select-all xs)

select-none : (xs : List ℕ) → select (λ q. not true) xs ≡ []
select-none [] = refl
select-none (x ∷ xs) = select-none xs

pub All-Positive : (xs : List ℕ) → contains xs 0 ≡ false → All Positive xs
All-Positive [] e = tt
All-Positive (x ∷ xs) e = (ground arith, All-Positive xs (ground arith))

pub select-is_empty : (f : ℕ → Bool) (xs : List ℕ) → is_empty xs ≡ true → select f xs ≡ []
select-is_empty f [] e = refl
select-is_empty f (x ∷ xs) e = cc

pub select-cong :
    (f g : ℕ → Bool) (xs : List ℕ)
    → ((q : ℕ) → contains xs q ≡ true → f q ≡ g q)
    → select f xs ≡ select g xs
select-cong f g [] e = refl
select-cong f g (x ∷ xs) e = ground (arith, e x, select-cong f g xs (λ q c. e q (ground arith)))

pub split_lem :
    (h : Heap) (now tmp : ℕ)
    → (h tmp).next ≡ now
    → tmp ≢ 0
    → (roll : Bool) (xs : List ℕ) → Sorted h xs
    → All Positive xs
    → split_expired roll now tmp h xs
      ≡ (select (λ q. roll || is_due h now q) xs, select (λ q. not (roll || is_due h now q)) xs)
unfolding split_expired
split_lem h now tmp key htmp true xs s pos = rw (select-all xs, select-none xs)
split_lem h now tmp key htmp false xs s pos = split_expired_lem h now tmp key htmp xs s pos

pub none_due_lem :
    (h : Heap) (now : ℕ) (roll : Bool) (xs : List ℕ)
    → Sorted h xs
    → All Positive xs
    → none_due roll now h xs ≡ true
    → select (λ q. roll || is_due h now q) xs ≡ []
unfolding none_due
none_due_lem h now roll [] s pos d = refl
none_due_lem h now true (x ∷ xs) s pos d = cc
none_due_lem h now false (x ∷ xs) s pos d =
    ground (arith, (none_due_after h now x xs pos.0 (ground arith) s.0).0)
