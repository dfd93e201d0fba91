-- ===== src/Timer/Order.antt =====
-- The order of the timers (src/timer.cc, `Timer::Comparator`): deadlines first, then addresses.
use lt.Base.{ℕ, ◌≤◌, ◌≡◌, ◌≢◌, true, false, not, arith}
use lt.Timer.{Heap, comparator}

pub comparator_irrefl : (h : Heap) (p : ℕ) → comparator h p p ≡ false
unfolding comparator
comparator_irrefl h p = ground arith

pub comparator_asym : (h : Heap) (p q : ℕ) → comparator h p q ≡ true → comparator h q p ≡ false
unfolding comparator
comparator_asym h p q e = ground arith

pub comparator_trans :
    (h : Heap) (p q r : ℕ)
    → comparator h p q ≡ true
    → comparator h q r ≡ true
    → comparator h p r ≡ true
unfolding comparator
comparator_trans h p q r e f = ground arith

pub comparator_total :
    (h : Heap) (p q : ℕ) → comparator h p q ≡ false → comparator h q p ≡ false → p ≡ q
unfolding comparator
comparator_total h p q e f = ground arith

-- The comparator is a strict order on addresses, the null pointer included: no timer comes before
-- itself, a timer before another comes before all that follow that one, and of two different timers
-- exactly one comes before the other.
pub comparator_order :
    (h : Heap) (p q r : ℕ)
    → (comparator h p p ≡ false)
      × (comparator h p q ≡ true → comparator h q r ≡ true → comparator h p r ≡ true)
      × (p ≢ q → comparator h p q ≡ not (comparator h q p))
comparator_order h p q r = (
  comparator_irrefl h p,
  comparator_trans h p q r,
  (λ ne. ground (arith, comparator_total h p q, comparator_asym h p q, comparator_asym h q p)),
)

-- Only the deadlines count.
pub comparator-frame :
    (h k : Heap) (p q : ℕ)
    → (k p).next ≡ (h p).next
    → (k q).next ≡ (h q).next
    → comparator k p q ≡ comparator h p q
unfolding comparator
comparator-frame h k p q e f = ground arith

-- An earlier deadline comes first.
pub comparator_earlier :
    (h : Heap) (p q : ℕ) → comparator h p q ≡ false → p ≢ 0 → q ≢ 0 → (h q).next ≤ (h p).next
unfolding comparator
comparator_earlier h p q e hp hq = ground arith

pub comparator-le : (h : Heap) (p q : ℕ) → comparator h p q ≡ true → p ≢ 0 → (h p).next ≤ (h q).next
unfolding comparator
comparator-le h p q e hp = ground arith
