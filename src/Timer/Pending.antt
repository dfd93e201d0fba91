-- ===== src/Timer/Pending.antt =====
-- The loop of `listExpiredCb` over the timers that it took out (src/timer.cc): its invariant, the
-- callbacks that it lists, and what it leaves.
use lt.Base.{
  ℕ, ◌≡◌, refl, ap, ◌∙◌, Bool, true, false, not, ◌&&◌, ◌||◌, List, [], ◌∷◌, map, arith, Bool-cases,
  ◌==◌, if◌then◌else◌, if_elim, contains, All, add64, inl, inr,
}
use lt.Callback.{is_set, null}
use lt.Timer.{Heap, Timer, update, set_insert, rearm, rearm_all}
use lt.Timer.Ordered.{
  Before, Sorted, Sorted-frame, set_insert-contains, set_insert-Sorted, not_contains-Before,
}
use lt.Timer.Invariant.{IsValid}

abbrev pub select : (ℕ → Bool) → List ℕ → List ℕ
select f [] = []
select f (x ∷ xs) = if f x then x ∷ select f xs else select f xs

abbrev pub Distinct : List ℕ → Type 0
Distinct [] = Unit
Distinct (x ∷ xs) = (contains xs x ≡ false) × Distinct xs

-- `ps` is taken out and `ts` is in the set; together they are the timers with a callback.
pub record Pending (h : Heap) (ts ps : List ℕ) : Type 0 where
  pub sorted : Sorted h ts
  pub exact : (q : ℕ) → (contains ts q || contains ps q) ≡ is_set (h q).cb
  pub no_null : contains ts 0 ≡ false
  pub no_null_pending : contains ps 0 ≡ false
  pub apart : (q : ℕ) → (contains ps q && contains ts q) ≡ false
  pub distinct : Distinct ps

pub Pending-IsValid : {h : Heap} {ts : List ℕ} → Pending h ts [] → IsValid h ts
Pending-IsValid {h} {ts} v = record {
  sorted = v.sorted;
  exact = λ q. ground (arith, v.exact q);
  no_null = v.no_null;
}

pub select-contains :
    (f : ℕ → Bool) (xs : List ℕ) (q : ℕ) → contains (select f xs) q ≡ (contains xs q && f q)
select-contains f [] q = refl
select-contains f (x ∷ xs) q = ground (arith, select-contains f xs q)

select-All {κ} : (P : ℕ → Type κ) (f : ℕ → Bool) (xs : List ℕ) → All P xs → All P (select f xs)
select-All P f [] a = tt
select-All P f (x ∷ xs) a = elim (Bool-cases (f x)) [
  | inl e ↦ rw e (a.0, select-All P f xs a.1)
  | inr e ↦ rw e (select-All P f xs a.1)
]

select-Sorted : (h : Heap) (f : ℕ → Bool) (xs : List ℕ) → Sorted h xs → Sorted h (select f xs)
select-Sorted h f [] s = tt
select-Sorted h f (x ∷ xs) s = elim (Bool-cases (f x)) [
  | inl e ↦ rw e (select-All (Before h x) f xs s.0, select-Sorted h f xs s.1)
  | inr e ↦ rw e (select-Sorted h f xs s.1)
]

Sorted-Distinct : (h : Heap) (xs : List ℕ) → Sorted h xs → Distinct xs
Sorted-Distinct h [] s = tt
Sorted-Distinct h (x ∷ xs) s = (not_contains-Before h x xs s.0, Sorted-Distinct h xs s.1)

-- A valid set cut in two by a test.
pub IsValid-Pending :
    {h : Heap} {ts : List ℕ} (f : ℕ → Bool)
    → IsValid h ts
    → Pending h (select (λ q. not (f q)) ts) (select f ts)
IsValid-Pending {h} {ts} f v = record {
  sorted = select-Sorted h (λ q. not (f q)) ts v.sorted;
  exact =
      λ q. ground (arith, select-contains (λ q. not (f q)) ts q, select-contains f ts q, v.exact q);
  no_null = ground (arith, select-contains (λ q. not (f q)) ts 0, v.no_null);
  no_null_pending = ground (arith, select-contains f ts 0, v.no_null);
  apart = λ q. ground (arith, select-contains (λ q. not (f q)) ts q, select-contains f ts q);
  distinct = Sorted-Distinct h (select f ts) (select-Sorted h f ts v.sorted);
}

-- What a round does to its timer.
abbrev pub rearmed : ℕ → Timer → Timer
rearmed now t = if t.recurring then record t { next = add64 now t.ms } else record t { cb = null }

-- One round.
module _ {h : Heap} {ts ps : List ℕ} (now p : ℕ) (v : Pending h ts (p ∷ ps)) where
  abbrev again : Heap
  again = update h p (record (h p) { next = add64 now (h p).ms })

  abbrev spent : Heap
  spent = update h p (record (h p) { cb = null })

  out : contains ts p ≡ false
  out = ground (arith, v.apart p)

  again-Pending : Pending again (set_insert again p ts) ps
  again-Pending = record {
    sorted =
        set_insert-Sorted again p ts
          (Sorted-frame h again ts (λ q c. ground (arith, out)) v.sorted);
    exact = λ q. ground (arith, set_insert-contains again p q ts, v.exact q);
    no_null = ground (arith, set_insert-contains again p 0 ts, v.no_null, v.no_null_pending);
    no_null_pending = ground (arith, v.no_null_pending);
    apart = λ q. ground (arith, set_insert-contains again p q ts, v.apart q, v.distinct.0);
    distinct = v.distinct.1;
  }

  spent-Pending : Pending spent ts ps
  spent-Pending = record {
    sorted = Sorted-frame h spent ts (λ q c. ground (arith, out)) v.sorted;
    exact = λ q. ground (arith, out, v.exact q, v.distinct.0);
    no_null = v.no_null;
    no_null_pending = ground (arith, v.no_null_pending);
    apart = λ q. ground (arith, v.apart q);
    distinct = v.distinct.1;
  }

  pub rearm-Pending : Pending (rearm now p (h, ts)).0 (rearm now p (h, ts)).1 ps
  unfolding rearm
  rearm-Pending =
      if_elim (λ (s : Heap × List ℕ). Pending s.0 s.1 ps) (h p).recurring
        (again, set_insert again p ts) (spent, ts) again-Pending spent-Pending

  rearm-heap : (q : ℕ) → (rearm now p (h, ts)).0 q ≡ (if p == q then rearmed now (h q) else h q)
  unfolding rearm
  rearm-heap q = ground arith

-- The whole loop.
pub rearm_all-IsValid :
    (now : ℕ) (ps : List ℕ) (h : Heap) (ts : List ℕ)
    → Pending h ts ps
    → IsValid (rearm_all now ps (h, ts)).1.0 (rearm_all now ps (h, ts)).1.1
unfolding rearm_all
rearm_all-IsValid now [] h ts v = Pending-IsValid v
rearm_all-IsValid now (p ∷ ps) h ts v =
    rearm_all-IsValid now ps (rearm now p (h, ts)).0 (rearm now p (h, ts)).1 (rearm-Pending now p v)

-- A change of a timer out of the list does not change the list's callbacks.
pub callbacks-frame :
    (h k : Heap) (ps : List ℕ)
    → ((q : ℕ) → contains ps q ≡ true → k q ≡ h q)
    → map (λ q. (k q).cb) ps ≡ map (λ q. (h q).cb) ps
callbacks-frame h k [] e = refl
callbacks-frame h k (p ∷ ps) e =
    ground (arith, e p, callbacks-frame h k ps (λ q c. e q (ground arith)))

-- It lists the callback that each timer had when the loop began, in order.
pub rearm_all-callbacks :
    (now : ℕ) (ps : List ℕ) (h : Heap) (ts : List ℕ)
    → Pending h ts ps
    → (rearm_all now ps (h, ts)).0 ≡ map (λ q. (h q).cb) ps
unfolding rearm_all
rearm_all-callbacks now [] h ts v = refl
rearm_all-callbacks now (p ∷ ps) h ts v = ap (◌∷◌ (h p).cb) (
    rearm_all-callbacks now ps (rearm now p (h, ts)).0 (rearm now p (h, ts)).1
      (rearm-Pending now p v)
    ∙ callbacks-frame h (rearm now p (h, ts)).0 ps
        (λ q c. rearm-heap now p v q ∙ ground (arith, v.distinct.0)))

pub rearm_all-heap :
    (now : ℕ) (ps : List ℕ) (h : Heap) (ts : List ℕ) (q : ℕ)
    → Pending h ts ps
    → (rearm_all now ps (h, ts)).1.0 q ≡ (if contains ps q then rearmed now (h q) else h q)
unfolding rearm_all
rearm_all-heap now [] h ts q v = refl
rearm_all-heap now (p ∷ ps) h ts q v =
    rearm_all-heap now ps (rearm now p (h, ts)).0 (rearm now p (h, ts)).1 q (rearm-Pending now p v)
    ∙ ground (arith, rearm-heap now p v q, v.distinct.0)

-- The set afterwards: the recurring timers are back.
pub rearm_all-contains :
    (now : ℕ) (ps : List ℕ) (h : Heap) (ts : List ℕ) (q : ℕ)
    → Pending h ts ps
    → contains (rearm_all now ps (h, ts)).1.1 q
      ≡ (contains ts q || (contains ps q && (h q).recurring))
rearm_all-contains now ps h ts q v =
    (rearm_all-IsValid now ps h ts v).exact q
    ∙ ground (arith, rearm_all-heap now ps h ts q v, v.exact q, v.apart q)
