-- ===== src/Timer/Calls.antt =====
-- What `cancel`, `refresh`, `reset` and `addTimer` promise (src/timer.cc).
use lt.Base.{
  ℕ, ◌<◌, ◌≡◌, ◌≢◌, ◌↔◌, refl, sym, ◌∙◌, Bool, true, false, not, ◌&&◌, inl, inr, List, [], ◌∷◌,
  some, arith, Bool-cases, ◌==◌, if◌then◌else◌, contains, add64, sub64-add64, u64_mod, All,
}
use lt.Callback.{Callback, is_set, null}
use lt.Timer.{
  Heap, TimerManager, update, set_insert, set_erase, is_front, add_timer, cancel, reset,
  reset_found,
}
use lt.Timer.Order.{comparator_total}
use lt.Timer.Ordered.{
  Before, Sorted, All-Before-trans, set_insert-contains, set_erase-contains, Sorted-frame,
}
use lt.Timer.Invariant.{Inv, cancel_lem, reset_lem, erase-IsValid}

-- The state after a `cancel` that found the timer.
abbrev pub cancelled : ℕ → TimerManager → TimerManager
cancelled p m = record m {
  heap = update m.heap p (record (m.heap p) { cb = null });
  timers = set_erase p m.timers;
}

cancelled-contains :
    (m : TimerManager) (p q : ℕ)
    → Inv m
    → contains (cancelled p m).timers q ≡ (contains m.timers q && not (p == q))
cancelled-contains m p q v = set_erase-contains m.heap p q m.timers v.sorted

-- In a valid manager `cancel` never erases `end()`. It returns true exactly for a timer that still
-- has its callback; it then takes that timer, and no other, out of the set. A second `cancel` of the
-- timer returns false and changes nothing.
pub cancel_once :
    (m : TimerManager) (p : ℕ)
    → Inv m
    → (r : Bool × TimerManager) × (cancel p m ≡ some r)
      × (r.0 ≡ contains m.timers p)
      × ((q : ℕ) → contains r.1.timers q ≡ (contains m.timers q && not (p == q)))
      × (cancel p r.1 ≡ some (false, r.1))
cancel_once m p v = elim (Bool-cases (is_set (m.heap p).cb)) [
  | inl on ↦ (
    (true, cancelled p m),
    cancel_lem m p v ∙ rw on,
    sym (v.exact p ∙ on),
    (λ q. cancelled-contains m p q v),
    cancel_lem (cancelled p m) p (erase-IsValid v p _ refl) ∙ ground arith,
  )
  | inr off ↦ (
    (false, m),
    cancel_lem m p v ∙ rw off,
    sym (v.exact p ∙ off),
    (λ q. ground (arith, v.exact q)),
    cancel_lem m p v ∙ rw off,
  )
]

-- `reset` to another period keeps the time at which the timer was started: the deadline moves by
-- the difference of the periods, unless it is counted from now.
pub reset_deadline :
    (m : TimerManager) (ms start : ℕ) (from_now : Bool) (now p : ℕ)
    → Inv m
    → contains m.timers p ≡ true
    → (m.heap p).next ≡ add64 start (m.heap p).ms
    → start < u64_mod
    → (m.heap p).ms < u64_mod
    → ms ≢ (m.heap p).ms
    → let m' = (reset ms from_now now p m).1 in
      ((reset ms from_now now p m).0 ≡ true)
      × ((m'.heap p).next ≡ add64 (if from_now then now else start) ms)
      × ((m'.heap p).ms ≡ ms)
      × ((m'.heap p).cb ≡ (m.heap p).cb)
      × (contains m'.timers p ≡ true)
unfolding reset_found
reset_deadline m ms start from_now now p v c e hs hm other =
    rw (reset_lem m ms from_now now p v, sym (v.exact p) ∙ c, differ)
      (
        refl,
        ground (arith, sub64-add64 start (m.heap p).ms),
        ground arith,
        ground arith,
        set_insert-contains _ p p (set_erase p m.timers) ∙ ground arith,
      )
  where
    differ : (ms == (m.heap p).ms) ≡ false
    differ = ground arith

set_insert-front :
    (h : Heap) (p : ℕ) (xs : List ℕ)
    → Sorted h xs
    → contains xs p ≡ false
    → (is_front p (set_insert h p xs) ≡ true) ↔ All (Before h p) xs
unfolding set_insert is_front
set_insert-front h p [] s fresh = ((λ _. tt), (λ _. ground arith))
set_insert-front h p (x ∷ xs) s fresh =
    ((λ e. ground (arith, All-Before-trans h p x xs, comparator_total h p x)), (λ a. ground arith))

-- `addTimer` calls `onTimerInsertedAtFront` exactly if the new timer comes before all others and
-- no such call is outstanding; then the flag is up.
pub add_timer_front :
    (m : TimerManager) (p ms : ℕ) (cb : Callback) (recurring : Bool) (now : ℕ)
    → Inv m
    → contains m.timers p ≡ false
    → let m' = (add_timer p ms cb recurring now m).0 in
      ((add_timer p ms cb recurring now m).1 ≡ true)
      ↔ ((m.tickled ≡ false) × All (Before m'.heap p) m.timers)
unfolding add_timer
add_timer_front m p ms cb recurring now v fresh = ground (
  arith,
  set_insert-front timed p m.timers
      (Sorted-frame m.heap timed m.timers (λ q c. ground arith) v.sorted) fresh,
)
  where
    timed : Heap
    timed =
        update m.heap p (record { recurring = recurring; ms = ms; next = add64 now ms; cb = cb })
