-- ===== src/Timer/Expired.antt =====
-- `listExpiredCb` as a whole (src/timer.cc): the callbacks that it lists, the set and the timers
-- that it leaves, and the invariant.
use lt.Base.{
  ℕ, ◌≡◌, ◌≢◌, refl, ap, ap₂, ◌∙◌, Bool, true, false, not, ◌&&◌, ◌||◌, List, [], map, arith,
  if◌then◌else◌, if_cases, contains, is_empty, add64,
}
use lt.Callback.{Callback, null}
use lt.Timer.{
  Heap, Timer, TimerManager, update, split_expired, rearm_all, none_due, list_expired_cb,
  detect_clock_rollover,
}
use lt.Timer.Ordered.{Sorted-frame}
use lt.Timer.Invariant.{IsValid, Inv}
use lt.Timer.Pending.{
  Pending, IsValid-Pending, select, select-contains, callbacks-frame, rearmed, rearm_all-IsValid,
  rearm_all-callbacks, rearm_all-contains, rearm_all-heap,
}
use lt.Timer.Expiry.{is_due, All-Positive, select-cong, select-is_empty, split_lem, none_due_lem}

-- The timers that `listExpiredCb` takes: all of them after a rollover, else those that are due.
abbrev pub expires : ℕ → TimerManager → ℕ → Bool
expires now m q = (detect_clock_rollover now m).0 || is_due m.heap now q

module _ (m : TimerManager) (now tmp : ℕ) (v : Inv m) (htmp : tmp ≢ 0)
    (fresh : contains m.timers tmp ≡ false) where
  now_timer : Timer
  now_timer = record { recurring = false; ms = 0; next = now; cb = null }

  with_key : Heap
  unfolding now_timer
  with_key = update m.heap tmp now_timer

  abbrev taken : List ℕ
  taken = select (expires now m) m.timers

  abbrev kept : List ℕ
  kept = select (λ q. not (expires now m q)) m.timers

  out : (q : ℕ) → contains m.timers q ≡ true → with_key q ≡ m.heap q
  unfolding with_key
  out q c = ground (arith, fresh)

  with_key-other : (q : ℕ) → q ≢ tmp → with_key q ≡ m.heap q
  unfolding with_key
  with_key-other q e = ground arith

  selected : (q : ℕ) → contains taken q ≡ (contains m.timers q && expires now m q)
  selected q = select-contains (expires now m) m.timers q

  unselected : (q : ℕ) → contains kept q ≡ (contains m.timers q && not (expires now m q))
  unselected q = select-contains (λ p. not (expires now m p)) m.timers q

  with_key-IsValid : IsValid with_key m.timers
  unfolding with_key now_timer
  with_key-IsValid = record {
    sorted =
        Sorted-frame m.heap with_key m.timers (λ q c. ap (λ (t : Timer). t.next) (out q c))
          v.sorted;
    exact = λ q. ground (arith, v.exact q, fresh);
    no_null = v.no_null;
  }

  split_taken :
      split_expired (detect_clock_rollover now m).0 now tmp with_key m.timers ≡ (taken, kept)
  unfolding with_key now_timer
  split_taken =
      split_lem with_key now tmp (ground arith) htmp (detect_clock_rollover now m).0 m.timers
        with_key-IsValid.sorted (All-Positive m.timers v.no_null)
      ∙ ap₂ (λ (a b : List ℕ). let s : List ℕ × List ℕ = (a, b) in s)
          (select-cong _ _ m.timers (λ q c. rw (out q c)))
          (select-cong _ _ m.timers (λ q c. rw (out q c)))

  taken-Pending : Pending with_key kept taken
  taken-Pending = IsValid-Pending (expires now m) with_key-IsValid

  -- The manager after the loop.
  looped : TimerManager
  looped =
      let s = (rearm_all now taken (with_key, kept)).1 in
      record m { heap = s.0; timers = s.1; previouse_time = now }

  list_expired_cases {κ} :
      (P : List Callback × TimerManager → Type κ)
      → ((k : TimerManager) → taken ≡ [] → k.heap ≡ m.heap → k.timers ≡ m.timers → P ([], k))
      → P ((rearm_all now taken (with_key, kept)).0, looped)
      → P (list_expired_cb now tmp m)
  unfolding list_expired_cb looped with_key now_timer detect_clock_rollover
  list_expired_cases P idle busy =
      if_cases P (is_empty m.timers) _ _
        (λ e. idle m (select-is_empty (expires now m) m.timers e) refl refl)
        (λ e.
          if_cases P (none_due (detect_clock_rollover now m).0 now m.heap m.timers) _ _
            (λ d.
              idle (detect_clock_rollover now m).1
                (none_due_lem m.heap now (detect_clock_rollover now m).0 m.timers v.sorted
                  (All-Positive m.timers v.no_null) d)
                refl refl)
            (λ d. rw split_taken busy))

  -- In a valid manager `listExpiredCb` returns the callbacks of exactly the timers that expire, in the
  -- order of their deadlines: those whose deadline has come, or all after a clock rollover.
  pub list_expired_cb-callbacks : (list_expired_cb now tmp m).0 ≡ map (λ q. (m.heap q).cb) taken
  list_expired_cb-callbacks =
      list_expired_cases (λ r. r.0 ≡ map (λ q. (m.heap q).cb) taken) (λ k e _ _. rw e)
        (rearm_all-callbacks now taken with_key kept taken-Pending
          ∙ callbacks-frame m.heap with_key taken (λ q c. out q (ground (arith, selected q))))

  list_expired_cb-contains :
      (q : ℕ)
      → contains (list_expired_cb now tmp m).1.timers q
        ≡ (contains m.timers q && (not (expires now m q) || (m.heap q).recurring))
  unfolding looped
  list_expired_cb-contains q =
      list_expired_cases
        (λ r.
          contains r.1.timers q
          ≡ (contains m.timers q && (not (expires now m q) || (m.heap q).recurring)))
        (λ k e _ et. rw et (ground (arith, selected q, ap (λ (xs : List ℕ). contains xs q) e)))
        (rearm_all-contains now taken with_key kept q taken-Pending
          ∙ ground (arith, selected q, unselected q, out q))

  list_expired_cb-heap :
      (q : ℕ)
      → q ≢ tmp
      → (list_expired_cb now tmp m).1.heap q
        ≡ (if contains m.timers q && expires now m q then rearmed now (m.heap q) else m.heap q)
  unfolding looped
  list_expired_cb-heap q other =
      list_expired_cases
        (λ r.
          r.1.heap q
          ≡ (if contains m.timers q && expires now m q then rearmed now (m.heap q) else m.heap q))
        (λ k e eh _. rw eh (ground (arith, selected q, ap (λ (xs : List ℕ). contains xs q) e)))
        (rearm_all-heap now taken with_key kept q taken-Pending
          ∙ ground (arith, selected q, with_key-other q other))

  -- After `listExpiredCb` the set holds, of the timers that expire, the recurring ones, and all others as
  -- before. A recurring timer that expires is due again one period from now, any other that expires
  -- loses its callback, and the rest (but the temporary at `tmp`) are as they were.
  pub list_expired_cb-state :
      (q : ℕ)
      → (contains (list_expired_cb now tmp m).1.timers q
          ≡ (contains m.timers q && (not (expires now m q) || (m.heap q).recurring)))
        × (q ≢ tmp
            → (list_expired_cb now tmp m).1.heap q ≡ (
                if contains m.timers q && expires now m q
                then (if (m.heap q).recurring
                    then record (m.heap q) { next = add64 now (m.heap q).ms }
                    else record (m.heap q) { cb = null })
                else m.heap q))
  list_expired_cb-state q = (list_expired_cb-contains q, list_expired_cb-heap q)

  pub list_expired_cb-Inv : Inv (list_expired_cb now tmp m).1
  unfolding looped
  list_expired_cb-Inv =
      list_expired_cases (λ r. Inv r.1) (λ k _ eh et. rw (eh, et) v)
        (rearm_all-IsValid now taken with_key kept taken-Pending)
