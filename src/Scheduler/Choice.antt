-- ===== src/Scheduler/Choice.antt =====
-- How a worker chooses its task (src/scheduler.cc, `Scheduler::run`): the first in the queue that it
-- may run.
use lt.Base.{
  ℕ, ◌≡◌, refl, ap, ◌∙◌, Bool, true, false, not, ◌||◌, inl, inr, List, [], ◌∷◌, ◌++◌, none, some,
  arith, Bool-cases, is_empty, All,
}
use lt.Scheduler.{ScheduleTask, Scan, is_elsewhere, is_busy, scan}

-- A task that the thread `tid` must leave in the queue.
abbrev pub is_skipped : ℕ → (ℕ → Bool) → ScheduleTask → Bool
is_skipped tid r t = is_elsewhere tid t || is_busy r t

abbrev pub any_elsewhere : ℕ → List ScheduleTask → Bool
any_elsewhere tid [] = false
any_elsewhere tid (t ∷ ts) = is_elsewhere tid t || any_elsewhere tid ts

-- The queue as the loop leaves it: nothing that the thread may run, or the first such task taken out.
pub data Scanned (tid : ℕ) (r : ℕ → Bool) (tasks : List ScheduleTask) (s : Scan) : Type 0 where
  nothing :
      All (λ t. is_skipped tid r t ≡ true) tasks
      → s.task ≡ none
      → s.left ≡ tasks
      → s.tickle_me ≡ any_elsewhere tid tasks
      → Scanned tid r tasks s
  found :
      (before : List ScheduleTask) (t : ScheduleTask) (after : List ScheduleTask)
      → tasks ≡ before ++ (t ∷ after)
      → All (λ u. is_skipped tid r u ≡ true) before
      → is_skipped tid r t ≡ false
      → s.task ≡ some t
      → s.left ≡ before ++ after
      → s.tickle_me ≡ (any_elsewhere tid before || not (is_empty after))
      → Scanned tid r tasks s

skip-Scanned :
    (tid : ℕ) (r : ℕ → Bool) (t : ScheduleTask) (ts : List ScheduleTask) (s u : Scan)
    → is_skipped tid r t ≡ true
    → u.task ≡ s.task
    → u.left ≡ t ∷ s.left
    → u.tickle_me ≡ (is_elsewhere tid t || s.tickle_me)
    → Scanned tid r ts s
    → Scanned tid r (t ∷ ts) u
skip-Scanned tid r t ts s u sk et el em (nothing a e l m) =
    nothing (sk, a) (et ∙ e) (el ∙ ap (◌∷◌ t) l) (em ∙ ap (◌||◌ (is_elsewhere tid t)) m)
skip-Scanned tid r t ts s u sk et el em (found before x after e a n f l m) =
    found (t ∷ before) x after (ap (◌∷◌ t) e) (sk, a) n (et ∙ f) (el ∙ ap (◌∷◌ t) l) (ground arith)

-- The loop takes the first task that the thread may run: one that is bound to no other thread and
-- whose fiber does not run. It takes it out of the queue and keeps the rest in order. It asks for
-- other threads to be woken exactly if it passed a task bound to another thread, or tasks stand
-- behind the one that it took.
pub scan-Scanned :
    (tid : ℕ) (r : ℕ → Bool) (tasks : List ScheduleTask) → Scanned tid r tasks (scan tid r tasks)
unfolding scan
scan-Scanned tid r [] = nothing tt refl refl refl
scan-Scanned tid r (t ∷ ts) = elim (Bool-cases (is_elsewhere tid t)) [
  | inl away ↦ rw away (
      skip-Scanned tid r t ts (scan tid r ts) _ (ground arith) refl refl (rw away)
        (scan-Scanned tid r ts))
  | inr here ↦ elim (Bool-cases (is_busy r t)) [
    | inl busy ↦
        rw (here, busy)
          (skip-Scanned tid r t ts (scan tid r ts) _ (ground arith) refl refl (rw here)
            (scan-Scanned tid r ts))
    | inr free ↦ rw (here, free) (found [] t ts refl tt (ground arith) refl refl refl)
  ]
]
