-- ===== src/Scheduler/Conservation.antt =====
-- No task is lost and none is run twice (src/scheduler.cc, `scheduleNoLock` and `run`).
use lt.Base.{
  ℕ, ◌+◌, ◌<◌, ◌≡◌, refl, sym, ap, ◌∙◌, Bool, true, false, List, [], ◌∷◌, ◌++◌, Option, none, some,
  arith, if◌then◌else◌, if_cases, Bool-cases, inl, inr,
}
use lt.Scheduler.{
  ScheduleTask, Scheduler, has_work, schedule, Scan, is_elsewhere, is_busy, scan, take_task,
}
use lt.Scheduler.Workers.{
  Pc, choosing, holding, idling, exited, System, update, Step, takes, idles, exits, completes,
  resumes, schedules, stops, Reach, begin, later, sum_of, sum_of-update, sum_of-zero,
}

-- `w` counts each task as one may choose: with 1 for one task and 0 for the others it counts the
-- occurrences of that task.
module _ (w : ScheduleTask → ℕ) where
  pub queued : List ScheduleTask → ℕ
  queued [] = 0
  queued (t ∷ ts) = w t + queued ts

  abbrev pub held : Pc → ℕ
  held (choosing over) = 0
  held (holding over t) = w t
  held idling = 0
  held exited = 0

  abbrev pub count_of : Option ScheduleTask → ℕ
  count_of none = 0
  count_of (some t) = w t

  -- What is in the queue or held by one of `n` threads.
  pub open_tasks : ℕ → System → ℕ
  open_tasks n s = queued s.sched.tasks + sum_of held n s.pc

  queued-append :
      (ts : List ScheduleTask) (t : ScheduleTask) → queued (ts ++ t ∷ []) ≡ queued ts + w t
  unfolding queued
  queued-append [] t = omega arith
  queued-append (x ∷ xs) t = omega (arith, queued-append xs t)

  queued-scan :
      (tid : ℕ) (r : ℕ → Bool) (ts : List ScheduleTask)
      → queued (scan tid r ts).left + count_of (scan tid r ts).task ≡ queued ts
  unfolding queued scan
  queued-scan tid r [] = refl
  queued-scan tid r (t ∷ ts) =
      if_cases Keeps (is_elsewhere tid t) _ _ (λ _. omega (arith, queued-scan tid r ts))
        (λ _.
          if_cases Keeps (is_busy r t) _ _ (λ _. omega (arith, queued-scan tid r ts))
            (λ _. omega arith))
    where
      Keeps : Scan → Type 0
      Keeps s = queued s.left + count_of s.task ≡ queued (t ∷ ts)

  -- What a step adds to the tasks, and what it completes.
  pub added : {n : ℕ} {s t : System} → Step n s t → ℕ
  added (takes i over r t lt e f) = 0
  added (idles i r lt e f) = 0
  added (exits i r lt e f) = 0
  added (completes i over t lt e) = 0
  added (resumes i over lt e f) = 0
  added (schedules t) = if has_work t then w t else 0
  added stops = 0

  unfoldable pub completed : {n : ℕ} {s t : System} → Step n s t → ℕ
  completed (takes i over r t lt e f) = 0
  completed (idles i r lt e f) = 0
  completed (exits i r lt e f) = 0
  completed (completes i over t lt e) = w t
  completed (resumes i over lt e f) = 0
  completed (schedules t) = 0
  completed stops = 0

  pc_lem :
      (n : ℕ) (pc : ℕ → Pc) (i : ℕ) (p q : Pc)
      → i < n
      → pc i ≡ p
      → sum_of held n (update pc i q) + held p ≡ sum_of held n pc + held q
  pc_lem n pc i p q lt e =
      ap (λ x. sum_of held n (update pc i q) + held x) (sym e) ∙ sum_of-update held n pc i q lt

  Step-conserves :
      {n : ℕ} {s t : System} (st : Step n s t)
      → open_tasks n t + completed st ≡ open_tasks n s + added st
  unfolding open_tasks added completed take_task schedule
  Step-conserves {n} {s} (takes i over r t lt e f) = omega (
    arith,
    pc_lem n s.pc i (choosing over) (holding over t) lt e,
    queued-scan i r s.sched.tasks,
    ap count_of f,
  )
  Step-conserves {n} {s} (idles i r lt e f) =
      omega (arith, pc_lem n s.pc i (choosing false) idling lt e)
  Step-conserves {n} {s} (exits i r lt e f) =
      omega (arith, pc_lem n s.pc i (choosing true) exited lt e)
  Step-conserves {n} {s} (completes i over t lt e) =
      omega (arith, pc_lem n s.pc i (holding over t) (choosing over) lt e)
  Step-conserves {n} {s} (resumes i over lt e f) =
      omega (arith, pc_lem n s.pc i idling (choosing over) lt e)
  Step-conserves {n} {s} (schedules t) = elim (Bool-cases (has_work t)) [
    | inl h ↦ rw h (omega (arith, queued-append s.sched.tasks t))
    | inr h ↦ rw h refl
  ]
  Step-conserves stops = refl

  pub all_added : {n : ℕ} {start : Scheduler} {s : System} → Reach n start s → ℕ
  all_added begin = 0
  all_added (later r st) = all_added r + added st

  unfoldable pub all_completed : {n : ℕ} {start : Scheduler} {s : System} → Reach n start s → ℕ
  all_completed begin = 0
  all_completed (later r st) = all_completed r + completed st

  nothing_queued : (start : Scheduler) → start.tasks ≡ [] → queued start.tasks ≡ 0
  unfolding queued
  nothing_queued start e = ap queued e

  -- In every run of `n` worker threads, however tasks are counted, those that were scheduled are those
  -- in the queue, those that a thread holds and those that were completed: no task is lost on the way
  -- and none is run twice. A task without fiber and callback is never queued.
  pub Reach-conserves :
      {n : ℕ} {start : Scheduler} {s : System} (r : Reach n start s)
      → start.tasks ≡ []
      → open_tasks n s + all_completed r ≡ all_added r
  unfolding open_tasks all_added all_completed
  Reach-conserves {n} {start} begin e =
      omega (arith, sum_of-zero held n (choosing false) refl, nothing_queued start e)
  Reach-conserves (later r st) e = omega (arith, Reach-conserves r e, Step-conserves st)
