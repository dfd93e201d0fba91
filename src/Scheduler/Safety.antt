-- ===== src/Scheduler/Safety.antt =====
-- What holds in every state of the worker threads (src/scheduler.cc): the counters are right, and
-- the scheduler counts as stopped only when all work is done.
use mathlib.Core.Path.{subst}
use mathlib.Core.Option.{some-injective}
use lt.Base.{
  ℕ, ◌+◌, ◌<◌, ◌≡◌, ◌≢◌, refl, sym, ap, ◌∙◌, Bool, true, false, List, [], ◌∷◌, ◌++◌, some, arith,
  if◌then◌else◌, All, All-append, Bool-cases, inl, inr,
}
use lt.Scheduler.{ScheduleTask, Scheduler, has_work, schedule, stopping, scan, take_task}
use lt.Scheduler.Choice.{Scanned, nothing, found, scan-Scanned}
use lt.Scheduler.Workers.{
  Pc, choosing, holding, idling, exited, System, Step, takes, idles, exits, completes, resumes,
  schedules, stops, Reach, begin, later, holds, idles_at, sum_of-update, sum_of-zero, sum_of-pos,
  Inv,
}

All-split {ℓ κ} :
    {A : Type ℓ} (P : A → Type κ) (xs : List A) (x : A) (ys : List A)
    → All P (xs ++ (x ∷ ys))
    → P x × All P (xs ++ ys)
All-split P [] x ys a = a
All-split P (z ∷ xs) x ys a = let (px, rest) = All-split P xs x ys a.1 in (px, (a.0, rest))

abbrev Works : ScheduleTask → Type 0
Works t = has_work t ≡ true

scan-work :
    (tid : ℕ) (r : ℕ → Bool) (ts : List ScheduleTask) (t : ScheduleTask)
    → All Works ts
    → (scan tid r ts).task ≡ some t
    → Works t × All Works (scan tid r ts).left
scan-work tid r ts t a e = go (scan-Scanned tid r ts)
  where
    go : Scanned tid r ts (scan tid r ts) → Works t × All Works (scan tid r ts).left
    go (nothing _ none_found _ _) = cc
    go (found before x after split _ _ is l _) = rw l (
        subst (λ (y : ScheduleTask). Works y × All Works (before ++ after))
          (some-injective x t (sym is ∙ e))
          (All-split Works before x after (subst (All Works) split a)))

-- What `take_task` leaves when it finds a task.
pub take_task-some :
    (tid : ℕ) (r : ℕ → Bool) (s : Scheduler) (t : ScheduleTask)
    → (take_task tid r s).0 ≡ some t
    → (take_task tid r s).2 ≡ record s {
      tasks = (scan tid r s.tasks).left;
      active_thread_count = s.active_thread_count + 1;
    }
unfolding take_task
take_task-some tid r s t e = ground arith

take_task-scan :
    (tid : ℕ) (r : ℕ → Bool) (s : Scheduler) → (take_task tid r s).0 ≡ (scan tid r s.tasks).task
unfolding take_task
take_task-scan tid r s = refl

stopping-is_stopping : (s : Scheduler) → stopping s ≡ true → s.is_stopping ≡ true
unfolding stopping
stopping-is_stopping s e = ground arith

All-push :
    (t : ScheduleTask) (ts : List ScheduleTask)
    → All Works ts
    → All Works (if has_work t then ts ++ t ∷ [] else ts)
All-push t ts a = elim (Bool-cases (has_work t)) [
  | inl e ↦ rw e (All-append Works ts (t ∷ []) a (e, tt))
  | inr e ↦ rw e a
]

begin-Inv :
    (n : ℕ) (s : Scheduler)
    → s.active_thread_count ≡ 0
    → s.idle_thread_count ≡ 0
    → s.tasks ≡ []
    → Inv n (record { sched = s; pc = λ _. choosing false })
begin-Inv n s a i t = record {
  active = a ∙ sym (sum_of-zero holds n (choosing false) refl);
  idle = i ∙ sym (sum_of-zero idles_at n (choosing false) refl);
  work = rw t tt;
  sound = λ _ e. cc;
}

Step-Inv : {n : ℕ} {s t : System} → Step n s t → Inv n s → Inv n t
unfolding schedule
Step-Inv {n} {s} (takes i over r t lt at e) v = rw (take_task-some i r s.sched t e) (record {
  active = omega (arith, sum_of-update holds n s.pc i (holding over t) lt, v.active, ap holds at);
  idle = omega (arith, sum_of-update idles_at n s.pc i (holding over t) lt, v.idle, ap idles_at at);
  work = chosen.1;
  sound = λ j. ground (arith, v.sound j, v.sound i, chosen.0);
})
  where
    chosen : Works t × All Works (scan i r s.sched.tasks).left
    chosen = scan-work i r s.sched.tasks t v.work (sym (take_task-scan i r s.sched) ∙ e)
Step-Inv {n} {s} (idles i r lt at e) v = record {
  active = omega (arith, sum_of-update holds n s.pc i idling lt, v.active, ap holds at);
  idle = omega (arith, sum_of-update idles_at n s.pc i idling lt, v.idle, ap idles_at at);
  work = v.work;
  sound = λ j. ground (arith, v.sound j);
}
Step-Inv {n} {s} (exits i r lt at e) v = record {
  active = omega (arith, sum_of-update holds n s.pc i exited lt, v.active, ap holds at);
  idle = omega (arith, sum_of-update idles_at n s.pc i exited lt, v.idle, ap idles_at at);
  work = v.work;
  sound = λ j. ground (arith, v.sound j, v.sound i);
}
Step-Inv {n} {s} (completes i over t lt at) v = record {
  active = omega (arith, sum_of-update holds n s.pc i (choosing over) lt, v.active, ap holds at);
  idle = omega (arith, sum_of-update idles_at n s.pc i (choosing over) lt, v.idle, ap idles_at at);
  work = v.work;
  sound = λ j. ground (arith, v.sound j, v.sound i);
}
Step-Inv {n} {s} (resumes i over lt at st) v = record {
  active = omega (arith, sum_of-update holds n s.pc i (choosing over) lt, v.active, ap holds at);
  idle = omega (arith, sum_of-update idles_at n s.pc i (choosing over) lt, v.idle, ap idles_at at);
  work = v.work;
  sound = λ j. ground (arith, v.sound j, stopping-is_stopping s.sched);
}
Step-Inv {n} {s} (schedules t) v = record {
  active = v.active;
  idle = v.idle;
  work = All-push t s.sched.tasks v.work;
  sound = λ j. ground (arith, v.sound j);
}
Step-Inv {n} {s} stops v = record {
  active = v.active;
  idle = v.idle;
  work = v.work;
  sound = λ j. ground (arith, v.sound j);
}

-- A scheduler as its constructor leaves it.
pub record IsNew (s : Scheduler) : Type 0 where
  pub none_active : s.active_thread_count ≡ 0
  pub none_idle : s.idle_thread_count ≡ 0
  pub no_task : s.tasks ≡ []

-- In every state that `n` worker threads reach, `m_activeThreadCount` is the number of threads that
-- hold a task and `m_idleThreadCount` the number of those in their idle fiber, every task that is
-- queued or held has a fiber or a callback, and a thread has left `run`, or its idle fiber has
-- ended, only after `stop`.
pub Reach-Inv : {n : ℕ} {start : Scheduler} {s : System} → IsNew start → Reach n start s → Inv n s
Reach-Inv {n} {start} new begin = begin-Inv n start new.none_active new.none_idle new.no_task
Reach-Inv new (later r st) = Step-Inv st (Reach-Inv new r)

holds-zero : (p : Pc) → holds p ≡ 0 → (over : Bool) (t : ScheduleTask) → p ≢ holding over t
holds-zero p e over t h = ground (arith, ap holds h)

-- When `stopping()` returns true, `stop` has been called, the queue is empty and no worker thread
-- holds a task: all work that was scheduled is done.
pub stopping-quiet :
    {n : ℕ} {start : Scheduler} {s : System}
    → IsNew start
    → Reach n start s
    → stopping s.sched ≡ true
    → (s.sched.is_stopping ≡ true)
      × (s.sched.tasks ≡ [])
      × ((i : ℕ) → i < n → (over : Bool) (t : ScheduleTask) → s.pc i ≢ holding over t)
unfolding stopping
stopping-quiet {n} {start} {s} new r e = (
  stopping-is_stopping s.sched e,
  ground arith,
  λ i lt.
      holds-zero (s.pc i) (ground (arith, sum_of-pos holds n s.pc i lt, (Reach-Inv new r).active)),
)
