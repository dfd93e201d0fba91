-- ===== src/Scheduler/Workers.antt =====
-- The worker threads (src/scheduler.cc, `Scheduler::run` and `Scheduler::idle`) as a step relation:
-- `n` threads take tasks, run them and idle, and anybody schedules tasks and stops the scheduler.
-- A step is what one thread does under the lock, or one change of an atomic counter.
use lt.Base.{
  ℕ, zero, suc, ◌+◌, ◌-◌, ◌≤◌, ◌<◌, ◌≡◌, refl, Bool, true, false, none, some, arith, ◌==◌,
  if◌then◌else◌, All,
}
use lt.Scheduler.{ScheduleTask, Scheduler, has_work, schedule, stopping, take_task}

-- Where a thread stands in `run`; `over` says that its idle fiber has ended.
pub data Pc : Type 0 where
  choosing : (over : Bool) → Pc
  holding : (over : Bool) → ScheduleTask → Pc
  idling : Pc
  exited : Pc

pub record System : Type 0 where
  pub sched : Scheduler
  pub pc : ℕ → Pc

abbrev pub update : (ℕ → Pc) → ℕ → Pc → ℕ → Pc
update f i p j = if i == j then p else f j

pub data Step (n : ℕ) (s : System) : System → Type 0 where
  -- the queue holds a task for thread `i`
  takes :
      (i : ℕ) (over : Bool) (r : ℕ → Bool) (t : ScheduleTask)
      → i < n
      → s.pc i ≡ choosing over
      → (take_task i r s.sched).0 ≡ some t
      → Step n s (record { sched = (take_task i r s.sched).2; pc = update s.pc i (holding over t) })
  -- it holds none, and the idle fiber is resumed: `++m_idleThreadCount`
  idles :
      (i : ℕ) (r : ℕ → Bool)
      → i < n
      → s.pc i ≡ choosing false
      → (take_task i r s.sched).0 ≡ none
      → Step n s (record {
        sched = record s.sched { idle_thread_count = s.sched.idle_thread_count + 1 };
        pc = update s.pc i idling;
      })
  -- it holds none, and the idle fiber has ended: `run` returns
  exits :
      (i : ℕ) (r : ℕ → Bool)
      → i < n
      → s.pc i ≡ choosing true
      → (take_task i r s.sched).0 ≡ none
      → Step n s (record s { pc = update s.pc i exited })
  -- the task has returned or yielded: `--m_activeThreadCount`
  completes :
      (i : ℕ) (over : Bool) (t : ScheduleTask)
      → i < n
      → s.pc i ≡ holding over t
      → Step n s (record {
        sched = record s.sched { active_thread_count = s.sched.active_thread_count - 1 };
        pc = update s.pc i (choosing over);
      })
  -- the idle fiber yields, or it sees `stopping()` and ends: `--m_idleThreadCount`
  resumes :
      (i : ℕ) (over : Bool)
      → i < n
      → s.pc i ≡ idling
      → (over ≡ true → stopping s.sched ≡ true)
      → Step n s (record {
        sched = record s.sched { idle_thread_count = s.sched.idle_thread_count - 1 };
        pc = update s.pc i (choosing over);
      })
  schedules : (t : ScheduleTask) → Step n s (record s { sched = (schedule t s.sched).1 })
  stops : Step n s (record s { sched = record s.sched { is_stopping = true } })

pub data Reach (n : ℕ) (start : Scheduler) : System → Type 0 where
  begin : Reach n start (record { sched = start; pc = λ _. choosing false })
  later : {s t : System} → Reach n start s → Step n s t → Reach n start t

-- The threads that hold a task, and those that idle.
abbrev pub holds : Pc → ℕ
holds (choosing over) = 0
holds (holding over t) = 1
holds idling = 0
holds exited = 0

abbrev pub idles_at : Pc → ℕ
idles_at (choosing over) = 0
idles_at (holding over t) = 0
idles_at idling = 1
idles_at exited = 0

-- The sum of a weight over the first `n` threads.
pub sum_of : (Pc → ℕ) → ℕ → (ℕ → Pc) → ℕ
sum_of w zero f = 0
sum_of w (suc n) f = sum_of w n f + w (f n)

sum_of-above :
    (w : Pc → ℕ) (n : ℕ) (f : ℕ → Pc) (i : ℕ) (p : Pc)
    → n ≤ i
    → sum_of w n (update f i p) ≡ sum_of w n f
unfolding sum_of
sum_of-above w zero f i p h = refl
sum_of-above w (suc n) f i p h = ground (arith, sum_of-above w n f i p)

pub sum_of-update :
    (w : Pc → ℕ) (n : ℕ) (f : ℕ → Pc) (i : ℕ) (p : Pc)
    → i < n
    → sum_of w n (update f i p) + w (f i) ≡ sum_of w n f + w p
unfolding sum_of
sum_of-update w zero f i p h = absurd (omega arith)
sum_of-update w (suc n) f i p h = ground (arith, sum_of-update w n f i p, sum_of-above w n f i p)

pub sum_of-pos : (w : Pc → ℕ) (n : ℕ) (f : ℕ → Pc) (i : ℕ) → i < n → w (f i) ≤ sum_of w n f
unfolding sum_of
sum_of-pos w zero f i h = absurd (omega arith)
sum_of-pos w (suc n) f i h = ground (arith, sum_of-pos w n f i)

pub sum_of-zero : (w : Pc → ℕ) (n : ℕ) (p : Pc) → w p ≡ 0 → sum_of w n (λ _. p) ≡ 0
unfolding sum_of
sum_of-zero w zero p e = refl
sum_of-zero w (suc n) p e = omega (arith, sum_of-zero w n p e)

-- What holds of a thread by itself: a task that it holds has something to run, and its idle fiber
-- has ended only after the scheduler was told to stop.
abbrev pub IsSound : Scheduler → Pc → Type 0
IsSound s (choosing over) = over ≡ true → s.is_stopping ≡ true
IsSound s (holding over t) = (over ≡ true → s.is_stopping ≡ true) × (has_work t ≡ true)
IsSound s idling = Unit
IsSound s exited = s.is_stopping ≡ true

pub record Inv (n : ℕ) (s : System) : Type 0 where
  pub active : s.sched.active_thread_count ≡ sum_of holds n s.pc
  pub idle : s.sched.idle_thread_count ≡ sum_of idles_at n s.pc
  pub work : All (λ t. has_work t ≡ true) s.sched.tasks
  pub sound : (i : ℕ) → IsSound s.sched (s.pc i)
