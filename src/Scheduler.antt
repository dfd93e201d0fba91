-- ===== src/Scheduler.antt =====
-- src/scheduler.cc and include/scheduler.h: the task queue and what the worker threads do with it.
-- A thread is known by its number; a task's `thread` is `none` for -1, any thread. The atomic
-- counters are numbers that each change in one step.
pub mod Choice
pub mod Workers
pub mod Safety
pub mod Conservation
pub mod Rounds
pub mod Turns
pub mod Tasks
pub mod Returning
pub mod Overlap
pub mod Tests
use lt.Base.{
  ◌≡◌, arith, ℕ, ◌+◌, ◌-◌, Bool, true, false, not, ◌&&◌, ◌||◌, List, [], ◌∷◌, ◌++◌, Option, none,
  some, ltb, ◌==◌, if◌then◌else◌, is_empty,
}
use lt.Callback.{Callback, null, is_set}

-- A fiber or a callback; address 0 and `null` stand for neither.
pub record ScheduleTask : Type 0 where
  pub fiber : ℕ
  pub cb : Callback
  pub thread : Option ℕ

pub record Scheduler : Type 0 where
  pub tasks : List ScheduleTask
  -- `m_threads`: the numbers of the worker threads that were started
  pub threads : List ℕ
  pub thread_ids : List ℕ
  pub thread_count : ℕ
  pub active_thread_count : ℕ
  pub idle_thread_count : ℕ
  pub use_caller : Bool
  -- `m_rootThread`: `none` for -1
  pub root_thread : Option ℕ
  -- `m_stopping`
  pub is_stopping : Bool

-- `Scheduler::Scheduler(threads, use_caller, name)` on the thread `caller`. `none` is a failed
-- `LT_ASSERT(threads > 0)`.
pub init : ℕ → Bool → ℕ → Option Scheduler
init threads use_caller caller =
    let s : Scheduler = record {
      tasks = [];
      threads = [];
      thread_ids = if use_caller then caller ∷ [] else [];
      thread_count = if use_caller then threads - 1 else threads;
      active_thread_count = 0;
      idle_thread_count = 0;
      use_caller = use_caller;
      root_thread = if use_caller then some caller else none;
      is_stopping = false;
    } in
    if ltb 0 threads then some s else none

-- The loop of `start`: the thread `i` of `count` gets the number `tid i` from the system.
pub start_threads : (ℕ → ℕ) → ℕ → List ℕ
start_threads tid ℕ.zero = []
start_threads tid (ℕ.suc i) = start_threads tid i ++ tid i ∷ []

-- `Scheduler::start`. `none` is a failed `LT_ASSERT(m_threads.empty())`.
pub start : (ℕ → ℕ) → Scheduler → Option Scheduler
unfolding start_threads
start tid s =
    let threads = start_threads tid s.thread_count in
    if s.is_stopping
    then some s
    else if is_empty s.threads
    then some (record s { threads = threads; thread_ids = s.thread_ids ++ threads })
    else none

-- `task.fiber || task.cb`.
abbrev pub has_work : ScheduleTask → Bool
has_work t = not (t.fiber == 0) || is_set t.cb

-- `Scheduler::scheduleNoLock` and `schedule`; the flag says that `tickle` is called.
unfoldable pub schedule : ScheduleTask → Scheduler → Bool × Scheduler
schedule t s =
    (is_empty s.tasks, record s { tasks = if has_work t then s.tasks ++ t ∷ [] else s.tasks })

-- `Scheduler::stopping`.
unfoldable pub stopping : Scheduler → Bool
stopping s = s.is_stopping && is_empty s.tasks && s.active_thread_count == 0

pub stopping_fields :
    (s : Scheduler)
    → stopping s ≡ true
    → (s.tasks ≡ []) × (s.active_thread_count ≡ 0) × (s.is_stopping ≡ true)
unfolding stopping
stopping_fields s e = (ground arith, ground arith, ground arith)

-- `Scheduler::hasIdleThreads`.
pub has_idle_threads : Scheduler → Bool
has_idle_threads s = ltb 0 s.idle_thread_count

-- `Scheduler::stop` up to the resumption of the root fiber; `own` says that `GetThis() == this`.
-- `none` is a failed assertion; else the number of `tickle` calls, none if it has stopped already.
pub stop : Bool → Scheduler → Option (ℕ × Scheduler)
unfolding stopping
stop own s =
    let extra = if s.use_caller then 1 else 0 in
    let s' = record s { is_stopping = true } in
    if stopping s
    then some (0, s)
    else if s.use_caller
    then (if own then some (s.thread_count + extra, s') else none)
    else if own
    then none
    else some (s.thread_count + extra, s')

-- The end of `stop`: the threads are taken out under the lock and joined.
pub join_threads : Scheduler → List ℕ × Scheduler
join_threads s = (s.threads, record s { threads = [] })

-- `Scheduler::~Scheduler`: whether `LT_ASSERT(m_stopping)` holds.
abbrev pub delete_scheduler : Scheduler → Bool
delete_scheduler s = s.is_stopping

-- `it->thread != -1 && it->thread != LT::GetThreadId()`.
abbrev pub is_elsewhere : ℕ → ScheduleTask → Bool
is_elsewhere tid t = elim t.thread [ none ↦ false | some thread ↦ not (thread == tid) ]

-- `it->fiber && it->fiber->getState() == Fiber::RUNNING`, with the fibers that run now.
abbrev pub is_busy : (ℕ → Bool) → ScheduleTask → Bool
is_busy is_running t = not (t.fiber == 0) && is_running t.fiber

pub record Scan : Type 0 where
  pub task : Option ScheduleTask
  pub left : List ScheduleTask
  pub tickle_me : Bool

-- The loop of `Scheduler::run` over the queue, under the lock, for tasks that have a fiber or a callback,
-- as `schedule` queues them: the `LT_ASSERT` of that is left out.
pub scan : ℕ → (ℕ → Bool) → List ScheduleTask → Scan
scan tid is_running [] = record { task = none; left = []; tickle_me = false }
scan tid is_running (t ∷ ts) =
    let rest = scan tid is_running ts in
    if is_elsewhere tid t
    then record rest { left = t ∷ rest.left; tickle_me = true }
    else if is_busy is_running t
    then record rest { left = t ∷ rest.left }
    else record { task = some t; left = ts; tickle_me = not (is_empty ts) }

-- The same on the scheduler: a task that is found counts as an active thread.
pub take_task : ℕ → (ℕ → Bool) → Scheduler → Option ScheduleTask × Bool × Scheduler
unfolding scan
take_task tid is_running s =
    let found = scan tid is_running s.tasks in
    let count : ℕ = elim found.task [ none ↦ 0 | some _ ↦ 1 ] in
    (
      found.task,
      found.tickle_me,
      record s { tasks = found.left; active_thread_count = s.active_thread_count + count },
    )
