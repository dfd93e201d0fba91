-- ===== src/IoManager/Weights.antt =====
-- The waiters of an I/O manager one by one (src/iomanager.cc): each has a task, the callback or the
-- fiber that `triggerEvent` gives to `schedule`, and every task a weight.
use lt.Base.{
  ℕ, zero, suc, ◌+◌, ◌≡◌, refl, ap, Bool, true, false, if◌then◌else◌, List, [], ◌∷◌, ◌++◌, none,
  some, arith, get_elem?, set,
}
use mathlib.Core.Option.{some-injective}
use lt.Callback.{null, is_set}
use lt.Scheduler.{ScheduleTask}
use lt.IoManager.Events.{Event, none_event, IsIo, IsMask, read, write, has, has-without}
use lt.IoManager.{
  EventContext, FdContext, IoManager, get_event_context, set_event_context, event_task,
}
use lt.IoManager.Local.{dropped}

-- The task of a waiter: the callback that it gave, or its fiber if it gave none.
abbrev pub task_with : Bool → EventContext → ScheduleTask
task_with true x = record { fiber = 0; cb = x.cb; thread = none }
task_with false x = record { fiber = x.fiber; cb = null; thread = none }

abbrev pub waiter_task : EventContext → ScheduleTask
waiter_task x = task_with (is_set x.cb) x

if-task_with :
    (b : Bool) (x : EventContext)
    → (if b
        then record { fiber = 0; cb = x.cb; thread = none }
        else record { fiber = x.fiber; cb = null; thread = none })
      ≡ task_with b x
if-task_with true x = refl
if-task_with false x = refl

pub event_task-waiter_task : (x : EventContext) → event_task x ≡ waiter_task x
event_task-waiter_task x = if-task_with (is_set x.cb) x

-- The weight of a task on a scheduler.
abbrev pub Weight : Type 0
Weight = ℕ → ScheduleTask → ℕ

abbrev pub event_weight : Weight → Bool → EventContext → ℕ
event_weight w true x = w x.scheduler (waiter_task x)
event_weight w false x = 0

abbrev pub context_weight : Weight → FdContext → ℕ
context_weight w c =
    event_weight w (has c.events read) c.reading + event_weight w (has c.events write) c.writing

-- Of all that wait, and of a list of tasks.
unfoldable pub pending_weight : Weight → List FdContext → ℕ
pending_weight w [] = 0
pending_weight w (c ∷ cs) = context_weight w c + pending_weight w cs

unfoldable pub task_weight : Weight → List (ℕ × ScheduleTask) → ℕ
task_weight w [] = 0
task_weight w ((k, t) ∷ ts) = w k t + task_weight w ts

-- Of the waiters that a manager still knows.
abbrev pub known_weight : {K : Type 0} → Weight → IoManager K → ℕ
known_weight w m = pending_weight w m.contexts + task_weight w m.scheduled

-- The same waiters are pending or scheduled.
abbrev pub SameWaiters : {K : Type 0} → IoManager K → IoManager K → Type 0
SameWaiters m m' = (w : Weight) → known_weight w m' ≡ known_weight w m

pub task_weight-append :
    (w : Weight) (xs ys : List (ℕ × ScheduleTask))
    → task_weight w (xs ++ ys) ≡ task_weight w xs + task_weight w ys
unfolding task_weight
task_weight-append w [] ys = omega arith
task_weight-append w ((k, t) ∷ xs) ys = omega (arith, task_weight-append w xs ys)

pub pending_weight-append :
    (w : Weight) (cs ds : List FdContext)
    → pending_weight w (cs ++ ds) ≡ pending_weight w cs + pending_weight w ds
unfolding pending_weight
pending_weight-append w [] ds = omega arith
pending_weight-append w (c ∷ cs) ds = omega (arith, pending_weight-append w cs ds)

pub pending_weight-set :
    (w : Weight) (cs : List FdContext) (i : ℕ) (c c' : FdContext)
    → get_elem? cs i ≡ some c
    → pending_weight w (set cs i c') + context_weight w c
      ≡ pending_weight w cs + context_weight w c'
unfolding pending_weight
pending_weight-set w [] i c c' e = cc
pending_weight-set w (x ∷ xs) zero c c' e =
    let same : context_weight w x ≡ context_weight w c =
      ap (context_weight w) (some-injective x c e) in
    omega (arith, same)
pending_weight-set w (x ∷ xs) (suc i) c c' e = omega (arith, pending_weight-set w xs i c c' e)

-- A context without one of its events.
pub context_weight-dropped :
    (w : Weight) (ev : Event) (c : FdContext) (x : EventContext)
    → IsIo ev
    → IsMask c.events
    → has c.events ev ≡ true
    → get_event_context ev c ≡ some x
    → context_weight w (dropped ev c) + w x.scheduler (waiter_task x) ≡ context_weight w c
unfolding get_event_context set_event_context
context_weight-dropped w none_event c x io m h e = absurd (io refl)
context_weight-dropped w read c x io m h e =
    let same : w c.reading.scheduler (waiter_task c.reading) ≡ w x.scheduler (waiter_task x) =
      ap (λ (y : EventContext). w y.scheduler (waiter_task y)) (some-injective c.reading x e) in
    rw (has-without c.events read read m, has-without c.events read write m, h)
      (ground (arith, same))
context_weight-dropped w write c x io m h e =
    let same : w c.writing.scheduler (waiter_task c.writing) ≡ w x.scheduler (waiter_task x) =
      ap (λ (y : EventContext). w y.scheduler (waiter_task y)) (some-injective c.writing x e) in
    rw (has-without c.events write read m, has-without c.events write write m, h)
      (ground (arith, same))
