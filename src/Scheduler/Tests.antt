-- ===== src/Scheduler/Tests.antt =====
-- Runs of the scheduler (src/scheduler.cc), and the theorems about it at a concrete run of one
-- worker thread: a task is scheduled, taken and completed, and the scheduler is stopped.
use lt.Base.{
  if◌then◌else◌, ◌+◌, ℕ, ◌≡◌, ◌≢◌, ◌<◌, refl, Bool, true, false, [], ◌∷◌, none, some, arith, ◌==◌,
}
use lt.Callback.{null, user}
use lt.Scheduler.{ScheduleTask, Scheduler, init, schedule, stop, stopping, scan, take_task}
use lt.Scheduler.Choice.{Scanned, scan-Scanned}
use lt.Scheduler.Workers.{
  choosing, holding, System, update, takes, completes, schedules, stops, Reach, begin, later, Inv,
}
use lt.Scheduler.Conservation.{open_tasks, completed, all_completed, all_added, Reach-conserves}
use lt.Fiber.{State, ready, running, term, Fiber, Thread, is_term}
use lt.Scheduler.Rounds.{Worker, Turn, round}
use lt.Scheduler.Turns.{IsBack}
use lt.Scheduler.Returning.{round-IsBack, round_aborts}
use lt.Scheduler.Overlap
use lt.Scheduler.Overlap.{Shared, Steps, fibers_overlap}
use lt.Scheduler.Safety.{IsNew, Reach-Inv, stopping-quiet}

abbrev pinned : ScheduleTask
pinned = record { fiber = 0; cb = user 1; thread = some 7 }

abbrev anywhere : ScheduleTask
anywhere = record { fiber = 4; cb = null; thread = none }

abbrev last : ScheduleTask
last = record { fiber = 0; cb = user 2; thread = none }

-- Thread 3 passes the task of thread 7 and the fiber that runs.
scan_passes :
    scan 3 (λ f. f == 4) (pinned ∷ anywhere ∷ last ∷ [])
    ≡ record { task = some last; left = pinned ∷ anywhere ∷ []; tickle_me = true }
unfolding scan
scan_passes = refl

scan-Scanned_example :
    Scanned 3
      (λ _. false)
      (pinned ∷ anywhere ∷ last ∷ [])
      (scan 3 (λ _. false) (pinned ∷ anywhere ∷ last ∷ []))
scan-Scanned_example = scan-Scanned 3 (λ _. false) (pinned ∷ anywhere ∷ last ∷ [])

abbrev new_scheduler : Scheduler
new_scheduler = record {
  tasks = [];
  threads = [];
  thread_ids = [];
  thread_count = 2;
  active_thread_count = 0;
  idle_thread_count = 0;
  use_caller = false;
  root_thread = none;
  is_stopping = false;
}

init_two : init 2 false 9 ≡ some new_scheduler
unfolding init
init_two = refl

stop_tickles : stop false new_scheduler ≡ some (2, record new_scheduler { is_stopping = true })
unfolding stop
stop_tickles = refl

new_scheduler-IsNew : IsNew new_scheduler
new_scheduler-IsNew = record { none_active = refl; none_idle = refl; no_task = refl }

abbrev scheduled : System
scheduled = record { sched = (schedule last new_scheduler).1; pc = λ _. choosing false }

abbrev taken : System
taken = record {
  sched = (take_task 0 (λ _. false) scheduled.sched).2;
  pc = update scheduled.pc 0 (holding false last);
}

abbrev stopped : System
stopped = record {
  sched = record new_scheduler { is_stopping = true };
  pc = update taken.pc 0 (choosing false);
}

taken-Reach : Reach 1 new_scheduler taken
unfolding schedule take_task
taken-Reach =
    later (later begin (schedules last)) (takes 0 false (λ _. false) last (omega arith) refl refl)

stopped-Reach : Reach 1 new_scheduler stopped
unfolding schedule take_task
stopped-Reach = later (later taken-Reach (completes 0 false last (omega arith) refl)) stops

Reach-Inv_example : Inv 1 taken
Reach-Inv_example = Reach-Inv new_scheduler-IsNew taken-Reach

stopping-quiet_example :
    (stopped.sched.is_stopping ≡ true)
    × (stopped.sched.tasks ≡ [])
    × ((i : ℕ) → i < 1 → (over : Bool) (t : ScheduleTask) → stopped.pc i ≢ holding over t)
unfolding stopping
stopping-quiet_example = stopping-quiet new_scheduler-IsNew stopped-Reach refl

-- Every task counts 1.
abbrev each : ScheduleTask → ℕ
each t = 1

conserved_run : all_completed each stopped-Reach ≡ 1
unfolding all_completed completed taken-Reach stopped-Reach
conserved_run = refl

Reach-conserves_example :
    open_tasks each 1 stopped + all_completed each stopped-Reach ≡ all_added each stopped-Reach
Reach-conserves_example = Reach-conserves each stopped-Reach refl

-- A thread with its main fiber at 1, its idle fiber at 2 and a fiber at 4 in a given state.
abbrev in_state : Bool → State → Fiber
in_state has_stack state = record {
  id = 0;
  has_stack = has_stack;
  state = state;
  cb = null;
  run_in_scheduler = true;
}

abbrev own_thread : State → Thread
own_thread at_4 = record {
  fibers = λ p.
      if p == 1
      then in_state false running
      else if p == 4
      then in_state true at_4
      else in_state true ready;
  cur = 1;
  main_fiber = 1;
  scheduler_fiber = 1;
  context = 1;
  fiber_id = 3;
  fiber_count = 3;
}

abbrev busy_worker : State → Worker
busy_worker at_4 = record {
  sched = record new_scheduler { tasks = pinned ∷ anywhere ∷ [] };
  thread = own_thread at_4;
}

-- Every fiber yields, and schedules a callback.
abbrev yields : Turn
yields p s = (false, last ∷ [])

-- The thread that made the scheduler: its loop runs in a fiber at 5 of its own.
abbrev root_worker : Worker
root_worker = record (busy_worker ready) {
  thread = record (own_thread ready) { cur = 5; scheduler_fiber = 5; context = 5 };
}

root_worker-IsBack : IsBack 5 root_worker
root_worker-IsBack = record { own = refl; runs = refl }

round-IsBack_example :
    (r : Bool × Worker) × (round yields 3 9 2 root_worker ≡ some r)
    × IsBack 5 r.1
    × (r.1.sched.active_thread_count ≡ 0)
    × (r.1.sched.idle_thread_count ≡ 0)
    × (r.0 ≡ true → is_term ((own_thread ready).fibers 2).state ≡ true)
round-IsBack_example =
    round-IsBack yields 5 3 9 2 root_worker root_worker-IsBack
      ((refl, (λ nz. absurd (nz refl))), ((refl, (λ nz. (refl, refl))), tt)) refl refl

-- The fiber at 4 has ended.
round_aborts_example : round yields 3 9 2 (busy_worker term) ≡ none
round_aborts_example =
    round_aborts yields 3 9 2 (busy_worker term) (pinned ∷ []) anywhere [] refl (refl, tt) refl
      (omega arith) refl

-- Fiber 4 is ready and the only task.
abbrev all_loop : Shared
all_loop = record { state = λ _. ready; tasks = 4 ∷ []; thread = λ _. Overlap.looping }

fibers_overlap_example :
    (t : Shared) × Steps all_loop t
    × (t.thread 0 ≡ Overlap.leaving 4)
    × (t.thread 1 ≡ Overlap.inside 4)
fibers_overlap_example = fibers_overlap 0 1 4 all_loop (omega arith) refl refl refl refl
