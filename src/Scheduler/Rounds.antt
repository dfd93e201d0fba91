-- ===== src/Scheduler/Rounds.antt =====
-- One round of `Scheduler::run` on the fibers of its thread (src/scheduler.cc, src/fiber.cc).
use lt.Base.{ℕ, ◌+◌, ◌-◌, Bool, true, false, List, [], ◌∷◌, Option, none, some, ◌==◌, if◌then◌else◌}
use lt.Fiber.{Thread, is_running, is_term, resume, yield, finish, new_fiber, delete_fiber}
use lt.Scheduler.{ScheduleTask, Scheduler, schedule, stopping, take_task}

pub record Worker : Type 0 where
  pub sched : Scheduler
  pub thread : Thread

-- What the code of a fiber does in its turn: whether its callback returns, or else yields, and the
-- tasks that it schedules. It resumes no other fiber, and other threads change nothing meanwhile.
abbrev pub Turn : Type 0
Turn = ℕ → Scheduler → Bool × List ScheduleTask

unfoldable pub schedule_each : List ScheduleTask → Scheduler → Scheduler
schedule_each [] s = s
schedule_each (t ∷ ts) s = schedule_each ts (schedule t s).1

-- `resume()` of the fiber at `p`, up to its return.
unfoldable pub execute : Turn → ℕ → Worker → Option Worker
unfolding schedule_each resume yield finish
execute turn p w =
    let (ends, tasks) = turn p w.sched in
    elim (resume p w.thread) [
      | none ↦ none
      | some th ↦ elim (if ends then finish p th else yield p th) [
        | none ↦ none
        | some th' ↦ some (record { sched = schedule_each tasks w.sched; thread = th' })
      ]
    ]

-- `--m_activeThreadCount` and `--m_idleThreadCount`.
abbrev pub less_active : Worker → Worker
less_active w = record w {
  sched = record w.sched { active_thread_count = w.sched.active_thread_count - 1 };
}

abbrev pub less_idle : Worker → Worker
less_idle w = record w {
  sched = record w.sched { idle_thread_count = w.sched.idle_thread_count - 1 };
}

-- `cb_fiber.reset()`: the fiber is deleted unless it has yielded, when its own `MainFunc` refers to it.
unfoldable pub release : ℕ → Worker → Option Worker
unfolding delete_fiber
release p w =
    if is_term (w.thread.fibers p).state
    then elim (delete_fiber p w.thread) [ none ↦ none | some th ↦ some (record w { thread = th }) ]
    else some w

-- A task that was taken: its fiber, or a new fiber at address `q` for its callback.
unfoldable pub run_task : Turn → ℕ → ScheduleTask → Worker → Option Worker
unfolding execute release new_fiber
run_task turn q t w =
    let on_new : Option Worker =
      elim (execute turn q (record w { thread = new_fiber q t.cb true w.thread })) [
        | none ↦ none
        | some w' ↦ release q (less_active w')
      ] in
    let on_own : Option Worker = elim (execute turn t.fiber w) [
      | none ↦ none
      | some w' ↦ some (less_active w')
    ] in
    if t.fiber == 0 then on_new else on_own

-- The turn of the idle fiber, `Scheduler::idle`.
abbrev pub idle_turn : Turn
idle_turn p s = (stopping s, [])

-- The empty queue: the idle fiber runs, or the loop ends.
unfoldable pub run_idle : ℕ → Worker → Option (Bool × Worker)
unfolding execute
run_idle idle w =
    let more = record w {
      sched = record w.sched { idle_thread_count = w.sched.idle_thread_count + 1 };
    } in
    if is_term (w.thread.fibers idle).state
    then some (true, w)
    else elim (execute idle_turn idle more) [ none ↦ none | some w' ↦ some (false, less_idle w') ]

-- The body of the loop; the flag says that the loop ends.
unfoldable pub round : Turn → ℕ → ℕ → ℕ → Worker → Option (Bool × Worker)
unfolding run_task run_idle take_task
round turn tid q idle w =
    let (found, _, s) = take_task tid (λ p. is_running (w.thread.fibers p).state) w.sched in
    let w' : Worker = record w { sched = s } in
    elim found [
      | none ↦ run_idle idle w'
      | some t ↦ elim (run_task turn q t w') [ none ↦ none | some w'' ↦ some (false, w'') ]
    ]
