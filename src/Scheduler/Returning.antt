-- ===== src/Scheduler/Returning.antt =====
-- A round of a worker's loop comes back (src/scheduler.cc, src/fiber.cc).
use mathlib.Core.Path.{subst}
use lt.Base.{
  ℕ, ◌+◌, ◌≡◌, ◌≢◌, refl, sym, ap, ◌∙◌, Bool, true, false, List, [], ◌∷◌, ◌++◌, Option, none, some,
  arith, ◌==◌, Bool-cases, inl, inr, All, if_true, if_false,
}
use lt.Fiber.{State, ready, running, term, is_running, is_term, resume}
use lt.Scheduler.{ScheduleTask, has_work, take_task, scan}
use lt.Scheduler.Choice.{Scanned, scan-Scanned}
use lt.Scheduler.Rounds.{Worker, Turn, execute, less_idle, run_task, idle_turn, run_idle, round}
use mathlib.Core.Option.{some-injective}
use lt.Scheduler.{Scan, is_elsewhere}
use lt.Scheduler.Choice.{nothing, found, is_skipped}
use lt.Scheduler.Turns.{IsBack, IsReady, execute-Executed}
use lt.Scheduler.Tasks.{Ran, run_task-Ran, Executed-counts}

abbrev more_idle : Worker → Worker
more_idle w = record w {
  sched = record w.sched { idle_thread_count = w.sched.idle_thread_count + 1 };
}

abbrev idled : Option Worker → Option (Bool × Worker)
idled none = none
idled (some w) = some (false, less_idle w)

not_running : (s : State) → is_running s ≡ false → is_term s ≡ false → s ≡ ready
not_running ready a b = refl
not_running running a b = cc
not_running term a b = cc

run_idle-Ran :
    (k idle : ℕ) (w : Worker)
    → IsBack k w
    → (w.thread.fibers idle).run_in_scheduler ≡ true
    → is_running (w.thread.fibers idle).state ≡ false
    → (r : Bool × Worker) × (run_idle idle w ≡ some r)
      × Ran k w w.sched.active_thread_count r.1
      × (r.0 ≡ is_term (w.thread.fibers idle).state)
unfolding run_idle
run_idle-Ran k idle w b mine e = elim (Bool-cases (is_term (w.thread.fibers idle).state)) [
  | inl ended ↦ (
    (true, w),
    if_true (is_term (w.thread.fibers idle).state) _ _ ended,
    record { back = b; active_count = refl; idle_count = refl },
    sym ended,
  )
  | inr waits ↦
      let (w_1, eq, x) =
        execute-Executed k idle_turn idle (more_idle w) (record { own = b.own; runs = b.runs })
          (not_running _ e waits, mine) in
      let (active, idles) = Executed-counts k idle_turn idle (more_idle w) w_1 x in
      (
        (false, less_idle w_1),
        if_false (is_term (w.thread.fibers idle).state) _ _ waits ∙ ap idled eq,
        record {
          back = record { own = x.back.own; runs = x.back.runs };
          active_count = active;
          idle_count = omega (arith, idles);
        },
        sym waits,
      )
]

-- The fibers of the thread that run.
abbrev running_fibers : Worker → ℕ → Bool
running_fibers w p = is_running (w.thread.fibers p).state

abbrev went_on : Option Worker → Option (Bool × Worker)
went_on none = none
went_on (some w) = some (false, w)

-- The rest of a round, once the queue was searched.
abbrev chosen : Turn → ℕ → ℕ → Worker → Option ScheduleTask → Option (Bool × Worker)
chosen turn q idle w none = run_idle idle w
chosen turn q idle w (some t) = went_on (run_task turn q t w)

abbrev counts : Option ScheduleTask → ℕ
counts none = 0
counts (some t) = 1

abbrev taken : Worker → Option ScheduleTask → List ScheduleTask → Worker
taken w o left = record w {
  sched = record w.sched {
    tasks = left;
    active_thread_count = w.sched.active_thread_count + counts o;
  };
}

round_lem :
    (turn : Turn) (tid q idle : ℕ) (w : Worker)
    → let s = scan tid (running_fibers w) w.sched.tasks in
      round turn tid q idle w ≡ chosen turn q idle (taken w s.task s.left) s.task
unfolding round take_task
round_lem turn tid q idle w = refl

at_middle :
    {A : Type 0} (P : A → Type 0) (before after : List A) (t : A)
    → All P (before ++ (t ∷ after))
    → P t
at_middle P [] after t h = h.0
at_middle P (x ∷ before) after t h = at_middle P before after t h.1

-- A task can run: it has a fiber or a callback, and a fiber has not ended and is one that runs in the
-- scheduler.
abbrev pub CanRun : Worker → ScheduleTask → Type 0
CanRun w t =
    (has_work t ≡ true)
    × (t.fiber ≢ 0
        → (is_term (w.thread.fibers t.fiber).state ≡ false)
          × ((w.thread.fibers t.fiber).run_in_scheduler ≡ true))

abbrev pub AllCanRun : Worker → Type 0
AllCanRun w = All (CanRun w) w.sched.tasks

-- What a round comes to.
abbrev Returned : ℕ → ℕ → Worker → Option (Bool × Worker) → Type 0
Returned k idle w o =
    (r : Bool × Worker) × (o ≡ some r)
    × IsBack k r.1
    × (r.1.sched.active_thread_count ≡ w.sched.active_thread_count)
    × (r.1.sched.idle_thread_count ≡ w.sched.idle_thread_count)
    × (r.0 ≡ true → is_term (w.thread.fibers idle).state ≡ true)

chosen-Returned :
    (turn : Turn) (k tid q idle : ℕ) (w : Worker) (o : Option ScheduleTask)
    (left : List ScheduleTask)
    → IsBack k w
    → (w.thread.fibers idle).run_in_scheduler ≡ true
    → is_running (w.thread.fibers idle).state ≡ false
    → ((t : ScheduleTask) → o ≡ some t → t.fiber ≢ 0 → IsReady w t.fiber)
    → Returned k idle w (chosen turn q idle (taken w o left) o)
chosen-Returned turn k tid q idle w none left b mine e can =
    let (r, eq, ran, over) =
      run_idle-Ran k idle (taken w none left) (record { own = b.own; runs = b.runs }) mine e in
    (r, eq, ran.back, omega (arith, ran.active_count), ran.idle_count, (λ h. sym over ∙ h))
chosen-Returned turn k tid q idle w (some t) left b mine e can =
    let (w', eq, ran) =
      run_task-Ran k turn q t (taken w (some t) left) (record { own = b.own; runs = b.runs })
        (can t refl) in
    (
      (false, w'),
      ap went_on eq,
      ran.back,
      omega (arith, ran.active_count),
      ran.idle_count,
      (λ h. cc),
    )

Scanned-ready :
    (tid : ℕ) (w : Worker) (s : Scan)
    → Scanned tid (running_fibers w) w.sched.tasks s
    → AllCanRun w
    → (t : ScheduleTask) → s.task ≡ some t
    → t.fiber ≢ 0
    → IsReady w t.fiber
Scanned-ready tid w s (nothing a no_task l m) alive t h nz = cc
Scanned-ready tid w s (found before x after eq a free task l m) alive t h nz =
    let same : t ≡ x = some-injective _ _ (sym h ∙ task) in
    let free_t : is_skipped tid (running_fibers w) t ≡ false =
      ap (is_skipped tid (running_fibers w)) same ∙ free in
    let (work, can) = at_middle (CanRun w) before after x (subst (All (CanRun w)) eq alive) in
    let (lives, mine) = can (λ z. nz (ap (λ (t : ScheduleTask). t.fiber) same ∙ z)) in
    (
      not_running _ (ground (arith, free_t, nz))
          (ap (λ (t : ScheduleTask). is_term (w.thread.fibers t.fiber).state) same ∙ lives),
      ap (λ (t : ScheduleTask). (w.thread.fibers t.fiber).run_in_scheduler) same ∙ mine,
    )

-- A round of the loop of a worker thread comes back to the loop, where each turn of a fiber schedules
-- tasks of its choice and ends in its own `yield` or return. Each task must have a fiber or a callback,
-- no task may be a fiber that has ended or one that is not to run in the scheduler, and the idle fiber
-- must run in the scheduler and not run already. Then the scheduler's fiber of the thread, its main
-- fiber or another, runs again, and the thread's contributions to the counts of active and of idle
-- threads are taken back. The loop ends only when the idle fiber has ended.
pub round-IsBack :
    (turn : Turn) (k tid q idle : ℕ) (w : Worker)
    → IsBack k w
    → AllCanRun w
    → (w.thread.fibers idle).run_in_scheduler ≡ true
    → is_running (w.thread.fibers idle).state ≡ false
    → (r : Bool × Worker) × (round turn tid q idle w ≡ some r)
      × IsBack k r.1
      × (r.1.sched.active_thread_count ≡ w.sched.active_thread_count)
      × (r.1.sched.idle_thread_count ≡ w.sched.idle_thread_count)
      × (r.0 ≡ true → is_term (w.thread.fibers idle).state ≡ true)
round-IsBack turn k tid q idle w b can mine e =
    let s = scan tid (running_fibers w) w.sched.tasks in
    subst (Returned k idle w) (sym (round_lem turn tid q idle w)) (
      chosen-Returned turn k tid q idle w s.task s.left b mine e
        (Scanned-ready tid w _ (scan-Scanned tid (running_fibers w) w.sched.tasks) can))

ended_lem : (s : State) → is_term s ≡ true → is_running s ≡ false
ended_lem ready e = refl
ended_lem running e = cc
ended_lem term e = refl

scan_first :
    (tid : ℕ) (r : ℕ → Bool) (before : List ScheduleTask) (t : ScheduleTask)
    (after : List ScheduleTask)
    → All (λ u. is_skipped tid r u ≡ true) before
    → is_skipped tid r t ≡ false
    → (scan tid r (before ++ (t ∷ after))).task ≡ some t
unfolding scan
scan_first tid r [] t after h free = ground (arith, free)
scan_first tid r (x ∷ before) t after h free =
    ground (arith, h.0, scan_first tid r before t after h.1 free)

run_ended :
    (turn : Turn) (q : ℕ) (t : ScheduleTask) (w : Worker)
    → t.fiber ≢ 0
    → is_term (w.thread.fibers t.fiber).state ≡ true
    → run_task turn q t w ≡ none
unfolding run_task execute resume
run_ended turn q t w nz ended = if_false (t.fiber == 0) _ _ (ground (arith, nz)) ∙ rw ended refl

-- If the first task that the thread may run is a fiber that has ended, the assertion of `resume` fails
-- and the program aborts: the loop over the queue passes only fibers that run.
pub round_aborts :
    (turn : Turn) (tid q idle : ℕ) (w : Worker) (before : List ScheduleTask) (t : ScheduleTask)
    (after : List ScheduleTask)
    → w.sched.tasks ≡ before ++ (t ∷ after)
    → All (λ u. is_skipped tid (running_fibers w) u ≡ true) before
    → is_elsewhere tid t ≡ false
    → t.fiber ≢ 0
    → is_term (w.thread.fibers t.fiber).state ≡ true
    → round turn tid q idle w ≡ none
round_aborts turn tid q idle w before t after eq skipped here nz ended =
    let free : is_skipped tid (running_fibers w) t ≡ false =
      ground (arith, here, ended_lem _ ended) in
    let chosen_t : (scan tid (running_fibers w) w.sched.tasks).task ≡ some t =
      ap (λ ts. (scan tid (running_fibers w) ts).task) eq
      ∙ scan_first tid (running_fibers w) before t after skipped free in
    round_lem turn tid q idle w
    ∙ (ap (λ o. chosen turn q idle (taken w o (scan tid (running_fibers w) w.sched.tasks).left) o)
          chosen_t
        ∙ ap went_on (run_ended turn q t _ nz ended))
