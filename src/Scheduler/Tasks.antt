-- ===== src/Scheduler/Tasks.antt =====
-- A task that a worker took comes back to the loop (src/scheduler.cc, src/fiber.cc).
use lt.Base.{
  ℕ, ◌-◌, ◌≡◌, ◌≢◌, refl, ap, ◌∙◌, true, Option, none, some, arith, ◌==◌, Bool-cases, inl, inr,
  if_true, if_false,
}
use lt.Fiber.{is_term, new_fiber, delete_fiber}
use lt.Scheduler.{ScheduleTask, Scheduler}
use lt.Scheduler.Rounds.{Worker, Turn, execute, less_active, release, run_task}
use lt.Scheduler.Turns.{IsBack, IsReady, schedule_each-counts, Executed, execute-Executed}

-- What is left of a turn once the counters are back.
pub record Ran (k : ℕ) (w : Worker) (active : ℕ) (w' : Worker) : Type 0 where
  pub back : IsBack k w'
  pub active_count : w'.sched.active_thread_count ≡ active
  pub idle_count : w'.sched.idle_thread_count ≡ w.sched.idle_thread_count

release-lem :
    (k : ℕ) (p : ℕ) (w : Worker)
    → IsBack k w
    → (w.thread.fibers p).has_stack ≡ true
    → (w' : Worker) × (release p w ≡ some w') × IsBack k w' × (w'.sched ≡ w.sched)
unfolding release delete_fiber
release-lem k p w b stack = elim (Bool-cases (is_term (w.thread.fibers p).state)) [
  | inl ended ↦ (
    record w { thread = record w.thread { fiber_count = w.thread.fiber_count - 1 } },
    rw (ended, stack) refl,
    record { own = b.own; runs = b.runs },
    refl,
  )
  | inr waits ↦ (w, rw waits refl, b, refl)
]

abbrev then_release : ℕ → Option Worker → Option Worker
then_release q none = none
then_release q (some w) = release q (less_active w)

abbrev then_less : Option Worker → Option Worker
then_less none = none
then_less (some w) = some (less_active w)

pub Executed-counts :
    (k : ℕ) (turn : Turn) (p : ℕ) (w w' : Worker)
    → Executed k turn p w w'
    → (w'.sched.active_thread_count ≡ w.sched.active_thread_count)
      × (w'.sched.idle_thread_count ≡ w.sched.idle_thread_count)
Executed-counts k turn p w w' x =
    let (active, idle) = schedule_each-counts (turn p w.sched).1 w.sched in
    (
      ap (λ (s : Scheduler). s.active_thread_count) x.tasks ∙ active,
      ap (λ (s : Scheduler). s.idle_thread_count) x.tasks ∙ idle,
    )

-- A turn of the fiber at `p`, and `--m_activeThreadCount`.
less-Ran :
    (k : ℕ) (turn : Turn) (p : ℕ) (w w' : Worker)
    → Executed k turn p w w'
    → Ran k w (w.sched.active_thread_count - 1) (less_active w')
less-Ran k turn p w w' x =
    let (active, idle) = Executed-counts k turn p w w' x in
    record {
      back = record { own = x.back.own; runs = x.back.runs };
      active_count = ap (λ n. n - 1) active;
      idle_count = idle;
    }

on_own-Ran :
    (k : ℕ) (turn : Turn) (t : ScheduleTask) (w : Worker)
    → IsBack k w
    → IsReady w t.fiber
    → (w' : Worker) × (then_less (execute turn t.fiber w) ≡ some w')
      × Ran k w (w.sched.active_thread_count - 1) w'
on_own-Ran k turn t w b e =
    let (w_1, eq, x) = execute-Executed k turn t.fiber w b e in
    (less_active w_1, ap then_less eq, less-Ran k turn t.fiber w w_1 x)

abbrev with_new : ℕ → ScheduleTask → Worker → Worker
with_new q t w = record w { thread = new_fiber q t.cb true w.thread }

with_new-IsBack :
    (k : ℕ) (q : ℕ) (t : ScheduleTask) (w : Worker)
    → IsBack k w
    → IsBack k (with_new q t w)
      × IsReady (with_new q t w) q
      × (((with_new q t w).thread.fibers q).has_stack ≡ true)
unfolding new_fiber
with_new-IsBack k q t w b =
    (record { own = b.own; runs = b.runs }, (ground arith, ground arith), ground arith)

on_new-Ran :
    (k : ℕ) (turn : Turn) (q : ℕ) (t : ScheduleTask) (w : Worker)
    → IsBack k w
    → (w' : Worker) × (then_release q (execute turn q (with_new q t w)) ≡ some w')
      × Ran k w (w.sched.active_thread_count - 1) w'
on_new-Ran k turn q t w b =
    let (b_0, is_ready, stack) = with_new-IsBack k q t w b in
    let (w_1, eq, x) = execute-Executed k turn q (with_new q t w) b_0 is_ready in
    let r = less-Ran k turn q (with_new q t w) w_1 x in
    let (w_2, eq_2, b_2, same) = release-lem k q (less_active w_1) r.back (x.stack ∙ stack) in
    (
      w_2,
      ap (then_release q) eq ∙ eq_2,
      record {
        back = b_2;
        active_count = ap (λ (s : Scheduler). s.active_thread_count) same ∙ r.active_count;
        idle_count = ap (λ (s : Scheduler). s.idle_thread_count) same ∙ r.idle_count;
      },
    )

pub run_task-Ran :
    (k : ℕ) (turn : Turn) (q : ℕ) (t : ScheduleTask) (w : Worker)
    → IsBack k w
    → (t.fiber ≢ 0 → IsReady w t.fiber)
    → (w' : Worker) × (run_task turn q t w ≡ some w') × Ran k w (w.sched.active_thread_count - 1) w'
unfolding run_task
run_task-Ran k turn q t w b can = elim (Bool-cases (t.fiber == 0)) [
  | inl callback ↦
      let (w', eq, r) = on_new-Ran k turn q t w b in
      (w', if_true (t.fiber == 0) _ _ callback ∙ eq, r)
  | inr fiber ↦
      let (w', eq, r) = on_own-Ran k turn t w b (can (ground (arith, fiber))) in
      (w', if_false (t.fiber == 0) _ _ fiber ∙ eq, r)
]
