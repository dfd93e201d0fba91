-- ===== src/Scheduler/Turns.antt =====
-- A turn of a fiber comes back to the thread's loop (src/scheduler.cc, src/fiber.cc).
use lt.Base.{
  ℕ, ◌≡◌, ◌≢◌, refl, ap, ◌∙◌, Bool, true, false, List, [], ◌∷◌, Option, none, some, arith,
  if◌then◌else◌,
}
use lt.Fiber.{State, ready, running, term, Thread, resume, yield, finish}
use lt.Fiber.Laws.{resumed, yielded, finished}
use lt.Scheduler.{ScheduleTask, Scheduler, schedule}
use lt.Scheduler.Rounds.{Worker, Turn, schedule_each, execute}

-- The state in which a fiber's turn leaves it.
abbrev pub after : Bool → State
after true = term
after false = ready

-- The thread is back in the loop of `run`, which runs in its scheduler's fiber at `k`: its main fiber,
-- or in the thread of `IOManager(.., use_caller = true, ..)` another.
pub record IsBack (k : ℕ) (w : Worker) : Type 0 where
  pub own : w.thread.scheduler_fiber ≡ k
  pub runs : w.thread.context ≡ k

pub schedule_each-counts :
    (ts : List ScheduleTask) (s : Scheduler)
    → ((schedule_each ts s).active_thread_count ≡ s.active_thread_count)
      × ((schedule_each ts s).idle_thread_count ≡ s.idle_thread_count)
unfolding schedule_each schedule
schedule_each-counts [] s = (refl, refl)
schedule_each-counts (t ∷ ts) s = schedule_each-counts ts (schedule t s).1

-- The fiber at `p` can be resumed, and comes back to the scheduler's fiber.
abbrev pub IsReady : Worker → ℕ → Type 0
IsReady w p = ((w.thread.fibers p).state ≡ ready) × ((w.thread.fibers p).run_in_scheduler ≡ true)

-- What the turn of the fiber at `p` leaves.
pub record Executed (k : ℕ) (turn : Turn) (p : ℕ) (w w' : Worker) : Type 0 where
  pub back : IsBack k w'
  pub tasks : w'.sched ≡ schedule_each (turn p w.sched).1 w.sched
  pub state : (w'.thread.fibers p).state ≡ after (turn p w.sched).0
  pub stack : (w'.thread.fibers p).has_stack ≡ (w.thread.fibers p).has_stack
  pub others : (q : ℕ) → p ≢ q → w'.thread.fibers q ≡ w.thread.fibers q

resume_ready :
    (p : ℕ) (th : Thread) → (th.fibers p).state ≡ ready → resume p th ≡ some (resumed p th)
unfolding resume
resume_ready p th e = ground arith

yield-running :
    (p : ℕ) (th : Thread) → (th.fibers p).state ≡ running → yield p th ≡ some (yielded p th)
unfolding yield
yield-running p th e = ground arith

finish_lem : (p : ℕ) (th : Thread) → finish p th ≡ some (finished p th)
unfolding finish yield
finish_lem p th = ground arith

-- The thread after a turn.
abbrev turned : Bool → ℕ → Thread → Thread
turned true p th = finished p (resumed p th)
turned false p th = yielded p (resumed p th)

turned_lem :
    (ends : Bool) (p : ℕ) (th : Thread)
    → (if ends then finish p (resumed p th) else yield p (resumed p th)) ≡ some (turned ends p th)
turned_lem true p th = finish_lem p (resumed p th)
turned_lem false p th = yield-running p (resumed p th) (ground arith)

abbrev over : Scheduler → Option Thread → Option Worker
over s none = none
over s (some th) = some (record { sched = s; thread = th })

abbrev turn_of : Bool → ℕ → Scheduler → Option Thread → Option Worker
turn_of ends p s none = none
turn_of ends p s (some th) = over s (if ends then finish p th else yield p th)

record Turned (k : ℕ) (ends : Bool) (p : ℕ) (th th' : Thread) : Type 0 where
  own : th'.scheduler_fiber ≡ k
  runs : th'.context ≡ k
  state : (th'.fibers p).state ≡ after ends
  stack : (th'.fibers p).has_stack ≡ (th.fibers p).has_stack
  others : (q : ℕ) → p ≢ q → th'.fibers q ≡ th.fibers q

turned-Turned :
    (k : ℕ) (ends : Bool) (p : ℕ) (th : Thread)
    → th.scheduler_fiber ≡ k
    → (th.fibers p).run_in_scheduler ≡ true
    → Turned k ends p th (turned ends p th)
turned-Turned k true p th own mine = record {
  own = own;
  runs = ground (arith, own, mine);
  state = ground arith;
  stack = ground arith;
  others = λ q ne. ground arith;
}
turned-Turned k false p th own mine = record {
  own = own;
  runs = ground (arith, own, mine);
  state = ground arith;
  stack = ground arith;
  others = λ q ne. ground arith;
}

pub execute-Executed :
    (k : ℕ) (turn : Turn) (p : ℕ) (w : Worker)
    → IsBack k w
    → IsReady w p
    → (w' : Worker) × (execute turn p w ≡ some w') × Executed k turn p w w'
unfolding execute resume yield finish
execute-Executed k turn p w b (e, mine) =
    let (ends, tasks) = turn p w.sched in
    let t = turned-Turned k ends p w.thread b.own mine in
    (
      record { sched = schedule_each tasks w.sched; thread = turned ends p w.thread },
      ap (turn_of ends p (schedule_each tasks w.sched)) (resume_ready p w.thread e)
          ∙ ap (over (schedule_each tasks w.sched)) (turned_lem ends p w.thread),
      record {
        back = record { own = t.own; runs = t.runs };
        tasks = refl;
        state = t.state;
        stack = t.stack;
        others = t.others;
      },
    )
