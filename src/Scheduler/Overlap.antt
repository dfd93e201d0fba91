-- ===== src/Scheduler/Overlap.antt =====
-- Two worker threads and one fiber (src/fiber.cc, `resume` and `yield`; src/scheduler.cc, `schedule` and
-- `run`): the states of the fibers and the queue are shared, and each access to them is a step of its
-- own. Nothing that `yield` does after it has written READY is seen by the other threads. The tasks of
-- the queue are fibers, for any thread.
use lt.Base.{ℕ, ◌≡◌, ◌≢◌, refl, List, [], ◌∷◌, ◌++◌, All, ◌==◌, if◌then◌else◌, arith}
use lt.Fiber.{State, ready, running}

-- Where a worker thread stands: in its loop; with a task that it has taken; in the code of a fiber; or
-- in that fiber's `yield`, still on its stack, after `m_state = READY` and before `swapcontext`.
pub data At : Type 0 where
  looping : At
  taken inside leaving : (p : ℕ) → At

pub record Shared : Type 0 where
  pub state : ℕ → State
  pub tasks : List ℕ
  pub thread : ℕ → At

abbrev pub set_state : ℕ → State → (ℕ → State) → ℕ → State
set_state p x f q = if p == q then x else f q

abbrev pub set_thread : ℕ → At → (ℕ → At) → ℕ → At
set_thread i x f j = if i == j then x else f j

pub data Step (s : Shared) : Shared → Type 0 where
  -- `schedule`, called by any code
  schedules : (p : ℕ) → Step s (record s { tasks = s.tasks ++ (p ∷ []) })
  -- `run` under the lock: the first task whose fiber does not run
  takes :
      (i p : ℕ) (before after : List ℕ)
      → s.thread i ≡ looping
      → s.tasks ≡ before ++ (p ∷ after)
      → All (λ q. s.state q ≡ running) before
      → s.state p ≢ running
      → Step s (record s { tasks = before ++ after; thread = set_thread i (taken p) s.thread })
  -- `resume`, with its assertion
  resumes :
      (i p : ℕ)
      → s.thread i ≡ taken p
      → s.state p ≡ ready
      → Step s (record s {
        state = set_state p running s.state;
        thread = set_thread i (inside p) s.thread;
      })
  -- `yield` up to `m_state = READY`
  marks :
      (i p : ℕ)
      → s.thread i ≡ inside p
      → s.state p ≡ running
      → Step s (record s {
        state = set_state p ready s.state;
        thread = set_thread i (leaving p) s.thread;
      })
  -- `swapcontext`
  switches :
      (i p : ℕ)
      → s.thread i ≡ leaving p
      → Step s (record s { thread = set_thread i looping s.thread })

pub data Steps (s : Shared) : Shared → Type 0 where
  none_left : Steps s s
  one_more : {t u : Shared} → Steps s t → Step t u → Steps s u

-- Where two threads are in their loops and a ready fiber is the only task, and the fiber is scheduled
-- again while it runs, by its own code before it yields or by another thread, one thread can be on the
-- stack of the fiber, in its `yield`, while the other has taken the second task, has resumed the same
-- fiber and runs its code.
pub fibers_overlap :
    (i j p : ℕ) (s : Shared)
    → i ≢ j
    → s.thread i ≡ looping
    → s.thread j ≡ looping
    → s.tasks ≡ p ∷ []
    → s.state p ≡ ready
    → (t : Shared) × Steps s t × (t.thread i ≡ leaving p) × (t.thread j ≡ inside p)
fibers_overlap i j p s ne at_i at_j queued is_ready =
    let s_1 : Shared = record s { tasks = []; thread = set_thread i (taken p) s.thread } in
    let s_2 : Shared = record s_1 {
      state = set_state p running s_1.state;
      thread = set_thread i (inside p) s_1.thread;
    } in
    let s_3 : Shared = record s_2 { tasks = p ∷ [] } in
    let s_4 : Shared = record s_3 {
      state = set_state p ready s_3.state;
      thread = set_thread i (leaving p) s_3.thread;
    } in
    let s_5 : Shared = record s_4 { tasks = []; thread = set_thread j (taken p) s_4.thread } in
    (
      record s_5 {
        state = set_state p running s_5.state;
        thread = set_thread j (inside p) s_5.thread;
      },
      one_more
          (one_more
            (one_more
              (one_more
                (one_more
                  (one_more none_left (takes i p [] [] at_i queued tt (not_running is_ready)))
                  (resumes i p (ground arith) is_ready))
                (schedules p))
              (marks i p (ground arith) (ground arith)))
            (takes j p [] [] (ground arith) refl tt (not_running (ground arith))))
          (resumes j p (ground arith) (ground arith)),
      ground arith,
      ground arith,
    )
  where
    not_running : {x : State} → x ≡ ready → x ≢ running
    not_running e h = cc
