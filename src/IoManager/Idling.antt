-- ===== src/IoManager/Idling.antt =====
-- A round of the loop of `idle` goes through (src/iomanager.cc).
use lt.Base.{ℕ, ◌≡◌, ◌≢◌, false, List, ◌++◌, map, some, contains}
use lt.Timer.{TimerManager}
use lt.Timer.Invariant
use lt.Timer.Pending.{select}
use lt.Timer.Expired.{expires}
use lt.Scheduler.{Scheduler, ScheduleTask}
use lt.IoManager.{Epoll, Manager}
use lt.IoManager.Weights.{SameWaiters}
use lt.IoManager.Sync.{Inv}
use lt.IoManager.Idle.{stopping}
use lt.IoManager.Reports.{AreReports, handle_events-Handled}
use lt.IoManager.Round.{callback_task, own_tasks, idle_round, idle_round-schedules}

module _ (E : Epoll) where
  -- What a round of the scheduler `self` leaves of the managers at the end of its wait.
  pub record Idled (self later : ℕ) (timers : TimerManager) (m m' : Manager E) (s s' : Scheduler)
      : Type 0 where
    pub kept : Inv E m'
    pub same_waiters : SameWaiters m m'
    pub added : List (ℕ × ScheduleTask)
    pub scheduled : m'.scheduled ≡ m.scheduled ++ added
    pub tasks :
        s'.tasks
        ≡ (s.tasks
            ++ map callback_task
                (map (λ q. (timers.heap q).cb) (select (expires later timers) timers.timers)))
          ++ own_tasks self added

  -- Where at the end of the wait the bookkeeping of the events and of the timers is right, and the
  -- reports are those of `epoll_wait` then, a round that does not end the loop fails no assertion. It
  -- appends the callbacks of exactly the timers that have expired to the queue, in the order of their
  -- deadlines, and behind them those tasks of the triggered events that were added from this scheduler.
  -- It keeps the bookkeeping of the events, with the same waiters pending or scheduled.
  pub idle_round-Idled :
      (self now later tmp : ℕ) (reports : List (ℕ × ℕ)) (timers timers₁ : TimerManager)
      (m m₁ : Manager E) (s s₁ : Scheduler)
      → (stopping now timers m s).0 ≡ false
      → Invariant.Inv timers₁
      → tmp ≢ 0
      → contains timers₁.timers tmp ≡ false
      → Inv E m₁
      → AreReports E m₁.tickle_fd m₁.epoll reports
      → (left : TimerManager) × (m' : Manager E) × (s' : Scheduler) × (idle_round E self now later
            tmp reports
            (timers, m, s)
            (timers₁, m₁, s₁)
          ≡ some (false, left, m', s'))
        × Idled self later timers₁ m₁ m' s₁ s'
  idle_round-Idled self now later tmp reports timers timers₁ m m₁ s s₁ busy v htmp fresh kept ok =
      let (m', eq, kept', count, known, added, grows) =
        handle_events-Handled E reports m₁ kept ok in
      let (left, s', round, tasks) =
        idle_round-schedules E self now later tmp reports timers timers₁ m m₁ m' s s₁ added v htmp
          fresh busy eq grows in
      (
        left,
        m',
        s',
        round,
        record {
          kept = kept';
          same_waiters = known;
          added = added;
          scheduled = grows;
          tasks = tasks;
        },
      )
