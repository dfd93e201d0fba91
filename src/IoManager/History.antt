-- ===== src/IoManager/History.antt =====
-- Histories of calls to one I/O manager (src/iomanager.cc). Each call is one step, as it runs under the
-- locks of the table and of its context.
use lt.Base.{
  arith, ap, [], ◌++◌, get_elem?, ℕ, ◌+◌, ◌*◌, ◌/◌, ◌^◌, ◌<◌, ◌≤◌, ◌≡◌, ◌≢◌, sym, ◌∙◌, Bool, List,
  Option, none, some, Bool-cases, inl, inr,
}
use mathlib.Core.Path.{subst}
use mathlib.Core.Option.{some-injective}
use lt.Callback.{Callback}
use lt.IoManager.Events.{Event, IsIo, has}
use lt.IoManager.{Epoll, Manager, add_event}
use lt.IoManager.Poll.{del_event, cancel_event, cancel_all, handle_events}
use lt.Scheduler.{ScheduleTask}
use lt.IoManager.Weights.{
  Weight, SameWaiters, known_weight, pending_weight, task_weight, task_weight-append,
}
use lt.IoManager.Taking.{taken_tasks, add_event-Takes}
use lt.IoManager.Dropping.{dropped_tasks, del_event-Drops}
use lt.IoManager.Sync.{Inv, none-some}
use lt.IoManager.Opening.{new_io_manager, new_io_manager-Inv}
use lt.IoManager.Adding.{add_event-Adds}
use lt.IoManager.Deleting.{del_event-Deleted}
use lt.IoManager.Cancelling.{cancel_event-Cancelled}
use lt.IoManager.CancelAll.{cancel_all-CancelsAll}
use lt.IoManager.Reports.{AreReports, handle_events-Handled}

module _ (E : Epoll) where
  open E use {State, registered}

  -- The tasks of waiters, each with its scheduler.
  abbrev pub Tasks : Type 0
  Tasks = List (ℕ × ScheduleTask)

  -- One call that returns, with the tasks of the waiters that it has taken, by its arguments, and those of
  -- the waiters that it has dropped unscheduled. `add_event` is called from a scheduler, for a handle
  -- after the standard input and output that the table can grow for. The reports of a round are what
  -- `epoll_wait` gives for the events that are registered when they are handled; a report that another
  -- thread's call has made stale in between is none of these, and can abort the program.
  pub data Step (m : Manager E) : Manager E → Tasks → Tasks → Type 0 where
    adds :
        (fd : ℕ) (ev : Event) (cb : Callback) (self this_fiber : ℕ) (r : Bool × Manager E)
        → IsIo ev
        → self ≢ 0
        → 2 ≤ fd
        → fd * 3 / 2 < 2 ^ 31
        → add_event E fd ev cb self this_fiber m ≡ some r
        → Step m r.1 (taken_tasks r.0 self cb this_fiber) []
    deletes :
        (fd : ℕ) (ev : Event)
        → IsIo ev
        → Step m
            (del_event E fd ev m).1
            []
            (dropped_tasks (del_event E fd ev m).0 ev (get_elem? m.contexts fd))
    cancels :
        (fd : ℕ) (ev : Event) (r : Bool × Manager E)
        → IsIo ev
        → cancel_event E fd ev m ≡ some r
        → Step m r.1 [] []
    cancels_all : (fd : ℕ) (r : Bool × Manager E) → cancel_all E fd m ≡ some r → Step m r.1 [] []
    handles :
        (reports : List (ℕ × ℕ)) (m' : Manager E)
        → AreReports E m.tickle_fd m.epoll reports
        → handle_events E reports m ≡ some m'
        → Step m m' [] []

  -- The managers that calls lead to, with the tasks taken and those dropped on the way.
  pub data Reach : Manager E → Tasks → Tasks → Type 0 where
    opened :
        (created : Bool) (pipe_rt fcntl_rt tickle_fd : ℕ) (k : State) (m : Manager E)
        → ((g : ℕ) → registered k g ≡ none)
        → new_io_manager E created pipe_rt fcntl_rt tickle_fd k ≡ some m
        → Reach m [] []
    later :
        {m n : Manager E} {taken dropped a d : Tasks}
        → Reach m taken dropped
        → Step m n a d
        → Reach n (taken ++ a) (dropped ++ d)

  abbrev Stepped : Manager E → Tasks → Tasks → Manager E → Type 0
  Stepped m a d n =
      Inv E n
      × ((w : Weight) → known_weight w n + task_weight w d ≡ known_weight w m + task_weight w a)

  same_result :
      {A : Type 0} (P : A → Type 0) (o : Option A) (a b : A) → o ≡ some a → o ≡ some b → P a → P b
  same_result P o a b p q h = subst P (some-injective a b (sym p ∙ q)) h

  nothing_moved : (m n : Manager E) → Inv E n → SameWaiters m n → Stepped m [] [] n
  nothing_moved m n v same = (v, (λ w. ap (λ k. k + task_weight w []) (same w)))

  Step-Stepped : {m n : Manager E} {a d : Tasks} → Step m n a d → Inv E m → Stepped m a d n
  unfolding task_weight
  Step-Stepped {m} (adds fd ev cb self this_fiber r io given two small e) v =
      let (c, found, again, fresh) =
        add_event-Adds E fd ev cb self this_fiber m io given two small v in
      let takes = add_event-Takes E fd ev cb self this_fiber m io two small v r e in
      elim (Bool-cases (has c.events ev)) [
        | inl dup ↦ absurd (none-some r (sym (again dup) ∙ e))
        | inr new ↦
            let (r', eq, kept, _, _, _, _) = fresh new in
            (
              same_result (λ (r : Bool × Manager E). Inv E r.1) _ r' r eq e kept,
              (λ w. omega (arith, takes w)),
            )
      ]
  Step-Stepped {m} (deletes fd ev io) v =
      let (kept, _, _, _, _) = del_event-Deleted E fd ev m io v in
      (kept, (λ w. omega (arith, del_event-Drops E fd ev m io v w)))
  Step-Stepped {m} (cancels fd ev r io e) v =
      let (r', eq, c) = cancel_event-Cancelled E fd ev m io v in
      same_result (λ (r : Bool × Manager E). Stepped m [] [] r.1) _ r' r eq e
        (nothing_moved m r'.1 c.kept c.same_waiters)
  Step-Stepped {m} (cancels_all fd r e) v =
      let (r', eq, kept, _, same, _, _) = cancel_all-CancelsAll E fd m v in
      same_result (λ (r : Bool × Manager E). Stepped m [] [] r.1) _ r' r eq e
        (nothing_moved m r'.1 kept same)
  Step-Stepped {m} (handles reports m' ok e) v =
      let (r', eq, kept, _, same, _, _) = handle_events-Handled E reports m v ok in
      same_result (Stepped m [] []) _ r' m' eq e (nothing_moved m r' kept same)

  -- After any history of calls, in which `epoll_wait` reports only events that are registered when they
  -- are handled, the bookkeeping of an I/O manager is right: each context fits its mask, the count of
  -- pending events is that of the masks, and `epoll` watches each handle for exactly what its context
  -- waits for. And no waiter is lost, doubled or changed: the task of a waiter is the callback that
  -- `addEvent` was given or else the calling fiber, and for every weight on the tasks and their
  -- schedulers those that `addEvent` took weigh as much as those that are pending still, those that were
  -- scheduled and those that `delEvent` dropped.
  pub Reach-waiters :
      {m : Manager E} {taken dropped : Tasks}
      → Reach m taken dropped
      → Inv E m
        × ((w : Weight)
            → pending_weight w m.contexts + task_weight w m.scheduled + task_weight w dropped
              ≡ task_weight w taken)
  unfolding task_weight
  Reach-waiters (opened created pipe_rt fcntl_rt tickle_fd k m empty e) =
      let (v, count) = new_io_manager-Inv E created pipe_rt fcntl_rt tickle_fd k m empty e in
      (v, (λ w. omega (arith, count w)))
  Reach-waiters (later {taken = taken} {dropped = dropped} {a = a} {d = d} r s) =
      let (v, weights) = Reach-waiters r in
      let (v', step) = Step-Stepped s v in
      (
        v',
        (λ w. omega (
          arith,
          weights w,
          step w,
          task_weight-append w taken a,
          task_weight-append w dropped d,
        )),
      )
