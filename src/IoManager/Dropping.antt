-- ===== src/IoManager/Dropping.antt =====
-- The waiter that `delEvent` drops (src/iomanager.cc).
use lt.Base.{
  ℕ, set, ◌≡◌, refl, ap, Bool, true, false, not, List, [], Option, none, some, arith, ◌==◌,
  get_elem?, if_cases, ◌+◌, not-false, option_match,
}
use Prim.Native.Nat.{bit_or}
use lt.Scheduler.{ScheduleTask}
use lt.IoManager.Events.{Event, none_event, IsIo, IsMask, read, write, has, same, without}
use lt.IoManager.{epollet, FdContext, Epoll, Manager, get_event_context, one_less}
use lt.IoManager.Poll.{left_op, del_event_locked, del_event}
use lt.IoManager.Sync.{Inv}
use lt.IoManager.Fired.{waiting_tasks}
use lt.IoManager.Local.{dropped}
use lt.IoManager.Weights.{
  Weight, context_weight, task_weight, known_weight, pending_weight-set, context_weight-dropped,
}

-- What a call of `delEvent` has dropped: the task that waited for the event.
abbrev pub waiting_for : Event → Option FdContext → List (ℕ × ScheduleTask)
waiting_for ev none = []
waiting_for ev (some c) = waiting_tasks (same ev read) (same ev write) c

abbrev pub dropped_tasks : Bool → Event → Option FdContext → List (ℕ × ScheduleTask)
dropped_tasks true ev o = waiting_for ev o
dropped_tasks false ev o = []

module _ (E : Epoll) where
  open E use {State, epoll_ctl}

  -- What is left of the weight of the manager, with that of what the call dropped, is what it was.
  abbrev Drops : ℕ → Event → Manager E → Bool × Manager E → Type 0
  Drops fd ev m r =
      (w : Weight)
      → known_weight w r.1 + task_weight w (dropped_tasks r.0 ev (get_elem? m.contexts fd))
        ≡ known_weight w m

  waiting_for-weight :
      (w : Weight) (ev : Event) (c : FdContext)
      → IsIo ev
      → IsMask c.events
      → has c.events ev ≡ true
      → context_weight w (dropped ev c) + task_weight w (waiting_for ev (some c))
        ≡ context_weight w c
  unfolding task_weight get_event_context
  waiting_for-weight w none_event c io m h = absurd (io refl)
  waiting_for-weight w read c io m h =
      omega (arith, context_weight-dropped w read c c.reading io m h refl)
  waiting_for-weight w write c io m h =
      omega (arith, context_weight-dropped w write c c.writing io m h refl)

  module _ (fd : ℕ) (ev : Event) (c : FdContext) (m : Manager E) (io : IsIo ev)
      (mask : IsMask c.events) (e : get_elem? m.contexts fd ≡ some c) where
    refused-Drops : (k : State) → Drops fd ev m (false, record m { epoll = k })
    unfolding task_weight
    refused-Drops k w = omega arith

    abbrev del_ctl : ℕ × State
    del_ctl =
        epoll_ctl (left_op (without c.events ev)) fd (bit_or epollet (without c.events ev)) m.epoll

    accepted-Drops :
        has c.events ev ≡ true
        → Drops fd ev m (
          true,
          record m {
            contexts = set m.contexts fd (dropped ev c);
            pending_event_count = one_less m.pending_event_count;
            epoll = del_ctl.1;
          },
        )
    accepted-Drops h w =
        let weights : task_weight w (waiting_for ev (get_elem? m.contexts fd))
            ≡ task_weight w (waiting_for ev (some c)) =
          ap (λ o. task_weight w (waiting_for ev o)) e in
        omega (
          arith,
          weights,
          pending_weight-set w m.contexts fd c (dropped ev c) e,
          waiting_for-weight w ev c io mask h,
        )

    del_event_locked-Drops : Drops fd ev m (del_event_locked E fd ev c m)
    unfolding del_event_locked
    del_event_locked-Drops =
        if_cases (Drops fd ev m) (not (has c.events ev)) _ _ (λ _. refused-Drops m.epoll)
          (λ h.
            if_cases (Drops fd ev m) (not (del_ctl.0 == 0)) _ _ (λ _. refused-Drops del_ctl.1)
              (λ _. accepted-Drops (not-false _ h)))

  pub del_event-Drops :
      (fd : ℕ) (ev : Event) (m : Manager E)
      → IsIo ev
      → Inv E m
      → Drops fd ev m (del_event E fd ev m)
  unfolding del_event task_weight
  del_event-Drops fd ev m io v =
      option_match (Drops fd ev m) (get_elem? m.contexts fd) _ (λ c. del_event_locked E fd ev c m)
        (λ _ w. omega arith)
        (λ c e. del_event_locked-Drops fd ev c m io (v.local.contexts fd c e).mask e)
