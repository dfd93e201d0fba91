-- ===== src/IoManager/Triggering.antt =====
-- What triggering an event does (src/iomanager.cc, `triggerEvent`).
use lt.Base.{
  ℕ, ◌+◌, ◌≡◌, ◌≢◌, refl, ap, true, [], ◌∷◌, ◌++◌, some, arith, length, get_elem?, set, length-set,
  length-append, get_elem?-set_self, get_elem?-set_ne,
}
use lt.Scheduler.{ScheduleTask}
use lt.IoManager.Events.{Event, has, without, IsIo, weight, weight-without}
use lt.IoManager.{
  EventContext, FdContext, Epoll, IoManager, get_event_context, event_task, one_less, Manager,
}
use lt.IoManager.Weights.{
  Weight, SameWaiters, task_weight, waiter_task, event_task-waiter_task, pending_weight-set,
  context_weight-dropped, task_weight-append,
}
use lt.IoManager.Poll.{trigger}
use lt.IoManager.Local.{
  IsSound, total_weight-set, dropped, dropped-events, dropped-IsSound, trigger_event_lem, waiters,
  Local, total_weight-le, change-Local,
}

-- `triggerEvent` in the manager: the event leaves the context's mask, its task is scheduled on the
-- scheduler that it was added with, and the count falls by one.
pub record Triggered {K : Type 0} (ev : Event) (i : ℕ) (c : FdContext) (m : IoManager K)
    (c' : FdContext) (m' : IoManager K) : Type 0 where
  pub local : Local m'
  pub here : get_elem? m'.contexts i ≡ some c'
  pub others : (j : ℕ) → i ≢ j → get_elem? m'.contexts j ≡ get_elem? m.contexts j
  pub events : c'.events ≡ without c.events ev
  pub sound : IsSound i c'
  pub same_epoll : m'.epoll ≡ m.epoll
  pub same_tickle : m'.tickle_fd ≡ m.tickle_fd
  pub same_length : length m'.contexts ≡ length m.contexts
  pub exact : c' ≡ dropped ev c
  pub balanced : waiters m' ≡ waiters m
  pub same_waiters : SameWaiters m m'
  pub tasks :
      (x : EventContext) × (get_event_context ev c ≡ some x)
      × (m'.scheduled ≡ m.scheduled ++ (x.scheduler, waiter_task x) ∷ [])

-- The count after one event is dropped.
pub one_less-count :
    {K : Type 0} (m : IoManager K) (i : ℕ) (ev : Event) (c : FdContext)
    → Local m
    → get_elem? m.contexts i ≡ some c
    → has c.events ev ≡ true
    → one_less m.pending_event_count + weight c.events
      ≡ m.pending_event_count + weight (dropped ev c).events
one_less-count m i ev c l e h = omega (
  arith,
  total_weight-set m.contexts i c (dropped ev c) e,
  l.counted,
  total_weight-le m.contexts,
  l.small,
  weight-without c.events ev (l.contexts i c e).mask h,
  ap weight (dropped-events ev c),
)

pub one_less-exact :
    {K : Type 0} (m : IoManager K) (i : ℕ) (ev : Event) (c : FdContext)
    → Local m
    → get_elem? m.contexts i ≡ some c
    → has c.events ev ≡ true
    → one_less m.pending_event_count + 1 ≡ m.pending_event_count
one_less-exact m i ev c l e h = omega (
  arith,
  one_less-count m i ev c l e h,
  weight-without c.events ev (l.contexts i c e).mask h,
  ap weight (dropped-events ev c),
)

one_task_weight :
    (w : Weight) (x : EventContext)
    → task_weight w ((x.scheduler, event_task x) ∷ []) ≡ w x.scheduler (waiter_task x)
unfolding task_weight
one_task_weight w x = omega (arith, ap (w x.scheduler) (event_task-waiter_task x))

module _ (E : Epoll) where
  pub trigger-Triggered :
      (i : ℕ) (ev : Event) (c : FdContext) (m : Manager E)
      → IsIo ev
      → Local m
      → get_elem? m.contexts i ≡ some c
      → has c.events ev ≡ true
      → (c' : FdContext) × (m' : Manager E) × (trigger E i ev c m ≡ some (c', m'))
        × Triggered ev i c m c' m'
  unfolding trigger
  trigger-Triggered i ev c m io l e h =
      let s : IsSound i c = l.contexts i c e in
      let (x, ctx, eq) = trigger_event_lem i ev c io s h in
      (
        dropped ev c,
        record m {
          contexts = set m.contexts i (dropped ev c);
          pending_event_count = one_less m.pending_event_count;
          scheduled = m.scheduled ++ (x.scheduler, event_task x) ∷ [];
        },
        rw (eq, trigger),
        record {
          local =
              change-Local m i c (dropped ev c) (one_less m.pending_event_count) _ m.epoll l e
                (dropped-IsSound i ev c io s) (one_less-count m i ev c l e h);
          here = get_elem?-set_self m.contexts i (dropped ev c) c e;
          others = λ j ne. get_elem?-set_ne m.contexts i j (dropped ev c) ne;
          events = dropped-events ev c;
          sound = dropped-IsSound i ev c io s;
          same_epoll = refl;
          same_tickle = refl;
          same_length = length-set m.contexts i (dropped ev c);
          exact = refl;
          balanced = omega (
            arith,
            one_less-exact m i ev c l e h,
            length-append m.scheduled ((x.scheduler, event_task x) ∷ []),
          );
          same_waiters = λ w. omega (
            arith,
            pending_weight-set w m.contexts i c (dropped ev c) e,
            context_weight-dropped w ev c x io s.mask h ctx,
            task_weight-append w m.scheduled ((x.scheduler, event_task x) ∷ []),
            one_task_weight w x,
          );
          tasks = (
            x,
            ctx,
            ap (λ (t : ScheduleTask). m.scheduled ++ (x.scheduler, t) ∷ [])
                (event_task-waiter_task x),
          );
        },
      )
