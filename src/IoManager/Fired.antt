-- ===== src/IoManager/Fired.antt =====
-- Triggering the events that `epoll_wait` reports (src/iomanager.cc, `idle`).
use mathlib.Core.Option.{some-injective}
use lt.Scheduler.{ScheduleTask}
use lt.Base.{
  List, [], ◌∷◌, ◌++◌, append_assoc, append_nil, ℕ, ◌≡◌, ◌≢◌, refl, sym, ap, ap₂, ◌∙◌, Bool, true,
  false, not, ◌&&◌, Option, none, some, arith, if◌then◌else◌, length, get_elem?,
}
use lt.IoManager.Events.{Event, none_event, IsIo, read, write, has, IsMask, has-without, same}
use lt.IoManager.{
  EventContext, get_event_context, set_event_context, FdContext, Epoll, IoManager, Manager,
}
use lt.IoManager.Poll.{trigger_if, trigger_both}
use lt.IoManager.Local.{waiters, Local}
use lt.IoManager.Triggering.{Triggered, trigger-Triggered}
use lt.IoManager.Weights.{waiter_task, SameWaiters}

-- The tasks that wait for some events of a context, each with its scheduler.
abbrev pub one_task : Bool → EventContext → List (ℕ × ScheduleTask)
one_task b x = if b then (x.scheduler, waiter_task x) ∷ [] else []

abbrev pub waiting_tasks : Bool → Bool → FdContext → List (ℕ × ScheduleTask)
waiting_tasks reads writes c = one_task reads c.reading ++ one_task writes c.writing

-- What triggering some events of a context leaves.
pub record Dropped {K : Type 0} (reads writes : Bool) (i : ℕ) (c : FdContext) (m : IoManager K)
    (c' : FdContext) (m' : IoManager K) : Type 0 where
  pub local : Local m'
  pub here : get_elem? m'.contexts i ≡ some c'
  pub others : (j : ℕ) → i ≢ j → get_elem? m'.contexts j ≡ get_elem? m.contexts j
  pub same_epoll : m'.epoll ≡ m.epoll
  pub same_tickle : m'.tickle_fd ≡ m.tickle_fd
  pub same_length : length m'.contexts ≡ length m.contexts
  pub reading : has c'.events read ≡ (has c.events read && not reads)
  pub writing : has c'.events write ≡ (has c.events write && not writes)
  pub writer : writes ≡ false → c'.writing ≡ c.writing
  pub balanced : waiters m' ≡ waiters m
  pub same_waiters : SameWaiters m m'
  pub tasks : m'.scheduled ≡ m.scheduled ++ waiting_tasks reads writes c

nothing-Dropped :
    {K : Type 0} (i : ℕ) (c : FdContext) (m : IoManager K)
    → Local m
    → get_elem? m.contexts i ≡ some c
    → Dropped false false i c m c m
nothing-Dropped i c m l e = record {
  local = l;
  here = e;
  others = λ j ne. refl;
  same_epoll = refl;
  same_tickle = refl;
  same_length = refl;
  reading = ground arith;
  writing = ground arith;
  writer = λ z. refl;
  balanced = refl;
  same_waiters = λ w. refl;
  tasks = sym (append_nil m.scheduled);
}

Triggered-Dropped :
    {K : Type 0} (ev : Event) (i : ℕ) (c : FdContext) (m : IoManager K) (c' : FdContext)
    (m' : IoManager K)
    → IsMask c.events
    → IsIo ev
    → Triggered ev i c m c' m'
    → Dropped (same ev read) (same ev write) i c m c' m'
unfolding get_event_context set_event_context
Triggered-Dropped none_event i c m c' m' mask io t = absurd (io refl)
Triggered-Dropped read i c m c' m' mask io t = record {
  local = t.local;
  here = t.here;
  others = t.others;
  same_epoll = t.same_epoll;
  same_tickle = t.same_tickle;
  same_length = t.same_length;
  reading = ap (λ (e : ℕ). has e read) t.events ∙ has-without c.events read read mask;
  writing = ap (λ (e : ℕ). has e write) t.events ∙ has-without c.events read write mask;
  writer = λ z. ap (λ (c : FdContext). c.writing) t.exact;
  balanced = t.balanced;
  same_waiters = t.same_waiters;
  tasks =
      let (x, at, e) = t.tasks in
      e
      ∙ ap (λ (x : EventContext). m.scheduled ++ (x.scheduler, waiter_task x) ∷ [])
          (sym (some-injective _ _ at));
}
Triggered-Dropped write i c m c' m' mask io t = record {
  local = t.local;
  here = t.here;
  others = t.others;
  same_epoll = t.same_epoll;
  same_tickle = t.same_tickle;
  same_length = t.same_length;
  reading = ap (λ (e : ℕ). has e read) t.events ∙ has-without c.events write read mask;
  writing = ap (λ (e : ℕ). has e write) t.events ∙ has-without c.events write write mask;
  writer = λ z. cc;
  balanced = t.balanced;
  same_waiters = t.same_waiters;
  tasks =
      let (x, at, e) = t.tasks in
      e
      ∙ ap (λ (x : EventContext). m.scheduled ++ (x.scheduler, waiter_task x) ∷ [])
          (sym (some-injective _ _ at));
}

both-Dropped :
    {K : Type 0} (a b : Bool) (i : ℕ) (c : FdContext) (m : IoManager K) (c' : FdContext)
    (m' : IoManager K) (c'' : FdContext) (m'' : IoManager K)
    → Dropped a false i c m c' m'
    → Dropped false b i c' m' c'' m''
    → Dropped a b i c m c'' m''
both-Dropped a b i c m c' m' c'' m'' d f = record {
  local = f.local;
  here = f.here;
  others = λ j ne. f.others j ne ∙ d.others j ne;
  same_epoll = f.same_epoll ∙ d.same_epoll;
  same_tickle = f.same_tickle ∙ d.same_tickle;
  same_length = f.same_length ∙ d.same_length;
  reading = ground (arith, f.reading, d.reading);
  writing = ground (arith, f.writing, d.writing);
  writer = λ z. f.writer z ∙ d.writer refl;
  balanced = f.balanced ∙ d.balanced;
  same_waiters = λ w. f.same_waiters w ∙ d.same_waiters w;
  tasks =
      f.tasks
      ∙ (ap₂ (λ s x. s ++ one_task b x)
            (d.tasks ∙ ap (◌++◌ m.scheduled) (append_nil (one_task a c.reading))) (d.writer refl)
          ∙ append_assoc m.scheduled (one_task a c.reading) (one_task b c.writing));
}

module _ (E : Epoll) where
  open E use {State, epoll_ctl, registered, failed_same}

  pub trigger_read :
      (b : Bool) (i : ℕ) (c : FdContext) (m : Manager E)
      → Local m
      → get_elem? m.contexts i ≡ some c
      → (b ≡ true → has c.events read ≡ true)
      → (c' : FdContext) × (m' : Manager E) × (trigger_if E b i read c m ≡ some (c', m'))
        × Dropped b false i c m c' m'
  unfolding trigger_if
  trigger_read false i c m l e h = (c, m, refl, nothing-Dropped i c m l e)
  trigger_read true i c m l e h =
      let (c', m', eq, t) = trigger-Triggered E i read c m (λ z. cc) l e (h refl) in
      (c', m', eq, Triggered-Dropped read i c m c' m' (l.contexts i c e).mask (λ z. cc) t)

  pub trigger_write :
      (b : Bool) (i : ℕ) (c : FdContext) (m : Manager E)
      → Local m
      → get_elem? m.contexts i ≡ some c
      → (b ≡ true → has c.events write ≡ true)
      → (c' : FdContext) × (m' : Manager E) × (trigger_if E b i write c m ≡ some (c', m'))
        × Dropped false b i c m c' m'
  unfolding trigger_if
  trigger_write false i c m l e h = (c, m, refl, nothing-Dropped i c m l e)
  trigger_write true i c m l e h =
      let (c', m', eq, t) = trigger-Triggered E i write c m (λ z. cc) l e (h refl) in
      (c', m', eq, Triggered-Dropped write i c m c' m' (l.contexts i c e).mask (λ z. cc) t)

  abbrev pub and_write : Bool → ℕ → Option (FdContext × Manager E) → Option (FdContext × Manager E)
  and_write b i none = none
  and_write b i (some (c, m)) = trigger_if E b i write c m

  pub trigger_both-Dropped :
      (a b : Bool) (i : ℕ) (c : FdContext) (m : Manager E)
      → Local m
      → get_elem? m.contexts i ≡ some c
      → (a ≡ true → has c.events read ≡ true)
      → (b ≡ true → has c.events write ≡ true)
      → (c' : FdContext) × (m' : Manager E) × (trigger_both E a b i c m ≡ some (c', m'))
        × Dropped a b i c m c' m'
  unfolding trigger_both
  trigger_both-Dropped a b i c m l e ha hb =
      let (c', m', eq, d) = trigger_read a i c m l e ha in
      let (c'', m'', eq', f) =
        trigger_write b i c' m' d.local d.here (λ z. d.writing ∙ ground (arith, hb z)) in
      (c'', m'', ap (and_write b i) eq ∙ eq', both-Dropped a b i c m c' m' c'' m'' d f)
