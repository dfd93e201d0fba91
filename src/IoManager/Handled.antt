-- ===== src/IoManager/Handled.antt =====
-- One report of `epoll_wait` (src/iomanager.cc, `idle`).
use Prim.Native.Nat.{bit_and, bit_or}
use mathlib.Core.Path.{Path}
use lt.Scheduler.{ScheduleTask}
use lt.IoManager.Weights.{SameWaiters}
use lt.Base.{
  List, [], ◌++◌, append_nil, if_true, if_false, ℕ, ◌≡◌, ◌≢◌, refl, sym, ap, ap₂, ◌∙◌, Bool, true,
  false, not, Option, none, some, arith, ◌==◌, if◌then◌else◌, get_elem?, if_cases, not-true,
  not-false, ==_iff, ==_false,
}
use lt.IoManager.Events.{Event, read, write, has, clear, IsMask, mask_ext, clear_lem}
use lt.IoManager.Watched.{
  is_ready, still_waiting, Expects, real_read-is_ready, real_write-is_ready, real_events-IsMask,
  clear-still_waiting,
}
use lt.IoManager.{FdContext, epollet, Epoll, Manager}
use lt.IoManager.Poll.{left_op, trigger_both, real_events, handle_event}
use lt.IoManager.Local.{waiters, Local}
use lt.IoManager.Sync.{registration, Inv, left_ctl, failed-Inv, changed-Inv}
use lt.IoManager.Fired.{waiting_tasks, trigger_both-Dropped}

module _ (E : Epoll) where
  open E use {State, epoll_ctl, registered, failed_same}

  -- The events that a report names are events of the context.
  abbrev pub Covers : ℕ → FdContext → Type 0
  Covers fired c = Expects fired c.events read × Expects fired c.events write

  if_same : (b : Bool) → Path (List (ℕ × ScheduleTask)) (if b then [] else []) []
  if_same true = refl
  if_same false = refl

  -- The call of `epoll_ctl` for a report, with the events that it leaves.
  abbrev pub report_ctl : ℕ → FdContext → Manager E → ℕ × State
  report_ctl fired c m =
      let left = still_waiting fired c.events in
      epoll_ctl (left_op left) c.fd (bit_or epollet left) m.epoll

  -- The tasks that a report makes ready, if `epoll_ctl` accepts what it leaves.
  abbrev pub ready_tasks : ℕ → FdContext → Manager E → List (ℕ × ScheduleTask)
  ready_tasks fired c m =
      if (report_ctl fired c m).0 == 0
      then waiting_tasks (is_ready fired c.events read) (is_ready fired c.events write) c
      else []

  -- A report for the context `c` at index `i` is handled.
  pub record Handled (fired i : ℕ) (c : FdContext) (m m' : Manager E) : Type 0 where
    pub kept : Inv E m'
    pub same_tickle : m'.tickle_fd ≡ m.tickle_fd
    pub others : (g : ℕ) → i ≢ g → registered m'.epoll g ≡ registered m.epoll g
    pub balanced : waiters m' ≡ waiters m
    pub same_waiters : SameWaiters m m'
    pub tasks : m'.scheduled ≡ m.scheduled ++ ready_tasks fired c m

  module _ (fired : ℕ) (i : ℕ) (c : FdContext) (m : Manager E) (v : Inv E m)
      (e : get_elem? m.contexts i ≡ some c) (covers : Covers fired c) where
    abbrev Handles : Option (Manager E) → Type 0
    Handles o = (m' : Manager E) × (o ≡ some m') × Handled fired i c m m'

    abbrev real : ℕ
    real = real_events fired c.events

    abbrev left_events : ℕ
    left_events = clear c.events real

    abbrev ctl : ℕ × State
    ctl = epoll_ctl (left_op left_events) c.fd (bit_or epollet left_events) m.epoll

    abbrev asked : Manager E
    asked = record m { epoll = ctl.1 }

    asked-Local : Local asked
    asked-Local = record {
      contexts = v.local.contexts;
      counted = v.local.counted;
      small = v.local.small;
    }

    abbrev drop_context : Option (FdContext × Manager E) → Option (Manager E)
    drop_context none = none
    drop_context (some (c', m')) = some m'

    own : c.fd ≡ i
    own = (v.local.contexts i c e).own

    mask : IsMask c.events
    mask = (v.local.contexts i c e).mask

    reads : has real read ≡ is_ready fired c.events read
    reads = real_read-is_ready fired c.events mask covers.0

    writes : has real write ≡ is_ready fired c.events write
    writes = real_write-is_ready fired c.events mask covers.1

    ready_waits :
        (ev : Event)
        → has real ev ≡ is_ready fired c.events ev
        → has real ev ≡ true
        → has c.events ev ≡ true
    ready_waits ev e h = ground (arith, e, h)

    -- The tasks by the code's own mask.
    abbrev coded_tasks : List (ℕ × ScheduleTask)
    coded_tasks = if ctl.0 == 0 then waiting_tasks (has real read) (has real write) c else []

    coded_tasks_lem : coded_tasks ≡ ready_tasks fired c m
    coded_tasks_lem =
        ap₂ (λ a b. if ctl.0 == 0 then waiting_tasks a b c else []) reads writes
        ∙ ap
            (λ (l : ℕ).
              if (epoll_ctl (left_op l) c.fd (bit_or epollet l) m.epoll).0 == 0
              then waiting_tasks (is_ready fired c.events read) (is_ready fired c.events write) c
              else [])
            (clear-still_waiting fired c.events mask covers.0 covers.1)

    scheduled_lem :
        (xs : List (ℕ × ScheduleTask))
        → coded_tasks ≡ xs
        → m.scheduled ++ xs ≡ m.scheduled ++ ready_tasks fired c m
    scheduled_lem xs e = ap (◌++◌ m.scheduled) (sym e ∙ coded_tasks_lem)

    left_registered :
        ctl.0 ≡ 0
        → (g : ℕ)
        → registered ctl.1 g ≡ (if i == g then registration left_events else registered m.epoll g)
    left_registered ok g =
        left_ctl E c.fd left_events m.epoll ok g
        ∙ ap (λ (k : ℕ). if k == g then registration left_events else registered m.epoll g) own

    triggered :
        ctl.0 ≡ 0
        → Handles (drop_context (trigger_both E (has real read) (has real write) c.fd c asked))
    triggered ok =
        let (c', m', eq, d) =
          trigger_both-Dropped E (has real read) (has real write) i c asked asked-Local e
            (ready_waits read reads) (ready_waits write writes) in
        let (left, reads, writes, zero) =
          clear_lem c.events real mask (real_events-IsMask fired c.events) in
        let watched = λ (g : ℕ). ap (λ k. registered k g) d.same_epoll ∙ left_registered ok g in
        (
          m',
          ap drop_context
              (ap (λ (k : ℕ). trigger_both E (has real read) (has real write) k c asked) own ∙ eq),
          record {
            kept =
                changed-Inv E m m' i c c' left_events v d.local e d.here d.others d.same_length
                  d.same_tickle
                  (mask_ext c'.events left_events (d.local.contexts i c' d.here).mask left
                    (d.reading ∙ sym reads) (d.writing ∙ sym writes))
                  watched;
            same_tickle = d.same_tickle;
            balanced = d.balanced;
            same_waiters = d.same_waiters;
            others = λ g ne. watched g ∙ if_false (i == g) _ _ (ground (arith, ne));
            tasks = d.tasks ∙ scheduled_lem _ (if_true (ctl.0 == 0) _ _ ((==_iff _ _).1 ok));
          },
        )

    -- No event of the report is one that the context waits for.
    nothing_ready : (bit_and c.events real == 0) ≡ true → coded_tasks ≡ []
    nothing_ready h =
        let (_, _, _, zero) = clear_lem c.events real mask (real_events-IsMask fired c.events) in
        let none_read : has real read ≡ false = ground (arith, zero, h, ready_waits read reads) in
        let none_write : has real write ≡ false =
          ground (arith, zero, h, ready_waits write writes) in
        ap₂ (λ a b. if ctl.0 == 0 then waiting_tasks a b c else []) none_read none_write
        ∙ if_same (ctl.0 == 0)

    pub handle_event-Handles : Handles (handle_event E fired c m)
    unfolding handle_event
    handle_event-Handles =
        if_cases Handles (bit_and c.events real == 0) _ _
          (λ h. (
            m,
            refl,
            record {
              kept = v;
              same_tickle = refl;
              balanced = refl;
              same_waiters = λ w. refl;
              others = λ g ne. refl;
              tasks = sym (append_nil m.scheduled) ∙ scheduled_lem [] (nothing_ready h);
            },
          ))
          (λ _.
            if_cases Handles (not (ctl.0 == 0)) _ _
              (λ f.
                let failed : ctl.0 ≢ 0 = ==_false _ _ (not-true _ f) in
                (
                  asked,
                  refl,
                  record {
                    kept = failed-Inv E _ c.fd _ m failed v;
                    balanced = refl;
                    same_waiters = λ w. refl;
                    same_tickle = refl;
                    others = λ g ne. failed_same _ c.fd _ m.epoll failed g;
                    tasks =
                        sym (append_nil m.scheduled)
                        ∙ scheduled_lem [] (if_false (ctl.0 == 0) _ _ (not-true _ f));
                  },
                ))
              (λ f. triggered ((==_iff _ _).0 (not-false _ f))))

  -- One report from `epoll_wait` is handled without a failed assertion if the events that it names
  -- are still events of the context. Then the invariant is kept. An event is ready if the context
  -- waits for it and the report names it or has EPOLLERR or EPOLLHUP. If `epoll_ctl` accepts the
  -- events that are not ready, the callback or, without one, the fiber of each ready event is
  -- scheduled where it was added, the reader first; if it refuses, nothing is. What `epoll` watches
  -- of other handles stays, and the same waiters are pending or scheduled as before.
  pub handle_event-Handled :
      (fired i : ℕ) (c : FdContext) (m : Manager E)
      → Inv E m
      → get_elem? m.contexts i ≡ some c
      → Covers fired c
      → (m' : Manager E) × (handle_event E fired c m ≡ some m') × Handled fired i c m m'
  handle_event-Handled fired i c m v e covers = handle_event-Handles fired i c m v e covers
