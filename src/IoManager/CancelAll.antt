-- ===== src/IoManager/CancelAll.antt =====
-- `cancelAll` (src/iomanager.cc).
use lt.Base.{
  List, ◌++◌, append_assoc, append_nil, ap₂, ◌&&◌, ◌≢◌, ℕ, ◌≡◌, refl, ap, ◌∙◌, Bool, true, false,
  not, Option, none, some, arith, ◌==◌, if◌then◌else◌, get_elem?, if_cases, if_true, option_match,
  not-true, not-false, ==_iff, ==_false,
}
use lt.IoManager.Events.{read, write, has, mask-zero}
use lt.IoManager.{FdContext, Epoll, Manager, del}
use lt.IoManager.Poll.{trigger_if, cancel_all_locked, cancel_all}
use lt.IoManager.Local.{waiters, Local}
use lt.IoManager.Sync.{Inv, failed-Inv, changed-Inv}
use lt.Scheduler.{ScheduleTask}
use lt.IoManager.Weights.{SameWaiters}
use lt.IoManager.Fired.{one_task, waiting_tasks, trigger_read, trigger_write}

and_true : (b : Bool) → (b && not false) ≡ b
and_true b = ground arith

module _ (E : Epoll) where
  open E use {State, epoll_ctl, registered}

  -- The handle's context waited for some event, its tasks have been scheduled, the reader's first,
  -- and it waits for none.
  abbrev pub Emptied : ℕ → Manager E → Manager E → Type 0
  Emptied fd m m' =
      (c c' : FdContext) × (get_elem? m.contexts fd ≡ some c)
      × (c.events ≢ 0)
      × (m'.scheduled ≡ m.scheduled ++ waiting_tasks (has c.events read) (has c.events write) c)
      × (get_elem? m'.contexts fd ≡ some c')
      × (c'.events ≡ 0)

  module _ (fd : ℕ) (c : FdContext) (m : Manager E) (v : Inv E m)
      (e : get_elem? m.contexts fd ≡ some c) where
    abbrev del_ctl : ℕ × State
    del_ctl = epoll_ctl del fd 0 m.epoll

    abbrev del_asked : Manager E
    del_asked = record m { epoll = del_ctl.1 }

    -- What `cancelAll` does, of its result.
    abbrev CancelsAll : Option (Bool × Manager E) → Type 0
    CancelsAll o =
        (r : Bool × Manager E) × (o ≡ some r)
        × Inv E r.1
        × (waiters r.1 ≡ waiters m)
        × SameWaiters m r.1
        × (r.0 ≡ false → (r.1.contexts ≡ m.contexts) × (r.1.scheduled ≡ m.scheduled))
        × (r.0 ≡ true → Emptied fd m r.1)

    abbrev then_zero : Option (FdContext × Manager E) → Option (Bool × Manager E)
    then_zero none = none
    then_zero (some (c', m')) = if c'.events == 0 then some (true, m') else none

    abbrev then_write : Option (FdContext × Manager E) → Option (Bool × Manager E)
    then_write none = none
    then_write (some (c', m')) = then_zero (trigger_if E (has c'.events write) fd write c' m')

    -- The tasks of the two calls are those of the context before both.
    all_tasks :
        {s s' : List (ℕ × ScheduleTask)} (c' : FdContext)
        → s' ≡ s ++ waiting_tasks false (has c'.events write) c'
        → s ≡ m.scheduled ++ waiting_tasks (has c.events read) false c
        → c'.writing ≡ c.writing
        → has c'.events write ≡ (has c.events write && not false)
        → s' ≡ m.scheduled ++ waiting_tasks (has c.events read) (has c.events write) c
    all_tasks c' p q same waits =
        p
        ∙ (ap₂ (λ s x. s ++ x)
              (q ∙ ap (◌++◌ m.scheduled) (append_nil (one_task (has c.events read) c.reading)))
              (ap₂ one_task (waits ∙ and_true (has c.events write)) same)
            ∙ append_assoc m.scheduled (one_task (has c.events read) c.reading)
                (one_task (has c.events write) c.writing))

    all_triggered :
        del_ctl.0 ≡ 0
        → c.events ≢ 0
        → CancelsAll (then_write (trigger_if E (has c.events read) fd read c del_asked))
    all_triggered ok nz =
        let l : Local del_asked = record {
          contexts = v.local.contexts;
          counted = v.local.counted;
          small = v.local.small;
        } in
        let (c', m', eq, d) = trigger_read E (has c.events read) fd c del_asked l e (λ h. h) in
        let (c'', m'', eq', f) =
          trigger_write E (has c'.events write) fd c' m' d.local d.here (λ h. h) in
        let zero : c''.events ≡ 0 = (==_iff _ _).0 (
          mask-zero c''.events (f.local.contexts fd c'' f.here).mask
          ∙ ground (arith, f.reading, f.writing, d.reading, d.writing)) in
        (
          (true, m''),
          ap then_write eq
              ∙ (ap then_zero eq' ∙ if_true (c''.events == 0) _ _ ((==_iff _ _).1 zero)),
          changed-Inv E m m'' fd c c'' 0 v f.local e f.here (λ j ne. f.others j ne ∙ d.others j ne)
              (f.same_length ∙ d.same_length) (f.same_tickle ∙ d.same_tickle) zero
              (λ g.
                ap (λ k. registered k g) (f.same_epoll ∙ d.same_epoll)
                ∙ E.del_removes fd 0 m.epoll ok g),
          f.balanced ∙ d.balanced,
          (λ w. f.same_waiters w ∙ d.same_waiters w),
          (λ h. cc),
          (λ _. (
            c,
            c'',
            e,
            nz,
            all_tasks c' f.tasks d.tasks (d.writer refl) d.writing,
            f.here,
            zero,
          )),
        )

    cancel_all_locked-CancelsAll : CancelsAll (cancel_all_locked E fd c m)
    unfolding cancel_all_locked
    cancel_all_locked-CancelsAll =
        if_cases CancelsAll (c.events == 0) _ _
          (λ _. ((false, m), refl, v, refl, (λ w. refl), (λ _. (refl, refl)), (λ h. cc)))
          (λ z.
            if_cases CancelsAll (not (del_ctl.0 == 0)) _ _
              (λ f. (
                (false, del_asked),
                refl,
                failed-Inv E del fd 0 m (==_false _ _ (not-true _ f)) v,
                refl,
                (λ w. refl),
                (λ _. (refl, refl)),
                (λ h. cc),
              ))
              (λ f. all_triggered ((==_iff _ _).0 (not-false _ f)) (==_false _ _ z)))

  -- `cancelAll` never fails an assertion and keeps the invariant. With true the handle waited for some
  -- event and waits for none afterwards, and the callback or, without one, the fiber of each event that
  -- it waited for is scheduled where it was added, the reader first, and nothing else is; with false no
  -- context has changed and nothing is scheduled. The same waiters are pending or scheduled as before.
  pub cancel_all-CancelsAll :
      (fd : ℕ) (m : Manager E)
      → Inv E m
      → (r : Bool × Manager E) × (cancel_all E fd m ≡ some r)
        × Inv E r.1
        × (waiters r.1 ≡ waiters m)
        × SameWaiters m r.1
        × (r.0 ≡ false → (r.1.contexts ≡ m.contexts) × (r.1.scheduled ≡ m.scheduled))
        × (r.0 ≡ true → Emptied fd m r.1)
  unfolding cancel_all
  cancel_all-CancelsAll fd m v =
      option_match
        (λ o.
          (r : Bool × Manager E) × (o ≡ some r)
          × Inv E r.1
          × (waiters r.1 ≡ waiters m)
          × SameWaiters m r.1
          × (r.0 ≡ false → (r.1.contexts ≡ m.contexts) × (r.1.scheduled ≡ m.scheduled))
          × (r.0 ≡ true → Emptied fd m r.1))
        (get_elem? m.contexts fd) _ (λ c. cancel_all_locked E fd c m)
        (λ _. ((false, m), refl, v, refl, (λ w. refl), (λ _. (refl, refl)), (λ h. cc)))
        (λ c e. cancel_all_locked-CancelsAll fd c m v e)
