-- ===== src/IoManager/Cancelling.antt =====
-- `cancelEvent` (src/iomanager.cc).
use Prim.Native.Nat.{bit_or}
use lt.Base.{
  ℕ, ◌≡◌, refl, ap, ◌∙◌, Bool, true, false, not, [], ◌∷◌, ◌++◌, Option, none, some, ◌==◌, get_elem?,
  option_match, if_cases, not-true, not-false, ==_iff, ==_false,
}
use lt.IoManager.Events.{Event, has, without, IsIo}
use lt.IoManager.{EventContext, FdContext, epollet, Epoll, get_event_context, Manager}
use lt.IoManager.Poll.{left_op, trigger, cancel_event_locked, cancel_event}
use lt.IoManager.Local.{waiters, Local}
use lt.IoManager.Triggering.{Triggered, trigger-Triggered}
use lt.IoManager.Weights.{waiter_task, SameWaiters}
use lt.IoManager.Sync.{Inv, left_ctl, failed-Inv, changed-Inv}

module _ (E : Epoll) where
  open E use {State, epoll_ctl, registered, failed_same, mod_registers, del_removes}

  -- What `cancelEvent` does, of its result: with true the event is dropped and its task, only, is
  -- scheduled on the scheduler that the event was added with; with false nothing is.
  pub record Cancelled (fd : ℕ) (ev : Event) (m : Manager E) (r : Bool × Manager E) : Type 0 where
    pub kept : Inv E r.1
    pub balanced : waiters r.1 ≡ waiters m
    pub same_waiters : SameWaiters m r.1
    pub refused : r.0 ≡ false → (r.1.contexts ≡ m.contexts) × (r.1.scheduled ≡ m.scheduled)
    pub triggered :
        r.0 ≡ true
        → (c c' : FdContext) × (x : EventContext) × (get_elem? m.contexts fd ≡ some c)
          × (has c.events ev ≡ true)
          × (get_event_context ev c ≡ some x)
          × (r.1.scheduled ≡ m.scheduled ++ (x.scheduler, waiter_task x) ∷ [])
          × (get_elem? r.1.contexts fd ≡ some c')
          × (c'.events ≡ without c.events ev)

  abbrev Cancels : ℕ → Event → Manager E → Option (Bool × Manager E) → Type 0
  Cancels fd ev m o = (r : Bool × Manager E) × (o ≡ some r) × Cancelled fd ev m r

  module _ (fd : ℕ) (ev : Event) (c : FdContext) (m : Manager E) (io : IsIo ev) (v : Inv E m)
      (e : get_elem? m.contexts fd ≡ some c) where
    abbrev asked : ℕ × State
    asked =
        epoll_ctl (left_op (without c.events ev)) fd (bit_or epollet (without c.events ev)) m.epoll

    abbrev after_ask : Manager E
    after_ask = record m { epoll = asked.1 }

    after_ask-Local : Local after_ask
    after_ask-Local = record {
      contexts = v.local.contexts;
      counted = v.local.counted;
      small = v.local.small;
    }

    Triggered-Inv :
        (c' : FdContext) (m' : Manager E)
        → asked.0 ≡ 0
        → Triggered ev fd c after_ask c' m'
        → Inv E m'
    Triggered-Inv c' m' ok t =
        changed-Inv E m m' fd c c' (without c.events ev) v t.local e t.here t.others t.same_length
          t.same_tickle t.events
          (λ g.
            ap (λ k. registered k g) t.same_epoll
            ∙ left_ctl E fd (without c.events ev) m.epoll ok g)

    abbrev then_true : Option (FdContext × Manager E) → Option (Bool × Manager E)
    then_true none = none
    then_true (some (c', m')) = some (true, m')

    cancelled :
        has c.events ev ≡ true
        → asked.0 ≡ 0
        → Cancels fd ev m (then_true (trigger E fd ev c after_ask))
    cancelled h ok =
        let (c', m', eq, t) = trigger-Triggered E fd ev c after_ask io after_ask-Local e h in
        let (x, ctx, tasks) = t.tasks in
        (
          (true, m'),
          ap then_true eq,
          record {
            kept = Triggered-Inv c' m' ok t;
            balanced = t.balanced;
            same_waiters = t.same_waiters;
            refused = λ f. cc;
            triggered = λ _. (c, c', x, e, h, ctx, tasks, t.here, t.events);
          },
        )

    cancel_event_locked-Cancels : Cancels fd ev m (cancel_event_locked E fd ev c m)
    unfolding cancel_event_locked
    cancel_event_locked-Cancels =
        if_cases (Cancels fd ev m) (not (has c.events ev)) _ _
          (λ _. (
            (false, m),
            refl,
            record {
              kept = v;
              balanced = refl;
              same_waiters = λ w. refl;
              refused = λ _. (refl, refl);
              triggered = λ t. cc;
            },
          ))
          (λ h.
            if_cases (Cancels fd ev m) (not (asked.0 == 0)) _ _
              (λ f. (
                (false, after_ask),
                refl,
                record {
                  kept = failed-Inv E _ fd _ m (==_false _ _ (not-true _ f)) v;
                  balanced = refl;
                  same_waiters = λ w. refl;
                  refused = λ _. (refl, refl);
                  triggered = λ t. cc;
                },
              ))
              (λ f. cancelled (not-false _ h) ((==_iff _ _).0 (not-false _ f))))

  -- `cancelEvent` never fails an assertion and keeps the invariant. Where it returns true, it has
  -- dropped the event of a context that waited for it and scheduled its task, once; where it returns
  -- false, no context has changed and nothing is scheduled.
  pub cancel_event-Cancelled :
      (fd : ℕ) (ev : Event) (m : Manager E)
      → IsIo ev
      → Inv E m
      → (r : Bool × Manager E) × (cancel_event E fd ev m ≡ some r) × Cancelled fd ev m r
  unfolding cancel_event
  cancel_event-Cancelled fd ev m io v =
      option_match (Cancels fd ev m) (get_elem? m.contexts fd) _
        (λ c. cancel_event_locked E fd ev c m)
        (λ _. (
          (false, m),
          refl,
          record {
            kept = v;
            balanced = refl;
            same_waiters = λ w. refl;
            refused = λ _. (refl, refl);
            triggered = λ t. cc;
          },
        ))
        (λ c e. cancel_event_locked-Cancels fd ev c m io v e)
