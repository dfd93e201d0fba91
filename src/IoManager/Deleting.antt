-- ===== src/IoManager/Deleting.antt =====
-- `delEvent` (src/iomanager.cc).
use Prim.Native.Nat.{bit_or}
use lt.Base.{
  ℕ, ◌+◌, arith, one_if, ◌≡◌, refl, Bool, true, false, not, some, ◌==◌, get_elem?, set,
  get_elem?-set_self, get_elem?-set_ne, length-set, option_match, if_cases, not-true, not-false,
  ==_iff, ==_false,
}
use lt.IoManager.Events.{Event, has, without, IsIo}
use lt.IoManager.{FdContext, epollet, Epoll, one_less, Manager}
use lt.IoManager.Poll.{left_op, del_event_locked, del_event}
use lt.IoManager.Local.{change-Local, dropped, dropped-events, dropped-IsSound, waiters}
use lt.IoManager.Triggering.{one_less-count, one_less-exact}
use lt.IoManager.Sync.{Inv, left_ctl, failed-Inv, changed-Inv}

module _ (E : Epoll) where
  open E use {State, epoll_ctl, registered, failed_same, mod_registers, del_removes}

  -- What `delEvent` does, of its result.
  abbrev Deleted : ℕ → Event → Manager E → Bool × Manager E → Type 0
  Deleted fd ev m r =
      Inv E r.1
      × (waiters r.1 + one_if r.0 ≡ waiters m)
      × (r.1.scheduled ≡ m.scheduled)
      × (r.0 ≡ false → r.1.contexts ≡ m.contexts)
      × (r.0 ≡ true
          → (c : FdContext) × (get_elem? m.contexts fd ≡ some c)
            × (has c.events ev ≡ true)
            × (get_elem? r.1.contexts fd ≡ some (dropped ev c)))

  module _ (fd : ℕ) (ev : Event) (c : FdContext) (m : Manager E) (io : IsIo ev) (v : Inv E m)
      (e : get_elem? m.contexts fd ≡ some c) where
    abbrev new_events : ℕ
    new_events = without c.events ev

    abbrev ctl : ℕ × State
    ctl = epoll_ctl (left_op new_events) fd (bit_or epollet new_events) m.epoll

    abbrev after_del : Manager E
    after_del = record m {
      contexts = set m.contexts fd (dropped ev c);
      pending_event_count = one_less m.pending_event_count;
      epoll = ctl.1;
    }

    after_del-Inv : has c.events ev ≡ true → (ctl.0 == 0) ≡ true → Inv E after_del
    after_del-Inv h f =
        changed-Inv E m after_del fd c (dropped ev c) new_events v
          (change-Local m fd c (dropped ev c) (one_less m.pending_event_count) m.scheduled ctl.1
            v.local e (dropped-IsSound fd ev c io (v.local.contexts fd c e))
            (one_less-count m fd ev c v.local e h))
          e (get_elem?-set_self m.contexts fd (dropped ev c) c e)
          (λ j ne. get_elem?-set_ne m.contexts fd j (dropped ev c) ne)
          (length-set m.contexts fd (dropped ev c)) refl (dropped-events ev c)
          (left_ctl E fd new_events m.epoll ((==_iff _ _).0 f))

    del_event_locked-Deleted : Deleted fd ev m (del_event_locked E fd ev c m)
    unfolding del_event_locked
    del_event_locked-Deleted =
        if_cases (Deleted fd ev m) (not (has c.events ev)) _ _
          (λ _. (v, omega arith, refl, (λ _. refl), (λ t. cc)))
          (λ h.
            if_cases (Deleted fd ev m) (not (ctl.0 == 0)) _ _
              (λ f. (
                failed-Inv E _ fd _ m (==_false _ _ (not-true _ f)) v,
                omega arith,
                refl,
                (λ _. refl),
                (λ t. cc),
              ))
              (λ f. (
                after_del-Inv (not-false _ h) (not-false _ f),
                omega (arith, one_less-exact m fd ev c v.local e (not-false _ h)),
                refl,
                (λ t. cc),
                (λ _. (c, e, not-false _ h, get_elem?-set_self m.contexts fd (dropped ev c) c e)),
              )))

  -- `delEvent` keeps the invariant and schedules nothing; the pending events are fewer by one if it
  -- returns true, and as many as before if not. It returns true only if the handle has a
  -- context that waits for the event; then the event is dropped. Otherwise no context changes.
  pub del_event-Deleted :
      (fd : ℕ) (ev : Event) (m : Manager E)
      → IsIo ev
      → Inv E m
      → let r = del_event E fd ev m in
        Inv E r.1
        × (waiters r.1 + one_if r.0 ≡ waiters m)
        × (r.1.scheduled ≡ m.scheduled)
        × (r.0 ≡ false → r.1.contexts ≡ m.contexts)
        × (r.0 ≡ true
            → (c : FdContext) × (get_elem? m.contexts fd ≡ some c)
              × (has c.events ev ≡ true)
              × (get_elem? r.1.contexts fd ≡ some (dropped ev c)))
  unfolding del_event
  del_event-Deleted fd ev m io v =
      option_match (Deleted fd ev m) (get_elem? m.contexts fd) _ (λ c. del_event_locked E fd ev c m)
        (λ _. (v, omega arith, refl, (λ _. refl), (λ t. cc)))
        (λ c e. del_event_locked-Deleted fd ev c m io v e)
