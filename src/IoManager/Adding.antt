-- ===== src/IoManager/Adding.antt =====
-- `addEvent` (src/iomanager.cc).
use Prim.Native.Nat.{bit_or}
use mathlib.Core.Path.{subst}
use lt.Base.{
  ℕ, ◌+◌, one_if, ◌*◌, ◌/◌, ◌^◌, ◌<◌, ◌≤◌, ◌≡◌, ◌≢◌, refl, sym, ap, ◌∙◌, Bool, true, false, not,
  ◌&&◌, ◌||◌, List, Option, none, some, arith, ◌==◌, if◌then◌else◌, get_elem?, set, Bool-cases,
  if_cases, if_true, not-true, not-false, ==_iff, ==_false, inl, inr, add64, get_elem?-set_self,
  get_elem?-some, get_elem?-set_ne, length-set,
}
use lt.Callback.{Callback, null, is_set}
use lt.IoManager.Events.{
  Event, none_event, read, write, has, with_event, IsIo, has-with_event, with_event-IsMask,
  with_event-nonzero, weight, weight-with_event,
}
use lt.IoManager.{
  EventContext, FdContext, CtlOp, add, mod_op, epollet, Epoll, Manager, no_context,
  get_event_context, set_event_context, grown, add_event_locked, add_event,
}
use lt.IoManager.Local.{waiters, IsSound, IsFor, change-Local, total_weight-le}
use lt.IoManager.Growth.{grown-Inv}
use lt.IoManager.Sync.{registration, Inv, failed-Inv, changed-Inv}

-- What `addEvent` writes into the context of the event.
abbrev pub waiter : Callback → ℕ → ℕ → EventContext
waiter cb self this_fiber =
    if is_set cb
    then record { scheduler = self; fiber = 0; cb = cb }
    else record { scheduler = self; fiber = this_fiber; cb = null }

abbrev pub added : Event → EventContext → FdContext → FdContext
added ev x c = set_event_context ev x (record c { events = with_event c.events ev })

added-events :
    (ev : Event) (x : EventContext) (c : FdContext) → (added ev x c).events ≡ with_event c.events ev
unfolding set_event_context
added-events none_event x c = refl
added-events read x c = refl
added-events write x c = refl

added-context :
    (ev : Event) (x : EventContext) (c : FdContext)
    → IsIo ev
    → get_event_context ev (added ev x c) ≡ some x
unfolding set_event_context get_event_context
added-context none_event x c io = absurd (io refl)
added-context read x c io = refl
added-context write x c io = refl

true-false : true ≢ false
true-false e = cc

or_false : (b : Bool) → (b || false) ≡ b
or_false b = ground arith

or_true : (b : Bool) → (b || true) ≡ true
or_true b = ground arith

added-IsSound :
    (i : ℕ) (ev : Event) (x : EventContext) (c : FdContext)
    → IsIo ev
    → (x.scheduler == 0) ≡ false
    → IsSound i c
    → IsSound i (added ev x c)
unfolding set_event_context
added-IsSound i none_event x c io hx s = absurd (io refl)
added-IsSound i read x c io hx s = record {
  own = s.own;
  mask = with_event-IsMask c.events read s.mask;
  readable = rw (has-with_event c.events read read s.mask (λ z. cc), or_true) hx;
  writable = rw (has-with_event c.events read write s.mask (λ z. cc), or_false) s.writable;
}
added-IsSound i write x c io hx s = record {
  own = s.own;
  mask = with_event-IsMask c.events write s.mask;
  readable = rw (has-with_event c.events write read s.mask (λ z. cc), or_false) s.readable;
  writable = rw (has-with_event c.events write write s.mask (λ z. cc), or_true) hx;
}

-- The context of an event that the mask does not hold is empty.
absent_context :
    (i : ℕ) (ev : Event) (c : FdContext)
    → IsIo ev
    → IsSound i c
    → has c.events ev ≡ false
    → get_event_context ev c ≡ some no_context
unfolding get_event_context
absent_context i none_event c io s h = absurd (io refl)
absent_context i read c io s h = ap some (subst (λ b. IsFor b c.reading) h s.readable)
absent_context i write c io s h = ap some (subst (λ b. IsFor b c.writing) h s.writable)

module _ (E : Epoll) where
  open E use {State, epoll_ctl, registered, add_registers, mod_registers}

  -- ADD for a handle that is not registered yet, MOD for one that is.
  add_ctl_lem :
      (fd events new : ℕ) (k : State)
      → (new == 0) ≡ false
      → (epoll_ctl (if events == 0 then add else mod_op) fd (bit_or epollet new) k).0 ≡ 0
      → (g : ℕ)
      → registered (epoll_ctl (if events == 0 then add else mod_op) fd (bit_or epollet new) k).1 g
        ≡ (if fd == g then registration new else registered k g)
  add_ctl_lem fd events new k nz = elim (Bool-cases (events == 0)) [
    | inl z ↦ rw (z, nz) (add_registers fd (bit_or epollet new) k)
    | inr z ↦ rw (z, nz) (mod_registers fd (bit_or epollet new) k)
  ]

  module _ (fd : ℕ) (ev : Event) (cb : Callback) (self this_fiber : ℕ) (c : FdContext)
      (m : Manager E) (io : IsIo ev) (here : self ≢ 0) (v : Inv E m)
      (e : get_elem? m.contexts fd ≡ some c) (absent : has c.events ev ≡ false) where
    abbrev op : CtlOp
    op = if c.events == 0 then add else mod_op

    abbrev ctl : ℕ × State
    ctl = epoll_ctl op fd (bit_or epollet (with_event c.events ev)) m.epoll

    abbrev x : EventContext
    x = waiter cb self this_fiber

    abbrev after_add : Manager E
    after_add = record m {
      contexts = set m.contexts fd (added ev x c);
      pending_event_count = add64 m.pending_event_count 1;
      epoll = ctl.1;
    }

    waits : (x.scheduler == 0) ≡ false
    waits = ground arith

    not_zero : (with_event c.events ev == 0) ≡ false
    not_zero = with_event-nonzero c.events ev (v.local.contexts fd c e).mask io

    add_ctl :
        ctl.0 ≡ 0
        → (g : ℕ)
        → registered ctl.1 g
          ≡ (if fd == g then registration (with_event c.events ev) else registered m.epoll g)
    add_ctl = add_ctl_lem fd c.events (with_event c.events ev) m.epoll not_zero

    after_add-Inv : ctl.0 ≡ 0 → Inv E after_add
    after_add-Inv ok =
        changed-Inv E m after_add fd c (added ev x c) (with_event c.events ev) v
          (change-Local m fd c (added ev x c) (add64 m.pending_event_count 1) m.scheduled ctl.1
            v.local e (added-IsSound fd ev x c io waits (v.local.contexts fd c e))
            (omega (
              arith,
              total_weight-le m.contexts,
              v.local.counted,
              v.local.small,
              weight-with_event c.events ev (v.local.contexts fd c e).mask io absent,
              ap weight (added-events ev x c),
            )))
          e (get_elem?-set_self m.contexts fd (added ev x c) c e)
          (λ j ne. get_elem?-set_ne m.contexts fd j (added ev x c) ne)
          (length-set m.contexts fd (added ev x c)) refl (added-events ev x c) (add_ctl ok)

    one_more : waiters after_add ≡ waiters m + 1
    one_more = omega (arith, total_weight-le m.contexts, v.local.counted, v.local.small)

    abbrev store : Option EventContext → Option (Bool × Manager E)
    store none = none
    store (some old) =
        if old.scheduler == 0 && old.fiber == 0 && not (is_set old.cb)
        then some (true, after_add)
        else none

    stored :
        get_event_context ev c ≡ some no_context
        → store (get_event_context ev c) ≡ some (true, after_add)
    stored q = ap store q

    -- What `addEvent` does where the handle has a context that does not wait for the event.
    abbrev pub Adds : Option (Bool × Manager E) → Type 0
    Adds o =
        (r : Bool × Manager E) × (o ≡ some r)
        × Inv E r.1
        × (waiters r.1 ≡ waiters m + one_if r.0)
        × (r.1.scheduled ≡ m.scheduled)
        × (r.0 ≡ false → r.1.contexts ≡ m.contexts)
        × (r.0 ≡ true
            → (c' : FdContext) × (get_elem? r.1.contexts fd ≡ some c')
              × (c'.events ≡ with_event c.events ev)
              × (get_event_context ev c' ≡ some x))

    added_context : get_event_context ev (added ev x c) ≡ some x
    added_context = added-context ev x c io

    add_event_locked-Adds : Adds (add_event_locked E fd ev cb self this_fiber c m)
    unfolding add_event_locked
    add_event_locked-Adds =
        if_cases Adds (has c.events ev) _ _ (λ h. absurd (true-false (sym h ∙ absent)))
          (λ _.
            if_cases Adds (not (ctl.0 == 0)) _ _
              (λ f. (
                (false, record m { epoll = ctl.1 }),
                refl,
                failed-Inv E op fd _ m (==_false _ _ (not-true _ f)) v,
                omega arith,
                refl,
                (λ _. refl),
                (λ h. cc),
              ))
              (λ f.
                subst Adds
                  (sym (stored (absent_context fd ev c io (v.local.contexts fd c e) absent)))
                  (
                    (true, after_add),
                    refl,
                    after_add-Inv ((==_iff _ _).0 (not-false _ f)),
                    one_more,
                    refl,
                    (λ h. cc),
                    (λ _. (
                      added ev x c,
                      get_elem?-set_self m.contexts fd (added ev x c) c e,
                      added-events ev x c,
                      added_context,
                    )),
                  )))

  abbrev on_context :
      ℕ → Event → Callback → ℕ → ℕ → Manager E → Option FdContext → Option (Bool × Manager E)
  on_context fd ev cb self this_fiber m none = none
  on_context fd ev cb self this_fiber m (some c) = add_event_locked E fd ev cb self this_fiber c m

  -- `addEvent` for READ or WRITE, on a handle from 2 on and in a thread with a scheduler. If the
  -- handle waits for the event already the assertion fails. Otherwise no assertion does, the
  -- invariant is kept and nothing is scheduled; there is one more pending event if it returns true.
  -- If `epoll_ctl` fails the contexts are as the lookup
  -- left them; if not, the handle waits for the event too, with this scheduler and the callback, or
  -- the current fiber where there is none.
  pub add_event-Adds :
      (fd : ℕ) (ev : Event) (cb : Callback) (self this_fiber : ℕ) (m : Manager E)
      → IsIo ev
      → self ≢ 0
      → 2 ≤ fd
      → fd * 3 / 2 < 2 ^ 31
      → Inv E m
      → let o = add_event E fd ev cb self this_fiber m in
        (c : FdContext) × (get_elem? (grown fd m.contexts) fd ≡ some c)
        × (has c.events ev ≡ true → o ≡ none)
        × (has c.events ev ≡ false
            → (r : Bool × Manager E) × (o ≡ some r)
              × Inv E r.1
              × (waiters r.1 ≡ waiters m + one_if r.0)
              × (r.1.scheduled ≡ m.scheduled)
              × (r.0 ≡ false → r.1.contexts ≡ grown fd m.contexts)
              × (r.0 ≡ true
                  → (c' : FdContext) × (get_elem? r.1.contexts fd ≡ some c')
                    × (c'.events ≡ with_event c.events ev)
                    × (get_event_context ev c'
                        ≡ some (
                            if is_set cb
                            then record { scheduler = self; fiber = 0; cb = cb }
                            else record { scheduler = self; fiber = this_fiber; cb = null }))))
  unfolding add_event
  add_event-Adds fd ev cb self this_fiber m io here two small v =
      let cs : List FdContext = grown fd m.contexts in
      let m' : Manager E = record m { contexts = cs } in
      let (v', lt) = grown-Inv E fd m v two small in
      let (c, e) = get_elem?-some cs fd lt in
      (
        c,
        e,
        (λ h. ap (on_context fd ev cb self this_fiber m') e ∙ if_true (has c.events ev) _ _ h),
        (λ h.
            let t = add_event_locked-Adds fd ev cb self this_fiber c m' io here v' e h in
            (t.0, ap (on_context fd ev cb self this_fiber m') e ∙ t.1, t.2, t.3, t.4, t.5, t.6)),
      )
