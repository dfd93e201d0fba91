-- ===== src/IoManager/Local.antt =====
-- The bookkeeping of the file handles (src/iomanager.cc): each context fits its mask, and
-- `m_pendingEventCount` is the number of events that all contexts wait for.
use mathlib.Core.Path.{subst}
use mathlib.Core.Option.{some-injective}
use lt.Base.{
  ℕ, zero, suc, ◌+◌, ◌*◌, ◌^◌, ◌≤◌, ◌<◌, ◌≡◌, refl, sym, ap, ◌∙◌, Bool, true, false, ◌&&◌, List, [],
  ◌∷◌, none, some, arith, ◌==◌, length, get_elem?, set, length-set, get_elem?-set_self,
  get_elem?-set_ne, Bool-cases, inl, inr, ==_iff, ==_false,
}
use lt.Scheduler.{ScheduleTask}
use lt.IoManager.Events.{
  Event, none_event, read, write, has, without, same, IsMask, IsIo, weight, has-without,
  without-IsMask, weight-le, has_nothing_read, has_nothing_write,
}
use lt.IoManager.{
  EventContext, FdContext, IoManager, no_context, get_event_context, set_event_context,
  trigger_event, event_task,
}

-- The context of one event is filled exactly if the mask holds the event.
abbrev pub IsFor : Bool → EventContext → Type 0
IsFor true x = (x.scheduler == 0) ≡ false
IsFor false x = x ≡ no_context

-- The context at index `i`.
pub record IsSound (i : ℕ) (c : FdContext) : Type 0 where
  pub own : c.fd ≡ i
  pub mask : IsMask c.events
  pub readable : IsFor (has c.events read) c.reading
  pub writable : IsFor (has c.events write) c.writing

-- A context that waits for nothing.
pub empty-IsSound :
    (i : ℕ) → IsSound i (record { reading = no_context; writing = no_context; fd = i; events = 0 })
empty-IsSound i = record {
  own = refl;
  mask = inl refl;
  readable = rw has_nothing_read refl;
  writable = rw has_nothing_write refl;
}

unfoldable pub total_weight : List FdContext → ℕ
total_weight [] = 0
total_weight (c ∷ cs) = weight c.events + total_weight cs

pub total_weight-set :
    (cs : List FdContext) (i : ℕ) (c c' : FdContext)
    → get_elem? cs i ≡ some c
    → total_weight (set cs i c') + weight c.events ≡ total_weight cs + weight c'.events
unfolding total_weight
total_weight-set [] i c c' e = cc
total_weight-set (x ∷ xs) zero c c' e = ground arith
total_weight-set (x ∷ xs) (suc i) c c' e = omega (arith, total_weight-set xs i c c' e)

-- The events of `c` without one that it holds, its context reset.
abbrev pub dropped : Event → FdContext → FdContext
dropped ev c = set_event_context ev no_context (record c { events = without c.events ev })

pub dropped-events : (ev : Event) (c : FdContext) → (dropped ev c).events ≡ without c.events ev
unfolding set_event_context
dropped-events none_event c = refl
dropped-events read c = refl
dropped-events write c = refl

and_false : (b : Bool) → (b && false) ≡ false
and_false b = ground arith

and_true : (b : Bool) → (b && true) ≡ b
and_true b = ground arith

pub dropped-IsSound :
    (i : ℕ) (ev : Event) (c : FdContext) → IsIo ev → IsSound i c → IsSound i (dropped ev c)
unfolding set_event_context
dropped-IsSound i none_event c io s = absurd (io refl)
dropped-IsSound i read c io s = record {
  own = s.own;
  mask = without-IsMask c.events read s.mask;
  readable = rw (has-without c.events read read s.mask, and_false) refl;
  writable = rw (has-without c.events read write s.mask, and_true) s.writable;
}
dropped-IsSound i write c io s = record {
  own = s.own;
  mask = without-IsMask c.events write s.mask;
  readable = rw (has-without c.events write read s.mask, and_true) s.readable;
  writable = rw (has-without c.events write write s.mask, and_false) refl;
}

-- `triggerEvent` on a context that waits for the event: no assertion fails.
pub trigger_event_lem :
    (i : ℕ) (ev : Event) (c : FdContext)
    → IsIo ev
    → IsSound i c
    → has c.events ev ≡ true
    → (x : EventContext) × (get_event_context ev c ≡ some x)
      × (trigger_event ev c ≡ some (dropped ev c, x.scheduler, event_task x))
unfolding trigger_event get_event_context
trigger_event_lem i none_event c io s h = absurd (io refl)
trigger_event_lem i read c io s h =
    (c.reading, refl, ground (arith, subst (λ b. IsFor b c.reading) h s.readable))
trigger_event_lem i write c io s h =
    (c.writing, refl, ground (arith, subst (λ b. IsFor b c.writing) h s.writable))

-- On a context that does not wait for the event the assertion fails.
pub trigger_event_absent :
    (ev : Event) (c : FdContext) → has c.events ev ≡ false → trigger_event ev c ≡ none
unfolding trigger_event
trigger_event_absent ev c h = rw h

-- The waiters that a manager still knows: those of pending events and those that it has scheduled.
abbrev pub waiters : {K : Type 0} → IoManager K → ℕ
waiters m = m.pending_event_count + length m.scheduled

-- All contexts are sound and the count is right; a `size_t` holds it.
pub record Local {K : Type 0} (m : IoManager K) : Type 0 where
  pub contexts : (i : ℕ) (c : FdContext) → get_elem? m.contexts i ≡ some c → IsSound i c
  pub counted : m.pending_event_count ≡ total_weight m.contexts
  pub small : length m.contexts < 2 ^ 31

pub total_weight-le : (cs : List FdContext) → total_weight cs ≤ 2 * length cs
unfolding total_weight
total_weight-le [] = omega arith
total_weight-le (c ∷ cs) = omega (arith, total_weight-le cs, weight-le c.events)

-- One context changes, and the count with it.
pub change-Local :
    {K : Type 0} (m : IoManager K) (i : ℕ) (c c' : FdContext) (count : ℕ)
    (more : List (ℕ × ScheduleTask)) (k : K)
    → Local m
    → get_elem? m.contexts i ≡ some c
    → IsSound i c'
    → count + weight c.events ≡ m.pending_event_count + weight c'.events
    → Local (record m {
      contexts = set m.contexts i c';
      pending_event_count = count;
      scheduled = more;
      epoll = k;
    })
change-Local m i c c' count more k l e s n = record {
  contexts = λ j d f. elim (Bool-cases (i == j)) [
    | inl same ↦
        subst (λ (j : ℕ). IsSound j d) ((==_iff i j).0 same)
          (subst (IsSound i)
            (some-injective c' d (
              sym (get_elem?-set_self m.contexts i c' c e)
              ∙ (ap (get_elem? (set m.contexts i c')) ((==_iff i j).0 same) ∙ f)))
            s)
    | inr other ↦ l.contexts j d (sym (get_elem?-set_ne m.contexts i j c' (==_false i j other)) ∙ f)
  ];
  counted = omega (arith, total_weight-set m.contexts i c c' e, l.counted);
  small = omega (arith, length-set m.contexts i c', l.small);
}
