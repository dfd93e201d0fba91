-- ===== src/IoManager/Taking.antt =====
-- The waiter that `addEvent` takes (src/iomanager.cc).
use lt.Base.{
  ℕ, zero, suc, ◌-◌, leb, leb→le, length, set, add64, if◌then◌else◌, ◌+◌, ◌*◌, ◌/◌, ◌^◌, ◌<◌, ◌≤◌,
  ◌≡◌, refl, Bool, true, false, not, ◌&&◌, List, [], ◌∷◌, Option, none, some, arith, ◌==◌,
  get_elem?, if_cases, Bool-cases, inl, inr, option_match,
}
use Prim.Native.Nat.{bit_or}
use mathlib.Core.Path.{subst}
use mathlib.Core.Option.{some-injective}
use lt.Callback.{Callback, null, is_set}
use lt.Scheduler.{ScheduleTask}
use lt.IoManager.Events.{
  Event, none_event, IsIo, IsMask, read, write, has, with_event, has-with_event,
}
use lt.IoManager.{
  add, mod_op, epollet, EventContext, FdContext, Epoll, Manager, get_event_context,
  set_event_context, grown, context_resize, new_contexts, add_event_locked, add_event,
}
use lt.IoManager.Sync.{Inv}
use lt.IoManager.Growth.{grown-Inv}
use lt.IoManager.Adding.{waiter, added}
use lt.IoManager.Weights.{
  Weight, waiter_task, context_weight, pending_weight, task_weight, known_weight,
  pending_weight-append, pending_weight-set,
}

-- The task of a caller of `addEvent`: its callback, or its fiber if it gives none.
abbrev pub caller_task : Bool → Callback → ℕ → ScheduleTask
caller_task true cb this_fiber = record { fiber = 0; cb = cb; thread = none }
caller_task false cb this_fiber = record { fiber = this_fiber; cb = null; thread = none }

-- What a call of `addEvent` has taken, by its result.
abbrev pub taken_tasks : Bool → ℕ → Callback → ℕ → List (ℕ × ScheduleTask)
taken_tasks true self cb this_fiber = (self, caller_task (is_set cb) cb this_fiber) ∷ []
taken_tasks false self cb this_fiber = []

waiter-caller :
    (w : Weight) (cb : Callback) (self this_fiber : ℕ)
    → w (waiter cb self this_fiber).scheduler (waiter_task (waiter cb self this_fiber))
      ≡ w self (caller_task (is_set cb) cb this_fiber)
waiter-caller w cb self this_fiber = elim (Bool-cases (is_set cb)) [
  | inl e ↦ rw (e, e) refl
  | inr e ↦ rw e refl
]

context_weight-added :
    (w : Weight) (ev : Event) (x : EventContext) (c : FdContext)
    → IsIo ev
    → IsMask c.events
    → has c.events ev ≡ false
    → context_weight w (added ev x c) ≡ context_weight w c + w x.scheduler (waiter_task x)
unfolding set_event_context
context_weight-added w none_event x c io m h = absurd (io refl)
context_weight-added w read x c io m h =
    rw (has-with_event c.events read read m io, has-with_event c.events read write m (λ z. cc), h)
      (ground arith)
context_weight-added w write x c io m h =
    rw (has-with_event c.events write read m (λ z. cc), has-with_event c.events write write m io, h)
      (ground arith)

pub pending_weight-new_contexts :
    (w : Weight) (from n : ℕ) → pending_weight w (new_contexts from n) ≡ 0
unfolding pending_weight new_contexts has
pending_weight-new_contexts w from zero = refl
pending_weight-new_contexts w from (suc n) =
    omega (arith, pending_weight-new_contexts w (from + 1) n)

pending_weight-grown :
    (w : Weight) (fd : ℕ) (cs : List FdContext)
    → 2 ≤ fd
    → pending_weight w (grown fd cs) ≡ pending_weight w cs
unfolding grown context_resize
pending_weight-grown w fd cs two =
    if_cases (λ ds. pending_weight w ds ≡ pending_weight w cs) (leb (length cs) fd) _ _
      (λ short.
        if_cases (λ ds. pending_weight w ds ≡ pending_weight w cs) (leb (length cs) (fd * 3 / 2)) _
          _
          (λ fits. omega (
            arith,
            pending_weight-append w cs (new_contexts (length cs) (fd * 3 / 2 - length cs)),
            pending_weight-new_contexts w (length cs) (fd * 3 / 2 - length cs),
          ))
          (λ over. absurd (ground (arith, over, leb→le (length cs) fd short))))
      (λ enough. refl)

module _ (E : Epoll) where
  open E use {State, epoll_ctl}

  -- The weight of the manager grows by that of what the call took.
  abbrev Takes : Manager E → ℕ → Callback → ℕ → Option (Bool × Manager E) → Type 0
  Takes m self cb this_fiber o =
      (r : Bool × Manager E)
      → o ≡ some r
      → (w : Weight)
      → known_weight w r.1 ≡ known_weight w m + task_weight w (taken_tasks r.0 self cb this_fiber)

  module _ (fd : ℕ) (ev : Event) (cb : Callback) (self this_fiber : ℕ) (c : FdContext)
      (m : Manager E) (io : IsIo ev) (mask : IsMask c.events)
      (e : get_elem? m.contexts fd ≡ some c) where
    abbrev TakesHere : Option (Bool × Manager E) → Type 0
    TakesHere = Takes m self cb this_fiber

    refused-Takes : (k : State) → TakesHere (some (false, record m { epoll = k }))
    unfolding task_weight
    refused-Takes k r h w =
        subst
          (λ (r : Bool × Manager E).
            known_weight w r.1
            ≡ known_weight w m + task_weight w (taken_tasks r.0 self cb this_fiber))
          (some-injective _ _ h) (omega arith)

    accepted-Takes :
        (k : State)
        → has c.events ev ≡ false
        → TakesHere (
            some (
              true,
              record m {
                contexts = set m.contexts fd (added ev (waiter cb self this_fiber) c);
                pending_event_count = add64 m.pending_event_count 1;
                epoll = k;
              },
            ))
    unfolding task_weight
    accepted-Takes k absent r h w =
        subst
          (λ (r : Bool × Manager E).
            known_weight w r.1
            ≡ known_weight w m + task_weight w (taken_tasks r.0 self cb this_fiber))
          (some-injective _ _ h)
          (omega (
            arith,
            pending_weight-set w m.contexts fd c (added ev (waiter cb self this_fiber) c) e,
            context_weight-added w ev (waiter cb self this_fiber) c io mask absent,
            waiter-caller w cb self this_fiber,
          ))

    abbrev stores : Manager E → Option EventContext → Option (Bool × Manager E)
    stores m' none = none
    stores m' (some old) =
        if old.scheduler == 0 && old.fiber == 0 && not (is_set old.cb)
        then some (true, m')
        else none

    stores-Takes :
        (m' : Manager E) (o : Option EventContext)
        → TakesHere (some (true, m'))
        → TakesHere (stores m' o)
    stores-Takes m' none t = λ r h. cc
    stores-Takes m' (some old) t =
        if_cases TakesHere (old.scheduler == 0 && old.fiber == 0 && not (is_set old.cb)) _ _
          (λ _. t) (λ _ r h. cc)

    stores_lem :
        (m' : Manager E) (o : Option EventContext)
        → stores m' o ≡ elim o [
          | none ↦ none
          | some old ↦
              if old.scheduler == 0 && old.fiber == 0 && not (is_set old.cb)
              then some (true, m')
              else none
        ]
    stores_lem m' none = refl
    stores_lem m' (some old) = refl

    abbrev ctl : ℕ × State
    ctl =
        epoll_ctl (if c.events == 0 then add else mod_op) fd
          (bit_or epollet (with_event c.events ev)) m.epoll

    abbrev after_add : Manager E
    after_add = record m {
      contexts = set m.contexts fd (added ev (waiter cb self this_fiber) c);
      pending_event_count = add64 m.pending_event_count 1;
      epoll = ctl.1;
    }

    add_event_locked-Takes : TakesHere (add_event_locked E fd ev cb self this_fiber c m)
    unfolding add_event_locked
    add_event_locked-Takes =
        if_cases TakesHere (has c.events ev) _ _ (λ _ r h. cc)
          (λ absent.
            if_cases TakesHere (not (ctl.0 == 0)) _ _ (λ _. refused-Takes ctl.1)
              (λ _.
                subst TakesHere (stores_lem after_add (get_event_context ev c))
                  (stores-Takes after_add (get_event_context ev c) (accepted-Takes ctl.1 absent))))

  pub add_event-Takes :
      (fd : ℕ) (ev : Event) (cb : Callback) (self this_fiber : ℕ) (m : Manager E)
      → IsIo ev
      → 2 ≤ fd
      → fd * 3 / 2 < 2 ^ 31
      → Inv E m
      → Takes m self cb this_fiber (add_event E fd ev cb self this_fiber m)
  unfolding add_event
  add_event-Takes fd ev cb self this_fiber m io two small v =
      let (v', _) = grown-Inv E fd m v two small in
      option_match (Takes m self cb this_fiber) (get_elem? (grown fd m.contexts) fd) _
        (λ c.
          add_event_locked E fd ev cb self this_fiber c
            (record m { contexts = grown fd m.contexts }))
        (λ _ r h. cc)
        (λ c e r h w. omega (
          arith,
          add_event_locked-Takes fd ev cb self this_fiber c
              (record m { contexts = grown fd m.contexts }) io (v'.local.contexts fd c e).mask e r h
              w,
          pending_weight-grown w fd m.contexts two,
        ))
