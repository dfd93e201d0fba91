-- ===== src/IoManager.antt =====
-- src/iomanager.cc and include/iomanager.h: the events that file handles wait for, on top of
-- `epoll`, which is a parameter. `FdContext`s stand at the index of their handle in `contexts`.
-- What `schedule` is called with is appended to `scheduled`. `none` is a failed `LT_ASSERT` or an
-- access out of bounds; the flag of a result says whether the call returned 0 or true.
pub mod Events
pub mod Poll
pub mod Local
pub mod Weights
pub mod Triggering
pub mod Sync
pub mod Deleting
pub mod Cancelling
pub mod Fired
pub mod Handled
pub mod Watched
pub mod Reports
pub mod Opening
pub mod History
pub mod Stale
pub mod CancelAll
pub mod Taking
pub mod Dropping
pub mod Adding
pub mod Growth
pub mod Idle
pub mod Round
pub mod Idling
pub mod Sample
pub mod Tests
use Prim.Native.Nat.{bit_and, bit_or}
use lt.Base.{
  ℕ, zero, suc, ◌+◌, ◌-◌, ◌*◌, ◌/◌, ◌^◌, ◌≡◌, ◌≢◌, Bool, true, false, not, ◌&&◌, ◌||◌, List, [],
  ◌∷◌, ◌++◌, Option, none, some, ◌==◌, leb, if◌then◌else◌, length, get_elem?, set, take, add64,
  sub64, is_empty,
}
use lt.Callback.{Callback, null, is_set}
use lt.Scheduler.{ScheduleTask}
use Events.{Event, none_event, read, write, bits, has, with_event, clear, without}

pub record EventContext : Type 0 where
  pub scheduler : ℕ
  pub fiber : ℕ
  pub cb : Callback

pub record FdContext : Type 0 where
  pub reading : EventContext
  pub writing : EventContext
  pub fd : ℕ
  pub events : ℕ

pub data CtlOp : Type 0 where
  add mod_op del : CtlOp

-- EPOLLET, EPOLLERR | EPOLLHUP, and EPOLLIN | EPOLLOUT.
abbrev pub epollet : ℕ
epollet = 2 ^ 31

abbrev pub err_or_hup : ℕ
err_or_hup = 0x18

abbrev pub in_or_out : ℕ
in_or_out = 5

-- `epoll_ctl` on the handle `m_epfd`: its state, the result of a call, and the mask that is
-- registered for a handle. By its documentation a call that fails changes nothing; EPOLL_CTL_ADD
-- registers a handle that is not registered, EPOLL_CTL_MOD changes the mask of one that is, and
-- EPOLL_CTL_DEL removes one that is.
pub record Epoll : Type 1 where
  pub State : Type 0
  pub epoll_ctl : CtlOp → ℕ → ℕ → State → ℕ × State
  pub registered : State → ℕ → Option ℕ
  pub failed_same :
      (op : CtlOp) (fd mask : ℕ) (k : State)
      → (epoll_ctl op fd mask k).0 ≢ 0
      → (g : ℕ) → registered (epoll_ctl op fd mask k).1 g ≡ registered k g
  pub add_registers :
      (fd mask : ℕ) (k : State)
      → (epoll_ctl add fd mask k).0 ≡ 0
      → (g : ℕ)
      → registered (epoll_ctl add fd mask k).1 g ≡ (if fd == g then some mask else registered k g)
  pub mod_registers :
      (fd mask : ℕ) (k : State)
      → (epoll_ctl mod_op fd mask k).0 ≡ 0
      → (g : ℕ)
      → registered (epoll_ctl mod_op fd mask k).1 g
        ≡ (if fd == g then some mask else registered k g)
  pub del_removes :
      (fd mask : ℕ) (k : State)
      → (epoll_ctl del fd mask k).0 ≡ 0
      → (g : ℕ)
      → registered (epoll_ctl del fd mask k).1 g ≡ (if fd == g then none else registered k g)

pub record IoManager (K : Type 0) : Type 0 where
  pub contexts : List FdContext
  pub pending_event_count : ℕ
  pub scheduled : List (ℕ × ScheduleTask)
  pub epoll : K
  -- `m_tickleFds[0]`
  pub tickle_fd : ℕ

abbrev pub no_context : EventContext
no_context = record { scheduler = 0; fiber = 0; cb = null }

-- `FdContext::getEventContext`.
pub get_event_context : Event → FdContext → Option EventContext
get_event_context read c = some c.reading
get_event_context write c = some c.writing
get_event_context none_event c = none

-- An assignment to the context that `getEventContext` returns; `resetEventContext` with `no_context`.
pub set_event_context : Event → EventContext → FdContext → FdContext
set_event_context read x c = record c { reading = x }
set_event_context write x c = record c { writing = x }
set_event_context none_event x c = c

-- What `triggerEvent` gives to `schedule`: the callback if there is one, else the fiber.
abbrev pub event_task : EventContext → ScheduleTask
event_task x =
    if is_set x.cb
    then record { fiber = 0; cb = x.cb; thread = none }
    else record { fiber = x.fiber; cb = null; thread = none }

-- `FdContext::triggerEvent`: the new context, with the scheduler that gets the task; a null
-- scheduler would be dereferenced.
pub trigger_event : Event → FdContext → Option (FdContext × ℕ × ScheduleTask)
unfolding get_event_context set_event_context
trigger_event event c =
    let c' = record c { events = without c.events event } in
    if has c.events event
    then elim (get_event_context event c) [
      | none ↦ none
      | some x ↦
          if x.scheduler == 0
          then none
          else some (set_event_context event no_context c', x.scheduler, event_task x)
    ]
    else none

-- `contextResize`: `resize`, and a new context for each empty place.
pub new_contexts : ℕ → ℕ → List FdContext
new_contexts from zero = []
new_contexts from (suc n) =
    record { reading = no_context; writing = no_context; fd = from; events = 0 }
    ∷ new_contexts (from + 1) n

pub context_resize : ℕ → List FdContext → List FdContext
unfolding new_contexts
context_resize size cs =
    if leb (length cs) size then cs ++ new_contexts (length cs) (size - length cs) else take size cs

-- `--m_pendingEventCount`.
abbrev pub one_less : ℕ → ℕ
one_less n = sub64 n 1

-- The contexts from the lookup of `addEvent`: as they are, or grown to one and a half times `fd`.
pub grown : ℕ → List FdContext → List FdContext
unfolding context_resize
grown fd cs = if leb (length cs) fd then context_resize (fd * 3 / 2) cs else cs

module _ (E : Epoll) where
  open E use {State, epoll_ctl}

  abbrev pub Manager : Type 0
  Manager = IoManager State

  -- The rest of `addEvent`, under the mutex of the context; `self` is `Scheduler::GetThis()`,
  -- `this_fiber` is `Fiber::GetThis()` and runs.
  pub add_event_locked :
      ℕ → Event → Callback → ℕ → ℕ → FdContext → Manager → Option (Bool × Manager)
  unfolding get_event_context set_event_context
  add_event_locked fd event cb self this_fiber c m =
      let op = if c.events == 0 then add else mod_op in
      let r = epoll_ctl op fd (bit_or epollet (with_event c.events event)) m.epoll in
      let c' = record c { events = with_event c.events event } in
      let x : EventContext =
        if is_set cb
        then record { scheduler = self; fiber = 0; cb = cb }
        else record { scheduler = self; fiber = this_fiber; cb = null } in
      if has c.events event
      then none
      else if not (r.0 == 0)
      then some (false, record m { epoll = r.1 })
      else elim (get_event_context event c) [
        | none ↦ none
        | some old ↦
            if old.scheduler == 0 && old.fiber == 0 && not (is_set old.cb)
            then some (
              true,
              record m {
                contexts = set m.contexts fd (set_event_context event x c');
                pending_event_count = add64 m.pending_event_count 1;
                epoll = r.1;
              },
            )
            else none
      ]

  -- `IOManager::addEvent`.
  pub add_event : ℕ → Event → Callback → ℕ → ℕ → Manager → Option (Bool × Manager)
  unfolding grown add_event_locked
  add_event fd event cb self this_fiber m =
      let cs = grown fd m.contexts in
      elim (get_elem? cs fd) [
        | none ↦ none
        | some c ↦ add_event_locked fd event cb self this_fiber c (record m { contexts = cs })
      ]
