-- ===== src/IoManager/Poll.antt =====
-- src/iomanager.cc: `delEvent`, `cancelEvent`, `cancelAll`, and the loop of `idle` over the events
-- that `epoll_wait` returned, with the time that it waits.
use Prim.Native.Nat.{bit_and, bit_or}
use lt.Base.{
  ℤ, pos, negsuc, ℕ, ◌-◌, ◌%◌, ◌^◌, Bool, true, false, not, List, [], ◌∷◌, ◌++◌, Option, none, some,
  ◌==◌, ltb, leb, if◌then◌else◌, get_elem?, set, u64_max,
}
use lt.IoManager.Events.{Event, read, write, has, clear, without}
use lt.IoManager.{
  FdContext, CtlOp, mod_op, del, epollet, err_or_hup, in_or_out, Epoll, no_context,
  set_event_context, trigger_event, one_less, Manager,
}

-- `new_events ? EPOLL_CTL_MOD : EPOLL_CTL_DEL`.
abbrev pub left_op : ℕ → CtlOp
left_op events = if events == 0 then del else mod_op

-- `real_events` of `idle`: what `epoll_wait` reported, an error or a hang-up counting as every
-- event that the context waits for.
unfoldable pub real_events : ℕ → ℕ → ℕ
real_events fired events =
    let f =
      if bit_and fired err_or_hup == 0 then fired else bit_or fired (bit_and in_or_out events) in
    if has f read then (if has f write then 5 else 1) else (if has f write then 4 else 0)

module _ (E : Epoll) where
  open E use {State, epoll_ctl}

  -- `triggerEvent`, the task handed on to its scheduler, and `--m_pendingEventCount`.
  unfoldable pub trigger : ℕ → Event → FdContext → Manager E → Option (FdContext × Manager E)
  unfolding trigger_event
  trigger fd event c m = elim (trigger_event event c) [
    | none ↦ none
    | some (c', scheduler, task) ↦ some (
      c',
      record m {
        contexts = set m.contexts fd c';
        pending_event_count = one_less m.pending_event_count;
        scheduled = m.scheduled ++ (scheduler, task) ∷ [];
      },
    )
  ]

  -- `if (mask & event) { triggerEvent(event); --m_pendingEventCount; }`
  unfoldable pub trigger_if :
      Bool → ℕ → Event → FdContext → Manager E → Option (FdContext × Manager E)
  unfolding trigger
  trigger_if b fd event c m = if b then trigger fd event c m else some (c, m)

  -- `delEvent` once the context is found.
  unfoldable pub del_event_locked : ℕ → Event → FdContext → Manager E → Bool × Manager E
  unfolding set_event_context
  del_event_locked fd event c m =
      let new_events = without c.events event in
      let r = epoll_ctl (left_op new_events) fd (bit_or epollet new_events) m.epoll in
      let c' = set_event_context event no_context (record c { events = new_events }) in
      if not (has c.events event)
      then (false, m)
      else if not (r.0 == 0)
      then (false, record m { epoll = r.1 })
      else (
        true,
        record m {
          contexts = set m.contexts fd c';
          pending_event_count = one_less m.pending_event_count;
          epoll = r.1;
        },
      )

  -- `IOManager::delEvent`.
  unfoldable pub del_event : ℕ → Event → Manager E → Bool × Manager E
  unfolding del_event_locked
  del_event fd event m = elim (get_elem? m.contexts fd) [
    | none ↦ (false, m)
    | some c ↦ del_event_locked fd event c m
  ]

  -- `cancelEvent` once the context is found.
  unfoldable pub cancel_event_locked : ℕ → Event → FdContext → Manager E → Option (Bool × Manager E)
  unfolding trigger
  cancel_event_locked fd event c m =
      let new_events = without c.events event in
      let r = epoll_ctl (left_op new_events) fd (bit_or epollet new_events) m.epoll in
      if not (has c.events event)
      then some (false, m)
      else if not (r.0 == 0)
      then some (false, record m { epoll = r.1 })
      else elim (trigger fd event c (record m { epoll = r.1 })) [
        | none ↦ none
        | some (c', m') ↦ some (true, m')
      ]

  -- `IOManager::cancelEvent`.
  unfoldable pub cancel_event : ℕ → Event → Manager E → Option (Bool × Manager E)
  unfolding cancel_event_locked
  cancel_event fd event m = elim (get_elem? m.contexts fd) [
    | none ↦ some (false, m)
    | some c ↦ cancel_event_locked fd event c m
  ]

  -- Both events of a mask, READ first.
  unfoldable pub trigger_both :
      Bool → Bool → ℕ → FdContext → Manager E → Option (FdContext × Manager E)
  unfolding trigger_if
  trigger_both reads writes fd c m = elim (trigger_if reads fd read c m) [
    | none ↦ none
    | some (c', m') ↦ trigger_if writes fd write c' m'
  ]

  -- `cancelAll` once the context is found. The mask is read again before the second event; the
  -- first has not changed that bit.
  unfoldable pub cancel_all_locked : ℕ → FdContext → Manager E → Option (Bool × Manager E)
  unfolding trigger_both
  cancel_all_locked fd c m =
      let r = epoll_ctl del fd 0 m.epoll in
      if c.events == 0
      then some (false, m)
      else if not (r.0 == 0)
      then some (false, record m { epoll = r.1 })
      else elim (trigger_if (has c.events read) fd read c (record m { epoll = r.1 })) [
        | none ↦ none
        | some (c', m') ↦ elim (trigger_if (has c'.events write) fd write c' m') [
          | none ↦ none
          | some (c'', m'') ↦ if c''.events == 0 then some (true, m'') else none
        ]
      ]

  -- `IOManager::cancelAll`.
  unfoldable pub cancel_all : ℕ → Manager E → Option (Bool × Manager E)
  unfolding cancel_all_locked
  cancel_all fd m = elim (get_elem? m.contexts fd) [
    | none ↦ some (false, m)
    | some c ↦ cancel_all_locked fd c m
  ]

  -- One round of the loop of `idle` over the reported events, but for the tickle pipe.
  unfoldable pub handle_event : ℕ → FdContext → Manager E → Option (Manager E)
  unfolding trigger_both real_events
  handle_event fired c m =
      let real = real_events fired c.events in
      let left_events = clear c.events real in
      let r = epoll_ctl (left_op left_events) c.fd (bit_or epollet left_events) m.epoll in
      if bit_and c.events real == 0
      then some m
      else if not (r.0 == 0)
      then some (record m { epoll = r.1 })
      else elim (trigger_both (has real read) (has real write) c.fd c (record m { epoll = r.1 })) [
        | none ↦ none
        | some (c', m') ↦ some m'
      ]

  -- The loop. A report names its context by the index, as `data.ptr` does by the address, or the
  -- tickle pipe, whose content is read and dropped.
  unfoldable pub handle_events : List (ℕ × ℕ) → Manager E → Option (Manager E)
  unfolding handle_event
  handle_events [] m = some m
  handle_events ((i, fired) ∷ rest) m =
      let next : Option (Manager E) = elim (get_elem? m.contexts i) [
        | none ↦ none
        | some c ↦ handle_event fired c m
      ] in
      let here = if i == m.tickle_fd then some m else next in
      elim here [ none ↦ none | some m' ↦ handle_events rest m' ]

-- `(int)x` of a `uint64_t`.
unfoldable pub to_int : ℕ → ℤ
to_int x = let w = x % 2 ^ 32 in if ltb w (2 ^ 31) then pos w else negsuc (2 ^ 32 - 1 - w)

-- `std::min` with `MAX_TIMEOUT`.
abbrev pub min_timeout : ℤ → ℤ
min_timeout (pos n) = if leb n 5000 then pos n else pos 5000
min_timeout (negsuc n) = negsuc n

-- The timeout of `epoll_wait` in `idle`, from the time to the next timer: one round of the inner
-- loop.
unfoldable pub wait_timeout : ℕ → ℤ
unfolding to_int
wait_timeout next_timeout =
    if next_timeout == u64_max then pos 5000 else min_timeout (to_int next_timeout)
