-- ===== src/Hook/Handles.antt =====
-- The other hooks (src/hook.cc): `close`, `socket`, `accept`, `connect_with_timeout` and the calls that
-- sleep.
use lt.Base.{
  ℕ, zero, suc, ◌+◌, ◌*◌, ◌/◌, ◌%◌, ◌^◌, ◌-◌, Bool, true, false, not, ◌&&◌, ◌||◌, Option, none,
  some, ◌==◌, if◌then◌else◌, ltb, ℤ, pos, negsuc, u64_mod,
}
use lt.Callback.{null, schedule_fiber}
use lt.Timer.{TimerManager, add_timer}
use lt.FdManager.{System, FdManager, get, del}
use lt.IoManager.Events.{write}
use lt.IoManager.{Epoll, Manager, add_event}
use lt.IoManager.Poll.{cancel_all}
use lt.Hook.{Calls, ctx_at}
use lt.Hook.Io.{ebadf, is_error, Env, Outcome, returned, aborted, W, start_timer, stop_timer}

module _ (E : Epoll) (O : System) where
  -- `close` in a thread with an I/O manager: the result, and the managers afterwards.
  abbrev pub Closed : Type 0
  Closed = Option (ℕ × FdManager O × Manager E)

  pub close_handle : Calls O → ℕ → Manager E → Option (FdManager O) → Closed
  close_handle C fd io none = none
  close_handle C fd io (some m) =
      let (n, k) = C.close_f fd m.kernel in some (n, record m { kernel = k }, io)

  pub del_context : Calls O → ℕ → FdManager O → Option (Bool × Manager E) → Closed
  unfolding close_handle
  del_context C fd m none = none
  del_context C fd m (some (_, io)) = close_handle C fd io (del O (pos fd) m)

  unfoldable pub close : Calls O → ℕ → FdManager O → Manager E → Closed
  unfolding close_handle del_context
  close C fd m io =
      if ctx_at O fd m == 0
      then close_handle C fd io (some m)
      else del_context C fd m (cancel_all E fd io)

-- `socket` after the system has answered, and the end of `accept`: a handle is entered in the manager;
-- the allocator gives the address `p`.
pub enter_handle : (O : System) → ℤ → ℕ → FdManager O → Option (ℤ × FdManager O)
enter_handle O (negsuc n) p m = some (negsuc n, m)
enter_handle O (pos fd) p m = elim (get O (pos fd) true p m) [
  | none ↦ none
  | some (q, m') ↦ some (pos fd, m')
]

-- The milliseconds that `sleep`, `usleep` and `nanosleep` pass to `addTimer`: `seconds * 1000` is an
-- `unsigned int`; `timeout_ms` is an `int`, which becomes a `uint64_t`.
unfoldable pub sleep_ms : ℕ → ℕ
sleep_ms seconds = seconds * 1000 % 2 ^ 32

unfoldable pub usleep_ms : ℕ → ℕ
usleep_ms usec = usec / 1000

unfoldable pub nanosleep_ms : ℕ → ℕ → ℕ
nanosleep_ms sec nsec =
    let w = (sec * 1000 + nsec / 1000 / 1000) % 2 ^ 32 in
    if ltb w (2 ^ 31) then w else u64_mod - (2 ^ 32 - w)

-- Their timer, before the fiber yields: it schedules the fiber again.
unfoldable pub sleep_timer : ℕ → ℕ → ℕ → ℕ → TimerManager → TimerManager × Bool
sleep_timer ms this_fiber p now m = add_timer p ms (schedule_fiber this_fiber) false now m

-- EINPROGRESS.
abbrev pub einprogress : ℕ
einprogress = 115

-- `connect_with_timeout`; `v.call` is `connect_f`, and `so_error` what `getsockopt` tells after the wait:
-- `none` if it fails, else the pending error, 0 for none; the number is `errno`.
module _ (E : Epoll) (N : Type 0) (v : Env E.State N) (so_error : W E N → Option ℕ × ℕ)
    (self this_fiber tinfo fd timeout_ms : ℕ) where
  unfoldable pub connect_result : W E N → Option ℕ × ℕ → Outcome E.State N
  connect_result w (none, e) = returned (record { result = negsuc 0; errno = e }) w
  connect_result w (some zero, e) = returned (record { result = pos 0; errno = e }) w
  connect_result w (some (suc n), e) = returned (record { result = negsuc 0; errno = suc n }) w

  -- After `timer->cancel()`; the flag says that the fiber had been away.
  unfoldable pub connect_done : Bool → Option (W E N) → Outcome E.State N
  unfolding connect_result
  connect_done waited none = aborted
  connect_done waited (some w) =
      if waited && not (w.cancelled == 0)
      then returned (record { result = negsuc 0; errno = w.cancelled }) w
      else connect_result w (so_error w)

  unfoldable pub connect_added : ℕ → W E N → Option (Bool × Manager E) → Outcome E.State N
  unfolding connect_done
  connect_added p w none = aborted
  connect_added p w (some (added, io)) =
      let w₁ = record w { io = io } in
      connect_done added (
        stop_timer E N v self this_fiber tinfo fd write timeout_ms p
          (if added then v.away w₁ else w₁))

  unfoldable pub connect_wait : W E N → Outcome E.State N
  unfolding connect_added
  connect_wait w =
      let timers = start_timer E N v self this_fiber tinfo fd write timeout_ms w in
      connect_added (v.alloc w) (record w { timers = timers })
        (add_event E fd write null self this_fiber w.io)

  unfoldable pub connect_with_timeout : (O : System) → FdManager O → W E N → Outcome E.State N
  unfolding connect_wait
  connect_with_timeout O fds w =
      let p = ctx_at O fd fds in
      let c = fds.heap p in
      let a = (v.call w.net).0 in
      let w₁ = record w { net = (v.call w.net).1; cancelled = 0 } in
      if p == 0 || c.is_closed
      then returned (record { result = negsuc 0; errno = ebadf }) w
      else if not c.is_socket || c.user_nonblock || not (is_error einprogress a)
      then returned a w₁
      else connect_wait w₁
