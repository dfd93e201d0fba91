-- ===== src/Hook/Io.antt =====
-- `do_io` (src/hook.cc): a call on a socket that would block makes the fiber wait for the event, or for
-- the timeout of the handle, and is then made again. Time, addresses of new timers, the call itself and
-- what all others do while the fiber is away are the environment.
use lt.Base.{
  ℕ, zero, suc, Bool, true, false, not, ◌&&◌, ◌||◌, Option, none, some, ◌==◌, if◌then◌else◌, ℤ, pos,
  negsuc, u64_max,
}
use lt.Callback.{null, io_timeout}
use lt.Timer.{TimerManager, add_condition_timer}
use lt.Timer
use lt.FdManager.{so_rcvtimeo, System, FdManager, get_timeout}
use lt.IoManager.Events.{Event, read, write, bits}
use lt.IoManager.{Epoll, IoManager, Manager, add_event}
use lt.Hook.{so_sndtimeo, ctx_at}

-- EINTR, EBADF, EAGAIN and ETIMEDOUT.
abbrev pub eintr : ℕ
eintr = 4

abbrev pub ebadf : ℕ
ebadf = 9

abbrev pub eagain : ℕ
eagain = 11

abbrev pub etimedout : ℕ
etimedout = 110

-- What a system call returns, with `errno` after it.
pub record Answer : Type 0 where
  pub result : ℤ
  pub errno : ℕ

abbrev pub is_error : ℕ → Answer → Bool
is_error e a = elim a.result [ pos _ ↦ false | negsuc n ↦ n == 0 && a.errno == e ]

-- The state around the call: `tinfo->cancelled`, and what the call works on.
pub record World (K N : Type 0) : Type 0 where
  pub timers : TimerManager
  pub io : IoManager K
  pub cancelled : ℕ
  pub net : N

pub record Env (K N : Type 0) : Type 0 where
  pub call : N → Answer × N
  pub away : World K N → World K N
  pub now : World K N → ℕ
  -- the address of a new timer
  pub alloc : World K N → ℕ
  -- `errno` after a failed `addEvent`
  pub ctl_errno : World K N → ℕ

pub data Outcome (K N : Type 0) : Type 0 where
  returned : Answer → World K N → Outcome K N
  -- a failed assertion or `erase(end())`
  aborted : Outcome K N
  -- the rounds are used up
  running : Outcome K N

-- After the part of `do_io` that waits: `goto retry`, or a return.
pub data Waited (K N : Type 0) : Type 0 where
  retry : World K N → Waited K N
  give_up : ℕ → World K N → Waited K N
  failed : Waited K N

-- The calls that `do_io` serves, by the names of the replaced functions.
pub data Call : Type 0 where
  read_f readv_f recv_f recvfrom_f recvmsg_f accept_f : Call
  write_f writev_f send_f sendto_f sendmsg_f : Call

-- What each passes to `do_io`.
unfoldable pub event_of : Call → Event
event_of read_f = read
event_of readv_f = read
event_of recv_f = read
event_of recvfrom_f = read
event_of recvmsg_f = read
event_of accept_f = read
event_of write_f = write
event_of writev_f = write
event_of send_f = write
event_of sendto_f = write
event_of sendmsg_f = write

unfoldable pub timeout_of : Call → ℕ
timeout_of read_f = so_rcvtimeo
timeout_of readv_f = so_rcvtimeo
timeout_of recv_f = so_rcvtimeo
timeout_of recvfrom_f = so_rcvtimeo
timeout_of recvmsg_f = so_rcvtimeo
timeout_of accept_f = so_rcvtimeo
timeout_of write_f = so_sndtimeo
timeout_of writev_f = so_sndtimeo
timeout_of send_f = so_sndtimeo
timeout_of sendto_f = so_sndtimeo
timeout_of sendmsg_f = so_sndtimeo

module _ (E : Epoll) (N : Type 0) where
  abbrev pub W : Type 0
  W = World E.State N

  -- The caller: its scheduler, its fiber and its `timer_info`.
  module _ (v : Env E.State N) (self this_fiber tinfo fd : ℕ) (event : Event) (to : ℕ) where
    -- `if(to != (uint64_t)-1) timer = iom->addConditionTimer(...)`
    unfoldable pub start_timer : W → TimerManager
    start_timer w =
        let cb = io_timeout tinfo fd (bits event) in
        let m = (add_condition_timer (v.alloc w) to cb tinfo false (v.now w) w.timers).0 in
        if to == u64_max then w.timers else m

    -- `if(timer) timer->cancel()`, for the timer that `start_timer` made at `p`.
    unfoldable pub stop_timer : ℕ → W → Option W
    stop_timer p w =
        let done : Option W = elim (Timer.cancel p w.timers) [
          | none ↦ none
          | some r ↦ some (record w { timers = r.1 })
        ] in
        if to == u64_max then some w else done

    -- After `timer->cancel()`: where `addEvent` failed, and where the fiber was resumed.
    unfoldable pub not_added : ℕ → Option W → Waited E.State N
    not_added e none = failed
    not_added e (some w) = give_up e w

    unfoldable pub resumed : Option W → Waited E.State N
    resumed none = failed
    resumed (some w) = if w.cancelled == 0 then retry w else give_up w.cancelled w

    -- From the result of `addEvent` on; the timer, if there is one, is at `p`.
    unfoldable pub added : ℕ → W → Option (Bool × Manager E) → Waited E.State N
    unfolding stop_timer not_added resumed
    added p w none = failed
    added p w (some (false, io)) = not_added (v.ctl_errno w) (stop_timer p (record w { io = io }))
    added p w (some (true, io)) = resumed (stop_timer p (v.away (record w { io = io })))

    -- The branch for EAGAIN.
    unfoldable pub wait_ready : W → Waited E.State N
    unfolding start_timer added
    wait_ready w =
        added (v.alloc w) (record w { timers = start_timer w })
          (add_event E fd event null self this_fiber w.io)

    -- The loops of `do_io`, for a number of calls.
    unfoldable pub do_io_loop : ℕ → W → Outcome E.State N
    unfolding wait_ready
    do_io_loop zero w = running
    do_io_loop (suc fuel) w =
        let a = (v.call w.net).0 in
        let w₁ = record w { net = (v.call w.net).1 } in
        let interrupted = do_io_loop fuel w₁ in
        let waited : Outcome E.State N = elim (wait_ready w₁) [
          | failed ↦ aborted
          | give_up e w₂ ↦ returned (record { result = negsuc 0; errno = e }) w₂
          | retry w₂ ↦ do_io_loop fuel w₂
        ] in
        if is_error eintr a
        then interrupted
        else if is_error eagain a
        then waited
        else returned a w₁

  -- `do_io`: the context decides whether the call is made as it is.
  -- `fds` is the handle manager; its context is read before the first call.
  unfoldable pub do_io :
      (O : System)
      → Env E.State N
      → ℕ
      → ℕ
      → ℕ
      → ℕ
      → Event
      → ℕ
      → FdManager O
      → ℕ
      → W
      → Outcome E.State N
  unfolding do_io_loop
  do_io O v self this_fiber tinfo fd event timeout_so fds fuel w =
      let p = ctx_at O fd fds in
      let c = fds.heap p in
      let direct = returned (v.call w.net).0 (record w { net = (v.call w.net).1 }) in
      let to = get_timeout timeout_so c in
      let loop = do_io_loop v self this_fiber tinfo fd event to fuel (record w { cancelled = 0 }) in
      if p == 0
      then direct
      else if c.is_closed
      then returned (record { result = negsuc 0; errno = ebadf }) w
      else if not c.is_socket || c.user_nonblock
      then direct
      else loop

  -- `read`, `recv`, `write`, `send` and their kin, and `accept` up to its handle.
  unfoldable pub io_call :
      (O : System)
      → (Call → Env E.State N)
      → ℕ
      → ℕ
      → ℕ
      → Call
      → ℕ
      → FdManager O
      → ℕ
      → W
      → Outcome E.State N
  unfolding do_io event_of timeout_of
  io_call O v self this_fiber tinfo c fd fds fuel w =
      do_io O (v c) self this_fiber tinfo fd (event_of c) (timeout_of c) fds fuel w
