-- ===== src/Socket/Deadline.antt =====
-- The timeout that a program gives a socket and the calls that then wait (src/socket.cc, src/hook.cc,
-- src/fd_manager.cc).
use lt.Base.{ℕ, ◌<◌, ◌≡◌, ◌≢◌, refl, ap, ap₂, ◌∙◌, Bool, true, false, arith}
use lt.FdManager.{so_rcvtimeo, set_timeout, get_timeout, System, FdManager}
use lt.IoManager.Events.{Event, read}
use lt.IoManager.{Epoll}
use lt.Hook.{Calls, ctx_at, is_managed}
use lt.Hook.Io.{
  read_f, readv_f, recv_f, recvfrom_f, recvmsg_f, accept_f, write_f, writev_f, send_f, sendto_f,
  sendmsg_f, Env, Call, event_of, timeout_of, W, do_io_loop, do_io, io_call,
}
use lt.Socket.Timeouts.{set_recv_timeout, set_option_lem, ctx_at-after}

-- The calls that take something from the socket: data or a connection.
abbrev pub takes_in : Call → Bool
takes_in read_f = true
takes_in readv_f = true
takes_in recv_f = true
takes_in recvfrom_f = true
takes_in recvmsg_f = true
takes_in accept_f = true
takes_in write_f = false
takes_in writev_f = false
takes_in send_f = false
takes_in sendto_f = false
takes_in sendmsg_f = false

takes_in_lem : (c : Call) → takes_in c ≡ true → (event_of c ≡ read) × (timeout_of c ≡ so_rcvtimeo)
unfolding event_of timeout_of
takes_in_lem read_f h = (refl, refl)
takes_in_lem readv_f h = (refl, refl)
takes_in_lem recv_f h = (refl, refl)
takes_in_lem recvfrom_f h = (refl, refl)
takes_in_lem recvmsg_f h = (refl, refl)
takes_in_lem accept_f h = (refl, refl)
takes_in_lem write_f h = cc
takes_in_lem writev_f h = cc
takes_in_lem send_f h = cc
takes_in_lem sendto_f h = cc
takes_in_lem sendmsg_f h = cc

module _ (E : Epoll) (N : Type 0) (O : System) (C : Calls O) where
  do_io-managed :
      (env : Env E.State N) (self this_fiber tinfo fd : ℕ) (event : Event) (so : ℕ)
      (fds : FdManager O) (fuel : ℕ) (w : W E N)
      → is_managed O (ctx_at O fd fds) fds ≡ true
      → (fds.heap (ctx_at O fd fds)).user_nonblock ≡ false
      → do_io E N O env self this_fiber tinfo fd event so fds fuel w
        ≡ do_io_loop E N env self this_fiber tinfo fd event
            (get_timeout so (fds.heap (ctx_at O fd fds)))
            fuel
            (record w { cancelled = 0 })
  unfolding do_io is_managed
  do_io-managed env self this_fiber tinfo fd event so fds fuel w managed blocks = ground arith

  module _ (fd ms : ℕ) (fds : FdManager O) (managed : is_managed O (ctx_at O fd fds) fds ≡ true)
      (blocks : (fds.heap (ctx_at O fd fds)).user_nonblock ≡ false) (lt : ms < 2147483648000) where
    known : ctx_at O fd fds ≢ 0
    unfolding is_managed
    known = ground arith

    -- What the call then finds.
    after_timeout :
        let m' = set_recv_timeout O C fd ms fds in
        let p = ctx_at O fd m' in
        (is_managed O p m' ≡ true)
        × ((m'.heap p).user_nonblock ≡ false)
        × (get_timeout so_rcvtimeo (m'.heap p) ≡ ms)
    unfolding is_managed set_recv_timeout set_timeout get_timeout
    after_timeout =
        rw
          (
            set_option_lem O C fd so_rcvtimeo ms fds refl known lt,
            ctx_at-after O C fd so_rcvtimeo ms fds refl known lt,
          )
          (ground arith, ground arith, ground arith)

  -- After `setRecvTimeout` with fewer than 2147483648000 milliseconds, whose seconds fit an `int`, on
  -- a socket that the manager knows and that blocks for its program, each of `read`, `readv`, `recv`,
  -- `recvfrom`, `recvmsg` and `accept` is the loop that waits for READ with the timeout that was set;
  -- the number of rounds is the same.
  pub io_call-set_recv_timeout :
      (env : Call → Env E.State N) (self this_fiber tinfo : ℕ) (c : Call) (fd ms fuel : ℕ)
      (fds : FdManager O) (w : W E N)
      → takes_in c ≡ true
      → is_managed O (ctx_at O fd fds) fds ≡ true
      → (fds.heap (ctx_at O fd fds)).user_nonblock ≡ false
      → ms < 2147483648000
      → io_call E N O env self this_fiber tinfo c fd (set_recv_timeout O C fd ms fds) fuel w
        ≡ do_io_loop E N (env c) self this_fiber tinfo fd read ms fuel (record w { cancelled = 0 })
  unfolding io_call
  io_call-set_recv_timeout env self this_fiber tinfo c fd ms fuel fds w r managed blocks lt =
      let (m, b, t) = after_timeout fd ms fds managed blocks lt in
      let (ev, so) = takes_in_lem c r in
      ap₂
        (λ ev so.
          do_io E N O (env c) self this_fiber tinfo fd ev so (set_recv_timeout O C fd ms fds) fuel
            w)
        ev so
      ∙ do_io-managed (env c) self this_fiber tinfo fd read so_rcvtimeo _ fuel w m b
      ∙ ap
          (λ to.
            do_io_loop E N (env c) self this_fiber tinfo fd read to fuel
              (record w { cancelled = 0 }))
          t
