-- ===== src/Socket/Timeouts.antt =====
-- The timeouts of a socket, which go through the hook of `setsockopt` to the handle's context and are
-- read from there (src/socket.cc, src/hook.cc, src/fd_manager.cc). The handle is not negative. The
-- time is an `int64_t` that is not negative; the result -1, for none, is the pattern 2^64 - 1.
use lt.Base.{
  ℕ, ◌+◌, ◌*◌, ◌/◌, ◌%◌, ◌-◌, ◌^◌, ◌<◌, ◌≡◌, ◌≢◌, refl, Bool, true, ◌||◌, ◌==◌, if◌then◌else◌,
  arith, ltb, u64_max, u64_mod,
}
use lt.FdManager.{FdCtx, so_rcvtimeo, set_timeout, get_timeout, System, FdManager}
use lt.Hook.{so_sndtimeo, sol_socket, Calls, ctx_at, set_ctx, setsockopt}
use lt.Hook.Flags.{ctx_at-same}

-- `int(x)`, stored in a `long` of `timeval`.
pub to_int : ℕ → ℕ
to_int x = let w = x % 2 ^ 32 in if ltb w (2 ^ 31) then w else u64_mod - (2 ^ 32 - w)

-- `timeval{int(v / 1000), int(v % 1000 * 1000)}`
pub timeval : ℕ → ℕ × ℕ
unfolding to_int
timeval v = (to_int (v / 1000), to_int (v % 1000 * 1000))

module _ (O : System) (C : Calls O) where
  -- `Socket::setOption`, of a `timeval`.
  pub set_option : ℕ → ℕ → ℕ → ℕ × ℕ → FdManager O → Bool × FdManager O
  set_option sock level option value m =
      let (n, m') = setsockopt O C sock level option value m in (n == 0, m')

  -- `setSendTimeout` and `setRecvTimeout`.
  pub set_send_timeout : ℕ → ℕ → FdManager O → FdManager O
  unfolding set_option timeval
  set_send_timeout sock v m = (set_option sock sol_socket so_sndtimeo (timeval v) m).1

  unfoldable pub set_recv_timeout : ℕ → ℕ → FdManager O → FdManager O
  unfolding set_option timeval
  set_recv_timeout sock v m = (set_option sock sol_socket so_rcvtimeo (timeval v) m).1

  -- `getSendTimeout` and `getRecvTimeout`.
  pub get_send_timeout : ℕ → FdManager O → ℕ
  get_send_timeout sock m =
      let p = ctx_at O sock m in if p == 0 then u64_max else get_timeout so_sndtimeo (m.heap p)

  pub get_recv_timeout : ℕ → FdManager O → ℕ
  get_recv_timeout sock m =
      let p = ctx_at O sock m in if p == 0 then u64_max else get_timeout so_rcvtimeo (m.heap p)

  module _ (sock optname v : ℕ) (m : FdManager O)
      (timed : (optname == so_rcvtimeo || optname == so_sndtimeo) ≡ true)
      (known : ctx_at O sock m ≢ 0) (lt : v < 2147483648000) where
    timeval_back : ((timeval v).0 * 1000 + (timeval v).1 / 1000) % u64_mod ≡ v
    unfolding timeval to_int
    timeval_back = ground arith

    -- The managers after `set_option`.
    abbrev pub set_heap : ℕ → FdCtx
    set_heap =
        (set_ctx O (ctx_at O sock m) (set_timeout optname v (m.heap (ctx_at O sock m))) m).heap

    abbrev pub set_kernel : O.State
    set_kernel = (C.setsockopt_f sock sol_socket optname (timeval v) m.kernel).1

    pub set_option_lem :
        (set_option sock sol_socket optname (timeval v) m).1
        ≡ record m { heap = set_heap; kernel = set_kernel }
    unfolding set_option setsockopt
    set_option_lem = ground (arith, timeval_back)

    pub ctx_at-after :
        ctx_at O sock (record m { heap = set_heap; kernel = set_kernel }) ≡ ctx_at O sock m
    ctx_at-after = ctx_at-same O C sock set_heap set_kernel m

  recv_timeout_kept :
      (sock v : ℕ) (m : FdManager O)
      → ctx_at O sock m ≢ 0
      → v < 2147483648000
      → let m' = set_recv_timeout sock v m in
        (get_recv_timeout sock m' ≡ v) × (get_send_timeout sock m' ≡ get_send_timeout sock m)
  unfolding set_recv_timeout get_recv_timeout get_send_timeout set_timeout get_timeout
  recv_timeout_kept sock v m known lt =
      rw
        (
          set_option_lem sock so_rcvtimeo v m refl known lt,
          ctx_at-after sock so_rcvtimeo v m refl known lt,
        )
        (ground arith, ground arith)

  send_timeout_kept :
      (sock v : ℕ) (m : FdManager O)
      → ctx_at O sock m ≢ 0
      → v < 2147483648000
      → let m' = set_send_timeout sock v m in
        (get_send_timeout sock m' ≡ v) × (get_recv_timeout sock m' ≡ get_recv_timeout sock m)
  unfolding set_send_timeout get_recv_timeout get_send_timeout set_timeout get_timeout
  send_timeout_kept sock v m known lt =
      rw
        (
          set_option_lem sock so_sndtimeo v m refl known lt,
          ctx_at-after sock so_sndtimeo v m refl known lt,
        )
        (ground arith, ground arith)

  -- Each of the two timeouts of a socket, in milliseconds, for a handle that the manager knows and
  -- below 2^31 seconds, is read back as it was set; the other one is as before.
  pub get_timeouts-set_timeouts :
      (sock v : ℕ) (m : FdManager O)
      → ctx_at O sock m ≢ 0
      → v < 2147483648000
      → let r = set_recv_timeout sock v m in
        let s = set_send_timeout sock v m in
        (get_recv_timeout sock r ≡ v)
        × (get_send_timeout sock r ≡ get_send_timeout sock m)
        × (get_send_timeout sock s ≡ v)
        × (get_recv_timeout sock s ≡ get_recv_timeout sock m)
  get_timeouts-set_timeouts sock v m known lt =
      let (a, b) = recv_timeout_kept sock v m known lt in
      let (c, d) = send_timeout_kept sock v m known lt in (a, b, c, d)
