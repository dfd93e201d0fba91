-- ===== src/Hook.antt =====
-- src/hook.cc and include/hook.h: the system calls that the library replaces, so that a call that
-- would block a thread makes the fiber wait instead. The replaced calls, named `…_f` in the source, are
-- parameters. A flag word is the 32-bit pattern of an `int`; handles are not negative, since `get`
-- answers null for -1 and the call is then passed on. The hooks are enabled, as `Scheduler::run` has
-- them; where they are not, each hook is the call that it replaces.
pub mod Flags
pub mod Io
pub mod Waiting
pub mod Handles
pub mod Closing
pub mod Wakes
pub mod Progress
pub mod Tests
use Prim.Native.Nat.{bit_and, bit_or}
use lt.Base.{
  ℕ, ◌+◌, ◌*◌, ◌/◌, ◌%◌, ◌-◌, ◌^◌, ◌≡◌, Bool, true, false, not, ◌&&◌, ◌||◌, List, Option, none,
  some, ◌==◌, if◌then◌else◌, ℤ, pos, negsuc, u64_mod,
}
use lt.FdManager.{
  FdCtx, o_nonblock, so_rcvtimeo, System, FdManager, find, create, get, del, set_timeout,
}

-- SO_SNDTIMEO, SOL_SOCKET and FIONBIO.
abbrev pub so_sndtimeo : ℕ
so_sndtimeo = 21

abbrev pub sol_socket : ℕ
sol_socket = 1

abbrev pub fionbio : ℕ
fionbio = 0x5421

-- Commands of `fcntl`: F_SETFL and F_GETFL, and the others, with `none` for those that the source
-- passes on without an argument, which are all that it does not name.
pub data Command : Type 0 where
  setfl : (arg : ℕ) → Command
  getfl : Command
  other : (cmd : ℕ) (arg : Option ℕ) → Command

-- The calls that are passed on: the result of F_SETFL, other commands of `fcntl`, `ioctl`,
-- `setsockopt` and `close`. By its documentation FIONBIO of `ioctl` sets or clears O_NONBLOCK.
pub record Calls (O : System) : Type 0 where
  pub set_status : ℕ → ℕ → O.State → ℕ
  pub fcntl_other : ℕ → ℕ → Option ℕ → O.State → ℕ × O.State
  pub ioctl_f : ℕ → ℕ → ℕ → O.State → ℕ × O.State
  pub setsockopt_f : ℕ → ℕ → ℕ → ℕ × ℕ → O.State → ℕ × O.State
  pub close_f : ℕ → O.State → ℕ × O.State
  pub ioctl_nonblock :
      (fd v : ℕ) (k : O.State)
      → O.fstat fd k ≡ some true
      → (ioctl_f fd fionbio v k).0 ≡ 0
      → (bit_and (O.get_flags fd (ioctl_f fd fionbio v k).1) o_nonblock == 0) ≡ (v == 0)

module _ (O : System) where
  -- `FdMgr::GetInstance()->get(fd)`: 0 is null.
  pub ctx_at : ℕ → FdManager O → ℕ
  ctx_at fd m = elim (find O fd false m) [ none ↦ 0 | some p ↦ p ]

  -- `!(!ctx || ctx->isClose() || !ctx->isSocket())`
  unfoldable pub is_managed : ℕ → FdManager O → Bool
  is_managed p m = not (p == 0) && not (m.heap p).is_closed && (m.heap p).is_socket

  abbrev pub set_ctx : ℕ → FdCtx → FdManager O → FdManager O
  set_ctx p c m = record m { heap = λ q. if p == q then c else m.heap q }

  module _ (C : Calls O) where
    -- `fcntl`, F_SETFL.
    pub set_fl : ℕ → ℕ → FdManager O → ℕ × FdManager O
    set_fl fd arg m =
        let p = ctx_at fd m in
        let c = m.heap p in
        let arg' =
          if c.sys_nonblock then bit_or arg o_nonblock else bit_and arg (2 ^ 32 - 1 - o_nonblock) in
        let seen = record c { user_nonblock = not (bit_and arg o_nonblock == 0) } in
        if not (is_managed p m)
        then (C.set_status fd arg m.kernel, record m { kernel = O.set_flags fd arg m.kernel })
        else (
          C.set_status fd arg' m.kernel,
          record (set_ctx p seen m) { kernel = O.set_flags fd arg' m.kernel },
        )

    -- `fcntl`, F_GETFL.
    pub get_fl : ℕ → FdManager O → ℕ
    get_fl fd m =
        let p = ctx_at fd m in
        let arg = O.get_flags fd m.kernel in
        if not (is_managed p m)
        then arg
        else if (m.heap p).user_nonblock
        then bit_or arg o_nonblock
        else bit_and arg (2 ^ 32 - 1 - o_nonblock)

    pub fcntl : ℕ → Command → FdManager O → ℕ × FdManager O
    unfolding set_fl get_fl
    fcntl fd (setfl arg) m = set_fl fd arg m
    fcntl fd getfl m = (get_fl fd m, m)
    fcntl fd (other cmd arg) m =
        let (n, k) = C.fcntl_other fd cmd arg m.kernel in (n, record m { kernel = k })

    -- `ioctl`; `value` is what the pointer argument points to.
    pub ioctl : ℕ → ℕ → ℕ → FdManager O → ℕ × FdManager O
    ioctl d request value m =
        let p = ctx_at d m in
        let seen = record (m.heap p) { user_nonblock = not (value == 0) } in
        let m' = if request == fionbio && is_managed p m then set_ctx p seen m else m in
        let (n, k) = C.ioctl_f d request value m.kernel in (n, record m' { kernel = k })

    -- `setsockopt`; a timeout is given in seconds and microseconds.
    unfoldable pub setsockopt : ℕ → ℕ → ℕ → ℕ × ℕ → FdManager O → ℕ × FdManager O
    setsockopt fd level optname (sec, usec) m =
        let p = ctx_at fd m in
        let timed = level == sol_socket && (optname == so_rcvtimeo || optname == so_sndtimeo) in
        let c = set_timeout optname ((sec * 1000 + usec / 1000) % u64_mod) (m.heap p) in
        let m' = if timed && not (p == 0) then set_ctx p c m else m in
        let (n, k) = C.setsockopt_f fd level optname (sec, usec) m.kernel in
        (n, record m' { kernel = k })
