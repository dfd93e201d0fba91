-- ===== src/FdManager/Tests.antt =====
-- Runs of the handle manager (src/fd_manager.cc) on a small system, and the theorems about it there.
use Prim.Native.Nat.{bit_and}
use lt.Base.{
  ℕ, ◌≤◌, ◌≡◌, ◌≢◌, refl, ap, Bool, true, false, Option, none, some, arith, ◌==◌, ltb,
  if◌then◌else◌, length,
}
use lt.FdManager.{
  FdCtx, o_nonblock, System, FdManager, nulls, resize, make_nonblock, init, new_ctx, new_fd_manager,
  find,
}

-- Handle 3 is a socket, those below are files, the others are not open. The state is the flags.
abbrev pub kind_of : ℕ → Option Bool
kind_of fd = if fd == 3 then some true else if ltb fd 3 then some false else none

abbrev pub flags_set : ℕ → ℕ → (ℕ → ℕ) → ℕ → ℕ
flags_set fd flags k = λ g. if fd == g then flags else k g

pub flags_set_same :
    (fd flags : ℕ) (k : ℕ → ℕ)
    → kind_of fd ≡ some true
    → bit_and (flags_set fd flags k fd) o_nonblock ≡ bit_and flags o_nonblock
flags_set_same fd flags k e = ap (λ x. bit_and x o_nonblock) (ground arith)

pub flags_set_other : (fd g flags : ℕ) (k : ℕ → ℕ) → fd ≢ g → flags_set fd flags k g ≡ k g
flags_set_other fd g flags k ne = ground arith

abbrev pub small : System
small = record {
  State = ℕ → ℕ;
  fstat = λ fd k. kind_of fd;
  get_flags = λ fd k. k fd;
  set_flags = flags_set;
  set_nonblock = flags_set_same;
  set_other = flags_set_other;
  set_fstat = λ fd g flags k. refl;
}

abbrev pub no_ctx : FdCtx
no_ctx = record {
  is_init = false;
  is_socket = false;
  sys_nonblock = false;
  user_nonblock = false;
  is_closed = false;
  fd = 0;
  recv_timeout = 0;
  send_timeout = 0;
}

abbrev fresh : FdManager small
fresh = new_fd_manager small (λ _. no_ctx) (λ _. 2)

fresh_room : 64 ≤ length fresh.datas
unfolding new_fd_manager resize nulls
fresh_room = omega arith

socket_flags : (new_ctx small 3 (λ _. 2)).1 3 ≡ 0x802
unfolding new_ctx init make_nonblock
socket_flags = refl

find_misses : find small 70 true fresh ≡ none
unfolding find new_fd_manager resize nulls
find_misses = refl
