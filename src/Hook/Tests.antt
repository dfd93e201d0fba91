-- ===== src/Hook/Tests.antt =====
-- Runs of the hooks (src/hook.cc) on a small system, and the theorems about them there.
use Prim.Native.Nat.{bit_and, bit_or}
use lt.Base.{
  ℕ, ◌-◌, ◌^◌, ◌≡◌, ◌≢◌, refl, ap, ◌∙◌, Bool, true, false, List, [], ◌∷◌, none, some, arith, ◌==◌,
  if◌then◌else◌, if_true, pos, negsuc, u64_max, contains, Bool-cases, inl, inr,
}
use lt.Timer
use lt.Timer.Invariant
use lt.Timer.Calls.{cancel_once}
use lt.Timer.History.{start, timers_Reach-Inv}
use lt.FdManager.{FdCtx, o_nonblock, FdManager, find}
use lt.FdManager.Table.{slot}
use lt.FdManager.Tests.{small, flags_set}
use lt.IoManager.Events.{read}
use lt.IoManager.{Manager, add_event}
use lt.Callback.{null}
use lt.IoManager.Sample.{
  with_fiber, fiber_added, table, blank, blank-Inv, fresh_at_3, waiting, waiting-Inv,
}
use lt.Hook.{Calls, fionbio, ctx_at, is_managed, set_fl, get_fl, ioctl}
use lt.Hook.Flags.{set_bit, clear_bit, set_fl-get_fl}
use lt.Hook.Io.{Answer, Env, returned, W, wait_ready, do_io_loop}
use lt.Hook.Progress.{Answers, at_once, interrupted, woken, do_io-Answers}
use lt.Hook.Wakes.{waits_in, Stops, with_timer}
use lt.Hook.Waiting.{Clean, start_timer-Inv, wait_ready-Clean}
use lt.Hook.Handles.{close}
use lt.Hook.Closing.{Forgot, close-Forgot}

-- FIONBIO on the flags.
abbrev with_nonblock : ℕ → ℕ → ℕ
with_nonblock v flags =
    if v == 0 then bit_and flags (2 ^ 32 - 1 - o_nonblock) else bit_or flags o_nonblock

pub small_ioctl :
    (fd v : ℕ) (k : ℕ → ℕ)
    → (bit_and (flags_set fd (with_nonblock v (k fd)) k fd) o_nonblock == 0) ≡ (v == 0)
small_ioctl fd v k =
    ap (λ x. bit_and x o_nonblock == 0)
      (if_true (fd == fd) (with_nonblock v (k fd)) (k fd) (ground arith))
    ∙ elim (Bool-cases (v == 0)) [ inl e ↦ rw e (clear_bit (k fd)) | inr e ↦ rw e (set_bit (k fd)) ]

abbrev pub calls : Calls small
calls = record {
  set_status = λ fd flags k. 0;
  fcntl_other = λ fd cmd arg k. (0, k);
  ioctl_f = λ fd request v k. (0, flags_set fd (with_nonblock v (k fd)) k);
  setsockopt_f = λ fd level optname v k. (0, k);
  close_f = λ fd k. (0, k);
  ioctl_nonblock = λ fd v k e ok. small_ioctl fd v k;
}

abbrev pub sock_ctx : FdCtx
sock_ctx = record {
  is_init = true;
  is_socket = true;
  sys_nonblock = true;
  user_nonblock = false;
  is_closed = false;
  fd = 3;
  recv_timeout = 500;
  send_timeout = u64_max;
}

-- Handle 3 is a socket whose context is at 40.
abbrev pub handles : FdManager small
handles = record {
  datas = none ∷ none ∷ none ∷ some 40 ∷ [];
  heap = λ _. sock_ctx;
  kernel = λ _. 0x802;
}

pub handles_managed : is_managed small (ctx_at small 3 handles) handles ≡ true
unfolding is_managed ctx_at find
handles_managed = refl

pub handles_known : ctx_at small 3 handles ≢ 0
unfolding ctx_at find
handles_known e = ground arith

-- A program that sets O_RDWR and O_NONBLOCK off.
set_fl-get_fl_example :
    let m' = (set_fl small calls 3 2 handles).1 in
    ((bit_and (get_fl small calls 3 m') o_nonblock == 0) ≡ true)
    × ((bit_and (m'.kernel 3) o_nonblock == 0) ≡ false)
    × (m'.kernel 4 ≡ 0x802)
set_fl-get_fl_example =
    set_fl-get_fl small calls 3 4 2 handles handles_managed refl refl (λ h. ground arith)

ioctl_ok : (ioctl small calls 3 fionbio 0 handles).0 ≡ 0
unfolding ioctl
ioctl_ok = refl

abbrev pub script : List Answer → Answer × List Answer
script [] = (record { result = pos 0; errno = 0 }, [])
script (a ∷ rest) = (a, rest)

abbrev pub env : Env table.State (List Answer)
env = record { call = script; away = λ w. w; now = λ _. 1000; alloc = λ _. 7; ctl_errno = λ _. 22 }

abbrev pub five_bytes : Answer
five_bytes = record { result = pos 5; errno = 0 }

abbrev pub world : List Answer → W table (List Answer)
world answers = record { timers = Timer.init 1000; io = blank; cancelled = 0; net = answers }

-- The call is interrupted once, would block once, and then reads five bytes.
abbrev would_block : List Answer
would_block = record { result = negsuc 0; errno = 11 } ∷ five_bytes ∷ []

abbrev pub three_calls : List Answer
three_calls = record { result = negsuc 0; errno = 4 } ∷ would_block

-- The fiber waits with a timer of 500 ms, at 7.
abbrev in_wait : W table (List Answer)
in_wait = waits_in table (List Answer) env 8 4 9 3 read 500 (world (five_bytes ∷ [])) with_fiber

init_lacks : contains (Timer.init 1000).timers 7 ≡ false
unfolding Timer.init
init_lacks = refl

in_wait-Inv : Invariant.Inv in_wait.timers
in_wait-Inv =
    start_timer-Inv table (List Answer) env 8 4 9 3 read 500 (world (five_bytes ∷ []))
      (timers_Reach-Inv (start 1000)) (λ h. ground arith) init_lacks

-- The fiber is back and its timer is cancelled.
abbrev back : W table (List Answer)
back = record in_wait { timers = (cancel_once in_wait.timers 7 in_wait-Inv).0.1 }

back_again : Stops table (List Answer) env 8 4 9 3 read 500 7 in_wait back
back_again =
    with_timer (cancel_once in_wait.timers 7 in_wait-Inv).0 (λ h. ground arith)
      (cancel_once in_wait.timers 7 in_wait-Inv).1

abbrev read_at_last : W table (List Answer)
read_at_last = record back { net = [] }

three_calls-Answers :
    Answers table (List Answer) env 8 4 9 3 read 500 (world three_calls) 2 five_bytes read_at_last
three_calls-Answers =
    interrupted refl
      (woken with_fiber back refl refl fiber_added back_again refl (at_once refl refl refl refl))

do_io-Answers_example :
    do_io_loop table (List Answer) env 8 4 9 3 read 500 3 (world three_calls)
    ≡ returned five_bytes read_at_last
do_io-Answers_example =
    do_io-Answers table (List Answer) env 8 4 9 3 read 500 3 (world three_calls) 2 five_bytes
      read_at_last three_calls-Answers (omega arith)

wait_ready-Clean_example :
    (r : Bool × Manager table) × (add_event table 3 read null 8 4 blank ≡ some r)
    × Clean table
        (List Answer)
        env
        8
        4
        9
        3
        read
        500
        (world [])
        r.0
        (wait_ready table (List Answer) env 8 4 9 3 read 500 (world []))
wait_ready-Clean_example =
    wait_ready-Clean table (List Answer) env 8 4 9 3 read 500 (world [])
      (timers_Reach-Inv (start 1000), blank-Inv) (λ h. ground arith) init_lacks (λ h. cc)
      (λ h. ground arith) (omega arith) (omega arith) fresh_at_3 (λ x i. i)

handles_slot : slot handles.datas 3 ≡ some 40
unfolding slot
handles_slot = refl

close-Forgot_example :
    (m' : FdManager small) × (io' : Manager table) × (n : ℕ) × (close table small calls 3 handles
        waiting
      ≡ some (n, m', io'))
    × Forgot table small calls 3 handles m' waiting io'
close-Forgot_example =
    close-Forgot table small calls 3 40 handles waiting handles_slot (λ h. ground arith) waiting-Inv
