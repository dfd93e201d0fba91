-- ===== src/Hook/Closing.antt =====
-- `close` and the calls that sleep, on the managers (src/hook.cc).
use lt.Base.{
  ℕ, ◌+◌, ◌*◌, ◌^◌, ◌<◌, ◌≤◌, ◌≡◌, ◌≢◌, ap, ◌∙◌, Bool, true, false, Option, none, some, ◌==◌,
  if_true, if_false, arith, add64,
}
use lt.Callback.{schedule_fiber}
use lt.Timer.{TimerManager, add_timer}
use lt.FdManager.{System, FdManager}
use lt.FdManager.Table.{slot, find-slot, answer, del-slot}
use lt.IoManager.{Epoll, Manager}
use lt.IoManager.Sync.{Inv}
use lt.IoManager.CancelAll.{Emptied, cancel_all-CancelsAll}
use lt.IoManager.Poll.{cancel_all}
use lt.Hook.{Calls, ctx_at}
use lt.Hook.Handles.{close_handle, del_context, close, sleep_ms, sleep_timer}

module _ (E : Epoll) (O : System) (C : Calls O) where
  ctx_at-slot : (fd : ℕ) (m : FdManager O) (p : ℕ) → slot m.datas fd ≡ some p → ctx_at O fd m ≡ p
  unfolding ctx_at
  ctx_at-slot fd m p e =
      ap (λ (o : Option ℕ). elim o as (λ _. ℕ) [ none ↦ 0 | some p ↦ p ])
        (find-slot O fd false m ∙ ap (answer O false) e)

  -- What `close` leaves for a handle that the manager knows.
  pub record Forgot (fd : ℕ) (m m' : FdManager O) (io io' : Manager E) : Type 0 where
    pub kept : Inv E io'
    pub cancelled :
        (b : Bool) × (cancel_all E fd io ≡ some (b, io'))
        × (b ≡ true → Emptied E fd io io')
        × (b ≡ false → (io'.contexts ≡ io.contexts) × (io'.scheduled ≡ io.scheduled))
    pub forgotten : slot m'.datas fd ≡ none
    pub others : (g : ℕ) → fd ≢ g → slot m'.datas g ≡ slot m.datas g

  -- `close` of a handle that the manager knows aborts nothing and keeps the invariant of the I/O
  -- manager, which is left as `cancelAll` leaves it: if that returned true, the handle waited for some
  -- event, the callback or, without one, the fiber of each is scheduled, the reader first, and it waits
  -- for none; if it returned false, no context has changed and nothing is scheduled. The context of the
  -- handle, and of no other, is gone from the table of handles.
  pub close-Forgot :
      (fd p : ℕ) (m : FdManager O) (io : Manager E)
      → slot m.datas fd ≡ some p
      → p ≢ 0
      → Inv E io
      → (m' : FdManager O) × (io' : Manager E) × (n : ℕ) × (close E O C fd m io ≡ some (n, m', io'))
        × Forgot fd m m' io io'
  unfolding close
  close-Forgot fd p m io e nz v =
      let (r, eq, kept, _, _, refused, done) = cancel_all-CancelsAll E fd io v in
      let (m₁, gone, slots) = del-slot O fd m in
      (
        record m₁ { kernel = (C.close_f fd m₁.kernel).1 },
        r.1,
        (C.close_f fd m₁.kernel).0,
        if_false (ctx_at O fd m == 0) _ _ (ground (arith, ctx_at-slot fd m p e))
            ∙ (ap (del_context E O C fd m) eq ∙ ap (close_handle E O C fd r.1) gone),
        record {
          kept = kept;
          cancelled = (r.0, eq, done, refused);
          forgotten = slots fd ∙ if_true (fd == fd) _ _ (ground arith);
          others = λ g ne. slots g ∙ if_false (fd == g) _ _ (ground arith);
        },
      )

-- `sleep` sets a timer that is due `seconds` later and schedules the fiber that sleeps, as long as
-- the milliseconds fit an `unsigned int`; beyond that the fiber is woken 2^32 milliseconds, or a
-- multiple of it, too early.
pub sleep_timer-next :
    (seconds this_fiber p now : ℕ) (m : TimerManager)
    → let m' = (sleep_timer (sleep_ms seconds) this_fiber p now m).0 in
      ((m'.heap p).cb ≡ schedule_fiber this_fiber)
      × (seconds < 4294968 → (m'.heap p).next ≡ add64 now (seconds * 1000))
      × (4294968 ≤ seconds → sleep_ms seconds + 2 ^ 32 ≤ seconds * 1000)
unfolding sleep_timer sleep_ms add_timer
sleep_timer-next seconds this_fiber p now m =
    (ground arith, (λ lt. ground arith), (λ le. omega arith))
