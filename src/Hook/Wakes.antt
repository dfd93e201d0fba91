-- ===== src/Hook/Wakes.antt =====
-- How one wait of `do_io` ends, by what its surroundings do (src/hook.cc).
use lt.Base.{
  ℕ, ◌≡◌, ◌≢◌, ap, ◌∙◌, Bool, true, false, Option, none, some, ◌==◌, ==_iff, if_true, if_false,
  arith, u64_max,
}
use lt.Callback.{null}
use lt.Timer.{TimerManager}
use lt.Timer
use lt.IoManager.Events.{Event}
use lt.IoManager.{Epoll, Manager, add_event}
use lt.Hook.Io.{
  Env, Waited, retry, give_up, W, start_timer, stop_timer, not_added, resumed, added, wait_ready,
}

module _ (E : Epoll) (N : Type 0) (v : Env E.State N) (self this_fiber tinfo fd : ℕ) (event : Event)
    (to : ℕ) where
  -- The fiber waits: its timer, if there is a timeout, is set, and it takes the state `io`.
  abbrev pub waits_in : W E N → Manager E → W E N
  waits_in w io = record w {
    timers = start_timer E N v self this_fiber tinfo fd event to w;
    io = io;
  }

  -- The timer at `p`, if there is a timeout, is cancelled.
  pub data Stops (p : ℕ) (x : W E N) : W E N → Type 0 where
    without_timer : to ≡ u64_max → Stops p x x
    with_timer :
        (r : Bool × TimerManager)
        → to ≢ u64_max
        → Timer.cancel p x.timers ≡ some r
        → Stops p x (record x { timers = r.1 })

  -- What `addEvent` returns for the waiter.
  abbrev pub asks : W E N → Option (Bool × Manager E)
  asks w = add_event E fd event null self this_fiber w.io

  abbrev wait : W E N → Waited E.State N
  wait = wait_ready E N v self this_fiber tinfo fd event to

  stopped : W E N → Option (Bool × TimerManager) → Option (W E N)
  stopped w none = none
  stopped w (some r) = some (record w { timers = r.1 })

  Stops-stop_timer :
      (p : ℕ) (x w₂ : W E N)
      → Stops p x w₂
      → stop_timer E N v self this_fiber tinfo fd event to p x ≡ some w₂
  unfolding stop_timer stopped
  Stops-stop_timer p x w₂ (without_timer e) = if_true (to == u64_max) _ _ ((==_iff _ _).1 e)
  Stops-stop_timer p x w₂ (with_timer r ne e) =
      if_false (to == u64_max) _ _ (ground (arith, ne)) ∙ ap (stopped x) e

  resumes :
      (w : W E N) (io : Manager E) (w₂ : W E N)
      → asks w ≡ some (true, io)
      → Stops (v.alloc w) (v.away (waits_in w io)) w₂
      → wait w ≡ resumed E N v self this_fiber tinfo fd event to (some w₂)
  unfolding wait_ready added
  resumes w io w₂ e s =
      ap
        (added E N v self this_fiber tinfo fd event to (v.alloc w)
          (record w { timers = start_timer E N v self this_fiber tinfo fd event to w }))
        e
      ∙ ap (resumed E N v self this_fiber tinfo fd event to)
          (Stops-stop_timer (v.alloc w) (v.away (waits_in w io)) w₂ s)

  pub wakes :
      (w : W E N) (io : Manager E) (w₂ : W E N)
      → asks w ≡ some (true, io)
      → Stops (v.alloc w) (v.away (waits_in w io)) w₂
      → w₂.cancelled ≡ 0
      → wait w ≡ retry w₂
  unfolding resumed
  wakes w io w₂ e s z = resumes w io w₂ e s ∙ if_true (w₂.cancelled == 0) _ _ ((==_iff _ _).1 z)

  pub times_out :
      (w : W E N) (io : Manager E) (w₂ : W E N)
      → asks w ≡ some (true, io)
      → Stops (v.alloc w) (v.away (waits_in w io)) w₂
      → w₂.cancelled ≢ 0
      → wait w ≡ give_up w₂.cancelled w₂
  unfolding resumed
  times_out w io w₂ e s z =
      resumes w io w₂ e s ∙ if_false (w₂.cancelled == 0) _ _ (ground (arith, z))

  pub is_refused :
      (w : W E N) (io : Manager E) (w₂ : W E N)
      → asks w ≡ some (false, io)
      → Stops (v.alloc w) (waits_in w io) w₂
      → wait w
        ≡ give_up
            (v.ctl_errno
              (record w { timers = start_timer E N v self this_fiber tinfo fd event to w }))
            w₂
  unfolding wait_ready added not_added
  is_refused w io w₂ e s =
      ap
        (added E N v self this_fiber tinfo fd event to (v.alloc w)
          (record w { timers = start_timer E N v self this_fiber tinfo fd event to w }))
        e
      ∙ ap
          (not_added E N v self this_fiber tinfo fd event to (
            v.ctl_errno
              (record w { timers = start_timer E N v self this_fiber tinfo fd event to w })))
          (Stops-stop_timer (v.alloc w) (waits_in w io) w₂ s)
