-- ===== src/Hook/Waiting.antt =====
-- The wait of `do_io` (src/hook.cc) on the timer manager and the I/O manager.
use lt.Base.{
  ℕ, ◌*◌, ◌/◌, ◌^◌, ◌<◌, ◌≤◌, ◌≡◌, ◌≢◌, refl, sym, ap, ◌∙◌, Bool, true, false, inl, inr, Option,
  none, some, ◌==◌, ==_iff, ==_false, if_true, if_false, if_cases, arith, Bool-cases, u64_max,
  contains, get_elem?,
}
use mathlib.Core.Path.{subst}
use lt.Callback.{null}
use lt.Timer.{TimerManager, add_condition_timer}
use lt.Timer.Invariant
use lt.Timer.Invariant.{add_timer-Inv, cancel-Inv}
use lt.Timer.Calls.{cancel_once}
use lt.IoManager.Events.{Event, has, IsIo}
use lt.IoManager.{Epoll, IoManager, FdContext, grown, add_event}
use lt.IoManager.Sync.{Inv}
use lt.IoManager.Adding.{add_event-Adds}
use lt.Hook.Io.{
  Env, Waited, retry, give_up, failed, W, start_timer, stop_timer, not_added, resumed, added,
  wait_ready,
}

module _ (E : Epoll) (N : Type 0) (v : Env E.State N) (self this_fiber tinfo fd : ℕ) (event : Event)
    (to : ℕ) where
  abbrev TimersInv : W E N → Type 0
  TimersInv w = Invariant.Inv w.timers

  -- The timer at `p`, if there is one, is out of the set.
  abbrev pub NoTimer : ℕ → W E N → Type 0
  NoTimer p w = to ≢ u64_max → contains w.timers.timers p ≡ false

  abbrev pub BothInv : W E N → Type 0
  BothInv w = TimersInv w × Inv E w.io

  -- The world when the fiber asks `addEvent`.
  abbrev pub asking : W E N → W E N
  asking w = record w { timers = start_timer E N v self this_fiber tinfo fd event to w }

  -- How a wait ends that began in `w` and for which `addEvent` returned 0 or not: it has not failed,
  -- both managers are valid, its timer is gone, and the answer is by `addEvent` and the timer.
  abbrev pub Clean : W E N → Bool → Waited E.State N → Type 0
  Clean w added failed = ⊥
  Clean w added (give_up e w₂) =
      NoTimer (v.alloc w) w₂
      × BothInv w₂
      × (added ≡ true → (w₂.cancelled ≡ e) × (e ≢ 0))
      × (added ≡ false → e ≡ v.ctl_errno (asking w))
  Clean w added (retry w₂) =
      NoTimer (v.alloc w) w₂ × BothInv w₂ × (added ≡ true) × (w₂.cancelled ≡ 0)

  stopped : W E N → Option (Bool × TimerManager) → Option (W E N)
  stopped w none = none
  stopped w (some r) = some (record w { timers = r.1 })

  stop_timer_lem :
      (p : ℕ) (w : W E N)
      → BothInv w
      → (w₂ : W E N) × (stop_timer E N v self this_fiber tinfo fd event to p w ≡ some w₂)
        × NoTimer p w₂
        × BothInv w₂
  unfolding stop_timer stopped
  stop_timer_lem p w i = elim (Bool-cases (to == u64_max)) [
    | inl e ↦ (w, if_true _ _ _ e, (λ ne. absurd (ne ((==_iff _ _).0 e))), i)
    | inr e ↦
        let (r, eq, found, left, again) = cancel_once w.timers p i.0 in
        (
          record w { timers = r.1 },
          if_false _ _ _ e ∙ ap (stopped w) eq,
          (λ _. left p ∙ ground arith),
          (cancel-Inv w.timers p r i.0 eq, i.1),
        )
  ]

  pub start_timer-Inv :
      (w : W E N)
      → TimersInv w
      → v.alloc w ≢ 0
      → contains w.timers.timers (v.alloc w) ≡ false
      → Invariant.Inv (start_timer E N v self this_fiber tinfo fd event to w)
  unfolding start_timer add_condition_timer
  start_timer-Inv w i nz fresh =
      if_cases Invariant.Inv (to == u64_max) _ _ (λ _. i)
        (λ _. add_timer-Inv w.timers (v.alloc w) to _ false (v.now w) i nz fresh refl)

  added-Clean :
      (w : W E N) (r : Bool × IoManager E.State)
      → BothInv (record (asking w) { io = r.1 })
      → ((x : W E N) → BothInv x → BothInv (v.away x))
      → Clean w r.0 (added E N v self this_fiber tinfo fd event to (v.alloc w) (asking w) (some r))
  unfolding added not_added resumed
  added-Clean w (false, io) i keeps =
      let (w₂, eq, gone, still) = stop_timer_lem (v.alloc w) (record (asking w) { io = io }) i in
      subst
        (λ o.
          Clean w false
            (not_added E N v self this_fiber tinfo fd event to (v.ctl_errno (asking w)) o))
        (sym eq) (gone, still, (λ t. cc), (λ _. refl))
  added-Clean w (true, io) i keeps =
      let (w₂, eq, gone, still) =
        stop_timer_lem (v.alloc w) (v.away (record (asking w) { io = io })) (keeps _ i) in
      subst (λ o. Clean w true (resumed E N v self this_fiber tinfo fd event to o)) (sym eq)
        (if_cases (Clean w true) (w₂.cancelled == 0) _ _
          (λ z. (gone, still, refl, (==_iff _ _).0 z))
          (λ z. (gone, still, (λ _. (refl, ==_false _ _ z)), (λ t. cc))))

  -- A call that would block waits without a failed assertion, if its handle does not wait for the event
  -- already and the others keep the timer manager and the I/O manager valid meanwhile. When the wait is
  -- over both managers are valid and its timer is out of the set. If `addEvent` failed, the wait is
  -- given up with the `errno` of that; else the call is made again exactly if `cancelled` is 0, and
  -- if not, the wait is given up with that number as the error.
  pub wait_ready-Clean :
      (w : W E N)
      → BothInv w
      → v.alloc w ≢ 0
      → contains w.timers.timers (v.alloc w) ≡ false
      → IsIo event
      → self ≢ 0
      → 2 ≤ fd
      → fd * 3 / 2 < 2 ^ 31
      → ((c : FdContext)
          → get_elem? (grown fd w.io.contexts) fd ≡ some c
          → has c.events event ≡ false)
      → ((x : W E N) → BothInv x → BothInv (v.away x))
      → (r : Bool × IoManager E.State) × (add_event E fd event null self this_fiber w.io ≡ some r)
        × Clean w r.0 (wait_ready E N v self this_fiber tinfo fd event to w)
  unfolding wait_ready
  wait_ready-Clean w i nz fresh io here two small absent keeps =
      let (c, found, again, fresh_event) =
        add_event-Adds E fd event null self this_fiber w.io io here two small i.1 in
      let (r, eq, kept, _, _, _, _) = fresh_event (absent c found) in
      (
        r,
        eq,
        subst
            (λ o.
              Clean w r.0 (added E N v self this_fiber tinfo fd event to (v.alloc w) (asking w) o))
            (sym eq) (added-Clean w r (start_timer-Inv w i.0 nz fresh, kept) keeps),
      )
