-- ===== src/IoManager/Idle.antt =====
-- When `idle` waits, how long, and when it ends (src/iomanager.cc, `stopping`, `tickle`, `idle`).
use lt.Base.{
  pos, negsuc, ℕ, zero, suc, ◌%◌, ◌^◌, ◌≤◌, ◌<◌, ◌≡◌, refl, ap, ◌∙◌, Bool, true, ◌&&◌, List, [],
  ◌∷◌, some, arith, ◌==◌, Bool-cases, if_true, if_false, ◌-◌, if◌then◌else◌, get_elem?, u64_max,
  u64_mod, leb, ltb, ◌⊎◌, inl, inr,
}
use lt.Timer.{TimerManager, get_next_timer}
use lt.Timer.Next.{next-ne-max}
use lt.Scheduler.{Scheduler, has_idle_threads}
use lt.Scheduler
use lt.IoManager.Events.{weight, weight-empty}
use lt.IoManager.{FdContext, IoManager}
use lt.IoManager.Poll.{to_int, min_timeout, wait_timeout}
use lt.IoManager.Local.{Local, total_weight}

-- `IOManager::stopping(timeout)`: the answer, and the time to the next timer.
unfoldable pub stopping : {K : Type 0} → ℕ → TimerManager → IoManager K → Scheduler → Bool × ℕ
stopping now timers m s =
    let timeout = (get_next_timer now timers).0 in
    (timeout == u64_max && m.pending_event_count == 0 && Scheduler.stopping s, timeout)

-- `IOManager::tickle`: whether a byte is written to the pipe.
unfoldable pub tickle : Scheduler → Bool
tickle s = has_idle_threads s

total_weight-ge :
    (cs : List FdContext) (i : ℕ) (c : FdContext)
    → get_elem? cs i ≡ some c
    → weight c.events ≤ total_weight cs
unfolding total_weight
total_weight-ge [] i c e = cc
total_weight-ge (x ∷ xs) zero c e = ground arith
total_weight-ge (x ∷ xs) (suc i) c e = omega (arith, total_weight-ge xs i c e)

no_timer :
    (timers : TimerManager) (now : ℕ)
    → ((p : ℕ) → (timers.heap p).next < u64_mod)
    → 0 < now
    → (ts : List ℕ) → timers.timers ≡ ts
    → (get_next_timer now timers).0 ≡ u64_max
    → ts ≡ []
no_timer timers now bound started [] e h = refl
no_timer timers now bound started (p ∷ ps) e h =
    absurd (next-ne-max timers now p ps e (bound p) started h)

-- The I/O manager counts as stopped only when nothing is left to do: no timer is set, no handle
-- waits for an event, the queue is empty, no thread is active, and `stop` has been called.
pub io_stopping-quiet :
    {K : Type 0} (now : ℕ) (timers : TimerManager) (m : IoManager K) (s : Scheduler)
    → ((p : ℕ) → (timers.heap p).next < u64_mod)
    → 0 < now
    → Local m
    → (stopping now timers m s).0 ≡ true
    → (timers.timers ≡ [])
      × ((i : ℕ) (c : FdContext) → get_elem? m.contexts i ≡ some c → c.events ≡ 0)
      × (s.tasks ≡ [])
      × (s.active_thread_count ≡ 0)
      × (s.is_stopping ≡ true)
unfolding stopping
io_stopping-quiet now timers m s bound started l h = (
  no_timer timers now bound started timers.timers refl (ground arith),
  (λ i c e.
      weight-empty c.events (l.contexts i c e).mask
        (ground (arith, total_weight-ge m.contexts i c e, l.counted))),
  (Scheduler.stopping_fields s (ground arith)).0,
  (Scheduler.stopping_fields s (ground arith)).1,
  (Scheduler.stopping_fields s (ground arith)).2,
)

to_int-small : (next : ℕ) → next < 2 ^ 31 → to_int next ≡ pos next
unfolding to_int
to_int-small next h =
    if_true (ltb (next % 2 ^ 32) (2 ^ 31)) _ _ (ground arith) ∙ ap pos (omega arith)

wait_timeout-small :
    (next : ℕ) → next < 2 ^ 31 → wait_timeout next ≡ (if leb next 5000 then pos next else pos 5000)
unfolding wait_timeout
wait_timeout-small next h =
    if_false (next == u64_max) _ _ (ground arith) ∙ ap min_timeout (to_int-small next h)

-- The wait ends by the next timer and within five seconds, for a timer less than 2^31 milliseconds
-- away or none.
pub wait_timeout_bounds :
    (next : ℕ)
    → (next < 2 ^ 31) ⊎ (next ≡ u64_max)
    → (t : ℕ) × (wait_timeout next ≡ pos t) × (t ≤ 5000) × (t ≤ next)
unfolding wait_timeout to_int
wait_timeout_bounds next (inl h) = elim (Bool-cases (leb next 5000)) [
  | inl k ↦
      (next, wait_timeout-small next h ∙ if_true (leb next 5000) _ _ k, ground arith, omega arith)
  | inr k ↦
      (5000, wait_timeout-small next h ∙ if_false (leb next 5000) _ _ k, omega arith, ground arith)
]
wait_timeout_bounds next (inr h) = rw h (5000, refl, omega arith, omega arith)

-- A timer that is 2^31 or more milliseconds away, up to 2^32, makes the timeout negative, which
-- makes `epoll_wait` wait without end.
pub wait_timeout_negative :
    (next : ℕ) → 2 ^ 31 ≤ next → next < 2 ^ 32 → wait_timeout next ≡ negsuc (2 ^ 32 - 1 - next)
unfolding wait_timeout to_int
wait_timeout_negative next h k =
    if_false (next == u64_max) _ _ (ground arith)
    ∙ ap min_timeout (
        if_false (ltb (next % 2 ^ 32) (2 ^ 31)) _ _ (ground arith)
        ∙ ap (λ w. negsuc (2 ^ 32 - 1 - w)) (omega arith))
