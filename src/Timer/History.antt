-- ===== src/Timer/History.antt =====
-- Histories of calls to one manager (src/timer.cc), in any order and with any clock readings: each
-- call is one step, as it runs under the manager's lock.
use lt.Base.{ℕ, ◌≡◌, ◌≢◌, Bool, true, false, some, contains}
use lt.Callback.{Callback, is_set}
use lt.Timer.{
  TimerManager, init, add_timer, cancel, refresh, reset, get_next_timer, list_expired_cb,
}
use lt.Timer.Invariant.{
  Inv, init-Inv, add_timer-Inv, cancel-Inv, refresh-Inv, reset-Inv, get_next_timer-Inv,
}
use lt.Timer.Expired.{list_expired_cb-Inv}

-- The allocator gives an address that is not null and that no timer of the set has.
abbrev pub IsFresh : ℕ → TimerManager → Type 0
IsFresh p m = (p ≢ 0) × (contains m.timers p ≡ false)

pub data Step (m : TimerManager) : TimerManager → Type 0 where
  -- with a callback: a null one would stand in the set too
  adds :
      (p ms : ℕ) (cb : Callback) (recurring : Bool) (now : ℕ)
      → IsFresh p m
      → is_set cb ≡ true
      → Step m (add_timer p ms cb recurring now m).0
  cancels : (p : ℕ) (r : Bool × TimerManager) → cancel p m ≡ some r → Step m r.1
  refreshes : (now p : ℕ) → Step m (refresh now p m).1
  resets : (ms : ℕ) (from_now : Bool) (now p : ℕ) → Step m (reset ms from_now now p m).1
  asks : (now : ℕ) → Step m (get_next_timer now m).1
  expires : (now tmp : ℕ) → IsFresh tmp m → Step m (list_expired_cb now tmp m).1

pub data Reach : TimerManager → Type 0 where
  start : (now : ℕ) → Reach (init now)
  later : {m n : TimerManager} → Reach m → Step m n → Reach n

Step-Inv : {m n : TimerManager} → Step m n → Inv m → Inv n
Step-Inv {m} (adds p ms cb recurring now fresh set) v =
    add_timer-Inv m p ms cb recurring now v fresh.0 fresh.1 set
Step-Inv {m} (cancels p r e) v = cancel-Inv m p r v e
Step-Inv {m} (refreshes now p) v = refresh-Inv m now p v
Step-Inv {m} (resets ms from_now now p) v = reset-Inv m ms from_now now p v
Step-Inv {m} (asks now) v = get_next_timer-Inv m now v
Step-Inv {m} (expires now tmp fresh) v = list_expired_cb-Inv m now tmp v fresh.0 fresh.1

-- After any history of calls, in which `addTimer` is always given a callback, which it does not check,
-- the set is in the comparator's order, it holds exactly the timers that have a callback, and no null
-- pointer.
pub timers_Reach-Inv : {m : TimerManager} → Reach m → Inv m
timers_Reach-Inv (start now) = init-Inv now
timers_Reach-Inv (later r s) = Step-Inv s (timers_Reach-Inv r)
