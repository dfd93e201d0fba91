-- ===== src/Lock/Spin.antt =====
-- Threads that share one `CASLock` and hold it by guards (include/mutex.h), as a step relation. A step is
-- one atomic operation on the flag, or one access to the guard, which is the thread's own.
use lt.Base.{ℕ, Bool, false, ◌==◌, if◌then◌else◌}
use lt.Lock.{spin, clear}

-- Where a thread stands: it has no guard; in the loop of `CASLock::lock`, called by the constructor or
-- by `lock`; after the loop, before `m_locked` is set; with `m_locked` set; in `unlock`, called by the
-- user or by the destructor, before and after the flag is cleared; and with a guard that is unlocked.
pub data Pc : Type 0 where
  outside spinning entered locked unlocked : Pc
  leaving left : (dying : Bool) → Pc

pub record System : Type 0 where
  pub flag : Bool
  pub pc : ℕ → Pc

abbrev pub update : (ℕ → Pc) → ℕ → Pc → ℕ → Pc
update f i p j = if i == j then p else f j

-- One thread goes on, with what it makes of the flag.
pub data Move (flag : Bool) : Pc → Pc → Bool → Type 0 where
  makes : Move flag outside spinning flag
  locks : Move flag unlocked spinning flag
  tests : Move flag spinning (if (spin flag).0 then spinning else entered) (spin flag).1
  enters : Move flag entered locked flag
  unlocks : (dying : Bool) → Move flag locked (leaving dying) flag
  clears : (dying : Bool) → Move flag (leaving dying) (left dying) (clear flag)
  leaves : (dying : Bool) → Move flag (left dying) (if dying then outside else unlocked) flag
  deletes : Move flag unlocked outside flag

pub data Step (s : System) : System → Type 0 where
  goes :
      (i : ℕ) (p : Pc) (flag : Bool)
      → Move s.flag (s.pc i) p flag
      → Step s (record { flag = flag; pc = update s.pc i p })

-- `CASLock::CASLock`, before any guard is made.
abbrev pub start : System
start = record { flag = false; pc = λ _. outside }

pub data Reach : System → Type 0 where
  begin : Reach start
  later : {s t : System} → Reach s → Step s t → Reach t
