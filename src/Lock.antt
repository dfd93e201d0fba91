-- ===== src/Lock.antt =====
-- include/mutex.h: the guards that hold a mutex for a scope, and the lock that spins on a flag.
-- `ScopedLockImpl`, `ReadScopedLockImpl` and `WriteScopedLockImpl` differ in the call that takes the
-- mutex. What a guard calls on its mutex is appended to `calls`. The other mutexes are calls of pthread,
-- or do nothing.
pub mod Guards
pub mod Spin
pub mod Exclusion
pub mod Tests
use lt.Base.{Bool, true, false, List, [], ◌∷◌, ◌++◌, if◌then◌else◌}

-- `lock`, `rdlock` or `wrlock`.
pub data Mode : Type 0 where
  exclusive reading writing : Mode

pub data MutexCall : Type 0 where
  takes : Mode → MutexCall
  releases : MutexCall

pub record Guard : Type 0 where
  pub mode : Mode
  -- `m_locked`
  pub locked : Bool
  pub calls : List MutexCall

-- The constructors; a guard is made by taking the mutex.
unfoldable pub new_guard : Mode → Guard
new_guard mode = record { mode = mode; locked = true; calls = takes mode ∷ [] }

-- `ScopedLockImpl`, `ReadScopedLockImpl` and `WriteScopedLockImpl`.
abbrev pub scoped_lock : Guard
scoped_lock = new_guard exclusive

abbrev pub read_scoped_lock : Guard
read_scoped_lock = new_guard reading

abbrev pub write_scoped_lock : Guard
write_scoped_lock = new_guard writing

-- `lock()`.
unfoldable pub lock : Guard → Guard
lock g = if g.locked then g else record g { locked = true; calls = g.calls ++ takes g.mode ∷ [] }

-- `unlock()`.
unfoldable pub unlock : Guard → Guard
unlock g = if g.locked then record g { locked = false; calls = g.calls ++ releases ∷ [] } else g

-- The destructors.
unfoldable pub delete_guard : Guard → Guard
unfolding unlock
delete_guard g = unlock g

-- `std::atomic_flag_test_and_set_explicit`: the old value, and the flag.
abbrev pub test_and_set : Bool → Bool × Bool
test_and_set flag = (flag, true)

-- One round of the loop of `CASLock::lock`: whether it goes on, and the flag.
unfoldable pub spin : Bool → Bool × Bool
spin flag = test_and_set flag

-- `CASLock::unlock`.
unfoldable pub clear : Bool → Bool
clear flag = false
