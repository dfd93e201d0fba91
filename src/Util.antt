-- ===== src/Util.antt =====
-- src/util.cc: the clocks, the names of threads and `Unlink`. What a system call answers is an argument.
pub mod Clocks
use lt.Base.{
  ℕ, zero, suc, ◌+◌, ◌*◌, ◌/◌, Bool, true, false, not, ◌&&◌, List, [], ◌∷◌, ◌==◌, if◌then◌else◌,
  take,
}

-- `GetElapsedMS`, of `ts.tv_sec` and `ts.tv_nsec`.
unfoldable pub get_elapsed_ms : ℕ → ℕ → ℕ
get_elapsed_ms sec nsec = sec * 1000 + nsec / 1000000

-- `GetCurrentMS` and `GetCurrentUS`, of `tv.tv_sec` and `tv.tv_usec`.
unfoldable pub get_current_ms : ℕ → ℕ → ℕ
get_current_ms sec usec = sec * 1000 + usec / 1000

unfoldable pub get_current_us : ℕ → ℕ → ℕ
get_current_us sec usec = sec * 1000 * 1000 + usec

-- `SetThreadName`: the name that the system is given, at most 15 bytes.
unfoldable pub set_thread_name : List ℕ → List ℕ
set_thread_name name = take 15 name

-- `Unlink`; `lstat` and `unlink` answer 0 for success.
unfoldable pub unlink : (List ℕ → ℕ) → (List ℕ → ℕ) → List ℕ → Bool → Bool
unlink lstat unlink_file filename exist =
    if not exist && not (lstat filename == 0) then true else unlink_file filename == 0
