-- ===== src/Callback.antt =====
-- `std::function<void()>` as the program uses it: the closures that src/timer.cc and src/hook.cc
-- build, and those of the application, which are known by number.
use lt.Base.{ℕ, Bool, true, false}

pub data Callback : Type 0 where
  -- an empty `std::function`
  null : Callback
  -- a closure of the application
  user : ℕ → Callback
  -- `std::bind(&OnTimer, weak_cond, cb)`
  on_timer : ℕ → Callback → Callback
  -- `std::bind(&IOManager::schedule, iom, fiber, -1)`
  schedule_fiber : ℕ → Callback
  -- the closure of `do_io` and `connect_with_timeout`: the `timer_info`, the handle, the event
  io_timeout : ℕ → ℕ → ℕ → Callback

-- `operator bool`.
abbrev pub is_set : Callback → Bool
is_set null = false
is_set (user n) = true
is_set (on_timer w c) = true
is_set (schedule_fiber f) = true
is_set (io_timeout t fd e) = true
