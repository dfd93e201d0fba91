-- ===== src/Fiber/Tests.antt =====
-- Runs of fibers (src/fiber.cc), and the theorems about them at a concrete thread.
use lt.Base.{◌≡◌, refl, false}
use lt.Callback.{null, user}
use lt.Fiber.{ready, Thread, get_this, new_fiber}

abbrev empty_thread : Thread
empty_thread = record {
  fibers =
      λ _. record { id = 0; has_stack = false; state = ready; cb = null; run_in_scheduler = false };
  cur = 0;
  main_fiber = 0;
  scheduler_fiber = 0;
  context = 0;
  fiber_id = 0;
  fiber_count = 0;
}

-- A thread with its main fiber at 1 and a fiber at 2 that no scheduler runs.
abbrev two_fibers : Thread
two_fibers = new_fiber 2 (user 5) false (get_this 1 empty_thread).1

ids : (two_fibers.fibers 2).id ≡ 1
unfolding new_fiber get_this
ids = refl
