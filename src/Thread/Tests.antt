-- ===== src/Thread/Tests.antt =====
-- A run of a thread (src/thread.cc) until its constructor has returned.
use lt.Base.{refl, true, [], ◌∷◌, none, some}
use lt.Thread.{
  waiting, owning, swapping, calling, Thread, new_thread, creates, waits, names, identifies, swaps,
  notifies, Reach, begin, later,
}
use lt.Thread.Handover.{Handover, Reach-Handover}

-- The thread "w" with callback 7, before it takes the callback.
abbrev identified : Thread
identified = record (new_thread 7 (119 ∷ [])) {
  owner = waiting;
  runner = swapping;
  thread = true;
  thread_name = 119 ∷ [];
  id = some 31;
}

abbrev made : Thread
made = record identified { owner = owning; runner = calling; cb = none; own_cb = some 7 }

identified_reached : Reach 31 (new_thread 7 (119 ∷ [])) identified
identified_reached = later (later (later begin (creates refl)) (names refl)) (identifies refl)

made_reached : Reach 31 (new_thread 7 (119 ∷ [])) made
made_reached =
    later (later (later identified_reached (swaps refl)) (notifies refl)) (waits 0 refl refl)

Reach-Handover_example : Handover 31 7 made
Reach-Handover_example = Reach-Handover 31 7 (119 ∷ []) made made_reached
