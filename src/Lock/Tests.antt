-- ===== src/Lock/Tests.antt =====
-- Runs of the guards and of the spinning lock (include/mutex.h).
use lt.Base.{ℕ, ◌≡◌, refl, true, false, List, [], ◌∷◌}
use lt.Lock.{reading, takes, releases, new_guard, delete_guard, lock, spin}
use lt.Lock.Guards.{Use, locks, unlocks, use_guard, Turns, guards_take_turns}
use lt.Lock.Spin
use lt.Lock.Spin.{System, start, Reach, begin, later, goes, makes, tests}
use lt.Lock.Exclusion.{is_inside, Reach-is_inside}

-- A reader that unlocks twice and locks again.
abbrev uses : List Use
uses = unlocks ∷ unlocks ∷ locks ∷ []

guards_take_turns_example :
    Turns reading
      (use_guard uses (new_guard reading)).locked
      (use_guard uses (new_guard reading)).calls
    × Turns reading false (delete_guard (use_guard uses (new_guard reading))).calls
guards_take_turns_example = guards_take_turns reading uses

uses_lem :
    (delete_guard (use_guard uses (new_guard reading))).calls
    ≡ takes reading ∷ releases ∷ takes reading ∷ releases ∷ []
unfolding use_guard new_guard delete_guard lock
uses_lem = refl

-- Thread 2 is in, and thread 5 spins.
abbrev contended : System
contended = record {
  flag = true;
  pc =
      Spin.update (Spin.update (Spin.update (λ _. Spin.outside) 2 Spin.spinning) 2 Spin.entered) 5
        Spin.spinning;
}

contended-Reach : Reach contended
unfolding spin
contended-Reach =
    later (later (later begin (goes 2 Spin.spinning false makes)) (goes 2 Spin.entered true tests))
      (goes 5 Spin.spinning true makes)

Reach-is_inside_example :
    ((i j : ℕ) → is_inside (contended.pc i) ≡ true → is_inside (contended.pc j) ≡ true → i ≡ j)
    × ((i : ℕ) → is_inside (contended.pc i) ≡ true → (spin true).0 ≡ true)
    × ((spin true).0 ≡ true → (i : ℕ) × (is_inside (contended.pc i) ≡ true))
Reach-is_inside_example = Reach-is_inside contended-Reach
