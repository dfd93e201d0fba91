-- ===== src/Lock/Guards.antt =====
-- What the guards call (include/mutex.h).
use lt.Base.{◌≡◌, refl, Bool, true, false, List, [], ◌∷◌, ◌++◌, Bool-cases, inl, inr}
use mathlib.Core.Path.{subst}
use lt.Lock.{Mode, MutexCall, takes, releases, Guard, new_guard, lock, unlock, delete_guard}

-- The user's calls on a guard.
pub data Use : Type 0 where
  locks unlocks : Use

unfoldable pub use_guard : List Use → Guard → Guard
use_guard [] g = g
use_guard (locks ∷ us) g = use_guard us (lock g)
use_guard (unlocks ∷ us) g = use_guard us (unlock g)

-- The mutex is taken in one mode and released, in turn; the flag says that it is taken at the end.
pub data Turns (mode : Mode) : Bool → List MutexCall → Type 0 where
  untouched : Turns mode false []
  taken : {cs : List MutexCall} → Turns mode false cs → Turns mode true (cs ++ takes mode ∷ [])
  released : {cs : List MutexCall} → Turns mode true cs → Turns mode false (cs ++ releases ∷ [])

abbrev IsFair : Mode → Guard → Type 0
IsFair mode g = (g.mode ≡ mode) × Turns mode g.locked g.calls

lock-IsFair :
    (mode : Mode) (g : Guard) → IsFair mode g → IsFair mode (lock g) × ((lock g).locked ≡ true)
unfolding lock
lock-IsFair mode g (m, t) = elim (Bool-cases g.locked) [
  | inl held ↦ rw held ((m, subst (λ b. Turns mode b g.calls) held t), refl)
  | inr free ↦ rw free ((m, rw m (taken (subst (λ b. Turns mode b g.calls) free t))), refl)
]

unlock-IsFair :
    (mode : Mode) (g : Guard) → IsFair mode g → IsFair mode (unlock g) × ((unlock g).locked ≡ false)
unfolding unlock
unlock-IsFair mode g (m, t) = elim (Bool-cases g.locked) [
  | inl held ↦ rw held ((m, released (subst (λ b. Turns mode b g.calls) held t)), refl)
  | inr free ↦ rw free ((m, subst (λ b. Turns mode b g.calls) free t), refl)
]

use_guard-IsFair :
    (us : List Use) (mode : Mode) (g : Guard) → IsFair mode g → IsFair mode (use_guard us g)
unfolding use_guard
use_guard-IsFair [] mode g f = f
use_guard-IsFair (locks ∷ us) mode g f = use_guard-IsFair us mode (lock g) (lock-IsFair mode g f).0
use_guard-IsFair (unlocks ∷ us) mode g f =
    use_guard-IsFair us mode (unlock g) (unlock-IsFair mode g f).0

-- Whatever calls of `lock` and `unlock` are made on a guard, from its constructor to its destructor
-- the mutex is taken, in the guard's mode, and released in turn, and it is released at the end.
pub guards_take_turns :
    (mode : Mode) (us : List Use)
    → Turns mode (use_guard us (new_guard mode)).locked (use_guard us (new_guard mode)).calls
      × Turns mode false (delete_guard (use_guard us (new_guard mode))).calls
unfolding new_guard delete_guard
guards_take_turns mode us =
    let f = use_guard-IsFair us mode (new_guard mode) (refl, taken untouched) in
    let (d, free) = unlock-IsFair mode (use_guard us (new_guard mode)) f in
    (f.1, subst (λ b. Turns mode b (unlock (use_guard us (new_guard mode))).calls) free d.1)
