-- ===== src/Thread/Names.antt =====
-- The names of threads (src/thread.cc, `GetName` and `SetName`).
use lt.Base.{List, Option, none, some, is_empty, if◌then◌else◌, ℕ, ◌≡◌, Bool-cases, inl, inr}

-- The name of the object at `t_thread`, if the thread has one, and `t_thread_name`.
pub record Names : Type 0 where
  pub object : Option (List ℕ)
  pub thread_name : List ℕ

abbrev renamed : List ℕ → Option (List ℕ) → Option (List ℕ)
renamed name none = none
renamed name (some _) = some name

-- `Thread::SetName`.
unfoldable pub set_name : List ℕ → Names → Names
set_name name n =
    if is_empty name then n else record { object = renamed name n.object; thread_name = name }

-- The object of a thread, where it has one, keeps the name that the thread has.
abbrev pub IsNamed : Names → Type 0
IsNamed n = (name : List ℕ) → n.object ≡ some name → name ≡ n.thread_name

pub set_name-IsNamed : (name : List ℕ) (n : Names) → IsNamed n → IsNamed (set_name name n)
unfolding set_name
set_name-IsNamed name n h = elim (Bool-cases (is_empty name)) [
  | inl empty ↦ rw empty h
  | inr given ↦ rw given (λ x e. named x n.object e)
]
  where
    named : (x : List ℕ) (o : Option (List ℕ)) → renamed name o ≡ some x → x ≡ name
    named x none e = cc
    named x (some _) e = cc
