-- ===== src/Lock/Exclusion.antt =====
-- The spinning lock lets one thread in (include/mutex.h, `CASLock`).
use lt.Base.{
  ℕ, ◌≡◌, refl, sym, ◌∙◌, Bool, true, false, Option, none, some, arith, ◌==◌, if◌then◌else◌, ==_iff,
}
use lt.Lock.{spin, clear}
use lt.Lock.Spin.{
  Pc, outside, spinning, entered, locked, unlocked, leaving, left, System, update, Move, makes,
  locks, tests, enters, unlocks, clears, leaves, deletes, goes, Reach, begin, later,
}

-- The thread has the lock: from the end of its loop until it clears the flag.
unfoldable pub is_inside : Pc → Bool
is_inside outside = false
is_inside spinning = false
is_inside entered = true
is_inside locked = true
is_inside unlocked = false
is_inside (leaving dying) = true
is_inside (left dying) = false

abbrev is_owner : Option ℕ → ℕ → Bool
is_owner none i = false
is_owner (some j) i = j == i

abbrev is_owned : Option ℕ → Bool
is_owned none = false
is_owned (some j) = true

record Inv (s : System) : Type 0 where
  owner : Option ℕ
  held : s.flag ≡ is_owned owner
  only : (i : ℕ) → is_inside (s.pc i) ≡ is_owner owner i

-- What one thread does to the lock: nothing, it takes it where it is free, or gives back what it has.
data Change (flag : Bool) (p q : Pc) (flag' : Bool) : Type 0 where
  nothing : flag' ≡ flag → is_inside q ≡ is_inside p → Change flag p q flag'
  comes_in : flag ≡ false → flag' ≡ true → is_inside q ≡ true → Change flag p q flag'
  goes_out : is_inside p ≡ true → flag' ≡ false → is_inside q ≡ false → Change flag p q flag'

tests-Change :
    (flag : Bool) → Change flag spinning (if (spin flag).0 then spinning else entered) (spin flag).1
unfolding is_inside spin
tests-Change true = nothing refl refl
tests-Change false = comes_in refl refl refl

Move-Change : {flag flag' : Bool} {p q : Pc} → Move flag p q flag' → Change flag p q flag'
unfolding is_inside spin clear
Move-Change makes = nothing refl refl
Move-Change locks = nothing refl refl
Move-Change {flag} tests = tests-Change flag
Move-Change enters = nothing refl refl
Move-Change (unlocks dying) = nothing refl refl
Move-Change (clears dying) = goes_out refl refl refl
Move-Change (leaves true) = nothing refl refl
Move-Change (leaves false) = nothing refl refl
Move-Change deletes = nothing refl refl

nobody : (o : Option ℕ) (j : ℕ) → is_owned o ≡ false → is_owner o j ≡ false
nobody none j e = refl
nobody (some k) j e = cc

alone : (o : Option ℕ) (i j : ℕ) → is_owner o i ≡ true → (i == j) ≡ false → is_owner o j ≡ false
alone none i j e n = refl
alone (some k) i j e n = ground (arith, e, n)

change-Inv :
    (s : System) (i : ℕ) (q : Pc) (flag' : Bool)
    → Change s.flag (s.pc i) q flag'
    → Inv s
    → Inv (record { flag = flag'; pc = update s.pc i q })
change-Inv s i q flag' (nothing f e) v = record {
  owner = v.owner;
  held = f ∙ v.held;
  only = λ j. ground (arith, v.only j, v.only i, e);
}
change-Inv s i q flag' (comes_in free f e) v = record {
  owner = some i;
  held = f;
  only = λ j. ground (arith, v.only j, nobody v.owner j (sym v.held ∙ free), e);
}
change-Inv s i q flag' (goes_out h f e) v = record {
  owner = none;
  held = f;
  only = λ j. ground (arith, v.only j, alone v.owner i j (sym (v.only i) ∙ h), e);
}

Reach-Held : {s : System} → Reach s → Inv s
unfolding is_inside
Reach-Held begin = record { owner = none; held = refl; only = λ i. refl }
Reach-Held (later r (goes i p flag m)) = change-Inv _ i p flag (Move-Change m) (Reach-Held r)

-- In every reachable state at most one thread has the lock, the flag is set then, and whenever it is
-- set some thread has the lock; so a thread that tests the flag gets in exactly if nobody has the lock.
pub Reach-is_inside :
    {s : System}
    → Reach s
    → ((i j : ℕ) → is_inside (s.pc i) ≡ true → is_inside (s.pc j) ≡ true → i ≡ j)
      × ((i : ℕ) → is_inside (s.pc i) ≡ true → (spin s.flag).0 ≡ true)
      × ((spin s.flag).0 ≡ true → (i : ℕ) × (is_inside (s.pc i) ≡ true))
unfolding spin
Reach-is_inside {s} r = let v = Reach-Held r in by_owner s v.owner v.held v.only
  where
    by_owner :
        (s : System) (o : Option ℕ)
        → s.flag ≡ is_owned o
        → ((i : ℕ) → is_inside (s.pc i) ≡ is_owner o i)
        → ((i j : ℕ) → is_inside (s.pc i) ≡ true → is_inside (s.pc j) ≡ true → i ≡ j)
          × ((i : ℕ) → is_inside (s.pc i) ≡ true → s.flag ≡ true)
          × (s.flag ≡ true → (i : ℕ) × (is_inside (s.pc i) ≡ true))
    by_owner s none f only = (
      λ i j p q. ground (arith, only i, p),
      λ i p. ground (arith, only i, p),
      λ t. ground (arith, f, t),
    )
    by_owner s (some k) f only = (
      λ i j p q. ground (arith, only i, only j, p, q),
      λ i p. f,
      λ t. (k, only k ∙ (==_iff k k).1 refl),
    )
