-- ===== src/Timer/Invariant.antt =====
-- The invariant of the timer manager (src/timer.cc), and that `addTimer`, `cancel`, `refresh`,
-- `reset` and `getNextTimer` keep it. Its use: `cancel` never erases `end()`.
use lt.Base.{
  ℕ, ◌≡◌, ◌≢◌, refl, sym, ◌∙◌, Bool, true, false, not, ◌&&◌, inl, inr, List, none, some, arith,
  Bool-cases, ◌==◌, if◌then◌else◌, contains, add64,
}
use mathlib.Core.Path.{subst}
use mathlib.Core.Option.{some-injective}
use lt.Callback.{Callback, is_set, null}
use lt.Timer.{
  Heap, Timer, TimerManager, update, set_insert, set_find, set_erase, init, add_timer, cancel,
  refresh, reset, reset_found, get_next_timer,
}
use lt.Timer.Ordered.{
  Sorted, Sorted-frame, set_insert-contains, set_insert-Sorted, set_erase-contains,
  set_erase-Sorted, set_find_lem,
}

-- The set is in the comparator's order and holds exactly the timers that have a callback.
pub record IsValid (h : Heap) (ts : List ℕ) : Type 0 where
  pub sorted : Sorted h ts
  pub exact : (p : ℕ) → contains ts p ≡ is_set (h p).cb
  pub no_null : contains ts 0 ≡ false

abbrev pub Inv : TimerManager → Type 0
Inv m = IsValid m.heap m.timers

module _ {h : Heap} {ts : List ℕ} (v : IsValid h ts) (p : ℕ) (t : Timer) where
  abbrev changed : Heap
  changed = update h p t

  Sorted-erased : Sorted changed (set_erase p ts)
  Sorted-erased =
      Sorted-frame h changed (set_erase p ts)
        (λ q c. ground (arith, set_erase-contains h p q ts v.sorted))
        (set_erase-Sorted h p ts v.sorted)

  -- A timer out of the set that gets a callback and is inserted.
  pub insert-IsValid :
      p ≢ 0 → is_set t.cb ≡ true → contains ts p ≡ false → IsValid changed (set_insert changed p ts)
  insert-IsValid hp set fresh = record {
    sorted =
        set_insert-Sorted changed p ts (Sorted-frame h changed ts (λ q c. ground arith) v.sorted);
    exact = λ q. ground (arith, set_insert-contains changed p q ts, v.exact q);
    no_null = ground (arith, set_insert-contains changed p 0 ts, v.no_null);
  }

  -- A timer of the set that is erased, changed and inserted again.
  pub move-IsValid :
      is_set t.cb ≡ true
      → contains ts p ≡ true
      → IsValid changed (set_insert changed p (set_erase p ts))
  move-IsValid set old = record {
    sorted = set_insert-Sorted changed p (set_erase p ts) Sorted-erased;
    exact = λ q. ground (
      arith,
      set_insert-contains changed p q (set_erase p ts),
      set_erase-contains h p q ts v.sorted,
      v.exact q,
    );
    no_null = ground (
      arith,
      set_insert-contains changed p 0 (set_erase p ts),
      set_erase-contains h p 0 ts v.sorted,
      v.no_null,
    );
  }

  -- A timer that loses its callback and leaves the set.
  pub erase-IsValid : is_set t.cb ≡ false → IsValid changed (set_erase p ts)
  erase-IsValid unset = record {
    sorted = Sorted-erased;
    exact = λ q. ground (arith, set_erase-contains h p q ts v.sorted, v.exact q);
    no_null = ground (arith, set_erase-contains h p 0 ts v.sorted, v.no_null);
  }

  -- What `find` returns, before or after the change of other fields than the deadline.
  pub set_find-changed :
      t.next ≡ (h p).next → set_find changed p ts ≡ (if is_set (h p).cb then some p else none)
  set_find-changed e =
      set_find_lem changed p ts (Sorted-frame h changed ts (λ q c. ground arith) v.sorted)
      ∙ ground (arith, v.exact p)

pub set_find_valid :
    {h : Heap} {ts : List ℕ}
    → IsValid h ts
    → (p : ℕ) → set_find h p ts ≡ (if is_set (h p).cb then some p else none)
set_find_valid {h} {ts} v p = set_find_lem h p ts v.sorted ∙ ground (arith, v.exact p)

pub init-Inv : (now : ℕ) → Inv (init now)
unfolding init
init-Inv now = record { sorted = tt; exact = λ p. refl; no_null = refl }

-- A new timer: its address is not null, no listed timer has it, and its callback is set.
pub add_timer-Inv :
    (m : TimerManager) (p ms : ℕ) (cb : Callback) (recurring : Bool) (now : ℕ)
    → Inv m
    → p ≢ 0
    → contains m.timers p ≡ false
    → is_set cb ≡ true
    → Inv (add_timer p ms cb recurring now m).0
unfolding add_timer
add_timer-Inv m p ms cb recurring now v hp fresh set = insert-IsValid v p _ hp set fresh

-- What `cancel` does, in full: a timer that has a callback loses it and leaves the set, and any
-- other is left alone. `none`, the undefined `erase(end())`, does not occur.
pub cancel_lem :
    (m : TimerManager) (p : ℕ)
    → Inv m
    → cancel p m
      ≡ some (
          if is_set (m.heap p).cb
          then (
            true,
            record m {
              heap = update m.heap p (record (m.heap p) { cb = null });
              timers = set_erase p m.timers;
            },
          )
          else (false, m))
unfolding cancel
cancel_lem m p v = ground (arith, set_find-changed v p (record (m.heap p) { cb = null }) refl)

-- `refresh` and `reset` in terms of the set, once `find` is settled.
pub refresh_lem :
    (m : TimerManager) (now p : ℕ)
    → Inv m
    → let later = update m.heap p (record (m.heap p) { next = add64 now (m.heap p).ms }) in
      refresh now p m ≡ (
        if is_set (m.heap p).cb
        then (true, record m { heap = later; timers = set_insert later p (set_erase p m.timers) })
        else (false, m))
unfolding refresh
refresh_lem m now p v = ground (arith, set_find_valid v p)

pub reset_lem :
    (m : TimerManager) (ms : ℕ) (from_now : Bool) (now p : ℕ)
    → Inv m
    → reset ms from_now now p m ≡ (
        if ms == (m.heap p).ms && not from_now
        then (true, m, false)
        else if is_set (m.heap p).cb
        then reset_found ms from_now now p p m
        else (false, m, false))
unfolding reset
reset_lem m ms from_now now p v = ground (arith, set_find_valid v p)

pub cancel-Inv :
    (m : TimerManager) (p : ℕ) (r : Bool × TimerManager) → Inv m → cancel p m ≡ some r → Inv r.1
cancel-Inv m p r v e =
    subst (λ (q : Bool × TimerManager). Inv q.1) (some-injective _ _ (sym (cancel_lem m p v) ∙ e))
      (elim (Bool-cases (is_set (m.heap p).cb)) [
        | inl on ↦ rw on (erase-IsValid v p _ refl)
        | inr off ↦ rw off v
      ])

pub refresh-Inv : (m : TimerManager) (now p : ℕ) → Inv m → Inv (refresh now p m).1
refresh-Inv m now p v = rw (refresh_lem m now p v) (elim (Bool-cases (is_set (m.heap p).cb)) [
  | inl on ↦ rw on (move-IsValid v p _ on (v.exact p ∙ on))
  | inr off ↦ rw off v
])

reset_found-Inv :
    (m : TimerManager) (ms : ℕ) (from_now : Bool) (now p : ℕ)
    → Inv m
    → is_set (m.heap p).cb ≡ true
    → Inv (reset_found ms from_now now p p m).1
unfolding reset_found
reset_found-Inv m ms from_now now p v on = move-IsValid v p _ on (v.exact p ∙ on)

pub reset-Inv :
    (m : TimerManager) (ms : ℕ) (from_now : Bool) (now p : ℕ)
    → Inv m
    → Inv (reset ms from_now now p m).1
reset-Inv m ms from_now now p v =
    rw (reset_lem m ms from_now now p v) (
      ground
        (arith, λ (on : is_set (m.heap p).cb ≡ true). reset_found-Inv m ms from_now now p v on))

pub get_next_timer-Inv : (m : TimerManager) (now : ℕ) → Inv m → Inv (get_next_timer now m).1
unfolding get_next_timer
get_next_timer-Inv m now v = v
