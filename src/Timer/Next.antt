-- ===== src/Timer/Next.antt =====
-- `getNextTimer` against `listExpiredCb`, and the clock rollover test (src/timer.cc).
use mathlib.Core.Path.{subst}
use lt.Base.{
  ℕ, ◌+◌, ◌≤◌, ◌<◌, ◌≡◌, ◌≢◌, ◌↔◌, refl, sym, ap, ◌∙◌, true, false, List, [], ◌∷◌, map, arith,
  contains, u64_mod, u64_max,
}
use lt.Timer.{Heap, TimerManager, get_next_timer, detect_clock_rollover, list_expired_cb}
use lt.Timer.Ordered.{Sorted}
use lt.Timer.Invariant.{Inv}
use lt.Timer.Pending.{select}
use lt.Timer.Expiry.{is_due, none_due_after, select-cong, select-all}
use lt.Timer.Expired.{expires, list_expired_cb-callbacks}

iff_trans {ℓ κ μ} : {A : Type ℓ} {B : Type κ} {C : Type μ} → A ↔ B → B ↔ C → A ↔ C
iff_trans f g = ((λ a. g.0 (f.0 a)), (λ c. f.1 (g.1 c)))

first_due :
    (h : Heap) (t p : ℕ) (ps : List ℕ)
    → Sorted h (p ∷ ps)
    → contains (p ∷ ps) 0 ≡ false
    → (select (is_due h t) (p ∷ ps) ≡ []) ↔ (t < (h p).next)
first_due h t p ps s z =
    ((λ e. ground arith), (λ lt. ground (arith, (none_due_after h t p ps (ground arith) lt s.0).0)))

next_lem :
    (m : TimerManager) (now : ℕ) (p : ℕ) (ps : List ℕ)
    → m.timers ≡ p ∷ ps
    → (m.heap p).next < u64_mod
    → now < u64_mod
    → (t : ℕ) → now ≤ t
    → (t < (m.heap p).next) ↔ (t < now + (get_next_timer now m).0)
unfolding get_next_timer
next_lem m now p ps e hp hn t le = rw (e, get_next_timer) (ground arith)

pub next-ne-max :
    (m : TimerManager) (now : ℕ) (p : ℕ) (ps : List ℕ)
    → m.timers ≡ p ∷ ps
    → (m.heap p).next < u64_mod
    → 0 < now
    → (get_next_timer now m).0 ≢ u64_max
unfolding get_next_timer
next-ne-max m now p ps e hp hn = rw (e, get_next_timer) (λ h. ground arith)

-- The time to wait that `getNextTimer` returns is exact. With a timer set, at any later time `t` no
-- timer is due if and only if less than the returned time has passed. With none set it returns
-- `~0ull`. It lets the next insertion at the front call `onTimerInsertedAtFront` again.
pub get_next_timer_exact :
    (m : TimerManager) (now : ℕ)
    → Inv m
    → ((p : ℕ) → (m.heap p).next < u64_mod)
    → now < u64_mod
    → ((m.timers ≡ []) → (get_next_timer now m).0 ≡ u64_max)
      × ((m.timers ≢ [])
          → (t : ℕ) → now ≤ t
          → (select (is_due m.heap t) m.timers ≡ []) ↔ (t < now + (get_next_timer now m).0))
      × ((get_next_timer now m).1.tickled ≡ false)
unfolding get_next_timer
get_next_timer_exact m now v bound hn = (
  (λ e. rw (e, get_next_timer)),
  (λ some_timer t le. exact_at m.timers refl t le some_timer),
  refl,
)
  where
    exact_at :
        (xs : List ℕ)
        → m.timers ≡ xs
        → (t : ℕ) → now ≤ t
        → xs ≢ []
        → (select (is_due m.heap t) xs ≡ []) ↔ (t < now + (get_next_timer now m).0)
    exact_at [] e t le ne = absurd (ne refl)
    exact_at (p ∷ ps) e t le ne =
        iff_trans
          (first_due m.heap t p ps (subst (Sorted m.heap) e v.sorted)
            (ap (λ (l : List ℕ). contains l 0) (sym e) ∙ v.no_null))
          (next_lem m now p ps e (bound p) hn t le)

-- Within the first hour after boot (`m_previouseTime` below 3600000), any reading of the clock that
-- is older than the last one counts as a rollover: every timer's callback is returned, due or not.
pub early_rollover :
    (m : TimerManager) (now tmp : ℕ)
    → Inv m
    → tmp ≢ 0
    → contains m.timers tmp ≡ false
    → m.previouse_time < 3600000
    → now < m.previouse_time
    → (list_expired_cb now tmp m).0 ≡ map (λ q. (m.heap q).cb) m.timers
unfolding detect_clock_rollover
early_rollover m now tmp v htmp fresh early stale =
    list_expired_cb-callbacks m now tmp v htmp fresh
    ∙ ap (map (λ q. (m.heap q).cb))
        (select-cong _ (λ q. true) m.timers (λ q c. ground arith) ∙ select-all m.timers)

-- `getNextTimer` does not change what expires.
pub expires-get_next_timer :
    (m : TimerManager) (now later : ℕ) → expires later (get_next_timer now m).1 ≡ expires later m
unfolding get_next_timer detect_clock_rollover
expires-get_next_timer m now later = refl
