-- ===== src/Timer/Tests.antt =====
-- Runs of the timer manager (src/timer.cc), and the theorems about it at concrete managers.
use lt.Base.{◌≡◌, refl, true, false, [], ◌∷◌, arith, contains}
use lt.Callback.{user}
use lt.Timer.{
  TimerManager, init, add_timer, get_next_timer, list_expired_cb, comparator, set_insert,
}
use lt.Timer.Invariant.{Inv}
use lt.Timer.Expired.{list_expired_cb-callbacks, list_expired_cb-state}
use lt.Timer.Next.{get_next_timer_exact}
use lt.Timer.History.{Reach, start, later, adds, timers_Reach-Inv}

-- At time 1000: a timer of 30 ms, then a recurring one of 20 ms.
abbrev one_timer : TimerManager
one_timer = (add_timer 1 30 (user 7) false 1000 (init 1000)).0

abbrev two_timers : TimerManager
two_timers = (add_timer 2 20 (user 8) true 1000 one_timer).0

two_timers-Reach : Reach two_timers
unfolding add_timer init set_insert comparator
two_timers-Reach =
    later (later (start 1000) (adds 1 30 (user 7) false 1000 (omega arith, refl) refl))
      (adds 2 20 (user 8) true 1000 (omega arith, refl) refl)

two_timers-Inv : Inv two_timers
two_timers-Inv = timers_Reach-Inv two_timers-Reach

two_timers_order : two_timers.timers ≡ 2 ∷ 1 ∷ []
unfolding add_timer init set_insert comparator
two_timers_order = refl

expired_at_1025 : (list_expired_cb 1025 9 two_timers).0 ≡ user 8 ∷ []
unfolding add_timer init set_insert comparator list_expired_cb
expired_at_1025 = refl

left_at_1025 : (list_expired_cb 1025 9 two_timers).1.timers ≡ 1 ∷ 2 ∷ []
unfolding add_timer init set_insert comparator list_expired_cb
left_at_1025 = refl

list_expired_cb-callbacks_example : (list_expired_cb 1040 9 two_timers).0 ≡ user 8 ∷ user 7 ∷ []
unfolding add_timer init set_insert comparator list_expired_cb
list_expired_cb-callbacks_example =
    list_expired_cb-callbacks two_timers 1040 9 two_timers-Inv (omega arith) refl

list_expired_cb-state_example : contains (list_expired_cb 1040 9 two_timers).1.timers 2 ≡ true
unfolding add_timer init set_insert comparator list_expired_cb
list_expired_cb-state_example =
    (list_expired_cb-state two_timers 1040 9 two_timers-Inv (omega arith) refl 2).0

timers_Reach-Inv_example : Inv two_timers
timers_Reach-Inv_example = timers_Reach-Inv two_timers-Reach

get_next_timer_exact_example : (get_next_timer 1005 two_timers).1.tickled ≡ false
unfolding add_timer init set_insert comparator
get_next_timer_exact_example =
    (get_next_timer_exact two_timers 1005 two_timers-Inv (λ p. ground arith) (omega arith)).2
