-- ===== src/IoManager/Round.antt =====
-- One round of the loop of `idle` (src/iomanager.cc): ask, wait, hand on what has expired and what
-- has happened.
use lt.Base.{
  ℕ, zero, suc, ◌≡◌, ◌≢◌, refl, sym, ap, ap₂, ◌∙◌, ◌&&◌, ◌==◌, length, Bool-cases, inl, inr, Bool,
  true, false, List, [], ◌∷◌, ◌++◌, map, Option, none, some, arith, if◌then◌else◌, contains, All,
  append_assoc, append_nil, if_true, if_false,
}
use lt.Callback.{Callback, is_set}
use lt.Timer.{Heap, TimerManager, get_next_timer, list_expired_cb}
use lt.Timer.Invariant.{Inv}
use lt.Timer.Pending.{select, select-contains}
use mathlib.Core.Path.{subst}
use lt.Timer.Expired.{expires, list_expired_cb-callbacks}
use lt.Scheduler.{ScheduleTask, Scheduler, has_work, schedule}
use lt.IoManager.{Epoll, Manager}
use lt.IoManager.Poll.{handle_events}
use lt.IoManager.Idle.{stopping}

abbrev pub callback_task : Callback → ScheduleTask
callback_task cb = record { fiber = 0; cb = cb; thread = none }

-- `for(const auto &cb : cbs) schedule(cb);`
pub schedule_all : List Callback → Scheduler → Scheduler
schedule_all [] s = s
schedule_all (cb ∷ cbs) s = schedule_all cbs (schedule (callback_task cb) s).1

schedule_all-tasks :
    (cbs : List Callback) (s : Scheduler)
    → All (λ cb. is_set cb ≡ true) cbs
    → (schedule_all cbs s).tasks ≡ s.tasks ++ map callback_task cbs
unfolding schedule_all schedule
schedule_all-tasks [] s h = sym (append_nil s.tasks)
schedule_all-tasks (cb ∷ cbs) s h =
    schedule_all-tasks cbs (schedule (callback_task cb) s).1 h.1
    ∙ (ap (λ ts. ts ++ map callback_task cbs)
          (if_true (has_work (callback_task cb)) _ _ (ground (arith, h.0)))
        ∙ append_assoc s.tasks (callback_task cb ∷ []) (map callback_task cbs))

callbacks_given :
    (h : Heap) (xs : List ℕ)
    → ((q : ℕ) → contains xs q ≡ true → is_set (h q).cb ≡ true)
    → All (λ cb. is_set cb ≡ true) (map (λ q. (h q).cb) xs)
callbacks_given h [] set = tt
callbacks_given h (x ∷ xs) set =
    (set x (ground arith), callbacks_given h xs (λ q c. set q (ground arith)))

-- The tasks that `triggerEvent` has given to `schedule` go to the queue of their scheduler, here that
-- of `self`.
pub schedule_own : ℕ → List (ℕ × ScheduleTask) → Scheduler → Scheduler
schedule_own self [] s = s
schedule_own self ((k, task) ∷ rest) s =
    schedule_own self rest (if k == self then (schedule task s).1 else s)

-- Those of a list that a queue takes: of the scheduler `self`, with a fiber or a callback.
pub own_tasks : ℕ → List (ℕ × ScheduleTask) → List ScheduleTask
own_tasks self [] = []
own_tasks self ((k, task) ∷ rest) =
    if (k == self) && has_work task then task ∷ own_tasks self rest else own_tasks self rest

-- A list without the first `n` elements.
later_tasks : ℕ → List (ℕ × ScheduleTask) → List (ℕ × ScheduleTask)
later_tasks zero xs = xs
later_tasks (suc n) [] = []
later_tasks (suc n) (x ∷ xs) = later_tasks n xs

later_tasks-length : (xs ys : List (ℕ × ScheduleTask)) → later_tasks (length xs) (xs ++ ys) ≡ ys
unfolding later_tasks
later_tasks-length [] ys = refl
later_tasks-length (x ∷ xs) ys = later_tasks-length xs ys

schedule-tasks :
    (self k : ℕ) (task : ScheduleTask) (s : Scheduler)
    → (if k == self then (schedule task s).1 else s).tasks
      ≡ s.tasks ++ (if (k == self) && has_work task then task ∷ [] else [])
unfolding schedule
schedule-tasks self k task s = elim (Bool-cases (k == self)) [
  | inr e ↦ rw e (sym (append_nil s.tasks))
  | inl e ↦ elim (Bool-cases (has_work task)) [
    | inr w ↦ rw (e, w) (sym (append_nil s.tasks))
    | inl w ↦ rw (e, w) refl
  ]
]

own_tasks-cons :
    (self k : ℕ) (task : ScheduleTask) (rest : List (ℕ × ScheduleTask))
    → (if (k == self) && has_work task then task ∷ [] else []) ++ own_tasks self rest
      ≡ own_tasks self ((k, task) ∷ rest)
unfolding own_tasks
own_tasks-cons self k task rest = elim (Bool-cases ((k == self) && has_work task)) [
  | inl e ↦ rw e refl
  | inr e ↦ rw e refl
]

schedule_own-tasks :
    (self : ℕ) (xs : List (ℕ × ScheduleTask)) (s : Scheduler)
    → (schedule_own self xs s).tasks ≡ s.tasks ++ own_tasks self xs
unfolding schedule_own own_tasks
schedule_own-tasks self [] s = sym (append_nil s.tasks)
schedule_own-tasks self ((k, task) ∷ rest) s =
    schedule_own-tasks self rest _
    ∙ (ap (λ ts. ts ++ own_tasks self rest) (schedule-tasks self k task s)
        ∙ (append_assoc s.tasks _ (own_tasks self rest)
            ∙ ap (◌++◌ s.tasks) (own_tasks-cons self k task rest)))

module _ (E : Epoll) where
  open E use {State}

  -- A round of the scheduler `self` that begins at `now` with `timers`, `m` and `s`. `epoll_wait`
  -- returns with `reports` at `later`, when others have made them `timers₁`, `m₁` and `s₁`; the rest runs
  -- on these. `tmp` is the address of the temporary timer. The flag says that the loop ends; the
  -- inner `none` is a failed assertion.
  pub idle_round :
      ℕ
      → ℕ
      → ℕ
      → ℕ
      → List (ℕ × ℕ)
      → TimerManager × Manager E × Scheduler
      → TimerManager × Manager E × Scheduler
      → Option (Bool × TimerManager × Manager E × Scheduler)
  unfolding schedule_all schedule_own later_tasks
  idle_round self now later tmp reports (timers, m, s) (timers₁, m₁, s₁) =
      let (cbs, left) = list_expired_cb later tmp timers₁ in
      let s₂ = schedule_all cbs s₁ in
      if (stopping now timers m s).0
      then some (true, (get_next_timer now timers).1, m, s)
      else elim (handle_events E reports m₁) [
        | none ↦ none
        | some m' ↦
            some (
              false,
              left,
              m',
              schedule_own self (later_tasks (length m₁.scheduled) m'.scheduled) s₂,
            )
      ]

  -- A round that does not end the loop appends the callbacks of exactly the timers that have expired
  -- after the wait to the queue, in the order of their deadlines, and then the tasks of the events, if
  -- no assertion fails on the events.
  pub idle_round-schedules :
      (self now later tmp : ℕ) (reports : List (ℕ × ℕ)) (timers timers₁ : TimerManager)
      (m m₁ m' : Manager E) (s s₁ : Scheduler) (added : List (ℕ × ScheduleTask))
      → Inv timers₁
      → tmp ≢ 0
      → contains timers₁.timers tmp ≡ false
      → (stopping now timers m s).0 ≡ false
      → handle_events E reports m₁ ≡ some m'
      → m'.scheduled ≡ m₁.scheduled ++ added
      → (left : TimerManager) × (s' : Scheduler) × (idle_round self now later tmp reports
            (timers, m, s)
            (timers₁, m₁, s₁)
          ≡ some (false, left, m', s'))
        × (s'.tasks
            ≡ (s₁.tasks
                ++ map callback_task (
                    map (λ q. (timers₁.heap q).cb) (select (expires later timers₁) timers₁.timers)))
              ++ own_tasks self added)
  unfolding idle_round
  idle_round-schedules self now later tmp reports timers timers₁ m m₁ m' s s₁ added v htmp fresh
        busy ok grows =
      (
        expired.1,
        schedule_own self (later_tasks (length m₁.scheduled) m'.scheduled)
            (schedule_all expired.0 s₁),
        if_false (stopping now timers m s).0 _ _ busy ∙ ap went_on ok,
        schedule_own-tasks self _ (schedule_all expired.0 s₁)
            ∙ ap₂ (λ xs ys. xs ++ own_tasks self ys)
                (schedule_all-tasks expired.0 s₁ given
                  ∙ ap (λ cbs. s₁.tasks ++ map callback_task cbs) callbacks)
                (ap (later_tasks (length m₁.scheduled)) grows
                  ∙ later_tasks-length m₁.scheduled added),
      )
    where
      expired : List Callback × TimerManager
      expired = list_expired_cb later tmp timers₁

      went_on : Option (Manager E) → Option (Bool × TimerManager × Manager E × Scheduler)
      went_on none = none
      went_on (some k) = some (
        false,
        expired.1,
        k,
        schedule_own self (later_tasks (length m₁.scheduled) k.scheduled)
            (schedule_all expired.0 s₁),
      )

      callbacks :
          expired.0 ≡ map (λ q. (timers₁.heap q).cb) (select (expires later timers₁) timers₁.timers)
      callbacks = list_expired_cb-callbacks timers₁ later tmp v htmp fresh

      given : All (λ cb. is_set cb ≡ true) expired.0
      given = subst (All (λ cb. is_set cb ≡ true)) (sym callbacks) (
          callbacks_given timers₁.heap (select (expires later timers₁) timers₁.timers) (λ q c.
            ground (arith, v.exact q, select-contains (expires later timers₁) timers₁.timers q)))
