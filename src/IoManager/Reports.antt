-- ===== src/IoManager/Reports.antt =====
-- The reports of one call of `epoll_wait` (src/iomanager.cc, `idle`).
use Prim.Native.Nat.{bit_or}
use mathlib.Core.Path.{subst}
use lt.Base.{
  Bool-cases, ltb, ℕ, ◌≡◌, ◌≢◌, refl, sym, ap, ◌∙◌, true, inl, inr, if◌then◌else◌, List, [], ◌∷◌,
  ◌++◌, append_nil, append_assoc, Option, none, some, arith, ◌==◌, length, get_elem?,
  get_elem?-some, if_true, if_false, ==_false,
}
use lt.IoManager.Events.{read, write, has}
use lt.IoManager.{FdContext, epollet, Epoll, Manager}
use lt.Scheduler.{ScheduleTask}
use lt.IoManager.Weights.{SameWaiters}
use lt.IoManager.Poll.{handle_event, handle_events}
use lt.IoManager.Sync.{none-some, Inv}
use lt.IoManager.Local.{waiters}
use lt.IoManager.Handled.{Covers, ready_tasks, handle_event-Handled}
use lt.IoManager.Watched.{known, asked_for}

-- No report of the rest names the handle.
unfoldable pub Absent : ℕ → List (ℕ × ℕ) → Type 0
Absent i [] = Unit {0}
Absent i (r ∷ rest) = (i ≢ r.0) × Absent i rest

module _ (E : Epoll) where
  open E use {State, registered}

  -- What `epoll_wait` may report of a handle: events that it watches, errors and hang-ups.
  abbrev pub IsReport : State → ℕ × ℕ → Type 0
  IsReport k (i, fired) =
      (mask : ℕ) × (registered k i ≡ some mask)
      × (has fired read ≡ true → has mask read ≡ true)
      × (has fired write ≡ true → has mask write ≡ true)

  -- Reports of one call: each handle at most once, and no other than `epoll` watches. The tickle pipe
  -- may be among them.
  unfoldable pub AreReports : ℕ → State → List (ℕ × ℕ) → Type 0
  AreReports tickle k [] = Unit {0}
  AreReports tickle k (r ∷ rest) =
      (r.0 ≢ tickle → IsReport k r) × Absent r.0 rest × AreReports tickle k rest

  watched-events :
      (i : ℕ) (m : Manager E)
      → Inv E m
      → i ≢ m.tickle_fd
      → (mask : ℕ) → registered m.epoll i ≡ some mask
      → (c : FdContext) × (get_elem? m.contexts i ≡ some c) × (mask ≡ bit_or epollet c.events)
  watched-events i m v ne mask reg = elim (Bool-cases (ltb i (length m.contexts))) [
    | inl inside ↦
        let (c, at) = get_elem?-some m.contexts i (ground (arith, inside)) in
        (c, at, asked_for c.events mask (sym (v.sync i c at ne) ∙ reg))
    | inr beyond ↦ absurd (none-some mask (sym (v.outside i (ground (arith, beyond)) ne) ∙ reg))
  ]

  report-Covers :
      (i fired : ℕ) (m : Manager E)
      → Inv E m
      → i ≢ m.tickle_fd
      → IsReport m.epoll (i, fired)
      → (c : FdContext) × (get_elem? m.contexts i ≡ some c) × Covers E fired c
  report-Covers i fired m v ne (mask, reg, reads, writes) =
      let (c, at, e) = watched-events i m v ne mask reg in
      let sound = (v.local.contexts i c at).mask in
      (
        c,
        at,
        (
          (λ h. known c.events mask read sound e (reads h)),
          (λ h. known c.events mask write sound e (writes h)),
        ),
      )

  -- The rest of the reports stay what they are if only the handle `i` is watched for less.
  AreReports-after :
      (tickle i : ℕ) (k k' : State) (rest : List (ℕ × ℕ))
      → ((g : ℕ) → i ≢ g → registered k' g ≡ registered k g)
      → Absent i rest
      → AreReports tickle k rest
      → AreReports tickle k' rest
  unfolding AreReports Absent
  AreReports-after tickle i k k' [] same a r = r
  AreReports-after tickle i k k' (x ∷ rest) same a r = (
    λ ne. let (mask, reg, reads, writes) = r.0 ne in (mask, same x.0 a.0 ∙ reg, reads, writes),
    r.1,
    AreReports-after tickle i k k' rest same a.1 r.2,
  )

  -- What one report leaves.
  abbrev Left : ℕ → Manager E → Manager E → Type 0
  Left i m m' =
      Inv E m'
      × (m'.tickle_fd ≡ m.tickle_fd)
      × ((g : ℕ) → i ≢ g → registered m'.epoll g ≡ registered m.epoll g)
      × (waiters m' ≡ waiters m)
      × SameWaiters m m'
      × (added : List (ℕ × ScheduleTask)) × (m'.scheduled ≡ m.scheduled ++ added)

  abbrev with_context : ℕ → Manager E → Option FdContext → Option (Manager E)
  with_context fired m none = none
  with_context fired m (some c) = handle_event E fired c m

  abbrev here : ℕ → ℕ → Manager E → Option (Manager E)
  here i fired m =
      if i == m.tickle_fd then some m else with_context fired m (get_elem? m.contexts i)

  abbrev and_rest : List (ℕ × ℕ) → Option (Manager E) → Option (Manager E)
  and_rest rest none = none
  and_rest rest (some m') = handle_events E rest m'

  here-Left :
      (i fired : ℕ) (m : Manager E)
      → Inv E m
      → (i ≢ m.tickle_fd → IsReport m.epoll (i, fired))
      → (m' : Manager E) × (here i fired m ≡ some m') × Left i m m'
  here-Left i fired m v report = elim (Bool-cases (i == m.tickle_fd)) [
    | inl pipe ↦ (
      m,
      if_true (i == m.tickle_fd) _ _ pipe,
      (v, refl, (λ g ne. refl), refl, (λ w. refl), [], sym (append_nil m.scheduled)),
    )
    | inr other ↦
        let ne : i ≢ m.tickle_fd = ==_false _ _ other in
        let (c, at, covers) = report-Covers i fired m v ne (report ne) in
        let (m', eq, h) = handle_event-Handled E fired i c m v at covers in
        (
          m',
          if_false (i == m.tickle_fd) _ _ other ∙ (ap (with_context fired m) at ∙ eq),
          (
            h.kept,
            h.same_tickle,
            h.others,
            h.balanced,
            h.same_waiters,
            ready_tasks E fired c m,
            h.tasks,
          ),
        )
  ]

  -- The reports of one call of `epoll_wait` are all handled without a failed assertion, where every
  -- handle is reported at most once, with events that it is watched for, errors or hang-ups: and then
  -- the invariant holds, the tasks that were scheduled before are still first, and the same waiters are
  -- pending or scheduled.
  pub handle_events-Handled :
      (reports : List (ℕ × ℕ)) (m : Manager E)
      → Inv E m
      → AreReports m.tickle_fd m.epoll reports
      → (m' : Manager E) × (handle_events E reports m ≡ some m')
        × Inv E m'
        × (waiters m' ≡ waiters m)
        × SameWaiters m m'
        × (added : List (ℕ × ScheduleTask)) × (m'.scheduled ≡ m.scheduled ++ added)
  unfolding handle_events AreReports
  handle_events-Handled [] m v ok =
      (m, refl, v, refl, (λ w. refl), [], sym (append_nil m.scheduled))
  handle_events-Handled ((i, fired) ∷ rest) m v ok =
      let (m_1, eq, (v_1, tickle, same, same_1, known_1, first, tasks_1)) =
        here-Left i fired m v ok.0 in
      let still : AreReports m_1.tickle_fd m_1.epoll rest =
        subst (λ t. AreReports t m_1.epoll rest) (sym tickle)
          (AreReports-after m.tickle_fd i m.epoll m_1.epoll rest same ok.1 ok.2) in
      let (m_2, eq_2, v_2, same_2, known_2, more, tasks_2) =
        handle_events-Handled rest m_1 v_1 still in
      (
        m_2,
        ap (and_rest rest) eq ∙ eq_2,
        v_2,
        same_2 ∙ same_1,
        (λ w. known_2 w ∙ known_1 w),
        first ++ more,
        tasks_2 ∙ (ap (λ s. s ++ more) tasks_1 ∙ append_assoc m.scheduled first more),
      )
