-- ===== src/Fiber/Laws.antt =====
-- The life of a fiber (src/fiber.cc): resumed and yielded it is back where it was, ended it runs
-- again only after `reset`.
use lt.Base.{ℕ, ◌≡◌, ◌≢◌, ◌↔◌, refl, true, false, ◌⊎◌, none, some, arith}
use lt.Callback.{Callback, null}
use lt.Fiber.{
  ready, running, term, Thread, put, swap_context, home, resume, yield, finish, reset, delete_fiber,
}

-- The states that the calls leave where they succeed.
abbrev pub resumed : ℕ → Thread → Thread
resumed p s =
    swap_context (home (s.fibers p) s) p
      (put p (record (s.fibers p) { state = running }) (record s { cur = p }))

abbrev pub yielded : ℕ → Thread → Thread
yielded p s =
    swap_context p (home (s.fibers p) s)
      (put p (record (s.fibers p) { state = ready }) (record s { cur = s.main_fiber }))

abbrev pub finished : ℕ → Thread → Thread
finished p s =
    swap_context p (home (s.fibers p) s)
      (record (put p (record (s.fibers p) { cb = null; state = term }) s) { cur = s.main_fiber })

-- A ready fiber that is resumed runs its own context; when it yields, the context that resumed it
-- runs again, the thread's current fiber is its main fiber, and the fiber is ready as before: it can
-- be resumed again. No other fiber changes.
pub resume-yield :
    (p : ℕ) (s : Thread)
    → (s.fibers p).state ≡ ready
    → s.context ≡ home (s.fibers p) s
    → (s₁ s₂ : Thread) × (resume p s ≡ some s₁)
      × (s₁.context ≡ p)
      × (s₁.cur ≡ p)
      × ((s₁.fibers p).state ≡ running)
      × (yield p s₁ ≡ some s₂)
      × (s₂.context ≡ s.context)
      × (s₂.cur ≡ s.main_fiber)
      × ((q : ℕ) → s₂.fibers q ≡ s.fibers q)
unfolding resume yield
resume-yield p s e c = (
  resumed p s,
  yielded p (resumed p s),
  ground arith,
  refl,
  refl,
  ground arith,
  ground arith,
  ground arith,
  refl,
  (λ q. ground arith),
)

-- A fiber whose callback has returned is over: it has no callback, it is refused by `resume`, and
-- `reset` makes it ready with the new callback. The destructor accepts it.
pub finish-term :
    (p : ℕ) (cb : Callback) (s : Thread)
    → (s.fibers p).has_stack ≡ true
    → (s₁ : Thread) × (finish p s ≡ some s₁)
      × ((s₁.fibers p).state ≡ term)
      × ((s₁.fibers p).cb ≡ null)
      × (s₁.context ≡ home (s.fibers p) s)
      × (resume p s₁ ≡ none)
      × (delete_fiber p s₁ ≢ none)
      × (s₂ : Thread) × (reset p cb s₁ ≡ some s₂)
      × ((s₂.fibers p).state ≡ ready)
      × ((s₂.fibers p).cb ≡ cb)
unfolding finish resume delete_fiber reset
finish-term p cb s st = (
  finished p s,
  ground arith,
  ground arith,
  ground arith,
  refl,
  ground arith,
  ground arith,
  put p (record ((finished p s).fibers p) { cb = cb; state = ready }) (finished p s),
  ground arith,
  ground arith,
  ground arith,
)

-- `resume` refuses exactly the fibers that run or are over, `reset` exactly those without a stack
-- or not over, and the destructor of a fiber with a stack all that are not over.
pub refusals :
    (p : ℕ) (cb : Callback) (s : Thread)
    → ((resume p s ≡ none) ↔ ((s.fibers p).state ≢ ready))
      × ((reset p cb s ≡ none) ↔ (((s.fibers p).has_stack ≡ false) ⊎ ((s.fibers p).state ≢ term)))
      × ((s.fibers p).has_stack ≡ true → (delete_fiber p s ≡ none) ↔ ((s.fibers p).state ≢ term))
unfolding resume reset delete_fiber
refusals p cb s = (ground arith, ground arith, ground arith)
