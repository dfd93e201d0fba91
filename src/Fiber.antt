-- ===== src/Fiber.antt =====
-- src/fiber.cc and include/fiber.h: coroutines. A fiber is a heap cell known by its address, 0 is
-- the null pointer. The thread's variables `p_cur_running_fiber`, `main_fiber` and the scheduler's
-- main fiber stand in the state, with the fiber whose context the thread executes; a
-- `swapcontext(&a, &b)` leaves the context `a` and enters `b`. `none` is a failed `LT_ASSERT`.
pub mod Laws
pub mod Tests
use lt.Base.{
  ℕ, ◌+◌, ◌-◌, Bool, true, false, not, ◌&&◌, ◌||◌, Option, none, some, ◌==◌, if◌then◌else◌,
}
use lt.Callback.{Callback, null, is_set}

pub data State : Type 0 where
  ready running term : State

abbrev pub is_running : State → Bool
is_running running = true
is_running ready = false
is_running term = false

abbrev pub is_term : State → Bool
is_term term = true
is_term ready = false
is_term running = false

pub record Fiber : Type 0 where
  pub id : ℕ
  -- `m_stack != nullptr`: no stack for a thread's main fiber
  pub has_stack : Bool
  pub state : State
  pub cb : Callback
  pub run_in_scheduler : Bool

pub record Thread : Type 0 where
  pub fibers : ℕ → Fiber
  -- `p_cur_running_fiber`
  pub cur : ℕ
  pub main_fiber : ℕ
  -- `t_scheduler_fiber`
  pub scheduler_fiber : ℕ
  -- the fiber whose context runs
  pub context : ℕ
  -- `s_fiber_id`, `s_fiber_count`
  pub fiber_id : ℕ
  pub fiber_count : ℕ

abbrev pub put : ℕ → Fiber → Thread → Thread
put p f s = record s { fibers = λ q. if p == q then f else s.fibers q }

-- `swapcontext`: the context `from` is saved, the context `to` runs.
abbrev pub swap_context : ℕ → ℕ → Thread → Thread
swap_context from to s = record s { context = to }

-- `Fiber::GetThis`; `p` is the address of the main fiber that it makes if there is none.
pub get_this : ℕ → Thread → ℕ × Thread
get_this p s =
    let main : Fiber = record {
      id = s.fiber_id;
      has_stack = false;
      state = running;
      cb = null;
      run_in_scheduler = false;
    } in
    if s.cur == 0
    then (
      p,
      record (put p main s) {
        cur = p;
        main_fiber = p;
        context = p;
        fiber_id = s.fiber_id + 1;
        fiber_count = s.fiber_count + 1;
      },
    )
    else (s.cur, s)

-- `Fiber::Fiber(cb, stacksize, run_in_scheduler)` at address `p`.
unfoldable pub new_fiber : ℕ → Callback → Bool → Thread → Thread
new_fiber p cb run_in_scheduler s =
    let f : Fiber = record {
      id = s.fiber_id;
      has_stack = true;
      state = ready;
      cb = cb;
      run_in_scheduler = run_in_scheduler;
    } in
    record (put p f s) { fiber_id = s.fiber_id + 1; fiber_count = s.fiber_count + 1 }

-- `Fiber::~Fiber`.
unfoldable pub delete_fiber : ℕ → Thread → Option Thread
delete_fiber p s =
    let f = s.fibers p in
    let less = record s { fiber_count = s.fiber_count - 1 } in
    if f.has_stack
    then (if is_term f.state then some less else none)
    else if not (is_set f.cb) && is_running f.state
    then some (if s.cur == p then record less { cur = 0 } else less)
    else none

-- `Fiber::reset`.
pub reset : ℕ → Callback → Thread → Option Thread
reset p cb s =
    let f = s.fibers p in
    if f.has_stack && is_term f.state
    then some (put p (record f { cb = cb; state = ready }) s)
    else none

-- The context that a fiber is resumed from and yields to.
abbrev pub home : Fiber → Thread → ℕ
home f s = if f.run_in_scheduler then s.scheduler_fiber else s.main_fiber

-- `Fiber::resume`.
unfoldable pub resume : ℕ → Thread → Option Thread
resume p s =
    let f = s.fibers p in
    let s' = put p (record f { state = running }) (record s { cur = p }) in
    if not (is_term f.state) && not (is_running f.state)
    then some (swap_context (home f s) p s')
    else none

-- `Fiber::yield`.
unfoldable pub yield : ℕ → Thread → Option Thread
yield p s =
    let f = s.fibers p in
    let s' = record s { cur = s.main_fiber } in
    let s'' = if is_term f.state then s' else put p (record f { state = ready }) s' in
    if is_running f.state || is_term f.state then some (swap_context p (home f s) s'') else none

-- `Fiber::MainFunc` after `m_cb()` has returned: the callback is dropped, the fiber ends and yields.
unfoldable pub finish : ℕ → Thread → Option Thread
unfolding yield
finish p s = yield p (put p (record (s.fibers p) { cb = null; state = term }) s)
