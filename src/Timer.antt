-- ===== src/Timer.antt =====
-- src/timer.cc and include/timer.h: timers and their manager. A timer is a heap cell known by its
-- address, as a `shared_ptr` is; address 0 is the null pointer. The set `m_timers` is the list of
-- its addresses in iteration order. The clock is an argument, read where the source reads it.
pub mod Order
pub mod Ordered
pub mod Pending
pub mod Invariant
pub mod Expiry
pub mod Expired
pub mod Calls
pub mod Next
pub mod History
pub mod Tests
use lt.Base.{
  ℕ, ◌+◌, ◌*◌, Bool, true, false, not, ◌&&◌, ◌||◌, List, [], ◌∷◌, ◌++◌, map, Option, none, some,
  ltb, leb, ◌==◌, if◌then◌else◌, is_empty, add64, sub64, u64_max,
}
use lt.Callback.{Callback, null, on_timer, is_set}

pub record Timer : Type 0 where
  pub recurring : Bool
  pub ms : ℕ
  pub next : ℕ
  pub cb : Callback

abbrev pub Heap : Type 0
Heap = ℕ → Timer

abbrev pub update : Heap → ℕ → Timer → Heap
update h p t q = if p == q then t else h q

pub record TimerManager : Type 0 where
  pub timers : List ℕ
  pub heap : Heap
  pub tickled : Bool
  pub previouse_time : ℕ

-- `Timer::Comparator::operator()`.
unfoldable pub comparator : Heap → ℕ → ℕ → Bool
comparator h lhs rhs =
    if lhs == 0 && rhs == 0
    then false
    else if lhs == 0
    then true
    else if rhs == 0
    then false
    else if ltb (h lhs).next (h rhs).next
    then true
    else if ltb (h rhs).next (h lhs).next
    then false
    else ltb lhs rhs

-- `std::set` under the comparator: `insert` keeps an equivalent element.
unfoldable pub set_insert : Heap → ℕ → List ℕ → List ℕ
set_insert h p [] = p ∷ []
set_insert h p (x ∷ xs) =
    if comparator h p x
    then p ∷ x ∷ xs
    else if comparator h x p
    then x ∷ set_insert h p xs
    else x ∷ xs

-- `find`, by the comparator alone; `none` is `end()`.
pub set_find : Heap → ℕ → List ℕ → Option ℕ
set_find h p [] = none
set_find h p (x ∷ xs) =
    if comparator h x p then set_find h p xs else if comparator h p x then none else some x

-- `erase` of the node that an iterator points to.
pub set_erase : ℕ → List ℕ → List ℕ
set_erase it [] = []
set_erase it (x ∷ xs) = if x == it then xs else x ∷ set_erase it xs

-- `insert(val).first == begin()`.
pub is_front : ℕ → List ℕ → Bool
is_front p [] = false
is_front p (x ∷ xs) = x == p

-- `TimerManager::addTimer(val, lock)`; the flag says that `onTimerInsertedAtFront` is called.
pub add_timer_locked : ℕ → TimerManager → TimerManager × Bool
unfolding is_front
add_timer_locked val m =
    let timers = set_insert m.heap val m.timers in
    let at_front = is_front val timers && not m.tickled in
    (record m { timers = timers; tickled = if at_front then true else m.tickled }, at_front)

-- `TimerManager::TimerManager()`.
unfoldable pub init : ℕ → TimerManager
init now = record {
  timers = [];
  heap = λ _. record { recurring = false; ms = 0; next = 0; cb = null };
  tickled = false;
  previouse_time = now;
}

-- `Timer::Timer(ms, cb, recurring, manager)` at address `p`.
pub new_timer : ℕ → ℕ → Callback → Bool → ℕ → TimerManager → TimerManager
new_timer p ms cb recurring now m = record m {
  heap = update m.heap p (record { recurring = recurring; ms = ms; next = add64 now ms; cb = cb });
}

-- `TimerManager::addTimer(ms, cb, recurring)`; the allocator gives the address `p`.
unfoldable pub add_timer : ℕ → ℕ → Callback → Bool → ℕ → TimerManager → TimerManager × Bool
unfolding new_timer add_timer_locked
add_timer p ms cb recurring now m = add_timer_locked p (new_timer p ms cb recurring now m)

-- `TimerManager::addConditionTimer`.
unfoldable pub add_condition_timer :
    ℕ → ℕ → Callback → ℕ → Bool → ℕ → TimerManager → TimerManager × Bool
unfolding add_timer
add_condition_timer p ms cb weak_cond recurring now m =
    add_timer p ms (on_timer weak_cond cb) recurring now m

-- `OnTimer`: the callback runs only while the condition's object is alive.
pub on_timer_runs : (ℕ → Bool) → ℕ → Callback → Option Callback
on_timer_runs alive weak_cond cb = if alive weak_cond then some cb else none

-- `Timer::cancel`. `none` is `erase(end())`, which is undefined.
pub cancel : ℕ → TimerManager → Option (Bool × TimerManager)
cancel p m =
    let cleared = update m.heap p (record (m.heap p) { cb = null }) in
    if is_set (m.heap p).cb
    then elim (set_find cleared p m.timers) [
      | none ↦ none
      | some it ↦ some (true, record m { heap = cleared; timers = set_erase it m.timers })
    ]
    else some (false, m)

-- `Timer::refresh`.
pub refresh : ℕ → ℕ → TimerManager → Bool × TimerManager
refresh now p m =
    let later = update m.heap p (record (m.heap p) { next = add64 now (m.heap p).ms }) in
    if is_set (m.heap p).cb
    then elim (set_find m.heap p m.timers) [
      | none ↦ (false, m)
      | some it ↦
          (true, record m { heap = later; timers = set_insert later p (set_erase it m.timers) })
    ]
    else (false, m)

-- The part of `Timer::reset` after the timer is found: erase, set the times, `addTimer`.
pub reset_found : ℕ → Bool → ℕ → ℕ → ℕ → TimerManager → Bool × TimerManager × Bool
unfolding add_timer_locked
reset_found ms from_now now p it m =
    let start = if from_now then now else sub64 (m.heap p).next (m.heap p).ms in
    let timer = record (m.heap p) { ms = ms; next = add64 start ms } in
    let (m', front) =
      add_timer_locked p
        (record m { heap = update m.heap p timer; timers = set_erase it m.timers }) in
    (true, m', front)

-- `Timer::reset`; the last flag is that of `addTimer`.
pub reset : ℕ → Bool → ℕ → ℕ → TimerManager → Bool × TimerManager × Bool
unfolding reset_found
reset ms from_now now p m =
    if ms == (m.heap p).ms && not from_now
    then (true, m, false)
    else if is_set (m.heap p).cb
    then elim (set_find m.heap p m.timers) [
      | none ↦ (false, m, false)
      | some it ↦ reset_found ms from_now now p it m
    ]
    else (false, m, false)

-- `TimerManager::getNextTimer`.
unfoldable pub get_next_timer : ℕ → TimerManager → ℕ × TimerManager
get_next_timer now_ms m = (
  elim m.timers [
    | [] ↦ u64_max
    | p ∷ _ ↦ if leb (m.heap p).next now_ms then 0 else sub64 (m.heap p).next now_ms
  ],
  record m { tickled = false },
)

-- `TimerManager::detectClockRollover`; the subtraction wraps.
pub detect_clock_rollover : ℕ → TimerManager → Bool × TimerManager
detect_clock_rollover now_ms m = (
  ltb now_ms m.previouse_time && ltb now_ms (sub64 m.previouse_time (60 * 60 * 1000)),
  record m { previouse_time = now_ms },
)

-- `TimerManager::hasTimer`.
pub has_timer : TimerManager → Bool
has_timer m = not (is_empty m.timers)

-- `m_timers.lower_bound(key)`, as what stands before the iterator and what stands from it on.
pub lower_bound : Heap → ℕ → List ℕ → List ℕ × List ℕ
lower_bound h key [] = ([], [])
lower_bound h key (x ∷ xs) =
    let (before, after) = lower_bound h key xs in
    if comparator h x key then (x ∷ before, after) else ([], x ∷ xs)

-- `while(it != end() && (*it)->m_next == now_ms) ++it;`
pub skip_now : Heap → ℕ → List ℕ → List ℕ × List ℕ
skip_now h now_ms [] = ([], [])
skip_now h now_ms (x ∷ xs) =
    let (before, after) = skip_now h now_ms xs in
    if (h x).next == now_ms then (x ∷ before, after) else ([], x ∷ xs)

-- One round of the loop over the expired timers: a recurring one is set again, another loses
-- its callback.
pub rearm : ℕ → ℕ → Heap × List ℕ → Heap × List ℕ
rearm now_ms p (h, ts) =
    let again = update h p (record (h p) { next = add64 now_ms (h p).ms }) in
    if (h p).recurring
    then (again, set_insert again p ts)
    else (update h p (record (h p) { cb = null }), ts)

pub rearm_all : ℕ → List ℕ → Heap × List ℕ → List Callback × (Heap × List ℕ)
unfolding rearm
rearm_all now_ms [] s = ([], s)
rearm_all now_ms (p ∷ ps) (h, ts) =
    let (cbs, s) = rearm_all now_ms ps (rearm now_ms p (h, ts)) in ((h p).cb ∷ cbs, s)

-- Where the iterator of `listExpiredCb` stops: `[begin, it)` and `[it, end)`. The temporary timer
-- `now_timer` has the address `tmp`.
pub split_expired : Bool → ℕ → ℕ → Heap → List ℕ → List ℕ × List ℕ
unfolding lower_bound skip_now
split_expired rollover now_ms tmp h ts =
    let (before, from) = lower_bound h tmp ts in
    let (equal, after) = skip_now h now_ms from in
    if rollover then (ts, []) else (before ++ equal, after)

-- Nothing is due: not rolled over, and the first deadline is still to come.
pub none_due : Bool → ℕ → Heap → List ℕ → Bool
none_due rollover now_ms h [] = true
none_due rollover now_ms h (p ∷ _) = not rollover && ltb now_ms (h p).next

-- `TimerManager::listExpiredCb` from the write lock on.
pub list_expired_cb : ℕ → ℕ → TimerManager → List Callback × TimerManager
unfolding detect_clock_rollover split_expired none_due rearm_all
list_expired_cb now_ms tmp m =
    let (rollover, m₁) = detect_clock_rollover now_ms m in
    let now_timer : Timer = record { recurring = false; ms = 0; next = now_ms; cb = null } in
    let h = update m.heap tmp now_timer in
    let (expired, rest) = split_expired rollover now_ms tmp h m.timers in
    let (cbs, s) = rearm_all now_ms expired (h, rest) in
    if is_empty m.timers
    then ([], m)
    else if none_due rollover now_ms m.heap m.timers
    then ([], m₁)
    else (cbs, record m₁ { heap = s.0; timers = s.1 })
