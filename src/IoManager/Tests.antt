-- ===== src/IoManager/Tests.antt =====
-- Runs of the I/O manager (src/iomanager.cc) on a table of registrations as `epoll`, and the
-- theorems about it at concrete managers.
use lt.Base.{
  one_if, ◌+◌, ℕ, ◌<◌, ◌≡◌, refl, Bool, true, false, List, [], ◌∷◌, ◌++◌, none, some, arith, set,
  get_elem?, u64_mod,
}
use lt.Callback.{user}
use lt.Timer.{TimerManager}
use lt.Timer
use lt.Timer.Invariant
use lt.Timer.History.{start, timers_Reach-Inv}
use lt.Timer.History
use lt.IoManager.Round.{idle_round}
use lt.IoManager.Idling.{Idled, idle_round-Idled}
use lt.IoManager.Poll.{handle_events}
use lt.Base.{contains}
use lt.Scheduler
use lt.Scheduler.{Scheduler, ScheduleTask}
use lt.IoManager.Events.{read, has, with_event, without}
use lt.IoManager.{
  FdContext, Manager, no_context, new_contexts, context_resize, grown, add_event, add_event_locked,
  get_event_context, set_event_context, trigger_event,
}
use lt.IoManager.Poll.{
  del_event, cancel_event, cancel_all, cancel_event_locked, trigger, handle_event, real_events,
}
use lt.IoManager.Local.{dropped}
use lt.IoManager.Weights.{SameWaiters, Weight, pending_weight, task_weight}
use lt.IoManager.Sync.{Inv}
use lt.IoManager.Deleting.{del_event-Deleted}
use lt.IoManager.Cancelling.{Cancelled, cancel_event-Cancelled}
use lt.IoManager.Local.{waiters}
use lt.IoManager.Handled.{Handled, handle_event-Handled}
use lt.IoManager.Reports.{Absent, AreReports, handle_events-Handled}
use lt.IoManager.Opening.{new_io_manager}
use lt.IoManager.History.{Reach, later, opened, adds, cancels, Reach-waiters}
use lt.IoManager.Sample.{
  Table, put, ctl, table, blank, blank-Inv, reader, waiting, waiting-Inv, waiting_at_3,
  read_context, hang_up-Covers,
}
use lt.IoManager.Stale.{handle_event_stale}
use lt.IoManager.CancelAll.{Emptied, cancel_all-CancelsAll}
use lt.IoManager.Adding.{add_event-Adds}
use lt.IoManager.Idle.{stopping}

add_event-Adds_example :
    (c : FdContext) × (get_elem? (grown 3 blank.contexts) 3 ≡ some c)
    × (has c.events read ≡ true → add_event table 3 read (user 5) 8 4 blank ≡ none)
    × (has c.events read ≡ false
        → (r : Bool × Manager table) × (add_event table 3 read (user 5) 8 4 blank ≡ some r)
          × Inv table r.1
          × (waiters r.1 ≡ waiters blank + one_if r.0)
          × (r.1.scheduled ≡ blank.scheduled)
          × (r.0 ≡ false → r.1.contexts ≡ grown 3 blank.contexts)
          × (r.0 ≡ true
              → (c' : FdContext) × (get_elem? r.1.contexts 3 ≡ some c')
                × (c'.events ≡ with_event c.events read)
                × (get_event_context read c' ≡ some reader)))
add_event-Adds_example =
    add_event-Adds table 3 read (user 5) 8 4 blank (λ h. cc) (λ h. ground arith) (omega arith)
      (omega arith) blank-Inv

del_event-Deleted_example :
    Inv table (del_event table 3 read waiting).1
    × (waiters (del_event table 3 read waiting).1 + one_if (del_event table 3 read waiting).0
        ≡ waiters waiting)
    × ((del_event table 3 read waiting).1.scheduled ≡ [])
    × ((del_event table 3 read waiting).0 ≡ false
        → (del_event table 3 read waiting).1.contexts ≡ waiting.contexts)
    × ((del_event table 3 read waiting).0 ≡ true
        → (c : FdContext) × (get_elem? waiting.contexts 3 ≡ some c)
          × (has c.events read ≡ true)
          × (get_elem? (del_event table 3 read waiting).1.contexts 3 ≡ some (dropped read c)))
del_event-Deleted_example = del_event-Deleted table 3 read waiting (λ h. cc) waiting-Inv

cancel_event-Cancelled_example :
    (r : Bool × Manager table) × (cancel_event table 3 read waiting ≡ some r)
    × Cancelled table 3 read waiting r
cancel_event-Cancelled_example = cancel_event-Cancelled table 3 read waiting (λ h. cc) waiting-Inv

cancel_schedules :
    (m' : Manager table) × (cancel_event table 3 read waiting ≡ some (true, m'))
    × (m'.scheduled ≡ (8, record { fiber = 0; cb = user 5; thread = none }) ∷ [])
unfolding cancel_event cancel_event_locked trigger trigger_event without has ctl set_event_context
    get_event_context
cancel_schedules = (_, refl, refl)

cancel_all-CancelsAll_example :
    (r : Bool × Manager table) × (cancel_all table 3 waiting ≡ some r)
    × Inv table r.1
    × (waiters r.1 ≡ waiters waiting)
    × SameWaiters waiting r.1
    × (r.0 ≡ false → (r.1.contexts ≡ waiting.contexts) × (r.1.scheduled ≡ []))
    × (r.0 ≡ true → Emptied table 3 waiting r.1)
cancel_all-CancelsAll_example = cancel_all-CancelsAll table 3 waiting waiting-Inv

handle_event-Handled_example :
    (m' : Manager table) × (handle_event table 0x10 read_context waiting ≡ some m')
    × Handled table 0x10 3 read_context waiting m'
handle_event-Handled_example =
    handle_event-Handled table 0x10 3 read_context waiting waiting-Inv waiting_at_3 hang_up-Covers

-- Handle 3 is reported to have hung up, and the tickle pipe to be readable.
abbrev two_reports : List (ℕ × ℕ)
two_reports = (3, 0x10) ∷ (1, 1) ∷ []

two_reports-AreReports : AreReports table 1 waiting.epoll two_reports
unfolding AreReports Absent has
two_reports-AreReports = (
  (λ _. (0x80000001, refl, (λ h. cc), (λ h. cc))),
  (omega arith, tt),
  ((λ ne. absurd (ne refl)), tt, tt),
)

handle_events-Handled_example :
    (m' : Manager table) × (handle_events table two_reports waiting ≡ some m')
    × Inv table m'
    × (waiters m' ≡ waiters waiting)
    × SameWaiters waiting m'
    × (added : List (ℕ × ScheduleTask)) × (m'.scheduled ≡ [] ++ added)
handle_events-Handled_example =
    handle_events-Handled table two_reports waiting waiting-Inv two_reports-AreReports

-- The report names READ and WRITE, of which WRITE is no longer an event of the context.
handle_event_stale_example : handle_event table 5 read_context waiting ≡ none
unfolding real_events has ctl
handle_event_stale_example =
    handle_event_stale table 5 3 read_context waiting waiting-Inv waiting_at_3 refl refl refl refl
      refl

-- A table that another thread has grown for handle 8.
abbrev waiting_and_more : List FdContext
waiting_and_more = waiting.contexts ++ new_contexts 6 6

abbrev stopped : Scheduler
stopped = record {
  tasks = [];
  threads = [];
  thread_ids = [];
  thread_count = 0;
  active_thread_count = 0;
  idle_thread_count = 0;
  use_caller = false;
  root_thread = none;
  is_stopping = true;
}

no_timers_bound : (p : ℕ) → ((Timer.init 1000).heap p).next < u64_mod
unfolding Timer.init
no_timers_bound p = omega arith

stopping_now : (stopping 1000 (Timer.init 1000) blank stopped).0 ≡ true
unfolding stopping Timer.init Timer.get_next_timer Scheduler.stopping
stopping_now = refl

-- A timer of 30 ms that was set at time 1000.
abbrev one_timer : TimerManager
one_timer = (Timer.add_timer 1 30 (user 7) false 1000 (Timer.init 1000)).0

one_timer-Inv : Invariant.Inv one_timer
unfolding Timer.init
one_timer-Inv =
    timers_Reach-Inv
      (History.later (start 1000) (History.adds 1 30 (user 7) false 1000 (omega arith, refl) refl))

one_timer_lacks : contains one_timer.timers 9 ≡ false
unfolding Timer.init Timer.add_timer Timer.set_insert Timer.comparator
one_timer_lacks = refl

abbrev running : Scheduler
running = record stopped { is_stopping = false }

runs_on : (stopping 1000 (Timer.init 1000) blank running).0 ≡ false
unfolding stopping Scheduler.stopping
runs_on = ground arith

idle_round-Idled_example :
    (left : TimerManager) × (m' : Manager table) × (s' : Scheduler) × (idle_round table 8 1000 1040
        9 two_reports
        (Timer.init 1000, blank, running)
        (one_timer, waiting, running)
      ≡ some (false, left, m', s'))
    × Idled table 8 1040 one_timer waiting m' running s'
idle_round-Idled_example =
    idle_round-Idled table 8 1000 1040 9 two_reports (Timer.init 1000) one_timer blank waiting
      running running runs_on one_timer-Inv (λ h. ground arith) one_timer_lacks waiting-Inv
      two_reports-AreReports

-- An `epoll` that watches nothing, and the manager opened on it, whose pipe is read at 1.
abbrev nothing_watched : Table
nothing_watched = λ _. none

abbrev new_manager : Manager table
new_manager = record {
  contexts = context_resize 32 [];
  pending_event_count = 0;
  scheduled = [];
  epoll = put 1 (some 0x80000001) nothing_watched;
  tickle_fd = 1;
}

opens : new_io_manager table true 0 0 1 nothing_watched ≡ some new_manager
unfolding new_io_manager ctl
opens = refl

-- It takes a reader of handle 3, and cancels it.
abbrev with_reader : Manager table
with_reader = record new_manager {
  contexts =
      set new_manager.contexts 3
        (record { reading = reader; writing = no_context; fd = 3; events = 1 });
  pending_event_count = 1;
  epoll = put 3 (some 0x80000001) new_manager.epoll;
}

takes : add_event table 3 read (user 5) 8 4 new_manager ≡ some (true, with_reader)
unfolding add_event add_event_locked grown context_resize new_contexts ctl with_event has
    set_event_context get_event_context
takes = refl

abbrev without_reader : Manager table
without_reader = record new_manager {
  contexts =
      set with_reader.contexts 3
        (record { reading = no_context; writing = no_context; fd = 3; events = 0 });
  scheduled = (8, record { fiber = 0; cb = user 5; thread = none }) ∷ [];
  epoll = put 3 none with_reader.epoll;
}

drops : cancel_event table 3 read with_reader ≡ some (true, without_reader)
unfolding cancel_event cancel_event_locked trigger trigger_event without has ctl set_event_context
    get_event_context context_resize new_contexts
drops = refl

abbrev one_callback : List (ℕ × ScheduleTask)
one_callback = (8, record { fiber = 0; cb = user 5; thread = none }) ∷ []

history : Reach table without_reader one_callback []
history =
    later
      (later (opened true 0 0 1 nothing_watched new_manager (λ g. refl) opens) (
        adds 3 read (user 5) 8 4 (true, with_reader) (λ h. cc) (λ h. ground arith) (omega arith)
          (omega arith) takes))
      (cancels 3 read (true, without_reader) (λ h. cc) drops)

Reach-waiters_example :
    Inv table without_reader
    × ((w : Weight)
        → pending_weight w without_reader.contexts + task_weight w one_callback + task_weight w []
          ≡ task_weight w one_callback)
Reach-waiters_example = Reach-waiters table history
