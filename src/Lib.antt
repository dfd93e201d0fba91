-- ===== src/Lib.antt =====
-- LT is a C++ network library: fibers on `ucontext`, a scheduler that runs fibers and callbacks on a
-- pool of threads, timers, an I/O manager that joins both to `epoll`, hooked system calls, addresses,
-- sockets and a TCP server. This development models its core.
--
-- The parts and their files:
--
--   Timer      src/timer.cc, include/timer.h: `Timer`, `TimerManager`. `cancel`, `refresh`, `reset`,
--              `add_timer` (`addTimer`), `get_next_timer` (`getNextTimer`), `list_expired_cb`
--              (`listExpiredCb`). Order and Ordered: the comparator and the set; Invariant and
--              History: the set through all calls; Pending, Expiry and Expired: what expires; Calls and
--              Next: the single calls.
--   Fiber      src/fiber.cc, include/fiber.h: the states of a fiber and the switches `resume`, `yield`
--              and the end of `MainFunc` (`finish`). Laws: what they promise.
--   Scheduler  src/scheduler.cc, include/scheduler.h: the task queue and the worker threads. Choice: how
--              `run` takes a task; Workers: `run` and `idle` as a step relation; Safety: its counters
--              and the end; Conservation: its tasks; Rounds: the body of the loop of `run` on the fibers of
--              Fiber; Turns, Tasks and Returning: how it comes back; Overlap: two threads and one fiber.
--   IoManager  src/iomanager.cc, include/iomanager.h: events of file handles. Events: the masks; Poll:
--              `delEvent`, `cancelEvent`, `cancelAll` and the loop of `idle`; Local, Triggering and Sync: the
--              invariant; Opening: the constructor; Adding, Deleting, Cancelling, CancelAll, Growth, Fired,
--              Handled, Stale, Idle: the single calls; Weights, Taking and Dropping: the tasks of waiters;
--              Watched and Reports: all reports of one `epoll_wait`; History: all calls in any order;
--              Round and Idling: a round of `idle`.
--   FdManager  src/fd_manager.cc, include/fd_manager.h: what the hooks know of a handle, `FdCtx` and
--              `FdManager`. Table: `get` and `del`; Context: `init` and the timeouts.
--   Address    src/address.cc, include/address.h: Lookup: how a host is taken apart and an address chosen;
--              Masks: IPv6 masks and prefix lengths; Compare: the order of addresses; Text: the text of an
--              IPv6 address; Unix: addresses of Unix sockets; Ipv4: IPv4 addresses; Numeric: `IPAddress::Create`;
--              Interfaces: `GetInterfaceAddresses`. Parts, Prefix, Networks, Order, Compressed, Paths,
--              Subnets, Dotted and Netmasks: what they promise.
--   Endian     include/Endian.h: the byte swaps. Swaps: what they promise.
--   Hook       src/hook.cc, include/hook.h: the replaced system calls. Hook itself has `fcntl`, `ioctl` and
--              `setsockopt`; Io: `do_io`, in parts; Handles: `connect_with_timeout`, `close` and the
--              calls that sleep. Flags, Waiting, Wakes, Progress and Closing: what they promise.
--   Socket     src/socket.cc, include/socket.h: the life of a socket, `connect`, `bind`, `accept`,
--              `close`. Timeouts and Cancel: its calls of the hooks and of the I/O manager. Life and
--              Deadline: what they promise.
--   TcpServer  src/tcp_server.cc, include/tcp_server.h: `bind`, `start`, `accept_round` (one round of
--              `startAccept`), `stop`. Opening: the constructor and the destructor; OnSockets: its sockets made of Socket. Binding, Running and
--              Clients: what they promise.
--   Thread     src/thread.cc, include/thread.h: the constructor, `run` and the destructor of a thread as
--              interleaved steps. Handover: what they promise. Names: `SetName`.
--   Lock       include/mutex.h: the guards, and `CASLock`. Guards: what a guard calls; Spin and Exclusion:
--              threads that share a `CASLock`.
--   JsonConfig src/JsonConfig.cc, include/JsonConfig.h: `JsonParse`, `JsonManger`. Lookup: what they
--              promise.
--   Util       src/util.cc: the clocks, names of threads and `Unlink`. Clocks: what they promise.
--   Callback   the values of `std::function<void()>`.
--   Base       lists, options, Boolean tests and 64-bit words.
--
-- How they interact: the I/O manager is a scheduler and a timer manager. `idle` waits in `epoll_wait`
-- for at most the time of `get_next_timer`, hands the callbacks of `list_expired_cb` and the tasks of
-- the events that fired to `schedule`, and yields to `run`, which takes them with `take_task`.
-- `stopping` of the I/O manager asks all three. A hooked call asks the handle manager for the context of
-- its handle; where it would block, it adds an event to the I/O manager and a timer to the timer manager,
-- yields, and is made again. A socket makes hooked calls; its timeouts are kept in that context.
--
-- How the code corresponds: an object that is reached through a pointer is a cell at an address, a
-- natural number, with 0 the null pointer. What a call reads from the system (the clock, an address
-- from the allocator, a thread's number, what `epoll_wait` reports) is an argument. A region under
-- a lock is one step, so is one change of an atomic counter. An `LT_ASSERT` that fails, and an
-- access out of bounds, is `none`. Words of 64 bits wrap (`add64`, `sub64`). `epoll_ctl` is a
-- record (`Epoll`) of an operation and what its manual page says of it, `fstat` and `fcntl` another
-- (`System`), the calls that the hooks replace a third (`Calls`), the calls under a socket a fourth
-- (`Net`), and the sockets of the server a fifth (`Sockets`). What others do while a fiber is away is a
-- function of the environment (`Env`).
--
-- Loops run over a list, with two exceptions. The loop of `CountBytes` has eight rounds for a byte and
-- thirty-two for a word, which are enough, since each clears a bit. `do_io_loop` counts the calls that it
-- may make. The source has no bound there, since how often a call is interrupted or is not ready after a
-- wait is the environment's choice; a call that ends after n such rounds is returned with n + 1 calls
-- allowed, or more.
--
-- Not modelled: fibers that resume other fibers in their own code, log output, machine contexts and stacks, the loading of the replaced calls by `dlsym`, text
-- forms but those of addresses, and the traces of util.h. The mutexes of pthread and the semaphore only pass
-- calls on. The copies of jsoncpp and spdlog are other projects.
pub mod Base
pub mod Callback
pub mod FdManager
pub mod Thread
pub mod Util
pub mod Timer
pub mod Endian
pub mod Fiber
pub mod Scheduler
pub mod Hook
pub mod IoManager
pub mod Lock
pub mod JsonConfig
pub mod Address
pub mod Socket
pub mod TcpServer
