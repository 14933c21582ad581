-- ===== src/Lib.antt =====
-- Corlib: a coroutine library, whose threads run fibers from a queue, wait for descriptors in epoll
-- and keep timers, and which replaces blocking system calls by waits of the calling fiber.
--
-- The program is corlib/ of the repository. A Scheduler (corlib/scheduler.cpp) keeps a queue of tasks,
-- fibers or functions, which its threads take and run. An IOManager (corlib/ioscheduler.cpp) is a
-- Scheduler and a TimerManager: its idle fibers wait in epoll until the first timer, post the
-- callbacks of the timers that have come and trigger the events of descriptors. The hooks
-- (corlib/hook.cpp) put the calling fiber to sleep until such an event, and ask the FdManager
-- (corlib/fd_manager.cpp) for what is known of a descriptor.
--
-- Callback.antt: the closures that the library stores, one constructor for each that the code builds.
-- Timer.antt: corlib/timer.h and corlib/timer.cpp. A shared_ptr<Timer> is a number into a store of
-- objects; the std::set is its list in order (Timer/Set), which compares by the times that the
-- objects hold. Each reading of the clock is an argument. Times are
-- numbers of nanoseconds; C++ keeps them on 64 bits with a sign, and `Fits` says that a sum stays below
-- the bound. Timer/Order has the invariant, Timer/Calls
-- and Timer/Moves the single operations, and Timer/Expire the collection of the timers that have
-- come. The loop of listExpiredCb runs on fuel: one more round than the set has timers is enough
-- where the clock has not fallen and every repeating timer has a period, and no fuel is enough in
-- the cases of Timer/Expire/Rollover.
-- FdManager.antt: corlib/fd_manager.h and corlib/fd_manager.cpp. fstat and fcntl are the parameter
-- `Files`, whose laws say that flags which are set are read back. The two critical sections of
-- FdManager::get are `lookup` and `create`. Descriptors are integers; the arithmetic that grows the
-- table is that of the code, which is exact for descriptors below 2 ^ 53. FdManager/Map compares the
-- table with a map. FdManager/Instance has the singleton that holds the table.
-- Scheduler.antt: corlib/scheduler.h and corlib/scheduler.cpp. Scheduler/Workers gives the threads as
-- interleaved steps between critical sections; the moments at which sleeping fibers wake are open.
-- Scheduler/Counts has the invariant, Scheduler/Tasks the two bags of tasks that the pool implements, and
-- Scheduler/Ledger the tasks of a whole run. Scheduler/Fibers joins run with corlib/fiber.cpp: threads
-- that lock, resume and leave the fibers of their tasks; Scheduler/Fibers/Fit has the invariant,
-- Switches the steps and Alone what follows.
-- IoManager.antt: corlib/ioscheduler.h and corlib/ioscheduler.cpp. epoll_ctl is the parameter `Epoll`,
-- whose laws say what a call that succeeds or fails leaves in the interest list. The masks of events
-- are pairs of Booleans (IoManager/Mask; IoManager/Bits compares them with ints), the contexts of
-- descriptors a list (IoManager/Contexts), and the tasks that events hand to schedulers are a list in the
-- state. IoManager/Invariant has the invariant, IoManager/Fire, Add, Remove, Cancel and Calls the operations, IoManager/Race two
-- calls of addEvent that overlap, IoManager/Idle the wait and the
-- timers of a round of `idle`, IoManager/Round the round, IoManager/Reports and IoManager/Whole what it
-- does. The fuel of a round is that of listExpiredCb. IoManager/Wakeup has one
-- thread that waits while others change the timers, with IoManager/Guard and IoManager/Oversleep.
-- Hook.antt: corlib/hook.cpp. Hook/Io gives do_io and connect as sequences of attempts, where the
-- replies of the original calls and the way the fiber comes back are arguments, and the actions are a
-- list; Hook/Attempts has what they guarantee. Hook/Wait gives
-- one call of do_io with its event, its timer and the callbacks in the queue as interleaved steps, up to
-- its return: what a callback that is late does to the next call is not followed;
-- Hook/Wake and Hook/Timeout what follows. Hook/Files has the calls that read and change the
-- descriptor table, Hook/Close the effect of close, and Hook/Sleep the sleep family. Hook/Control has
-- fcntl, ioctl, getsockopt and setsockopt with every command; Hook/UserMode says
-- what callers see of the mode. Hook/Reuse has the whole of close and socket, for a number that the kernel
-- gives out again, and Hook/Init has hook_init.
-- Sync.antt: corlib/mutex.h and corlib/mutex.cpp. Sync/Scoped has the three scoped locks, whose calls of
-- their mutex are a list; Sync/CasLock has CASLock and the threads that take it, one round of a loop
-- being a step, and Sync/Exclusion what it guarantees; Sync/Semaphore has FiberSemaphore, Sync/Fair the
-- permits and requests that it stands for, and Sync/Served its calls in sequence.
-- Thread.antt: corlib/thread.h and corlib/thread.cpp, the statements of the thread that makes a Thread and
-- of the new one as interleaved steps. Thread/Handshake has the states that are reached, Thread/Made
-- what follows, and Thread/Rename SetName.
-- Fiber.antt: corlib/fiber.h and corlib/fiber.cpp, the fibers of one thread in a store of objects.
-- swapcontext is a change of the fiber that executes; Fiber/Switch follows control from a fiber to
-- another and back, Fiber/Nesting and Fiber/Control over any run, and Fiber/Lifetime counts the fibers
-- that are made and destroyed.
-- Server.antt: test_accept of corlib/main.cpp, the server built on the library; what accept and recv
-- answer are arguments. Server/Listen has what a round of it does.
-- EpollServer.antt: epoll/main.cpp, the loop of the plain server. Its kernel is the parameter `Sockets`,
-- whose laws say what the calls do to open descriptors and to the interest list; EpollServer/Serving
-- has what the loop keeps.
-- Clients.antt: client/client.cpp, the threads that count requests, and Clients/Processes
-- client/client2.cpp, the processes that do; Clients/Totals and Clients/Sums have what they count.
-- Base.antt holds what these share: Boolean tests, lists, the outcomes of code that can abort, and
-- the file status flags.
--
-- Not modelled: the locks of corlib/mutex.h that only call pthreads; the setting up of sockets in
-- corlib/main.cpp, epoll/main.cpp and client/; libevent/main.cpp, which calls libevent only; and libco/,
-- another project's library.
pub mod Base
pub mod Callback
pub mod Clients
pub mod Server
pub mod EpollServer
pub mod Sync
pub mod Thread
pub mod Timer
pub mod FdManager
pub mod Fiber
pub mod IoManager
pub mod Hook
pub mod Scheduler
