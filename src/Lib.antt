-- ===== src/Lib.antt =====
-- HeapWatcher counts the heap allocations that a C++ program makes between two points and lists those
-- that are still open. malloc, calloc, realloc and free of the program are replaced (end of
-- src/HeapWatcher.cpp). While the program is watched, each call of a watched thread sends a request
-- through a queue to one worker thread, which keeps a map of the open allocations, a set of frees that
-- came with no allocation, and counters. A snapshot is a request too: the worker settles the early
-- frees and answers with the map and the counters. Allocations whose stack trace shows a known leak
-- are left out. Stack traces are turned into names when a client reads them.
--
-- The files:
--   Prelude and its children: the shared names, Boolean tests, lists, 64-bit words, and the results of
--     code that can fault or throw.
--   AddressMap: std::map with addresses for keys, as far as the program calls it (find, emplace, erase,
--     iteration in ascending order).
--   Records: AllocationRecord, HighLevelStatistics, HeapSnapshot of include/HeapWatcher.hpp.
--   Requests: WorkerRequest of src/WorkerRequest.hpp. A promise is a number.
--   Worker: the switch of HeapWatcherImpl::worker_main of src/HeapWatcher.cpp, one function for each
--     case (on_malloc, on_realloc, on_free, on_clear, reconciled and snapshot, statistics), handle for
--     the switch, handle_all for the loop over a batch. Below it: Order and Accounts (invariants),
--     Ledger and Reports (against the heap as the program sees it), Races (requests out of order),
--     Merges (orders of several threads), Unlisted (addresses that several threads use), Forgotten, Gaps
--     and Overlaps (where records fall short), Batches (runs of requests in a row), Reconcile (the
--     loop of a snapshot), KnownCount (the number of known leaks).
--   KnownLeaks: LeakAddressAndOffset, is_known_leak, known_leaks of src/HeapWatcher.cpp.
--   Symbols: decode_mangled_line and symbols_for_addresses of src/BacktraceDemangler.cpp, stack_trace
--     of src/AllocationRecord.cpp, KnownLeaks::symbols of src/KnownLeaks.cpp;
--     Symbols/Printing has the stream operators of src/HeapWatcher.cpp.
--   Queue: the interface of moodycamel::BlockingConcurrentQueue, which is not part of the repository.
--     Queue/Laws says what the program relies on of it, Queue/Sample and Queue/Favouring are queues that
--     do so.
--   Watcher: the state of HeapWatcherImpl, the switch of the function pointers and the pausing of a
--     thread. Watcher/HeapCalls has the heap functions, Watcher/Backtrace the array that they capture
--     the stack in, Watcher/Commands the loop of worker_main over the queue and the commands that wait
--     for it, Watcher/Probing the probe of the malloc depth, the capture of known leaks and the
--     constructor. Frames, Recording, Sending, Waiting, Quiet, Answers, Sessions, Filtered and
--     FilteredSessions (allocations that show a known leak), FailedRealloc, Flags, Pausing, OneCapture,
--     ProbedDepth and SingleThread are about these. Watcher/Traces interleaves the calls of several
--     threads with the rounds of the worker, for Threads and LateRequests. Watcher/Handling says
--     what the worker has handled of them, for OwnBlocks and Arenas. Watcher/Guards has the guards of
--     pauses, Watcher/Lifetime the flag that starts and ends the worker thread, for Joining.
--   Arenas: acts of several threads on a state where every address belongs to one thread.
--     Arenas/Requests takes the requests to the worker as such acts.
--   Fixture: the two test fixtures of include/MultithreadedTestFixture.hpp, the threads as a step
--     relation; Fixture/Scoped has the one that watches the heap.
--   Workloads: the workloads of unit_tests/TestWorkloads.cpp that have no loop, as the heap calls they
--     make. Below it: Proper (what libc promises) and Small (the workloads under a watch).
--   UnitTests: the sections of unit_tests/BasicTests.cpp in which one thread runs such a workload, with
--     what they require of the snapshot. UnitTests/Books has the books after each workload,
--     UnitTests/Passing that the sections pass.
--   The modules Tests, and Worker/OverlapTests, Watcher/ArenaTests, Watcher/CaptureTests,
--     Watcher/FilteredTests, Watcher/JoiningTests and Watcher/ThreadTests, with Watcher/Sample for a
--     watch that has begun: concrete inputs.
--
-- How the state corresponds: Worker.Books has the members that the worker writes (allocations_,
-- frees_without_mallocs_, the counters), Watcher.Watcher has all members of HeapWatcherImpl but the
-- worker thread and its flag, which Watcher/Lifetime has, with the thread_local watching_thread_ as a
-- function of the thread and the counter of get_txn_id. A C++ address is a number and nullptr is 0.
-- uint64_t arithmetic is written out modulo 2 ^ 64. The unordered_set is a list without repetitions in
-- the order of its iteration. Undefined behaviour and exceptions are the Fault of a Result. Loops are
-- recursions on the list or array that they walk. The one exception is the wait of a command: it is
-- given a list of rounds of the worker, and one round more than there are requests ahead in the queue
-- is enough.
--
-- Parameters: the queue, abi::__cxa_demangle, backtrace_symbols; the values that libc and backtrace
-- return are arguments of each call. MAX_CALLSTACK_RETAINED is 4, its value where the macro that
-- overrides it is not defined.
--
-- Not modelled: BuildBigMap, RandomHeapOperations and MallocFreeRace of unit_tests/TestWorkloads.cpp,
-- which make heap calls inside std::map, std::deque, std::promise and std::thread as well; the function
-- names that the unit tests look for in stack traces; the byte layout of requests; the starting of
-- threads, and the request that the end of a pause sends in add_workload of the fixture and in
-- stack_trace. A heap call is one step of its thread, and one command runs at a time.
pub mod Prelude
pub mod Arenas
pub mod AddressMap
pub mod Records
pub mod Requests
pub mod Worker
pub mod KnownLeaks
pub mod Symbols
pub mod Queue
pub mod Watcher
pub mod Fixture
pub mod Workloads
pub mod UnitTests
