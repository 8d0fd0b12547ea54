-- ===== src/Watcher.antt =====
-- HeapWatcherImpl of src/HeapWatcher.cpp as the threads of the program see it: the heap functions
-- that stand in for those of libc, the switch between them, and the pausing of a thread.
pub mod Backtrace
pub mod HeapCalls
pub mod Pausing
pub mod Guards
pub mod Lifetime
pub mod Joining
mod JoiningTests
pub mod Flags
pub mod Frames
pub mod Recording
pub mod Commands
pub mod Probing
pub mod OneCapture
pub mod ProbedDepth
pub mod SingleThread
pub mod Waiting
pub mod Sending
pub mod Quiet
pub mod Answers
pub mod Sessions
pub mod FailedRealloc
pub mod Filtered
pub mod FilteredSessions
mod FilteredTests
pub mod Traces
pub mod Threads
pub mod Handling
pub mod Sample
mod ArenaTests
pub mod OwnBlocks
pub mod Arenas
pub mod LateRequests
mod Tests
mod CaptureTests
mod ThreadTests
use heap_watcher.Prelude.{
  ℕ, ◌+◌, ◌*◌, Bool, true, false, Option, none, some, List, [], ◌∷◌, ◌&&◌, ◌==◌, if◌then◌else◌, u64,
  add64, Result, ok, fault, ◌>>=◌,
}
use heap_watcher.AddressMap.{AddressMap, find, emplace, erase}
use heap_watcher.Records.{AllocationRecord, allocation_record}
use heap_watcher.Requests.{WorkerRequest, malloc_request, realloc_request, free_of, get_txn_id}
use heap_watcher.Queue.{RequestQueue}
use heap_watcher.KnownLeaks.{LeakAddressAndOffset, is_known_leak}
use heap_watcher.Worker.{Books}
use Backtrace.{capture, tail_depth, read_tail, from_pointer}

-- What `malloc_function_` and its three kin point to.
pub data HeapFunction : Type 0 where
  libc : HeapFunction
  instrumented : HeapFunction
  single_thread_instrumented : HeapFunction

-- The data members of HeapWatcherImpl, with the static and thread_local ones and `g_txn_id`. A
-- thread is known by a number.
pub record Watcher (Q : Type 0) : Type 0 where
  pub malloc_function : HeapFunction
  pub calloc_function : HeapFunction
  pub realloc_function : HeapFunction
  pub free_function : HeapFunction
  pub watching_globally : Bool
  pub watching_thread : ℕ → Bool
  pub watched_single_thread_id : Option ℕ
  pub worker_request_queue : Q
  pub single_threaded_allocations : AddressMap AllocationRecord
  pub known_leaks : List LeakAddressAndOffset
  pub malloc_depth_in_call_stack : ℕ
  pub books : Books
  pub g_txn_id : ℕ

abbrev pub set_thread : (ℕ → Bool) → ℕ → Bool → ℕ → Bool
set_thread flags thread b j = if thread == j then b else flags j

-- The comparison with a thread id, where `none` is the id of no thread.
abbrev pub is_thread : ℕ → Option ℕ → Bool
is_thread thread none = false
is_thread thread (some id) = thread == id

module _ {Q : Type 0} where
  unfoldable pub remove_instrumentation : Watcher Q → Watcher Q
  remove_instrumentation w = record w {
    watching_globally = false;
    malloc_function = libc;
    calloc_function = libc;
    realloc_function = libc;
    free_function = libc;
  }

  unfoldable pub set_multithreaded_instrumentation : Watcher Q → Watcher Q
  set_multithreaded_instrumentation w = record w {
    malloc_function = instrumented;
    calloc_function = instrumented;
    realloc_function = instrumented;
    free_function = instrumented;
    watching_globally = true;
  }

  unfoldable pub set_single_threaded_instrumentation : Watcher Q → Watcher Q
  set_single_threaded_instrumentation w = record w {
    malloc_function = single_thread_instrumented;
    calloc_function = single_thread_instrumented;
    realloc_function = single_thread_instrumented;
    free_function = single_thread_instrumented;
    watching_globally = true;
  }

  unfoldable pub is_watching_this_thread : ℕ → Watcher Q → Bool
  is_watching_this_thread thread w = w.watching_globally && w.watching_thread thread

  -- `watching_thread_ && (std::this_thread::get_id() == watched_single_thread_id_)`
  unfoldable pub is_watching_single : ℕ → Watcher Q → Bool
  is_watching_single thread w =
      w.watching_thread thread && is_thread thread w.watched_single_thread_id

  -- The constructor of PauseThreadWatchToken: the saved value, and the state.
  unfoldable pub pause_token : ℕ → Watcher Q → Bool × Watcher Q
  pause_token thread w = (
    w.watching_thread thread,
    record w { watching_thread = set_thread w.watching_thread thread false },
  )

  -- The destructor of PauseThreadWatchToken, in the thread that runs it.
  unfoldable pub destroy_token : ℕ → Bool → Watcher Q → Watcher Q
  destroy_token thread saved_value w = record w {
    watching_thread = set_thread w.watching_thread thread saved_value;
  }

  -- pause_watching_this_thread, where the guard holds the saved value.
  unfoldable pub pause_watching_this_thread : ℕ → Watcher Q → Bool × Watcher Q
  pause_watching_this_thread thread w =
      let current_thread_watch_value = w.watching_thread thread in
      let off = set_thread w.watching_thread thread false in
      (current_thread_watch_value, record w { watching_thread = set_thread off thread false })
