-- ===== src/Watcher/Probing.antt =====
-- probe_for_malloc_stack_depth and capture_known_leak of src/HeapWatcher.cpp: heap calls of one thread
-- under the single-threaded instrumentation, and what is read off their stacks. The calls that the
-- probed function makes are an argument, and so is the thread that runs it.
use heap_watcher.Prelude.{
  ℕ, suc, ◌+◌, Bool, true, false, Option, none, some, List, [], ◌∷◌, ◌++◌, ◌==◌, ◌&&◌,
  if◌then◌else◌, length, get_elem?, Result, ok, fault, read_past_end, end_dereferenced, ◌>>=◌,
}
use heap_watcher.AddressMap.{values}
use heap_watcher.Records.{AllocationRecord}
use heap_watcher.Queue.{RequestQueue}
use heap_watcher.KnownLeaks.{LeakAddressAndOffset, is_known_leak}
use heap_watcher.Symbols.{ModuleFunctionOffset, SymbolServices, symbols_for_addresses, stack_trace}
use heap_watcher.Worker.{initial_books}
use heap_watcher.Watcher.{
  libc, Watcher, remove_instrumentation, set_single_threaded_instrumentation,
}
use heap_watcher.Watcher.HeapCalls.{HeapCall, malloc_call, calls, free}

abbrev pub malloc_name : List ℕ
malloc_name = b'm' ∷ b'a' ∷ b'l' ∷ b'l' ∷ b'o' ∷ b'c' ∷ []

-- _dl_allocate_tls
abbrev tls_name : List ℕ
tls_name =
    b'_' ∷ b'd' ∷ b'l' ∷ b'_' ∷ b'a' ∷ b'l' ∷ b'l' ∷ b'o' ∷ b'c' ∷ b'a' ∷ b't' ∷ b'e' ∷ b'_' ∷ b't'
    ∷ b'l' ∷ b's' ∷ []

abbrev pub same_text : List ℕ → List ℕ → Bool
same_text [] [] = true
same_text [] (d ∷ ds) = false
same_text (c ∷ cs) [] = false
same_text (c ∷ cs) (d ∷ ds) = (c == d) && same_text cs ds

abbrev pub names_any : List (List ℕ) → List ℕ → Bool
names_any [] function = false
names_any (name ∷ names) function =
    if same_text name function then true else names_any names function

-- The first offset, from `offset` on, at which a function has one of the names.
unfoldable pub first_named : List (List ℕ) → ℕ → List ModuleFunctionOffset → Option ℕ
first_named names offset [] = none
first_named names offset (s ∷ ss) =
    if names_any names s.function then some offset else first_named names (suc offset) ss

-- What a call of capture_known_leak returns if a watch is in progress: -1 as a uint64_t.
abbrev pub not_captured : ℕ
not_captured = 18446744073709551615

-- The depth that the loop of probe_for_malloc_stack_depth sets, or the one of before.
unfoldable pub probed_depth : ℕ → Option ℕ → ℕ
probed_depth depth none = depth
probed_depth depth (some i) = i + 1

module _ (services : SymbolServices) where
  -- The `if` on the offset that the inner `for` stops at.
  unfoldable pub keep_leak :
      AllocationRecord
      → Option ℕ
      → List LeakAddressAndOffset
      → Result (ℕ × List LeakAddressAndOffset)
  keep_leak leak none known = ok (0, known)
  keep_leak leak (some offset) known = elim (get_elem? leak.raw_stack_trace offset) [
    | none ↦ fault read_past_end
    | some address ↦ ok (1, known ++ record { address = address; offset_from_malloc = offset } ∷ [])
  ]

  -- One round of the loop of capture_known_leak: how many leaks it found, and the known leaks.
  unfoldable pub capture_leak :
      List (List ℕ)
      → AllocationRecord
      → List LeakAddressAndOffset
      → Result (ℕ × List LeakAddressAndOffset)
  unfolding first_named keep_leak
  capture_leak names leak known = do
    leaking_stack_trace ← stack_trace services leak
    ignored ← is_known_leak known leak.raw_stack_trace (length leak.raw_stack_trace)
    if ignored
        then ok (0, known)
        else keep_leak leak (first_named names 0 leaking_stack_trace) known

  -- `for (auto leak : single_threaded_allocations_)`
  unfoldable pub capture_leaks :
      List (List ℕ)
      → List AllocationRecord
      → List LeakAddressAndOffset
      → Result (ℕ × List LeakAddressAndOffset)
  unfolding capture_leak
  capture_leaks names [] known = ok (0, known)
  capture_leaks names (leak ∷ leaks) known = do
    (n, known₁) ← capture_leak names leak known
    (m, known₂) ← capture_leaks names leaks known₁
    ok (n + m, known₂)

  module _ (queue : RequestQueue) where
    open queue use {Queue}

    -- The calls under the single-threaded instrumentation for the thread.
    unfoldable pub run_single : ℕ → List HeapCall → Watcher Queue → Result (Watcher Queue)
    unfolding set_single_threaded_instrumentation remove_instrumentation calls
    run_single thread cs w =
        let ready = record w {
          single_threaded_allocations = [];
          watched_single_thread_id = some thread;
        } in
        do
          done ← calls queue cs (set_single_threaded_instrumentation ready)
          ok (remove_instrumentation done)

    unfoldable pub capture_known_leak :
        ℕ → List (List ℕ) → List HeapCall → Watcher Queue → Result (ℕ × Watcher Queue)
    unfolding run_single capture_leaks
    capture_known_leak thread leaking_symbols cs w =
        if w.watching_globally then ok (not_captured, w) else do
          done ← run_single thread cs w
          (n, known) ←
              capture_leaks leaking_symbols (values done.single_threaded_allocations)
                done.known_leaks
          ok (n, record done { known_leaks = known; single_threaded_allocations = [] })

    -- `single_threaded_allocations_.begin()->second`
    abbrev pub first_allocation : List AllocationRecord → Result AllocationRecord
    first_allocation [] = fault end_dereferenced
    first_allocation (r ∷ rs) = ok r

    -- The address and the frames are those of the block of 16 bytes that the probe leaks.
    unfoldable pub probe_for_malloc_stack_depth :
        ℕ → ℕ → List ℕ → Watcher Queue → Result (Watcher Queue)
    unfolding run_single first_named probed_depth free
    probe_for_malloc_stack_depth thread leaked_memory frames w = do
      probed ← run_single thread (malloc_call thread 16 leaked_memory frames ∷ []) w
      done ← free queue thread leaked_memory probed
      leak ← first_allocation (values done.single_threaded_allocations)
      leak_symbols ← symbols_for_addresses services leak.raw_stack_trace
      ok (record done {
        malloc_depth_in_call_stack =
            probed_depth done.malloc_depth_in_call_stack
              (first_named (malloc_name ∷ []) 0 leak_symbols);
        single_threaded_allocations = [];
      })

    -- The member initialisers, `queue.empty` for `worker_request_queue_`, and `g_txn_id`. The worker
    -- thread has set its flag.
    abbrev pub initial_watcher : ℕ → Watcher Queue
    initial_watcher worker_thread = record {
      malloc_function = libc;
      calloc_function = libc;
      realloc_function = libc;
      free_function = libc;
      watching_globally = false;
      watching_thread = λ thread. if thread == worker_thread then false else true;
      watched_single_thread_id = none;
      worker_request_queue = queue.empty;
      single_threaded_allocations = [];
      known_leaks = [];
      malloc_depth_in_call_stack = 0;
      books = initial_books;
      g_txn_id = 1;
    }

    -- The constructor in `thread`, with the probed block and the calls of the thread that leaks.
    unfoldable pub construct : ℕ → ℕ → ℕ → List ℕ → ℕ → List HeapCall → Result (Watcher Queue)
    unfolding probe_for_malloc_stack_depth capture_known_leak
    construct worker_thread thread leaked_memory frames leaky_thread cs = do
      probed ←
          probe_for_malloc_stack_depth thread leaked_memory frames (initial_watcher worker_thread)
      (n, captured) ← capture_known_leak leaky_thread (tls_name ∷ []) cs probed
      ok captured
