-- ===== src/Watcher/FilteredTests.antt =====
-- A watch with a known leak at the first frame behind the wrappers, and the three calls of the section
-- "Known Leak" of unit_tests/BasicTests.cpp.
use heap_watcher.Prelude.{
  ℕ, refl, inl, true, false, none, some, List, [], ◌∷◌, ◌==◌, if◌then◌else◌, arith, Returns,
}
use heap_watcher.Records.{AllocationRecord, allocation_record}
use heap_watcher.Requests.{WorkerRequest, malloc_of}
use heap_watcher.KnownLeaks.{LeakAddressAndOffset}
use heap_watcher.KnownLeaks.Filter.{IsIgnored}
use heap_watcher.Queue.Laws.{OnlyFrom, sent_by}
use heap_watcher.Queue.Sample.{list_queue, list_queue_laws}
use heap_watcher.Worker.{initial_books}
use heap_watcher.Worker.Ledger.{Ledger, no_blocks, History, opens}
use heap_watcher.Watcher.{Watcher, libc}
use heap_watcher.Watcher.Frames.{four_frames}
use heap_watcher.Watcher.HeapCalls.{HeapCall, malloc_call}
use heap_watcher.Watcher.Recording.{shown}
use heap_watcher.Watcher.Sessions.{session}
use heap_watcher.Watcher.Filtered.{Filtered, no_calls, left_out, passed_on}
use heap_watcher.Watcher.FilteredSessions.{ReportsCount, known_session-ReportsCount}

abbrev known : List LeakAddressAndOffset
known = record { address = 70; offset_from_malloc = 0 } ∷ []

abbrev idle : Watcher (list_queue.Queue)
idle = record {
  malloc_function = libc;
  calloc_function = libc;
  realloc_function = libc;
  free_function = libc;
  watching_globally = false;
  watching_thread = λ thread. true;
  watched_single_thread_id = none;
  worker_request_queue = [];
  single_threaded_allocations = [];
  known_leaks = known;
  malloc_depth_in_call_stack = 3;
  books = initial_books;
  g_txn_id = 1;
}

abbrev in_one_leak : List ℕ
in_one_leak = 1 ∷ 2 ∷ 3 ∷ 10 ∷ 20 ∷ 30 ∷ 40 ∷ []

abbrev in_known_leak : List ℕ
in_known_leak = 1 ∷ 2 ∷ 3 ∷ 70 ∷ 20 ∷ 30 ∷ 40 ∷ []

abbrev program : List HeapCall
program =
    malloc_call 5 4 100 in_one_leak
    ∷ malloc_call 5 8 200 in_known_leak
    ∷ malloc_call 5 4 300 in_one_leak
    ∷ []

abbrev opened : AllocationRecord → Ledger → Ledger
opened r h j = if r.address == j then some r else h j

abbrev first_leak : AllocationRecord
first_leak = allocation_record 4 100 1 (four_frames 3 in_one_leak)

abbrev second_leak : AllocationRecord
second_leak = allocation_record 4 300 2 (four_frames 3 in_one_leak)

abbrev sent : List WorkerRequest
sent = malloc_of first_leak ∷ malloc_of second_leak ∷ []

of_interest : ¬ IsIgnored known (shown 3 in_one_leak)
of_interest h = ground (arith, h)

program-Filtered : Filtered known 3 1 program sent 1
program-Filtered = passed_on 1 (malloc_call 5 4 100 in_one_leak) _ _ 1 of_interest (
    left_out 2 (malloc_call 5 8 200 in_known_leak) _ _ 0 (inl (inl refl))
      (passed_on 2 (malloc_call 5 4 300 in_one_leak) _ _ 0 of_interest (no_calls 3)))

abbrev two_leaks : Ledger
two_leaks = opened second_leak (opened first_leak no_blocks)

sent-History : History no_blocks sent two_leaks
sent-History = (
  opened first_leak no_blocks,
  opens first_leak refl (λ j. refl),
  (two_leaks, opens second_leak refl (λ j. refl), λ j. refl),
)

idle-OnlyFrom : OnlyFrom list_queue_laws 5 [] idle.worker_request_queue
unfolding sent_by
idle-OnlyFrom = record { own = refl; no_more = refl }

known_session-ReportsCount_example :
    Returns
      (ReportsCount list_queue_laws 2 two_leaks 1)
      (session list_queue_laws 5 1 2 (0 ∷ []) (0 ∷ 0 ∷ 0 ∷ 0 ∷ []) program idle)
known_session-ReportsCount_example =
    known_session-ReportsCount list_queue_laws 5 1 2 0 [] (0 ∷ 0 ∷ 0 ∷ 0 ∷ []) program sent 1
      two_leaks idle refl refl (omega arith) idle-OnlyFrom (refl, (refl, (refl, tt)))
      program-Filtered sent-History (omega arith)
