-- ===== src/Worker.antt =====
-- The worker thread: HeapWatcherImpl::worker_main of src/HeapWatcher.cpp, and the bookkeeping that
-- only it reads and writes.
pub mod Order
pub mod Reconcile
pub mod Accounts
pub mod Ledger
pub mod Batches
pub mod KnownCount
pub mod Reports
pub mod Races
pub mod Merges
pub mod Overlaps
pub mod Forgotten
pub mod Unlisted
pub mod Gaps
mod Tests
mod OverlapTests
use heap_watcher.Prelude.{
  ℕ, Bool, true, false, Option, none, some, List, [], ◌∷◌, ◌++◌, ◌==◌, if◌then◌else◌, add64, sub64,
  end_dereferenced, Result, ok, fault, ◌>>=◌,
}
use heap_watcher.AddressMap.{AddressMap, find, emplace, erase, values}
use heap_watcher.Records.{AllocationRecord, allocation_record, HighLevelStatistics, HeapSnapshot}
use heap_watcher.Requests.{
  ReallocRecord, WorkerRequest, uninitialized_request, malloc_of, realloc_of, free_of, clear_of,
  snapshot_of, statistics_of,
}

-- The counters, `allocations_` and `frees_without_mallocs_`. The unordered_set is a list without
-- repetitions, in the order of its iteration.
pub record Books : Type 0 where
  pub number_of_mallocs : ℕ
  pub number_of_reallocs : ℕ
  pub number_of_frees : ℕ
  pub number_of_known_leaks : ℕ
  pub bytes_allocated : ℕ
  pub bytes_freed : ℕ
  pub allocations : AddressMap AllocationRecord
  pub frees_without_mallocs : List ℕ

abbrev pub initial_books : Books
initial_books = record {
  number_of_mallocs = 0;
  number_of_reallocs = 0;
  number_of_frees = 0;
  number_of_known_leaks = 0;
  bytes_allocated = 0;
  bytes_freed = 0;
  allocations = [];
  frees_without_mallocs = [];
}

-- The value that a promise is set to.
pub data Reply : Type 0 where
  cleared : ℕ → Reply
  snapshot_taken : ℕ → HeapSnapshot → Reply
  statistics_taken : ℕ → HighLevelStatistics → Reply

unfoldable pub contains : ℕ → List ℕ → Bool
contains a [] = false
contains a (x ∷ xs) = if x == a then true else contains a xs

-- unordered_set::emplace
unfoldable pub set_emplace : ℕ → List ℕ → List ℕ
unfolding contains
set_emplace a xs = if contains a xs then xs else a ∷ xs

-- case MALLOC_REQUEST
unfoldable pub on_malloc : AllocationRecord → Books → Books
on_malloc r b = record b {
  number_of_mallocs = add64 b.number_of_mallocs 1;
  bytes_allocated = add64 b.bytes_allocated r.size;
  allocations = emplace r.address r b.allocations;
}

-- case REALLOC_REQUEST, for the two results of `allocations_.find`. The second branch reads
-- `record->second` at the end of the map.
unfoldable pub realloc_found : ReallocRecord → Books → Option AllocationRecord → Result Books
realloc_found q b (some old) = ok (record b {
  bytes_allocated = add64 (sub64 b.bytes_allocated old.size) q.new_size;
  allocations =
      emplace q.new_address
        (allocation_record q.new_size q.new_address old.txn_id old.raw_stack_trace)
        (erase q.original_address b.allocations);
})
realloc_found q b none = fault end_dereferenced

unfoldable pub on_realloc : ReallocRecord → Books → Result Books
unfolding realloc_found
on_realloc q b =
    realloc_found q (record b { number_of_reallocs = add64 b.number_of_reallocs 1 })
      (find q.original_address b.allocations)

-- The three statements that FREE_REQUEST and GET_ALLOCATION_SNAPSHOT share: the found entry is
-- counted as freed, and erased.
abbrev pub close : ℕ → AllocationRecord → Books → Books
close a r b = record b {
  number_of_frees = add64 b.number_of_frees 1;
  bytes_freed = add64 b.bytes_freed r.size;
  allocations = erase a b.allocations;
}

unfoldable pub free_found : ℕ → Books → Option AllocationRecord → Books
unfolding set_emplace
free_found a b (some r) = close a r b
free_found a b none = record b { frees_without_mallocs = set_emplace a b.frees_without_mallocs }

-- case FREE_REQUEST
unfoldable pub on_free : ℕ → Books → Books
unfolding free_found
on_free a b = free_found a b (find a b.allocations)

-- case CLEAR_ALLOCATION_MAP
unfoldable pub on_clear : Books → Books
on_clear b = record b {
  number_of_mallocs = 0;
  number_of_reallocs = 0;
  number_of_frees = 0;
  bytes_allocated = 0;
  bytes_freed = 0;
  allocations = [];
  frees_without_mallocs = [];
}

-- One round of the loop over `frees_without_mallocs_`.
unfoldable pub reconcile_one : ℕ → Books → Books
reconcile_one a b = elim (find a b.allocations) [ none ↦ b | some r ↦ close a r b ]

-- The loop over `frees_without_mallocs_`.
unfoldable pub reconcile : List ℕ → Books → Books
unfolding reconcile_one
reconcile [] b = b
reconcile (a ∷ xs) b = reconcile xs (reconcile_one a b)

unfoldable pub statistics : Books → HighLevelStatistics
statistics b = record {
  number_of_mallocs = b.number_of_mallocs;
  number_of_reallocs = b.number_of_reallocs;
  number_of_frees = b.number_of_frees;
  number_of_known_leaks = b.number_of_known_leaks;
  bytes_allocated = b.bytes_allocated;
  bytes_freed = b.bytes_freed;
}

unfoldable pub snapshot : Books → HeapSnapshot
unfolding statistics
snapshot b = record {
  high_level_statistics = statistics b;
  open_allocations = values b.allocations;
}

-- The books after GET_ALLOCATION_SNAPSHOT.
unfoldable pub reconciled : Books → Books
unfolding reconcile
reconciled b = reconcile b.frees_without_mallocs b

-- The `switch` of worker_main. It has no case for UNINITIALIZED, and no default.
unfoldable pub handle : WorkerRequest → Books → Result (Books × List Reply)
unfolding on_malloc on_realloc on_free on_clear reconciled snapshot statistics
handle uninitialized_request b = ok (b, [])
handle (malloc_of r) b = ok (on_malloc r b, [])
handle (realloc_of q) b = do b' ← on_realloc q b; ok (b', [])
handle (free_of a) b = ok (on_free a b, [])
handle (clear_of p) b = ok (on_clear b, cleared p ∷ [])
handle (snapshot_of p) b = ok (reconciled b, snapshot_taken p (snapshot (reconciled b)) ∷ [])
handle (statistics_of p) b = ok (b, statistics_taken p (statistics b) ∷ [])

-- `for (int i = 0; i < num_requests; i++)` over the requests of one bulk dequeue.
unfoldable pub handle_all : List WorkerRequest → Books → Result (Books × List Reply)
unfolding handle
handle_all [] b = ok (b, [])
handle_all (r ∷ rs) b = do
  (b₁, replies₁) ← handle r b
  (b₂, replies₂) ← handle_all rs b₁
  ok (b₂, replies₁ ++ replies₂)
