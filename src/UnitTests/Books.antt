-- ===== src/UnitTests/Books.antt =====
-- What the worker records of the workload of each section.
use heap_watcher.Prelude.{ℕ, ◌≡◌, refl, true, some, List, [], ◌∷◌, ==_self, arith, ok}
use heap_watcher.AddressMap.{AddressMap, find, emplace, erase}
use heap_watcher.Records.{AllocationRecord, allocation_record}
use heap_watcher.Requests.{free_of, ReallocRecord, WorkerRequest}
use heap_watcher.Worker
use heap_watcher.Worker.{
  on_clear, on_malloc, on_realloc, realloc_found, on_free, free_found, snapshot_taken, snapshot,
  reconciled, statistics, handle_all, close,
}
use heap_watcher.Worker.Order.{moved}
use heap_watcher.Watcher.Frames.{four_frames}
use heap_watcher.Watcher.Sending.{all_requested}
use heap_watcher.Workloads.{workload_calls}
use heap_watcher.UnitTests.{
  Section, no_leaks_section, one_leak_section, one_leak_nested_section, one_calloc_leak_section,
  no_leaks_with_realloc_section, one_leak_with_realloc_section, pause_tracking_section, workload_of,
  required, snapshot_meets,
}

-- The requests of a section's workload: under a pause, the free of the guard's token.
abbrev pub section_requests :
    Section → (depth id thread token a b : ℕ) → List ℕ → List WorkerRequest
section_requests pause_tracking_section depth id thread token a b frames = free_of token ∷ []
section_requests k depth id thread token a b frames =
    all_requested depth id (workload_calls (workload_of k) thread a b frames)

-- The books after them, from cleared books on, and that their snapshot is as required.
pub record Worked (k : Section) (rs : List WorkerRequest) (b : Worker.Books) : Type 0 where
  pub books : Worker.Books
  pub runs : handle_all rs (on_clear b) ≡ ok (books, [])
  pub meets :
      (p : ℕ)
      → snapshot_meets (required k) (some (snapshot_taken p (snapshot (reconciled books)))) ≡ true

-- Books with nothing left over, and the known leaks counted so far.
abbrev tally :
    (mallocs reallocs frees allocated freed known : ℕ) → AddressMap AllocationRecord → Worker.Books
tally mallocs reallocs frees allocated freed known blocks = record {
  number_of_mallocs = mallocs;
  number_of_reallocs = reallocs;
  number_of_frees = frees;
  number_of_known_leaks = known;
  bytes_allocated = allocated;
  bytes_freed = freed;
  allocations = blocks;
  frees_without_mallocs = [];
}

pub section-Worked :
    (k : Section) (depth id thread token a b : ℕ) (frames : List ℕ) (books : Worker.Books)
    → Worked k (section_requests k depth id thread token a b frames) books
unfolding workload_of workload_calls required snapshot_meets handle_all on_clear on_malloc on_free
    free_found on_realloc realloc_found snapshot reconciled emplace find erase
section-Worked pause_tracking_section depth id thread token a b frames books = record {
  books = record (on_clear books) { frees_without_mallocs = token ∷ [] };
  runs = refl;
  meets = λ p. refl;
}
section-Worked one_leak_section depth id thread token a b frames books =
    let r = allocation_record 4 a id (four_frames depth frames) in
    record { books = on_malloc r (on_clear books); runs = refl; meets = λ p. refl }
section-Worked no_leaks_section depth id thread token a b frames books = record {
  books = tally 1 0 1 4 4 books.number_of_known_leaks [];
  runs = ground (arith, ==_self a);
  meets = λ p. refl;
}
section-Worked one_leak_nested_section depth id thread token a b frames books =
    let r = allocation_record 4 a id (four_frames depth frames) in
    record { books = on_malloc r (on_clear books); runs = refl; meets = λ p. refl }
section-Worked one_calloc_leak_section depth id thread token a b frames books =
    let r = allocation_record 72 a id (four_frames depth frames) in
    record { books = on_malloc r (on_clear books); runs = refl; meets = λ p. refl }
section-Worked no_leaks_with_realloc_section depth id thread token a b frames books = record {
  books = tally 1 1 1 8 8 books.number_of_known_leaks [];
  runs = ground (arith, ==_self a, ==_self b);
  meets = λ p. refl;
}
section-Worked one_leak_with_realloc_section depth id thread token a b frames books =
    let r = allocation_record 4 a id (four_frames depth frames) in
    let q : ReallocRecord = record { original_address = a; new_address = b; new_size = 8 } in
    record {
      books = tally 1 1 0 8 0 books.number_of_known_leaks ((b, moved q r) ∷ []);
      runs = ground (arith, ==_self a);
      meets = λ p. refl;
    }
