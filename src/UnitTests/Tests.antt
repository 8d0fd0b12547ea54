-- ===== src/UnitTests/Tests.antt =====
-- A section on concrete addresses.
use heap_watcher.Prelude.{ℕ, ◌≡◌, refl, true, false, none, List, [], ◌∷◌, arith, ok, Returns}
use heap_watcher.KnownLeaks.Filter.{IsIgnored}
use heap_watcher.Queue.Laws.{OnlyFrom, sent_by}
use heap_watcher.Queue.Sample.{list_queue, list_queue_laws}
use heap_watcher.Worker.{initial_books}
use heap_watcher.Watcher.{Watcher, libc}
use heap_watcher.Watcher.Recording.{shown}
use heap_watcher.Workloads.{workload_calls}
use heap_watcher.UnitTests.{no_leaks_section, pause_tracking_section, workload_of, section}
use heap_watcher.UnitTests.Passing.{section-passes}

abbrev frames : List ℕ
frames = 1 ∷ 2 ∷ 3 ∷ 10 ∷ 20 ∷ 30 ∷ []

abbrev idle : Watcher (list_queue.Queue)
idle = record {
  malloc_function = libc;
  calloc_function = libc;
  realloc_function = libc;
  free_function = libc;
  watching_globally = false;
  watching_thread = λ thread. true;
  watched_single_thread_id = none;
  worker_request_queue = [];
  single_threaded_allocations = [];
  known_leaks = record { address = 70; offset_from_malloc = 0 } ∷ [];
  malloc_depth_in_call_stack = 3;
  books = initial_books;
  g_txn_id = 1;
}

of_interest : ¬ IsIgnored idle.known_leaks (shown 3 frames)
of_interest h = ground (arith, h)

idle-OnlyFrom : OnlyFrom list_queue_laws 5 [] idle.worker_request_queue
unfolding sent_by
idle-OnlyFrom = record { own = refl; no_more = refl }

-- A section does not pass where the last wait does not get to the snapshot.
no_rounds :
    section list_queue no_leaks_section 5 1 2 3 900 100 200 (0 ∷ []) (0 ∷ []) [] frames idle
    ≡ ok false
unfolding section heap_watcher.Worker.handle_all heap_watcher.Watcher.Commands.reply_to
    heap_watcher.Watcher.Backtrace.capture heap_watcher.KnownLeaks.is_known_leak
    heap_watcher.Watcher.Backtrace.read_tail
no_rounds = refl

section-passes_example :
    Returns
      (λ passed. passed ≡ true)
      (section list_queue pause_tracking_section 5 1 2 3 900 100 200
        (0 ∷ [])
        (0 ∷ [])
        (0 ∷ 0 ∷ 0 ∷ 0 ∷ [])
        frames
        idle)
unfolding workload_of workload_calls
section-passes_example =
    section-passes list_queue_laws pause_tracking_section 5 1 2 3 900 100 200 0 0 [] []
      (0 ∷ 0 ∷ 0 ∷ 0 ∷ []) frames idle refl refl (omega arith) idle-OnlyFrom (of_interest, tt)
      (omega arith)
