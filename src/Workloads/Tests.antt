-- ===== src/Workloads/Tests.antt =====
-- A workload on concrete addresses.
use heap_watcher.Prelude.{ℕ, ◌≡◌, refl, inr, true, false, none, some, List, [], ◌∷◌, arith, Returns}
use heap_watcher.Records.{HeapSnapshot}
use heap_watcher.KnownLeaks.Filter.{IsIgnored}
use heap_watcher.Queue.Laws.{OnlyFrom, sent_by}
use heap_watcher.Queue.Sample.{list_queue, list_queue_laws}
use heap_watcher.Worker.{initial_books, snapshot_taken}
use heap_watcher.Watcher.{Watcher, libc}
use heap_watcher.Watcher.Frames.{four_frames}
use heap_watcher.Watcher.Recording.{shown}
use heap_watcher.Watcher.Sessions.{session}
use heap_watcher.Workloads.{workload_calls, one_leak_with_realloc}
use heap_watcher.Workloads.Small.{left_open, small-Reported}

abbrev frames : List ℕ
frames = 1 ∷ 2 ∷ 3 ∷ 10 ∷ 20 ∷ 30 ∷ 40 ∷ 50 ∷ 60 ∷ []

abbrev idle : Watcher (list_queue.Queue)
idle = record {
  malloc_function = libc;
  calloc_function = libc;
  realloc_function = libc;
  free_function = libc;
  watching_globally = false;
  watching_thread = λ thread. true;
  watched_single_thread_id = none;
  worker_request_queue = [];
  single_threaded_allocations = [];
  known_leaks = record { address = 70; offset_from_malloc = 0 } ∷ [];
  malloc_depth_in_call_stack = 3;
  books = initial_books;
  g_txn_id = 1;
}

of_interest : ¬ IsIgnored idle.known_leaks (shown 3 frames)
of_interest h = ground (arith, h)

idle-OnlyFrom : OnlyFrom list_queue_laws 5 [] idle.worker_request_queue
unfolding sent_by
idle-OnlyFrom = record { own = refl; no_more = refl }

-- The realloc moves the block from 100 to 200.
small-Reported_example :
    Returns
      (λ out.
        (s : HeapSnapshot) × (out.0 ≡ some (snapshot_taken 2 s))
        × (s.open_allocations ≡ left_open one_leak_with_realloc 100 200 1 (four_frames 3 frames))
        × (out.1.watching_globally ≡ false))
      (session list_queue_laws 5 1 2
        (0 ∷ [])
        (0 ∷ 0 ∷ 0 ∷ [])
        (workload_calls one_leak_with_realloc 5 100 200 frames)
        idle)
unfolding workload_calls
small-Reported_example =
    small-Reported list_queue_laws one_leak_with_realloc 5 1 2 0 100 200 [] (0 ∷ 0 ∷ 0 ∷ []) frames
      idle refl refl (omega arith) idle-OnlyFrom (of_interest, (tt, tt)) (refl, (inr refl, tt))
      (omega arith)
