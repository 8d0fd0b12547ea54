-- ===== src/Watcher/Sample.antt =====
-- A watch that has begun, and calls that are made one after the other.
use heap_watcher.Prelude.{ℕ, refl, true, false, none, List, [], ◌∷◌, All, arith}
use heap_watcher.Queue.Laws.{OnlyFrom, sent_by}
use heap_watcher.Queue.Sample.{list_queue, list_queue_laws}
use heap_watcher.KnownLeaks.Filter.{IsIgnored}
use heap_watcher.Worker.{initial_books, on_clear}
use heap_watcher.Watcher.{Watcher, libc, set_multithreaded_instrumentation}
use heap_watcher.Watcher.HeapCalls.{HeapCall, caller}
use heap_watcher.Watcher.Recording.{shown}
use heap_watcher.Watcher.Sending.{IsWatching, IsOfInterest, after, after-IsWatching, call-sends}
use heap_watcher.Watcher.Traces.{Trace, calls}

abbrev pub frames : List ℕ
frames = 1 ∷ 2 ∷ 3 ∷ 10 ∷ 20 ∷ 30 ∷ 40 ∷ 50 ∷ []

-- A watch that has begun, with the wrappers three frames deep.
abbrev pub watched : {Q : Type 0} → Q → Watcher Q
watched q = set_multithreaded_instrumentation (record {
  malloc_function = libc;
  calloc_function = libc;
  realloc_function = libc;
  free_function = libc;
  watching_globally = false;
  watching_thread = λ thread. true;
  watched_single_thread_id = none;
  worker_request_queue = q;
  single_threaded_allocations = [];
  known_leaks = record { address = 70; offset_from_malloc = 0 } ∷ [];
  malloc_depth_in_call_stack = 3;
  books = on_clear initial_books;
  g_txn_id = 1;
})

abbrev pub start : Watcher (list_queue.Queue)
start = watched []

pub of_interest :
    ¬ IsIgnored (record { address = 70; offset_from_malloc = 0 } ∷ []) (shown 3 frames)
of_interest h = ground (arith, h)

pub watched-IsWatching : {Q : Type 0} (thread : ℕ) (q : Q) → IsWatching thread (watched q)
unfolding set_multithreaded_instrumentation
watched-IsWatching thread q = record {
  malloc_on = refl;
  calloc_on = refl;
  realloc_on = refl;
  free_on = refl;
  globally = refl;
  here = refl;
  fits = omega arith;
}

pub start-OnlyFrom : (t : ℕ) → OnlyFrom list_queue_laws t [] start.worker_request_queue
unfolding sent_by set_multithreaded_instrumentation
start-OnlyFrom t = record { own = refl; no_more = refl }

abbrev pub all_after : List HeapCall → Watcher (list_queue.Queue) → Watcher (list_queue.Queue)
all_after [] w = w
all_after (c ∷ cs) w = all_after cs (after list_queue c w)

-- The calls one after the other, and then what follows.
pub calls-Trace :
    (cs : List HeapCall) (w end : Watcher (list_queue.Queue))
    → ((thread : ℕ) → IsWatching thread w)
    → All (IsOfInterest w.known_leaks w.malloc_depth_in_call_stack) cs
    → Trace list_queue end (all_after cs w) []
    → Trace list_queue end w cs
calls-Trace [] w end on new rest = rest
calls-Trace (c ∷ cs) w end on new rest =
    calls c (after list_queue c w) (call-sends list_queue c w (on (caller c)) new.0) (
      calls-Trace cs (after list_queue c w) end
        (λ thread. after-IsWatching list_queue thread c w (on thread)) new.1 rest)
