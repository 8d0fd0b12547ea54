-- ===== src/Watcher/JoiningTests.antt =====
-- The constructor has returned, the worker is in its first round, and the destructor has unset the
-- flag.
use heap_watcher.Prelude.{refl, true, false, none, []}
use heap_watcher.Queue.Sample.{list_queue}
use heap_watcher.Worker.{initial_books}
use heap_watcher.Watcher.{Watcher, libc}
use heap_watcher.Watcher.Lifetime.{
  unstarted, constructing, Lifetime, begin_worker, begin_destructor, starts, enters, constructed,
  destructs, in_body, alive, Reached, begins, by_worker, by_others,
}
use heap_watcher.Watcher.Joining.{Ending, joining-Ending}

abbrev idle : Watcher (list_queue.Queue)
idle = record {
  malloc_function = libc;
  calloc_function = libc;
  realloc_function = libc;
  free_function = libc;
  watching_globally = false;
  watching_thread = λ thread. true;
  watched_single_thread_id = none;
  worker_request_queue = [];
  single_threaded_allocations = [];
  known_leaks = [];
  malloc_depth_in_call_stack = 3;
  books = initial_books;
  g_txn_id = 1;
}

abbrev first : Lifetime (list_queue.Queue)
first = record {
  worker = unstarted;
  owner = constructing;
  worker_thread_running = false;
  state = idle;
}

abbrev second : Lifetime (list_queue.Queue)
second = record (begin_worker 9 first) { owner = alive }

abbrev third : Lifetime (list_queue.Queue)
third = record second { worker = in_body }

third-Reached : Reached list_queue 9 third
unfolding begin_worker
third-Reached =
    by_worker (by_others (by_worker (begins idle) (starts refl)) (constructed refl refl))
      (enters refl refl)

joining-Ending_example : Ending list_queue 9 (begin_destructor third)
unfolding begin_destructor
joining-Ending_example =
    joining-Ending list_queue 9 (begin_destructor third) (by_others third-Reached (destructs refl))
      refl
