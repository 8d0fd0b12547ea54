-- ===== src/Fixture/Tests.antt =====
-- Fixtures on concrete workloads.
use heap_watcher.Prelude.{◌≤◌, ◌≡◌, refl, ◌⊎◌, true, false, List, [], ◌∷◌, All, ok, none, some, ℕ}
use heap_watcher.Queue.Sample.{list_queue, list_queue_laws}
use heap_watcher.Watcher.{Watcher, libc}
use heap_watcher.Worker.{initial_books}
use heap_watcher.Fixture.{
  Worker, blocked, working, finished, Fixture, new_fixture, add_workload, Moves, here, there,
  IsFinished, fresh, later, adds,
}
use heap_watcher.Fixture.Schedules.{all_moves, Run, stays, goes, workloads_finish}
use heap_watcher.Fixture.Scoped.{destroy_scoped, destroyed_unstarted}

-- Two threads with one workload and no random start.
abbrev two_added : Fixture
two_added = add_workload 2 (some 1) false [] new_fixture

abbrev idle : Watcher (list_queue.Queue)
idle = record {
  malloc_function = libc;
  calloc_function = libc;
  realloc_function = libc;
  free_function = libc;
  watching_globally = false;
  watching_thread = λ thread. true;
  watched_single_thread_id = none;
  worker_request_queue = [];
  single_threaded_allocations = [];
  known_leaks = [];
  malloc_depth_in_call_stack = 3;
  books = initial_books;
  g_txn_id = 1;
}

destroyed_unstarted_example :
    (destroy_scoped list_queue 5 2 (0 ∷ []) two_added idle ≡ ok (none, idle))
    × ((ws : List Worker) → ¬ Moves two_added.started two_added.test_threads ws)
unfolding add_workload
destroyed_unstarted_example =
    destroyed_unstarted list_queue_laws 5 2 (0 ∷ []) two_added idle
      (later fresh (adds 2 (some 1) false [])) refl (λ e. cc)

abbrev at_start : Worker
at_start = record { workload = some 1; random_start = false; phase = blocked }

abbrev in_workload : ℕ → Worker
in_workload n = record { workload = some 1; random_start = false; phase = working (some n) }

abbrev at_end : Worker
at_end = record { workload = some 1; random_start = false; phase = finished }

-- The second thread runs, and then the first one begins.
four_moves : Run true (at_start ∷ at_start ∷ []) 4 (in_workload 1 ∷ at_end ∷ [])
four_moves =
    goes
      (goes
        (goes (goes stays (there at_start (here at_start [] (working (some 1)) refl)))
          (there at_start (here (in_workload 1) [] (working (some 0)) refl)))
        (there at_start (here (in_workload 0) [] finished refl)))
      (here at_start (at_end ∷ []) (working (some 1)) refl)

workloads_finish_example :
    (4 ≤ all_moves (at_start ∷ at_start ∷ []))
    × ((All IsFinished (in_workload 1 ∷ at_end ∷ []) × (4 ≡ all_moves (at_start ∷ at_start ∷ [])))
        ⊎ ((ws : List Worker) × Moves true (in_workload 1 ∷ at_end ∷ []) ws))
workloads_finish_example =
    workloads_finish 4 (at_start ∷ at_start ∷ []) (in_workload 1 ∷ at_end ∷ []) (refl, (refl, tt))
      ((1, refl), ((1, refl), tt)) four_moves
