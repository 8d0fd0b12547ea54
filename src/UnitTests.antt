-- ===== src/UnitTests.antt =====
-- The sections of unit_tests/BasicTests.cpp in which one thread starts a watch, runs a workload
-- without a loop, stops the watch, and tests the snapshot. The tests of the names in stack traces
-- are left out: they are about the symbols of the test program.
pub mod Books
pub mod Passing
mod Tests
use heap_watcher.Prelude.{
  ℕ, length, ◌++◌, Bool, true, false, not, Option, none, some, List, [], ◌∷◌, ◌&&◌, ◌==◌,
  if◌then◌else◌, Result, ok, ◌>>=◌,
}
use heap_watcher.Records.{HighLevelStatistics, HeapSnapshot, has_leaks, numberof_leaks}
use heap_watcher.Queue.{RequestQueue}
use heap_watcher.Symbols.{SymbolServices}
use heap_watcher.Watcher.Probing.{capture_known_leak}
use heap_watcher.Worker.{Reply, cleared, snapshot_taken, statistics_taken}
use heap_watcher.Watcher.{Watcher}
use heap_watcher.Watcher.Guards.{paused_guard, destroy_guard}
use heap_watcher.Watcher.HeapCalls.{calls}
use heap_watcher.Watcher.Commands.{start_watching, stop_watching, high_level_stats}
use heap_watcher.Workloads.{
  Workload, known_leak, no_leaks, one_leak, one_leak_nested, one_calloc_leak, no_leaks_with_realloc,
  one_leak_with_realloc, workload_calls,
}

pub data Section : Type 0 where
  no_leaks_section : Section
  one_leak_section : Section
  one_leak_nested_section : Section
  one_calloc_leak_section : Section
  no_leaks_with_realloc_section : Section
  one_leak_with_realloc_section : Section
  pause_tracking_section : Section

unfoldable pub workload_of : Section → Workload
workload_of no_leaks_section = no_leaks
workload_of one_leak_section = one_leak
workload_of one_leak_nested_section = one_leak_nested
workload_of one_calloc_leak_section = one_calloc_leak
workload_of no_leaks_with_realloc_section = no_leaks_with_realloc
workload_of one_leak_with_realloc_section = one_leak_with_realloc
workload_of pause_tracking_section = one_leak_nested

-- What the last snapshot of a section has to say.
pub record Requirement : Type 0 where
  pub open_allocations : ℕ
  pub number_of_mallocs : ℕ
  pub number_of_frees : ℕ
  pub number_of_reallocs : ℕ
  pub bytes_allocated : ℕ
  pub bytes_freed : ℕ

abbrev require : ℕ → ℕ → ℕ → ℕ → ℕ → ℕ → Requirement
require open_allocations mallocs frees reallocs allocated freed = record {
  open_allocations = open_allocations;
  number_of_mallocs = mallocs;
  number_of_frees = frees;
  number_of_reallocs = reallocs;
  bytes_allocated = allocated;
  bytes_freed = freed;
}

unfoldable pub required : Section → Requirement
required no_leaks_section = require 0 1 1 0 4 4
required one_leak_section = require 1 1 0 0 4 0
required one_leak_nested_section = require 1 1 0 0 4 0
required one_calloc_leak_section = require 1 1 0 0 72 0
required no_leaks_with_realloc_section = require 0 1 1 1 8 8
required one_leak_with_realloc_section = require 1 1 0 1 8 0
required pause_tracking_section = require 0 0 0 0 0 0

unfoldable pub statistics_meet : Requirement → HighLevelStatistics → Bool
statistics_meet r s =
    (s.number_of_mallocs == r.number_of_mallocs)
    && ((s.number_of_frees == r.number_of_frees)
        && ((s.number_of_reallocs == r.number_of_reallocs)
            && ((s.bytes_allocated == r.bytes_allocated) && (s.bytes_freed == r.bytes_freed))))

-- The REQUIREs at the end of a section. One that expects no leak requires `size() == 0`, or
-- `!has_leaks()`, or both; here it is both.
unfoldable pub snapshot_meets : Requirement → Option Reply → Bool
unfolding statistics_meet numberof_leaks has_leaks
snapshot_meets r (some (snapshot_taken p s)) =
    (numberof_leaks s == r.open_allocations)
    && ((if r.open_allocations == 0 then not (has_leaks s) else true)
        && statistics_meet r s.high_level_statistics)
snapshot_meets r _ = false

-- The REQUIREs on the statistics before the workload of the first section.
unfoldable pub statistics_are_zero : Option Reply → Bool
unfolding statistics_meet
statistics_are_zero (some (statistics_taken p s)) = statistics_meet (require 0 0 0 0 0 0) s
statistics_are_zero _ = false

module _ (queue : RequestQueue) where
  open queue use {Queue}

  -- What a section does between the start and the workload.
  unfoldable pub before_workload :
      Section → ℕ → ℕ → List ℕ → Watcher Queue → Result (Bool × Watcher Queue)
  unfolding high_level_stats statistics_are_zero
  before_workload no_leaks_section thread p turns w = do
    stats ← high_level_stats queue thread p turns w
    ok (statistics_are_zero stats.0, stats.1)
  before_workload _ thread p turns w = ok (true, w)

  -- The workload, under a guard of pause_watching_this_thread in the last section, with the token
  -- at the address `token`.
  unfoldable pub run_workload :
      Section → (thread token a b : ℕ) → List ℕ → Watcher Queue → Result (Watcher Queue)
  unfolding workload_of workload_calls calls paused_guard destroy_guard
  run_workload pause_tracking_section thread token a b frames w = do
    (pause_guard, paused) ← paused_guard queue thread token w
    done ←
        calls queue (workload_calls (workload_of pause_tracking_section) thread a b frames) paused
    destroy_guard queue thread pause_guard done
  run_workload k thread token a b frames w =
      calls queue (workload_calls (workload_of k) thread a b frames) w

  -- A section: whether all of its REQUIREs hold. `turns` and the like are the rounds of the worker
  -- during each wait, and `p`, `q` and `r` the promises.
  unfoldable pub section :
      Section
      → (thread p q r token a b : ℕ) → (turns turns' turns'' frames : List ℕ) → Watcher Queue
      → Result Bool
  unfolding start_watching before_workload run_workload stop_watching snapshot_meets required
  section k thread p q r token a b turns turns' turns'' frames w = do
    started ← start_watching queue thread p turns w
    before ← before_workload k thread q turns' started.1
    done ← run_workload k thread token a b frames before.1
    stopped ← stop_watching queue thread r turns'' done
    ok (before.0 && snapshot_meets (required k) stopped.0)
