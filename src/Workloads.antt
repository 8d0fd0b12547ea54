-- ===== src/Workloads.antt =====
-- The workloads of unit_tests/TestWorkloads.cpp, as the heap calls that they make. What libc returns is an
-- argument, and so are the frames that `backtrace` finds.
pub mod Proper
pub mod Small
mod Tests
use heap_watcher.Prelude.{
  ℕ, zero, suc, ◌+◌, ◌-◌, List, [], ◌∷◌, ◌++◌, ltb, ◌==◌, if◌then◌else◌, length,
}
use heap_watcher.Watcher.HeapCalls.{HeapCall, malloc_call, calloc_call, realloc_call, free_call}

-- The workloads without a loop.
pub data Workload : Type 0 where
  no_leaks : Workload
  known_leak : Workload
  known_leak_2 : Workload
  nested_known_leak_2 : Workload
  one_leak : Workload
  one_leak_nested : Workload
  one_calloc_leak : Workload
  no_leaks_with_realloc : Workload
  one_leak_with_realloc : Workload

abbrev pub number_of_longs_in_one_calloc_leak : ℕ
number_of_longs_in_one_calloc_leak = 9

-- The calls of a workload, where the allocation returns `a` and the realloc returns `b`. The sizes
-- are those of the types on a machine of 64 bits: 4 for int, 8 for long.
unfoldable pub workload_calls : Workload → ℕ → ℕ → ℕ → List ℕ → List HeapCall
workload_calls no_leaks thread a b frames = malloc_call thread 4 a frames ∷ free_call thread a ∷ []
workload_calls known_leak thread a b frames = malloc_call thread 8 a frames ∷ []
workload_calls known_leak_2 thread a b frames = malloc_call thread 16 a frames ∷ []
workload_calls nested_known_leak_2 thread a b frames = malloc_call thread 16 a frames ∷ []
workload_calls one_leak thread a b frames = malloc_call thread 4 a frames ∷ []
workload_calls one_leak_nested thread a b frames = malloc_call thread 4 a frames ∷ []
workload_calls one_calloc_leak thread a b frames =
    calloc_call thread 8 number_of_longs_in_one_calloc_leak a frames ∷ []
workload_calls no_leaks_with_realloc thread a b frames =
    malloc_call thread 4 a frames ∷ realloc_call thread a b 8 ∷ free_call thread b ∷ []
workload_calls one_leak_with_realloc thread a b frames =
    malloc_call thread 4 a frames ∷ realloc_call thread a b 8 ∷ []
