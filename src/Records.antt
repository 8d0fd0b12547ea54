-- ===== src/Records.antt =====
-- The value classes of include/HeapWatcher.hpp: AllocationRecord, HighLevelStatistics and
-- HeapSnapshot.
use heap_watcher.Prelude.{ℕ, Bool, true, false, not, List, [], ◌∷◌, length, u32}

-- MAX_CALLSTACK_RETAINED, where the macro MAX_CALLSTACK_DEPTH_RETAINED is not defined
abbrev pub max_callstack_retained : ℕ
max_callstack_retained = 4

-- An address is a number, and nullptr is 0.
pub record AllocationRecord : Type 0 where
  pub size : ℕ
  pub address : ℕ
  pub txn_id : ℕ
  pub raw_stack_trace : List ℕ

-- The constructors: `txn_id` is passed as a uint32_t, and kept as a uint64_t.
abbrev pub allocation_record : ℕ → ℕ → ℕ → List ℕ → AllocationRecord
allocation_record size address txn_id stack_tail = record {
  size = size;
  address = address;
  txn_id = u32 txn_id;
  raw_stack_trace = stack_tail;
}

pub record HighLevelStatistics : Type 0 where
  pub number_of_mallocs : ℕ
  pub number_of_reallocs : ℕ
  pub number_of_frees : ℕ
  pub number_of_known_leaks : ℕ
  pub bytes_allocated : ℕ
  pub bytes_freed : ℕ

pub record HeapSnapshot : Type 0 where
  pub high_level_statistics : HighLevelStatistics
  pub open_allocations : List AllocationRecord

abbrev pub is_empty : List AllocationRecord → Bool
is_empty [] = true
is_empty (r ∷ rs) = false

unfoldable pub has_leaks : HeapSnapshot → Bool
has_leaks s = not (is_empty s.open_allocations)

unfoldable pub numberof_leaks : HeapSnapshot → ℕ
numberof_leaks s = length s.open_allocations
