-- ===== src/Requests.antt =====
-- src/WorkerRequest.hpp: what the threads of the program send to the worker thread.
mod Operations
pub use Operations.{WorkerOperation}
use heap_watcher.Prelude.{ℕ, List, add64}
use heap_watcher.Records.{AllocationRecord, allocation_record}

pub record ReallocRecord : Type 0 where
  pub original_address : ℕ
  pub new_address : ℕ
  pub new_size : ℕ

-- The tag with the member of the union that belongs to it. A promise is known by a number.
pub data WorkerRequest : Type 0 where
  uninitialized_request : WorkerRequest
  malloc_of : AllocationRecord → WorkerRequest
  realloc_of : ReallocRecord → WorkerRequest
  free_of : ℕ → WorkerRequest
  clear_of : ℕ → WorkerRequest
  snapshot_of : ℕ → WorkerRequest
  statistics_of : ℕ → WorkerRequest

pub operation : WorkerRequest → WorkerOperation
operation uninitialized_request = WorkerOperation.uninitialized
operation (malloc_of r) = WorkerOperation.malloc_request
operation (realloc_of r) = WorkerOperation.realloc_request
operation (free_of a) = WorkerOperation.free_request
operation (clear_of p) = WorkerOperation.clear_allocation_map
operation (snapshot_of p) = WorkerOperation.get_allocation_snapshot
operation (statistics_of p) = WorkerOperation.get_high_level_stats

-- The counter that the static `g_txn_id` holds is an argument: the id, and the next counter.
unfoldable pub get_txn_id : ℕ → ℕ × ℕ
get_txn_id g_txn_id = (g_txn_id, add64 g_txn_id 1)

-- WorkerRequest::malloc_request
unfoldable pub malloc_request : ℕ → ℕ → ℕ → List ℕ → WorkerRequest × ℕ
unfolding get_txn_id
malloc_request g_txn_id size address stack_tail =
    let (id, next) = get_txn_id g_txn_id in
    (malloc_of (allocation_record size address id stack_tail), next)

-- WorkerRequest::realloc_request
abbrev pub realloc_request : ℕ → ℕ → ℕ → WorkerRequest
realloc_request original_address new_address new_size =
    realloc_of (record {
      original_address = original_address;
      new_address = new_address;
      new_size = new_size;
    })
