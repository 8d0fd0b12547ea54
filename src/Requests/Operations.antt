-- ===== src/Requests/Operations.antt =====
-- The tag of a request: enum class WorkerOperation of src/WorkerRequest.hpp.
pub data WorkerOperation : Type 0 where
  uninitialized malloc_request realloc_request free_request : WorkerOperation
  clear_allocation_map get_allocation_snapshot get_high_level_stats : WorkerOperation
