-- ===== src/Queue.antt =====
-- moodycamel::BlockingConcurrentQueue, as far as src/HeapWatcher.cpp calls it: a parameter.
pub mod Laws
pub mod Orders
pub mod Sample
pub mod Favouring
use heap_watcher.Prelude.{ℕ, List}
use heap_watcher.Requests.{WorkerRequest}

-- `enqueue thread r` appends for a thread. `wait_dequeue_bulk_timed turn n` takes at most `n` items
-- with the thread that sent each; `turn` stands for the timing of the call.
pub record RequestQueue : Type 1 where
  pub Queue : Type 0
  pub empty : Queue
  pub enqueue : ℕ → WorkerRequest → Queue → Queue
  pub wait_dequeue_bulk_timed : ℕ → ℕ → Queue → List (ℕ × WorkerRequest) × Queue
