-- ===== src/Watcher/HeapCalls.antt =====
-- The heap functions: malloc, calloc, realloc and free at the end of src/HeapWatcher.cpp, and the
-- instrumented ones that they reach through the function pointers. What libc returns is an argument
-- of the call, and is what the function returns; so are the frames that `backtrace` finds.
use heap_watcher.Prelude.{
  ℕ, ◌*◌, none, some, List, [], ◌∷◌, if◌then◌else◌, u64, add64, Result, ok, ◌>>=◌,
}
use heap_watcher.AddressMap.{find, emplace, erase}
use heap_watcher.Records.{allocation_record}
use heap_watcher.Requests.{WorkerRequest, malloc_request, realloc_request, free_of, get_txn_id}
use heap_watcher.Queue.{RequestQueue}
use heap_watcher.KnownLeaks.{is_known_leak}
use heap_watcher.Watcher.Backtrace.{capture, tail_depth, read_tail, from_pointer}
use heap_watcher.Watcher.{
  libc, instrumented, single_thread_instrumented, Watcher, is_watching_this_thread,
  is_watching_single, pause_token, destroy_token,
}

-- A call, with the thread that makes it.
pub data HeapCall : Type 0 where
  malloc_call : (thread size address : ℕ) (frames : List ℕ) → HeapCall
  calloc_call : (thread nitems size address : ℕ) (frames : List ℕ) → HeapCall
  realloc_call : (thread original_address new_address new_size : ℕ) → HeapCall
  free_call : (thread address : ℕ) → HeapCall

abbrev pub caller : HeapCall → ℕ
caller (malloc_call thread size address frames) = thread
caller (calloc_call thread nitems size address frames) = thread
caller (realloc_call thread original_address new_address new_size) = thread
caller (free_call thread address) = thread

module _ {Q : Type 0} where
  -- The block that a PauseThreadWatchToken guards.
  abbrev pub guarded : ℕ → (Watcher Q → Result (Watcher Q)) → Watcher Q → Result (Watcher Q)
  guarded thread body w =
      let (saved_value, paused) = pause_token thread w in
      do done ← body paused; ok (destroy_token thread saved_value done)

  -- `single_threaded_allocations_.emplace` of malloc and calloc, with the size that is recorded.
  unfoldable pub emplace_single : ℕ → ℕ → List ℕ → Watcher Q → Watcher Q
  unfolding get_txn_id
  emplace_single size address trace w =
      let ids = get_txn_id w.g_txn_id in
      record w {
        single_threaded_allocations =
            emplace address (allocation_record size address ids.0 trace)
              w.single_threaded_allocations;
        g_txn_id = ids.1;
      }

  unfoldable pub record_single : ℕ → ℕ → List ℕ → Watcher Q → Result (Watcher Q)
  unfolding emplace_single
  record_single size address frames w = do
    stack_tail ← capture w.malloc_depth_in_call_stack frames
    trace ← read_tail w.malloc_depth_in_call_stack stack_tail
    ok (emplace_single size address trace w)

  unfoldable pub erase_single : ℕ → Watcher Q → Watcher Q
  erase_single address w = record w {
    single_threaded_allocations = erase address w.single_threaded_allocations;
  }

  unfoldable pub single_thread_instrumented_malloc :
      ℕ → ℕ → ℕ → List ℕ → Watcher Q → Result (Watcher Q)
  unfolding record_single is_watching_single pause_token destroy_token
  single_thread_instrumented_malloc thread size address frames w =
      if is_watching_single thread w
      then guarded thread (record_single size address frames) w
      else ok w

  -- It records `size`, and not `nitems * size`.
  unfoldable pub single_thread_instrumented_calloc :
      ℕ → ℕ → ℕ → ℕ → List ℕ → Watcher Q → Result (Watcher Q)
  unfolding record_single is_watching_single pause_token destroy_token
  single_thread_instrumented_calloc thread nitems size address frames w =
      if is_watching_single thread w
      then guarded thread (record_single size address frames) w
      else ok w

  -- The search is in `allocations_`, the change in `single_threaded_allocations_`.
  unfoldable pub move_single : ℕ → ℕ → ℕ → Watcher Q → Result (Watcher Q)
  unfolding get_txn_id
  move_single original_address new_address new_size w =
      elim (find original_address w.books.allocations) [
        | none ↦ ok w
        | some prior ↦
            let ids = get_txn_id w.g_txn_id in
            ok (record w {
              single_threaded_allocations =
                  emplace new_address
                    (allocation_record new_size new_address ids.0 prior.raw_stack_trace)
                    (erase original_address w.single_threaded_allocations);
              g_txn_id = ids.1;
            })
      ]

  unfoldable pub single_thread_instrumented_realloc : ℕ → ℕ → ℕ → ℕ → Watcher Q → Result (Watcher Q)
  unfolding move_single is_watching_single pause_token destroy_token
  single_thread_instrumented_realloc thread original_address new_address new_size w =
      if is_watching_single thread w
      then guarded thread (move_single original_address new_address new_size) w
      else ok w

  unfoldable pub single_thread_instrumented_free : ℕ → ℕ → Watcher Q → Result (Watcher Q)
  unfolding erase_single is_watching_single pause_token destroy_token
  single_thread_instrumented_free thread address w =
      if is_watching_single thread w
      then guarded thread (λ v. ok (erase_single address v)) w
      else ok w

module _ (queue : RequestQueue) where
  open queue use {Queue, enqueue}

  unfoldable pub send : ℕ → WorkerRequest → Watcher Queue → Watcher Queue
  send thread r w = record w { worker_request_queue = enqueue thread r w.worker_request_queue }

  -- `number_of_known_leaks_++`
  unfoldable pub count_known_leak : Watcher Queue → Watcher Queue
  count_known_leak w = record w {
    books = record (w.books) { number_of_known_leaks = add64 w.books.number_of_known_leaks 1 };
  }

  -- `worker_request_queue_.enqueue(WorkerRequest::malloc_request(...))`
  unfoldable pub send_malloc : ℕ → ℕ → ℕ → List ℕ → Watcher Queue → Watcher Queue
  unfolding send malloc_request
  send_malloc thread size address trace w =
      let made = malloc_request w.g_txn_id size address trace in
      record (send thread made.0 w) { g_txn_id = made.1 }

  -- The `if` of malloc and calloc on the captured stack, with the size that is sent.
  unfoldable pub record_captured : ℕ → ℕ → ℕ → List ℕ → Watcher Queue → Result (Watcher Queue)
  unfolding send_malloc count_known_leak
  record_captured thread size address stack_tail w = do
    known ←
        is_known_leak w.known_leaks (from_pointer w.malloc_depth_in_call_stack stack_tail)
          (tail_depth w.malloc_depth_in_call_stack)
    if known then ok (count_known_leak w) else do
      trace ← read_tail w.malloc_depth_in_call_stack stack_tail
      ok (send_malloc thread size address trace w)

  -- The block of malloc and calloc under `is_watching_this_thread()`.
  unfoldable pub record_allocation : ℕ → ℕ → ℕ → List ℕ → Watcher Queue → Result (Watcher Queue)
  unfolding record_captured
  record_allocation thread size address frames w = do
    stack_tail ← capture w.malloc_depth_in_call_stack frames
    record_captured thread size address stack_tail w

  unfoldable pub instrumented_malloc : ℕ → ℕ → ℕ → List ℕ → Watcher Queue → Result (Watcher Queue)
  unfolding record_allocation is_watching_this_thread pause_token destroy_token
  instrumented_malloc thread size address frames w =
      if is_watching_this_thread thread w
      then guarded thread (record_allocation thread size address frames) w
      else ok w

  unfoldable pub instrumented_calloc :
      ℕ → ℕ → ℕ → ℕ → List ℕ → Watcher Queue → Result (Watcher Queue)
  unfolding record_allocation is_watching_this_thread pause_token destroy_token
  instrumented_calloc thread nitems size address frames w =
      if is_watching_this_thread thread w
      then guarded thread (record_allocation thread (u64 (size * nitems)) address frames) w
      else ok w

  unfoldable pub instrumented_realloc : ℕ → ℕ → ℕ → ℕ → Watcher Queue → Result (Watcher Queue)
  unfolding send is_watching_this_thread pause_token destroy_token
  instrumented_realloc thread original_address new_address new_size w =
      if is_watching_this_thread thread w
      then guarded thread
          (λ v. ok (send thread (realloc_request original_address new_address new_size) v)) w
      else ok w

  unfoldable pub instrumented_free : ℕ → ℕ → Watcher Queue → Result (Watcher Queue)
  unfolding send is_watching_this_thread pause_token destroy_token
  instrumented_free thread address w =
      if is_watching_this_thread thread w
      then guarded thread (λ v. ok (send thread (free_of address) v)) w
      else ok w

  -- The overrides of the C functions, through the function pointers.
  unfoldable pub malloc : ℕ → ℕ → ℕ → List ℕ → Watcher Queue → Result (Watcher Queue)
  unfolding instrumented_malloc single_thread_instrumented_malloc
  malloc thread size address frames w = elim w.malloc_function [
    | libc ↦ ok w
    | instrumented ↦ instrumented_malloc thread size address frames w
    | single_thread_instrumented ↦ single_thread_instrumented_malloc thread size address frames w
  ]

  unfoldable pub calloc : ℕ → ℕ → ℕ → ℕ → List ℕ → Watcher Queue → Result (Watcher Queue)
  unfolding instrumented_calloc single_thread_instrumented_calloc
  calloc thread nitems size address frames w = elim w.calloc_function [
    | libc ↦ ok w
    | instrumented ↦ instrumented_calloc thread nitems size address frames w
    | single_thread_instrumented ↦
        single_thread_instrumented_calloc thread nitems size address frames w
  ]

  unfoldable pub realloc : ℕ → ℕ → ℕ → ℕ → Watcher Queue → Result (Watcher Queue)
  unfolding instrumented_realloc single_thread_instrumented_realloc
  realloc thread original_address new_address new_size w = elim w.realloc_function [
    | libc ↦ ok w
    | instrumented ↦ instrumented_realloc thread original_address new_address new_size w
    | single_thread_instrumented ↦
        single_thread_instrumented_realloc thread original_address new_address new_size w
  ]

  unfoldable pub free : ℕ → ℕ → Watcher Queue → Result (Watcher Queue)
  unfolding instrumented_free single_thread_instrumented_free
  free thread address w = elim w.free_function [
    | libc ↦ ok w
    | instrumented ↦ instrumented_free thread address w
    | single_thread_instrumented ↦ single_thread_instrumented_free thread address w
  ]

  unfoldable pub call : HeapCall → Watcher Queue → Result (Watcher Queue)
  unfolding malloc calloc realloc free
  call (malloc_call thread size address frames) w = malloc thread size address frames w
  call (calloc_call thread nitems size address frames) w =
      calloc thread nitems size address frames w
  call (realloc_call thread original_address new_address new_size) w =
      realloc thread original_address new_address new_size w
  call (free_call thread address) w = free thread address w

  unfoldable pub calls : List HeapCall → Watcher Queue → Result (Watcher Queue)
  unfolding call
  calls [] w = ok w
  calls (c ∷ cs) w = do w' ← call c w; calls cs w'
