-- ===== src/Watcher/SingleThread.antt =====
-- Where the functions for single-threaded instrumentation of src/HeapWatcher.cpp and those for
-- many threads part.
use mathlib.Core.Path.{fun_ext, subst}
use heap_watcher.Prelude.{ℕ, ◌≡◌, ap, sym, ◌≤◌, List, Returns, none, some, true, arith, ok}
use heap_watcher.AddressMap.{find}
use heap_watcher.Records.{AllocationRecord, allocation_record}
use heap_watcher.AddressMap.Laws.{find-emplace}
use heap_watcher.Watcher.Backtrace.{max_malloc_depth_in_call_stack}
use heap_watcher.Watcher.Frames.{four_frames, capture-filled, read_tail-four_frames}
use heap_watcher.Queue.{RequestQueue}
use heap_watcher.Watcher.{
  Watcher, single_thread_instrumented, pause_token, destroy_token, is_watching_single,
}
use heap_watcher.Watcher.HeapCalls.{
  guarded, move_single, realloc, calloc, record_single, emplace_single,
}

module _ (queue : RequestQueue) where
  open queue use {Queue}

  -- The single-threaded records have a block of this size at the address.
  abbrev pub HasRecord : ℕ → ℕ → List ℕ → Watcher Queue → Watcher Queue → Type 0
  HasRecord size address frames w w' =
      find address w'.single_threaded_allocations
      ≡ some (
          allocation_record size address w.g_txn_id
            (four_frames w.malloc_depth_in_call_stack frames))

  move_single_missed :
      (thread original_address new_address new_size : ℕ) (w : Watcher Queue)
      → find original_address w.books.allocations ≡ none
      → guarded thread (move_single original_address new_address new_size) w ≡ ok w
  unfolding move_single pause_token destroy_token find
  move_single_missed thread original_address new_address new_size w e =
      rw e (ap (λ flags. ok (record w { watching_thread = flags })) (fun_ext (λ j. ground arith)))

  -- Under single-threaded instrumentation, realloc of a block that is in the single-threaded records
  -- and not in the records of the worker leaves the block recorded as it was, at its old address and
  -- with its old size, wherever it has moved.
  pub single_realloc_missed :
      (thread original_address new_address new_size : ℕ) (r : AllocationRecord) (w : Watcher Queue)
      → w.realloc_function ≡ single_thread_instrumented
      → find original_address w.single_threaded_allocations ≡ some r
      → find original_address w.books.allocations ≡ none
      → Returns
          (λ w'. find original_address w'.single_threaded_allocations ≡ some r)
          (realloc queue thread original_address new_address new_size w)
  unfolding realloc
  single_realloc_missed thread original_address new_address new_size r w f held missing =
      let same : realloc queue thread original_address new_address new_size w ≡ ok w =
        ground
          (arith, f, move_single_missed thread original_address new_address new_size w missing) in
      subst (Returns (λ w'. find original_address w'.single_threaded_allocations ≡ some r))
        (sym same) held

  record_single-emplaces :
      (thread size address : ℕ) (frames : List ℕ) (w : Watcher Queue)
      → w.malloc_depth_in_call_stack ≤ max_malloc_depth_in_call_stack
      → find address w.single_threaded_allocations ≡ none
      → Returns
          (HasRecord size address frames w)
          (guarded thread (record_single size address frames) w)
  unfolding record_single pause_token destroy_token emplace_single
  record_single-emplaces thread size address frames w fits fresh =
      let depth = w.malloc_depth_in_call_stack in
      rw (capture-filled depth frames fits, read_tail-four_frames depth frames fits)
        (ground (
          arith,
          find-emplace address
              (allocation_record size address w.g_txn_id (four_frames depth frames))
              w.single_threaded_allocations address fresh,
        ))

  -- Under single-threaded instrumentation, calloc of the watched thread records its block with the
  -- size of one item, whatever the number of items.
  pub single_calloc_size :
      (thread nitems size address : ℕ) (frames : List ℕ) (w : Watcher Queue)
      → w.calloc_function ≡ single_thread_instrumented
      → is_watching_single thread w ≡ true
      → w.malloc_depth_in_call_stack ≤ max_malloc_depth_in_call_stack
      → find address w.single_threaded_allocations ≡ none
      → Returns (HasRecord size address frames w) (calloc queue thread nitems size address frames w)
  unfolding calloc
  single_calloc_size thread nitems size address frames w f watched fits fresh =
      let same : calloc queue thread nitems size address frames w
          ≡ guarded thread (record_single size address frames) w =
        ground (arith, f, watched) in
      subst (Returns (HasRecord size address frames w)) (sym same)
        (record_single-emplaces thread size address frames w fits fresh)
