-- ===== src/Watcher/OneCapture.antt =====
-- The instrumentation for one thread around a function that leaks one block by malloc, and what
-- capture_known_leak makes of it.
use mathlib.Core.Path.{fun_ext}
use heap_watcher.Prelude.{
  All, ◌≢◌, fault, read_past_end, ℕ, ◌≤◌, ◌≡◌, refl, ap, true, false, some, List, [], ◌∷◌, add64,
  arith, ok,
}
use heap_watcher.AddressMap.{emplace}
use heap_watcher.Records.{AllocationRecord, allocation_record}
use heap_watcher.Queue.{RequestQueue}
use heap_watcher.Symbols.StackTrace.{stack_trace-overruns}
use heap_watcher.Symbols.{SymbolServices}
use heap_watcher.Watcher.Backtrace.{max_malloc_depth_in_call_stack}
use heap_watcher.Watcher.Frames.{four_frames, capture-filled, read_tail-four_frames}
use heap_watcher.Watcher.{
  Watcher, is_watching_single, pause_token, destroy_token, remove_instrumentation,
  set_single_threaded_instrumentation,
}
use heap_watcher.Watcher.HeapCalls.{
  malloc_call, guarded, record_single, emplace_single, call, calls, malloc,
}
use heap_watcher.Watcher.Probing.{capture_leak, capture_leaks, run_single, capture_known_leak}

-- The record of the leaked block.
abbrev pub leaked : {Q : Type 0} → ℕ → ℕ → List ℕ → Watcher Q → AllocationRecord
leaked size address frames w =
    allocation_record size address w.g_txn_id (four_frames w.malloc_depth_in_call_stack frames)

-- What the instrumentation for one thread has recorded.
abbrev pub recorded : {Q : Type 0} → ℕ → AllocationRecord → Watcher Q → Watcher Q
recorded thread r w = record w {
  watched_single_thread_id = some thread;
  single_threaded_allocations = (r.address, r) ∷ [];
  g_txn_id = add64 w.g_txn_id 1;
}

record_single-runs :
    {Q : Type 0} (thread size address : ℕ) (frames : List ℕ) (w : Watcher Q)
    → w.malloc_depth_in_call_stack ≤ max_malloc_depth_in_call_stack
    → guarded thread (record_single size address frames) w
      ≡ ok (emplace_single size address (four_frames w.malloc_depth_in_call_stack frames) w)
unfolding record_single pause_token destroy_token emplace_single
record_single-runs thread size address frames w fits =
    let depth = w.malloc_depth_in_call_stack in
    rw (capture-filled depth frames fits, read_tail-four_frames depth frames fits)
      (ap
        (λ flags. ok (record (emplace_single size address (four_frames depth frames) w) {
          watching_thread = flags;
        }))
        (fun_ext (λ j. ground arith)))

module _ (services : SymbolServices) (queue : RequestQueue) where
  open queue use {Queue}

  pub run_single-recorded :
      (thread size address : ℕ) (frames : List ℕ) (w : Watcher Queue)
      → w.watching_thread thread ≡ true
      → w.malloc_depth_in_call_stack ≤ max_malloc_depth_in_call_stack
      → run_single services queue thread (malloc_call thread size address frames ∷ []) w
        ≡ ok (remove_instrumentation (recorded thread (leaked size address frames w) w))
  unfolding run_single calls call malloc set_single_threaded_instrumentation remove_instrumentation
      is_watching_single emplace_single emplace
  run_single-recorded thread size address frames w here fits =
      let ready =
        set_single_threaded_instrumentation
          (record w { single_threaded_allocations = []; watched_single_thread_id = some thread }) in
      ground (arith, here, record_single-runs thread size address frames ready fits)

  -- capture_known_leak, while no watch is in progress, of a function that leaks one block from
  -- malloc in an unpaused thread, with wrappers that fit their array: where none of the four frames
  -- behind the wrappers is null, as in a thread of std::async with a call stack that is deep enough,
  -- the stack trace of the block is read past its end, whatever the names.
  pub capture-overruns :
      (thread size address : ℕ) (frames : List ℕ) (names : List (List ℕ)) (w : Watcher Queue)
      → w.watching_globally ≡ false
      → w.watching_thread thread ≡ true
      → w.malloc_depth_in_call_stack ≤ max_malloc_depth_in_call_stack
      → All (λ a. a ≢ 0) (four_frames w.malloc_depth_in_call_stack frames)
      → capture_known_leak services queue thread names
          (malloc_call thread size address frames ∷ [])
          w
        ≡ fault read_past_end
  unfolding capture_known_leak capture_leaks capture_leak remove_instrumentation
  capture-overruns thread size address frames names w off here fits full = ground (
    arith,
    off,
    run_single-recorded thread size address frames w here fits,
    stack_trace-overruns services (leaked size address frames w) refl full,
  )
