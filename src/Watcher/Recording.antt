-- ===== src/Watcher/Recording.antt =====
-- What the instrumented malloc and calloc of a watched thread record.
use heap_watcher.Prelude.{
  ℕ, ◌*◌, ◌≤◌, ◌<◌, ◌≡◌, refl, ◌⊎◌, inl, inr, true, List, length, u64, add64, fault, write_past_end,
  Returns, Returns-bind,
}
use heap_watcher.Records.{allocation_record}
use heap_watcher.Requests.{malloc_of}
use heap_watcher.Queue.{RequestQueue}
use heap_watcher.KnownLeaks.Filter.{IsIgnored, is_known_leak-Decides}
use heap_watcher.Watcher.Backtrace.{from_pointer, max_malloc_depth_in_call_stack, stack_tail_size}
use heap_watcher.Watcher.Frames.{
  capture_overruns, four_frames, filled, capture-filled, tail_depth-pointer, read_tail-four_frames,
}
use heap_watcher.Watcher.{
  Watcher, instrumented, is_watching_this_thread, pause_token, destroy_token,
}
use heap_watcher.Watcher.HeapCalls.{guarded, record_allocation, malloc, calloc}

-- The frames that the filter for known leaks is shown.
abbrev pub shown : ℕ → List ℕ → List ℕ
shown depth frames = from_pointer depth (filled depth frames)

module _ (queue : RequestQueue) where
  open queue use {Queue, enqueue}

  -- Either the stack shows a known leak, which is counted, and nothing is sent; or a request is
  -- sent, with the next transaction id and the four frames behind the wrappers, and nothing is
  -- counted.
  abbrev pub Records : ℕ → ℕ → ℕ → List ℕ → Watcher Queue → Watcher Queue → Type 0
  Records thread size address frames w w' =
      (IsIgnored w.known_leaks (shown w.malloc_depth_in_call_stack frames)
        × (w'.worker_request_queue ≡ w.worker_request_queue)
        × (w'.books.number_of_known_leaks ≡ add64 w.books.number_of_known_leaks 1)
        × (w'.g_txn_id ≡ w.g_txn_id))
      ⊎ ((¬ IsIgnored w.known_leaks (shown w.malloc_depth_in_call_stack frames))
          × (w'.worker_request_queue
              ≡ enqueue thread
                  (malloc_of (
                    allocation_record size address w.g_txn_id
                      (four_frames w.malloc_depth_in_call_stack frames)))
                  w.worker_request_queue)
          × (w'.books.number_of_known_leaks ≡ w.books.number_of_known_leaks)
          × (w'.g_txn_id ≡ add64 w.g_txn_id 1))

  record_allocation-Records :
      (thread size address : ℕ) (frames : List ℕ) (w : Watcher Queue)
      → w.malloc_depth_in_call_stack ≤ max_malloc_depth_in_call_stack
      → Returns
          (Records thread size address frames w)
          (record_allocation queue thread size address frames w)
  unfolding record_allocation
  record_allocation-Records thread size address frames w fits =
      let depth = w.malloc_depth_in_call_stack in
      elim (is_known_leak-Decides w.known_leaks (shown depth frames)) [
        | inl (h, e) ↦
            rw (capture-filled depth frames fits, tail_depth-pointer depth frames fits, e)
              (inl (h, refl, refl, refl))
        | inr (h, e) ↦
            rw
              (
                capture-filled depth frames fits,
                tail_depth-pointer depth frames fits,
                e,
                read_tail-four_frames depth frames fits,
              )
              (inr (h, refl, refl, refl))
      ]

  guarded-Records :
      (thread size address : ℕ) (frames : List ℕ) (w : Watcher Queue)
      → w.malloc_depth_in_call_stack ≤ max_malloc_depth_in_call_stack
      → Returns
          (Records thread size address frames w)
          (guarded thread (record_allocation queue thread size address frames) w)
  unfolding pause_token destroy_token
  guarded-Records thread size address frames w fits =
      Returns-bind (Records thread size address frames w) (Records thread size address frames w)
        (record_allocation queue thread size address frames (pause_token thread w).1) _
        (record_allocation-Records thread size address frames (pause_token thread w).1 fits)
        (λ v h. h)

  -- malloc of a thread that is watched, where the wrappers take up three frames at most: it runs
  -- within the bounds of its arrays, and records the block or counts a known leak.
  pub malloc-Records :
      (thread size address : ℕ) (frames : List ℕ) (w : Watcher Queue)
      → w.malloc_function ≡ instrumented
      → is_watching_this_thread thread w ≡ true
      → w.malloc_depth_in_call_stack ≤ max_malloc_depth_in_call_stack
      → Returns (Records thread size address frames w) (malloc queue thread size address frames w)
  unfolding malloc
  malloc-Records thread size address frames w f watched fits =
      rw (f, malloc, watched) (guarded-Records thread size address frames w fits)

  -- calloc of such a thread does the same, with the product of its arguments for the size, modulo
  -- 2 ^ 64.
  calloc-Records :
      (thread nitems size address : ℕ) (frames : List ℕ) (w : Watcher Queue)
      → w.calloc_function ≡ instrumented
      → is_watching_this_thread thread w ≡ true
      → w.malloc_depth_in_call_stack ≤ max_malloc_depth_in_call_stack
      → Returns
          (Records thread (u64 (size * nitems)) address frames w)
          (calloc queue thread nitems size address frames w)
  unfolding calloc
  calloc-Records thread nitems size address frames w f watched fits =
      rw (f, calloc, watched) (guarded-Records thread (u64 (size * nitems)) address frames w fits)

  -- With wrappers four frames deep or more, and a stack of eight frames or more, malloc of a thread
  -- that is watched writes past the end of its array.
  pub malloc_overruns :
      (thread size address : ℕ) (frames : List ℕ) (w : Watcher Queue)
      → w.malloc_function ≡ instrumented
      → is_watching_this_thread thread w ≡ true
      → max_malloc_depth_in_call_stack < w.malloc_depth_in_call_stack
      → stack_tail_size < length frames
      → malloc queue thread size address frames w ≡ fault write_past_end
  unfolding malloc
  malloc_overruns thread size address frames w f watched deep long =
      rw (f, malloc, watched, capture_overruns w.malloc_depth_in_call_stack frames deep long)
