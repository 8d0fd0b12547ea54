-- ===== src/Watcher/Sending.antt =====
-- The requests that the heap calls of a watched thread send, call by call.
use mathlib.Core.List.{append-nil, append_assoc}
use mathlib.Core.Path.{fun_ext, subst}
use heap_watcher.Prelude.{
  ℕ, ◌*◌, ◌≤◌, ◌≡◌, refl, sym, ap, inl, inr, true, List, [], ◌∷◌, ◌++◌, u64, add64, All, arith, ok,
}
use heap_watcher.Prelude.{Returns}
use heap_watcher.Records.{allocation_record}
use heap_watcher.Requests.{WorkerRequest, malloc_of, free_of, realloc_request}
use heap_watcher.Queue.{RequestQueue}
use heap_watcher.Queue.Laws.{QueueLaws, OnlyFrom, enqueue-OnlyFrom}
use heap_watcher.KnownLeaks.{LeakAddressAndOffset}
use heap_watcher.KnownLeaks.Filter.{IsIgnored, is_known_leak-Decides}
use heap_watcher.Watcher.Backtrace.{max_malloc_depth_in_call_stack}
use heap_watcher.Watcher.Frames.{
  four_frames, capture-filled, tail_depth-pointer, read_tail-four_frames,
}
use heap_watcher.Watcher.Recording.{shown}
use heap_watcher.Watcher.{
  Watcher, instrumented, is_watching_this_thread, pause_token, destroy_token,
}
use heap_watcher.Watcher.HeapCalls.{
  HeapCall, malloc_call, calloc_call, realloc_call, free_call, caller, guarded, send, send_malloc,
  record_allocation, call, calls,
}

-- The thread is watched, and the wrappers fit the array `stack_tail`.
pub record IsWatching {Q : Type 0} (thread : ℕ) (w : Watcher Q) : Type 0 where
  pub malloc_on : w.malloc_function ≡ instrumented
  pub calloc_on : w.calloc_function ≡ instrumented
  pub realloc_on : w.realloc_function ≡ instrumented
  pub free_on : w.free_function ≡ instrumented
  pub globally : w.watching_globally ≡ true
  pub here : w.watching_thread thread ≡ true
  pub fits : w.malloc_depth_in_call_stack ≤ max_malloc_depth_in_call_stack

-- The request of one call, with the counter of transaction ids, where no known leak is at hand.
abbrev pub requested : ℕ → ℕ → HeapCall → WorkerRequest
requested depth g (malloc_call thread size address frames) =
    malloc_of (allocation_record size address g (four_frames depth frames))
requested depth g (calloc_call thread nitems size address frames) =
    malloc_of (allocation_record (u64 (size * nitems)) address g (four_frames depth frames))
requested depth g (realloc_call thread original_address new_address new_size) =
    realloc_request original_address new_address new_size
requested depth g (free_call thread address) = free_of address

abbrev pub next_id : ℕ → HeapCall → ℕ
next_id g (malloc_call thread size address frames) = add64 g 1
next_id g (calloc_call thread nitems size address frames) = add64 g 1
next_id g (realloc_call thread original_address new_address new_size) = g
next_id g (free_call thread address) = g

abbrev pub all_requested : ℕ → ℕ → List HeapCall → List WorkerRequest
all_requested depth g [] = []
all_requested depth g (c ∷ cs) = requested depth g c ∷ all_requested depth (next_id g c) cs

-- No stack of the call shows a known leak.
abbrev pub IsOfInterest : List LeakAddressAndOffset → ℕ → HeapCall → Type 0
IsOfInterest known depth (malloc_call thread size address frames) =
    ¬ IsIgnored known (shown depth frames)
IsOfInterest known depth (calloc_call thread nitems size address frames) =
    ¬ IsIgnored known (shown depth frames)
IsOfInterest known depth (realloc_call thread original_address new_address new_size) = Unit {0}
IsOfInterest known depth (free_call thread address) = Unit {0}

module _ (queue : RequestQueue) where
  open queue use {Queue, enqueue}

  -- The state after a call.
  abbrev pub after : HeapCall → Watcher Queue → Watcher Queue
  after c w = record w {
    worker_request_queue =
        enqueue (caller c) (requested w.malloc_depth_in_call_stack w.g_txn_id c)
          w.worker_request_queue;
    g_txn_id = next_id w.g_txn_id c;
  }

  record_allocation-sends :
      (thread size address : ℕ) (frames : List ℕ) (w : Watcher Queue)
      → w.malloc_depth_in_call_stack ≤ max_malloc_depth_in_call_stack
      → ¬ IsIgnored w.known_leaks (shown w.malloc_depth_in_call_stack frames)
      → record_allocation queue thread size address frames w
        ≡ ok (
            send_malloc queue thread size address
              (four_frames w.malloc_depth_in_call_stack frames)
              w)
  unfolding record_allocation
  record_allocation-sends thread size address frames w fits new =
      let depth = w.malloc_depth_in_call_stack in
      elim (is_known_leak-Decides w.known_leaks (shown depth frames)) [
        | inl (h, e) ↦ absurd (new h)
        | inr (h, e) ↦ rw (
          capture-filled depth frames fits,
          tail_depth-pointer depth frames fits,
          e,
          read_tail-four_frames depth frames fits,
        )
      ]

  malloc-sends :
      (thread size address : ℕ) (frames : List ℕ) (w : Watcher Queue)
      → w.malloc_depth_in_call_stack ≤ max_malloc_depth_in_call_stack
      → ¬ IsIgnored w.known_leaks (shown w.malloc_depth_in_call_stack frames)
      → guarded thread (record_allocation queue thread size address frames) w
        ≡ ok (after (malloc_call thread size address frames) w)
  unfolding pause_token destroy_token send_malloc
  malloc-sends thread size address frames w fits new =
      rw (record_allocation-sends thread size address frames (pause_token thread w).1 fits new) (
        ap
          (λ flags.
            ok (record (after (malloc_call thread size address frames) w) {
              watching_thread = flags;
            }))
          (fun_ext (λ j. ground arith)))

  send-sends :
      (thread : ℕ) (r : WorkerRequest) (w : Watcher Queue)
      → guarded thread (λ v. ok (send queue thread r v)) w ≡ ok (send queue thread r w)
  unfolding pause_token destroy_token send
  send-sends thread r w =
      ap (λ flags. ok (record (send queue thread r w) { watching_thread = flags }))
        (fun_ext (λ j. ground arith))

  pub call-sends :
      (c : HeapCall) (w : Watcher Queue)
      → IsWatching (caller c) w
      → IsOfInterest w.known_leaks w.malloc_depth_in_call_stack c
      → call queue c w ≡ ok (after c w)
  unfolding call is_watching_this_thread
  call-sends (malloc_call thread size address frames) w on new = ground (
    arith,
    on.malloc_on,
    on.globally,
    on.here,
    malloc-sends thread size address frames w on.fits new,
  )
  call-sends (calloc_call thread nitems size address frames) w on new = ground (
    arith,
    on.calloc_on,
    on.globally,
    on.here,
    malloc-sends thread (u64 (size * nitems)) address frames w on.fits new,
  )
  call-sends (realloc_call thread original_address new_address new_size) w on new = ground (
    arith,
    on.realloc_on,
    on.globally,
    on.here,
    send-sends thread (realloc_request original_address new_address new_size) w,
  )
  call-sends (free_call thread address) w on new =
      ground (arith, on.free_on, on.globally, on.here, send-sends thread (free_of address) w)

  pub after-IsWatching :
      (thread : ℕ) (c : HeapCall) (w : Watcher Queue)
      → IsWatching thread w
      → IsWatching thread (after c w)
  after-IsWatching thread c w on = record {
    malloc_on = on.malloc_on;
    calloc_on = on.calloc_on;
    realloc_on = on.realloc_on;
    free_on = on.free_on;
    globally = on.globally;
    here = on.here;
    fits = on.fits;
  }

module _ {queue : RequestQueue} (laws : QueueLaws queue) where
  open queue use {Queue}

  -- The calls have sent their requests behind those of before, and changed nothing else.
  abbrev pub HasSent : ℕ → List WorkerRequest → Watcher Queue → Watcher Queue → Type 0
  HasSent thread rs w w' =
      (q : Queue) × (g : ℕ) × OnlyFrom laws thread rs q
      × (w' ≡ record w { worker_request_queue = q; g_txn_id = g })

  pub calls-HasSent :
      (thread : ℕ) (cs : List HeapCall) (rs : List WorkerRequest) (w : Watcher Queue)
      → All (λ c. caller c ≡ thread) cs
      → All (IsOfInterest w.known_leaks w.malloc_depth_in_call_stack) cs
      → IsWatching thread w
      → OnlyFrom laws thread rs w.worker_request_queue
      → Returns
          (HasSent thread (rs ++ all_requested w.malloc_depth_in_call_stack w.g_txn_id cs) w)
          (calls queue cs w)
  unfolding calls
  calls-HasSent thread [] rs w mine new on only =
      (w.worker_request_queue, w.g_txn_id, rw append-nil only, refl)
  calls-HasSent thread (c ∷ cs) rs w mine new on only =
      let r = requested w.malloc_depth_in_call_stack w.g_txn_id c in
      let on' = subst (λ t. IsWatching t w) (sym mine.0) on in
      let only' =
        enqueue-OnlyFrom laws (caller c) rs r w.worker_request_queue
          (subst (λ t. OnlyFrom laws t rs w.worker_request_queue) (sym mine.0) only) in
      let joined : (rs ++ r ∷ [])
            ++ all_requested w.malloc_depth_in_call_stack (next_id w.g_txn_id c) cs
          ≡ rs ++ r ∷ all_requested w.malloc_depth_in_call_stack (next_id w.g_txn_id c) cs =
        append_assoc rs (r ∷ []) _ in
      rw (call-sends queue c w on' new.0) (
        subst (λ xs. Returns (HasSent thread xs w) (calls queue cs (after queue c w))) joined
          (calls-HasSent thread cs (rs ++ r ∷ []) (after queue c w) mine.1 new.1
            (after-IsWatching queue thread c w on)
            (subst (λ t. OnlyFrom laws t (rs ++ r ∷ []) (after queue c w).worker_request_queue)
              mine.0 only')))
