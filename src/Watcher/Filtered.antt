-- ===== src/Watcher/Filtered.antt =====
-- Watches in which some allocations show a known leak: those are counted, and all else is recorded.
use mathlib.Core.List.{append-nil, append_assoc}
use mathlib.Core.Path.{fun_ext, subst}
use heap_watcher.Prelude.{
  ℕ, suc, ◌*◌, ◌≤◌, ◌≡◌, refl, sym, ap, inl, inr, List, [], ◌∷◌, ◌++◌, u64, All, arith, ok, Returns,
}
use heap_watcher.Requests.{WorkerRequest}
use heap_watcher.Queue.{RequestQueue}
use heap_watcher.Queue.Laws.{QueueLaws, OnlyFrom, enqueue-OnlyFrom}
use heap_watcher.KnownLeaks.{LeakAddressAndOffset}
use heap_watcher.KnownLeaks.Filter.{IsIgnored, is_known_leak-Decides}
use heap_watcher.Worker.KnownCount.{counted}
use heap_watcher.Watcher.Backtrace.{max_malloc_depth_in_call_stack}
use heap_watcher.Watcher.Frames.{capture-filled, tail_depth-pointer}
use heap_watcher.Watcher.Recording.{shown}
use heap_watcher.Watcher.{Watcher, is_watching_this_thread, pause_token, destroy_token}
use heap_watcher.Watcher.HeapCalls.{
  HeapCall, malloc_call, calloc_call, realloc_call, free_call, caller, guarded, record_allocation,
  count_known_leak, call, calls,
}
use heap_watcher.Watcher.Sending.{
  IsWatching, IsOfInterest, requested, next_id, after, after-IsWatching, call-sends,
}

-- The stack of the call shows a known leak.
abbrev pub ShowsKnown : List LeakAddressAndOffset → ℕ → HeapCall → Type 0
ShowsKnown known depth (malloc_call thread size address frames) =
    IsIgnored known (shown depth frames)
ShowsKnown known depth (calloc_call thread nitems size address frames) =
    IsIgnored known (shown depth frames)
ShowsKnown known depth (realloc_call thread original_address new_address new_size) = ⊥
ShowsKnown known depth (free_call thread address) = ⊥

-- Of the calls, with the counter of transaction ids, the requests that are sent and the number of
-- those that show a known leak.
pub data Filtered (known : List LeakAddressAndOffset) (depth : ℕ)
    : ℕ → List HeapCall → List WorkerRequest → ℕ → Type 0 where
  no_calls : (g : ℕ) → Filtered known depth g [] [] 0
  left_out :
      (g : ℕ) (c : HeapCall) (cs : List HeapCall) (rs : List WorkerRequest) (n : ℕ)
      → ShowsKnown known depth c
      → Filtered known depth g cs rs n
      → Filtered known depth g (c ∷ cs) rs (suc n)
  passed_on :
      (g : ℕ) (c : HeapCall) (cs : List HeapCall) (rs : List WorkerRequest) (n : ℕ)
      → IsOfInterest known depth c
      → Filtered known depth (next_id g c) cs rs n
      → Filtered known depth g (c ∷ cs) (requested depth g c ∷ rs) n

module _ (queue : RequestQueue) where
  open queue use {Queue}

  record_allocation-counts :
      (thread size address : ℕ) (frames : List ℕ) (w : Watcher Queue)
      → w.malloc_depth_in_call_stack ≤ max_malloc_depth_in_call_stack
      → IsIgnored w.known_leaks (shown w.malloc_depth_in_call_stack frames)
      → record_allocation queue thread size address frames w ≡ ok (count_known_leak queue w)
  unfolding record_allocation
  record_allocation-counts thread size address frames w fits shows =
      let depth = w.malloc_depth_in_call_stack in
      elim (is_known_leak-Decides w.known_leaks (shown depth frames)) [
        | inl (h, e) ↦
            rw (capture-filled depth frames fits, tail_depth-pointer depth frames fits, e) refl
        | inr (h, e) ↦ absurd (h shows)
      ]

  malloc-counts :
      (thread size address : ℕ) (frames : List ℕ) (w : Watcher Queue)
      → w.malloc_depth_in_call_stack ≤ max_malloc_depth_in_call_stack
      → IsIgnored w.known_leaks (shown w.malloc_depth_in_call_stack frames)
      → guarded thread (record_allocation queue thread size address frames) w
        ≡ ok (count_known_leak queue w)
  unfolding pause_token destroy_token count_known_leak
  malloc-counts thread size address frames w fits shows =
      rw (record_allocation-counts thread size address frames (pause_token thread w).1 fits shows) (
        ap (λ flags. ok (record (count_known_leak queue w) { watching_thread = flags }))
          (fun_ext (λ j. ground arith)))

  -- A call that shows a known leak is counted, and changes nothing else.
  call-counts :
      (c : HeapCall) (w : Watcher Queue)
      → IsWatching (caller c) w
      → ShowsKnown w.known_leaks w.malloc_depth_in_call_stack c
      → call queue c w ≡ ok (count_known_leak queue w)
  unfolding call is_watching_this_thread
  call-counts (malloc_call thread size address frames) w on shows = ground (
    arith,
    on.malloc_on,
    on.globally,
    on.here,
    malloc-counts thread size address frames w on.fits shows,
  )
  call-counts (calloc_call thread nitems size address frames) w on shows = ground (
    arith,
    on.calloc_on,
    on.globally,
    on.here,
    malloc-counts thread (u64 (size * nitems)) address frames w on.fits shows,
  )
  call-counts (realloc_call thread original_address new_address new_size) w on shows = absurd shows
  call-counts (free_call thread address) w on shows = absurd shows

module _ {queue : RequestQueue} (laws : QueueLaws queue) where
  open queue use {Queue}

  -- Behind the requests of before are those of the calls, and the known leaks are counted.
  abbrev pub HasFiltered : ℕ → List WorkerRequest → ℕ → Watcher Queue → Watcher Queue → Type 0
  HasFiltered thread rs n w w' =
      (q : Queue) × (g : ℕ) × OnlyFrom laws thread rs q
      × (w' ≡ record w { worker_request_queue = q; g_txn_id = g; books = counted n w.books })

  count_known_leak-IsWatching :
      (thread : ℕ) (w : Watcher Queue)
      → IsWatching thread w
      → IsWatching thread (count_known_leak queue w)
  unfolding count_known_leak
  count_known_leak-IsWatching thread w on = record {
    malloc_on = on.malloc_on;
    calloc_on = on.calloc_on;
    realloc_on = on.realloc_on;
    free_on = on.free_on;
    globally = on.globally;
    here = on.here;
    fits = on.fits;
  }

  pub calls-HasFiltered :
      {known : List LeakAddressAndOffset} {depth g : ℕ} (thread : ℕ) {cs : List HeapCall}
      {sent : List WorkerRequest} {n : ℕ} (rs : List WorkerRequest) (w : Watcher Queue)
      → Filtered known depth g cs sent n
      → w.known_leaks ≡ known
      → w.malloc_depth_in_call_stack ≡ depth
      → w.g_txn_id ≡ g
      → All (λ c. caller c ≡ thread) cs
      → IsWatching thread w
      → OnlyFrom laws thread rs w.worker_request_queue
      → Returns (HasFiltered thread (rs ++ sent) n w) (calls queue cs w)
  unfolding calls count_known_leak
  calls-HasFiltered thread rs w (no_calls g) same_known same_depth same_id mine on only =
      (w.worker_request_queue, w.g_txn_id, rw append-nil only, refl)
  calls-HasFiltered {known} {depth} thread rs w (left_out g c cs sent n shows rest) same_known
        same_depth same_id mine on only =
      let shows' : ShowsKnown w.known_leaks w.malloc_depth_in_call_stack c =
        subst (λ d. ShowsKnown w.known_leaks d c) (sym same_depth)
          (subst (λ k. ShowsKnown k depth c) (sym same_known) shows) in
      rw (call-counts queue c w (subst (λ t. IsWatching t w) (sym mine.0) on) shows') (
        calls-HasFiltered thread rs (count_known_leak queue w) rest same_known same_depth same_id
          mine.1 (count_known_leak-IsWatching thread w on) only)
  calls-HasFiltered {known} {depth} thread rs w (passed_on g c cs sent n new rest) same_known
        same_depth same_id mine on only =
      let new' : IsOfInterest w.known_leaks w.malloc_depth_in_call_stack c =
        subst (λ d. IsOfInterest w.known_leaks d c) (sym same_depth)
          (subst (λ k. IsOfInterest k depth c) (sym same_known) new) in
      let r = requested w.malloc_depth_in_call_stack w.g_txn_id c in
      let same_request : r ≡ requested depth g c = rw (same_depth, same_id) refl in
      let only' : OnlyFrom laws thread (rs ++ requested depth g c ∷ [])
          (after queue c w).worker_request_queue =
        subst (λ x. OnlyFrom laws thread (rs ++ x ∷ []) (after queue c w).worker_request_queue)
          same_request
          (subst (λ t. OnlyFrom laws t (rs ++ r ∷ []) (after queue c w).worker_request_queue) mine.0
            (enqueue-OnlyFrom laws (caller c) rs r w.worker_request_queue
              (subst (λ t. OnlyFrom laws t rs w.worker_request_queue) (sym mine.0) only))) in
      rw (call-sends queue c w (subst (λ t. IsWatching t w) (sym mine.0) on) new') (
        subst (λ xs. Returns (HasFiltered thread xs n w) (calls queue cs (after queue c w)))
          (append_assoc rs (requested depth g c ∷ []) sent)
          (calls-HasFiltered thread (rs ++ requested depth g c ∷ []) (after queue c w) rest
            same_known same_depth (ap (λ i. next_id i c) same_id) mine.1
            (after-IsWatching queue thread c w on) only'))
