-- ===== src/Watcher/LateRequests.antt =====
-- The queue keeps the order of each thread and no order between threads: the snapshot of a stop may
-- come before requests that other threads sent earlier.
use heap_watcher.Prelude.{
  ℕ, ◌≡◌, refl, ap, ◌∙◌, false, some, add64, Option, List, [], ◌∷◌, ◌==◌, take, arith, ok, ◌>>=◌,
  Returns,
}
use heap_watcher.Records.{HeapSnapshot, AllocationRecord, allocation_record}
use heap_watcher.Requests.{WorkerRequest, malloc_of, snapshot_of}
use heap_watcher.Queue.Laws.{QueueLaws, bare, sent_by}
use heap_watcher.Queue.Favouring.{favouring, favoured, favouring_laws}
use heap_watcher.Worker.{
  Books, Reply, snapshot_taken, snapshot, on_clear, on_malloc, reconciled, handle_all,
}
use heap_watcher.Watcher.{Watcher, remove_instrumentation}
use heap_watcher.Watcher.HeapCalls.{malloc_call, call, send}
use heap_watcher.Watcher.Commands.{max_requests_to_dequeue, reply_to, ask, stop_watching}
use heap_watcher.Watcher.Waiting.{round-books, await_now}
use heap_watcher.Watcher.Frames.{four_frames}
use heap_watcher.Watcher.Sending.{IsWatching, IsOfInterest, call-sends}

favoured_first :
    (t u : ℕ) (r s : WorkerRequest)
    → (u == t) ≡ false
    → bare (take max_requests_to_dequeue (favoured t ((u, r) ∷ (t, s) ∷ []))) ≡ s ∷ r ∷ []
unfolding sent_by
favoured_first t u r s apart = ground (arith, apart)

-- A snapshot of cleared books, and then an allocation.
snapshot_first :
    (p : ℕ) (r : AllocationRecord) (b : Books)
    → handle_all (snapshot_of p ∷ malloc_of r ∷ []) (on_clear b)
      ≡ ok (
        on_malloc r (reconciled (on_clear b)),
        snapshot_taken p (snapshot (reconciled (on_clear b))) ∷ [],
      )
unfolding handle_all
snapshot_first p r b = refl

shows_nothing : (b : Books) → (snapshot (reconciled (on_clear b))).open_allocations ≡ []
unfolding snapshot reconciled on_clear
shows_nothing b = refl

-- The stop has returned with a snapshot of no blocks.
abbrev pub StopsEmpty : {Q : Type 0} → ℕ → Option Reply × Watcher Q → Type 0
StopsEmpty p out =
    (s : HeapSnapshot) × (out.0 ≡ some (snapshot_taken p s)) × (s.open_allocations ≡ [])

module _ (t u : ℕ) (apart : (u == t) ≡ false) where
  stop_first :
      (p turn : ℕ) (turns : List ℕ) (r : AllocationRecord) (b : Books)
      (w : Watcher ((favouring t).Queue))
      → let sent = record w { worker_request_queue = (u, malloc_of r) ∷ []; books = on_clear b } in
        Returns (StopsEmpty p) (stop_watching (favouring t) t p (turn ∷ turns) sent)
  unfolding stop_watching ask send remove_instrumentation reply_to
  stop_first p turn turns r b w =
      let asked = record (remove_instrumentation w) {
        worker_request_queue = (u, malloc_of r) ∷ (t, snapshot_of p) ∷ [];
        books = on_clear b;
      } in
      let done = on_malloc r (reconciled (on_clear b)) in
      let taken = snapshot_taken p (snapshot (reconciled (on_clear b))) in
      let batch =
        ap (λ rs. handle_all rs (on_clear b))
          (favoured_first t u (malloc_of r) (snapshot_of p) apart)
        ∙ snapshot_first p r b in
      let served = round-books (favouring_laws t) turn done (taken ∷ []) asked batch in
      rw
        (await_now (favouring_laws t) p turn turns taken asked _ (taken ∷ []) served (ground arith))
        (snapshot (reconciled (on_clear b)), refl, shows_nothing b)

  -- The queue that favours thread `t` meets every law that is relied on. With it, in a watch with
  -- cleared books and an empty queue, where thread `u` is another one and watched, and its stack shows
  -- no known leak: the malloc of `u` returns, `t` calls stop_watching, the worker runs a round, and
  -- the snapshot that comes back lists no block.
  pub late_request :
      (p size address turn : ℕ) (turns frames : List ℕ) (b : Books)
      (start : Watcher ((favouring t).Queue))
      → let begun = record start { worker_request_queue = []; books = on_clear b } in
        IsWatching u begun
        → IsOfInterest start.known_leaks start.malloc_depth_in_call_stack
            (malloc_call u size address frames)
        → QueueLaws (favouring t)
          × Returns (StopsEmpty p) (do
            called ← call (favouring t) (malloc_call u size address frames) begun
            stop_watching (favouring t) t p (turn ∷ turns) called)
  late_request p size address turn turns frames b start on new =
      let begun = record start { worker_request_queue = []; books = on_clear b } in
      (
        favouring_laws t,
        rw (call-sends (favouring t) (malloc_call u size address frames) begun on new) (
            stop_first p turn turns
              (allocation_record size address start.g_txn_id
                (four_frames start.malloc_depth_in_call_stack frames))
              b (record start { g_txn_id = add64 start.g_txn_id 1 })),
      )
