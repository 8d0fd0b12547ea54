-- ===== src/Watcher/Handling.antt =====
-- Heap calls of any number of threads and rounds of the worker, interleaved in any order: what the
-- worker has handled, whatever the calls are.
use mathlib.Core.List.{append-nil, append_assoc}
use mathlib.Core.Path.{subst}
use heap_watcher.Prelude.{ℕ, ◌≡◌, refl, sym, ap, ◌∙◌, List, [], ◌∷◌, ◌++◌, All, arith, ok, fault}
use heap_watcher.Requests.{WorkerRequest}
use heap_watcher.Queue.{RequestQueue}
use heap_watcher.Queue.Laws.{QueueLaws, OnlyFrom, bare, sent_by}
use heap_watcher.Queue.Orders.{length_zero}
use heap_watcher.Worker.{Books, Reply, handle_all}
use heap_watcher.Worker.Batches.{Outcome, resume, handle_all-append}
use heap_watcher.Worker.Merges.{sent_by-append, bare-append}
use heap_watcher.Watcher.{Watcher}
use heap_watcher.Watcher.HeapCalls.{HeapCall, caller, call}
use heap_watcher.Watcher.Commands.{max_requests_to_dequeue, worker_round}
use heap_watcher.Watcher.Waiting.{round-books}
use heap_watcher.Watcher.Sending.{IsWatching, IsOfInterest, requested, next_id, call-sends}
use heap_watcher.Watcher.Traces.{
  sent_for, Trace, ends, calls, serves, ok_injective, IsWatching-state, enqueue-orders,
}

resumed_ok :
    (b : Books) {b' : Books} (f : Books → Outcome) (replies : List Reply) {more : List Reply}
    → f b ≡ ok (b', more)
    → resume (ok (b, replies)) f ≡ ok (b', replies ++ more)
resumed_ok b f replies e = rw e

module _ {queue : RequestQueue} (laws : QueueLaws queue) where
  open queue use {Queue, enqueue, wait_dequeue_bulk_timed}

  -- What the worker has handled and what is pending is what the threads have sent, and the books
  -- are those after what was handled.
  pub record Handling (start : Watcher Queue) (sent : List (ℕ × WorkerRequest)) (id : ℕ)
      (w : Watcher Queue) : Type 0 where
    pub handled : List (ℕ × WorkerRequest)
    pub now : Queue
    pub books : Books
    pub replies : List Reply
    pub ran : handle_all (bare handled) start.books ≡ ok (books, replies)
    pub state : w ≡ record start { worker_request_queue = now; books = books; g_txn_id = id }
    pub orders : (u : ℕ) → sent_by u handled ++ laws.pending u now ≡ sent_by u sent

  pub begin-Handling :
      (t : ℕ) (start : Watcher Queue)
      → OnlyFrom laws t [] start.worker_request_queue
      → Handling start [] start.g_txn_id start
  unfolding handle_all sent_by
  begin-Handling t start only = record {
    handled = [];
    now = start.worker_request_queue;
    books = start.books;
    replies = [];
    ran = refl;
    state = refl;
    orders = λ u.
        length_zero (laws.pending u start.worker_request_queue)
          (omega (arith, laws.pending_size u start.worker_request_queue, only.no_more));
  }

  -- A round that returns has handled its batch.
  record Served (turn : ℕ) (w v : Watcher Queue) (replies : List Reply) : Type 0 where
    new_books : Books
    batch :
        handle_all
          (bare (wait_dequeue_bulk_timed turn max_requests_to_dequeue w.worker_request_queue).0)
          w.books
        ≡ ok (new_books, replies)
    after : v ≡ record w {
      worker_request_queue =
          (wait_dequeue_bulk_timed turn max_requests_to_dequeue w.worker_request_queue).1;
      books = new_books;
    }

  round-Served :
      (turn : ℕ) (w v : Watcher Queue) (replies : List Reply) (r : Outcome)
      → handle_all
          (bare (wait_dequeue_bulk_timed turn max_requests_to_dequeue w.worker_request_queue).0)
          w.books
        ≡ r
      → worker_round queue turn w ≡ ok (v, replies)
      → Served turn w v replies
  unfolding worker_round
  round-Served turn w v replies (fault f) k e = absurd (ground (arith, k, e))
  round-Served turn w v replies (ok (b, more)) k e =
      let out = ok_injective (sym e ∙ round-books laws turn b more w k) in
      record {
        new_books = b;
        batch = k ∙ ap (λ xs. ok (b, xs)) (sym (ap (λ o. o.1) out));
        after = ap (λ o. o.0) out;
      }

  serve-Handling :
      (start w v : Watcher Queue) (sent : List (ℕ × WorkerRequest)) (turn : ℕ)
      (replies : List Reply) (id : ℕ)
      → worker_round queue turn w ≡ ok (v, replies)
      → Handling start sent id w
      → Handling start sent id v
  serve-Handling start w v sent turn replies id e inv =
      let got = wait_dequeue_bulk_timed turn max_requests_to_dequeue inv.now in
      let at = record start { worker_request_queue = inv.now; books = inv.books; g_txn_id = id } in
      let served =
        round-Served turn at v replies (handle_all (bare got.0) inv.books) refl
          (sym (ap (worker_round queue turn) inv.state) ∙ e) in
      record {
        handled = inv.handled ++ got.0;
        now = got.1;
        books = served.new_books;
        replies = inv.replies ++ replies;
        ran =
            ap (λ rs. handle_all rs start.books) (bare-append inv.handled got.0)
            ∙ handle_all-append (bare inv.handled) (bare got.0) start.books
            ∙ ap (λ o. resume o (handle_all (bare got.0))) inv.ran
            ∙ resumed_ok inv.books (handle_all (bare got.0)) inv.replies served.batch;
        state = served.after;
        orders = λ u.
            ap (λ xs. xs ++ laws.pending u got.1) (sent_by-append u inv.handled got.0)
            ∙ append_assoc (sent_by u inv.handled) (sent_by u got.0) (laws.pending u got.1)
            ∙ ap (λ xs. sent_by u inv.handled ++ xs)
                (laws.batch_pending u turn max_requests_to_dequeue inv.now)
            ∙ inv.orders u;
      }

  call-Handling :
      (start w v : Watcher Queue) (sent : List (ℕ × WorkerRequest)) (c : HeapCall) (id : ℕ)
      → IsWatching (caller c) start
      → IsOfInterest start.known_leaks start.malloc_depth_in_call_stack c
      → call queue c w ≡ ok v
      → Handling start sent id w
      → Handling start
          (sent ++ (caller c, requested start.malloc_depth_in_call_stack id c) ∷ [])
          (next_id id c)
          v
  call-Handling start w v sent c id on new e inv =
      let r = requested start.malloc_depth_in_call_stack id c in
      let at = record start { worker_request_queue = inv.now; books = inv.books; g_txn_id = id } in
      record {
        handled = inv.handled;
        now = enqueue (caller c) r inv.now;
        books = inv.books;
        replies = inv.replies;
        ran = inv.ran;
        state = ok_injective (
            sym e
            ∙ ap (call queue c) inv.state
            ∙ call-sends queue c at (IsWatching-state laws start inv.now inv.books id on) new);
        orders = λ u.
            enqueue-orders laws (caller c) r inv.now inv.handled sent u (inv.orders (caller c))
              (inv.orders u);
      }

  pub trace-Handling :
      (start w' : Watcher Queue) (sent : List (ℕ × WorkerRequest)) (id : ℕ) {w : Watcher Queue}
      {cs : List HeapCall}
      → All (λ c. IsWatching (caller c) start) cs
      → All (IsOfInterest start.known_leaks start.malloc_depth_in_call_stack) cs
      → Trace queue w' w cs
      → Handling start sent id w
      → (id' : ℕ) × Handling start (sent ++ sent_for start.malloc_depth_in_call_stack id cs) id' w'
  trace-Handling start w' sent id on new ends inv =
      (id, subst (λ xs. Handling start xs id w') (sym (append-nil sent)) inv)
  trace-Handling start w' sent id on new (calls {cs = cs} c v e rest) inv =
      let depth = start.malloc_depth_in_call_stack in
      let more = (caller c, requested depth id c) ∷ [] in
      subst (λ xs. (id' : ℕ) × Handling start xs id' w')
        (append_assoc sent more (sent_for depth (next_id id c) cs))
        (trace-Handling start w' (sent ++ more) (next_id id c) on.1 new.1 rest
          (call-Handling start _ v sent c id on.0 new.0 e inv))
  trace-Handling start w' sent id on new (serves turn v replies e rest) inv =
      trace-Handling start w' sent id on new rest
        (serve-Handling start _ v sent turn replies id e inv)
