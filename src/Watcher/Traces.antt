-- ===== src/Watcher/Traces.antt =====
-- Heap calls of any number of threads and rounds of the worker, interleaved in any order.
use mathlib.Core.List.{append-nil, append_assoc}
use mathlib.Core.Path.{subst}
use heap_watcher.Prelude.{
  ℕ, ◌≡◌, refl, sym, ap, ◌∙◌, List, [], ◌∷◌, ◌++◌, ◌==◌, All, arith, ok, Bool-cases, inl, inr,
}
use heap_watcher.Prelude.{All-first, All-second, All-last}
use heap_watcher.Requests.{WorkerRequest}
use heap_watcher.Queue.{RequestQueue}
use heap_watcher.Queue.Laws.{QueueLaws, OnlyFrom, bare, sent_by, sent_by_last, sent_by_others}
use heap_watcher.Worker.{Books, Reply}
use heap_watcher.Worker.Races.{run}
use heap_watcher.Worker.Merges.{
  blocks, IsBlock, sent_by-append, blocks-bare, run-append, handle_all-blocks,
}
use heap_watcher.Watcher.{Watcher}
use heap_watcher.Watcher.HeapCalls.{
  HeapCall, malloc_call, calloc_call, realloc_call, free_call, caller, call,
}
use heap_watcher.Watcher.Commands.{max_requests_to_dequeue, worker_round}
use heap_watcher.Watcher.Waiting.{round-books}
use heap_watcher.Watcher.Sending.{IsWatching, IsOfInterest, requested, next_id, call-sends}
use heap_watcher.Queue.Orders.{length_zero}

-- The requests of calls, each with its thread.
abbrev pub sent_for : ℕ → ℕ → List HeapCall → List (ℕ × WorkerRequest)
sent_for depth g [] = []
sent_for depth g (c ∷ cs) = (caller c, requested depth g c) ∷ sent_for depth (next_id g c) cs

-- The call is no realloc.
abbrev pub IsPlain : HeapCall → Type 0
IsPlain (realloc_call thread original_address new_address new_size) = ⊥
IsPlain _ = Unit {0}

requested-IsBlock : (depth g : ℕ) (c : HeapCall) → IsPlain c → IsBlock (requested depth g c)
requested-IsBlock depth g (malloc_call thread size address frames) h = tt
requested-IsBlock depth g (calloc_call thread nitems size address frames) h = tt
requested-IsBlock depth g (realloc_call thread original new_address new_size) h = elim h [ ]
requested-IsBlock depth g (free_call thread address) h = tt

All-bare :
    (batch : List (ℕ × WorkerRequest))
    → ((u : ℕ) → All IsBlock (sent_by u batch))
    → All IsBlock (bare batch)
unfolding sent_by
All-bare [] h = tt
All-bare ((v, r) ∷ batch) h =
    let own : sent_by v ((v, r) ∷ batch) ≡ r ∷ sent_by v batch = ground arith in
    (
      (subst (All IsBlock) own (h v)).0,
      All-bare batch (λ u. elim (Bool-cases (v == u)) [
        | inl e ↦
            let first : sent_by u ((v, r) ∷ batch) ≡ r ∷ sent_by u batch = ground (arith, e) in
            (subst (All IsBlock) first (h u)).1
        | inr e ↦
            let past : sent_by u ((v, r) ∷ batch) ≡ sent_by u batch = ground (arith, e) in
            subst (All IsBlock) past (h u)
      ]),
    )

pub ok_injective {ℓ} : {A : Type ℓ} {a b : A} → ok a ≡ ok b → a ≡ b
ok_injective e = cc

-- The rounds and calls of a watch, the calls with the heap calls that are made.
pub data Trace (queue : RequestQueue) (w' : Watcher queue.Queue)
    : Watcher queue.Queue → List HeapCall → Type 0 where
  ends : Trace queue w' w' []
  calls :
      {w : Watcher queue.Queue} {cs : List HeapCall} (c : HeapCall) (v : Watcher queue.Queue)
      → call queue c w ≡ ok v
      → Trace queue w' v cs
      → Trace queue w' w (c ∷ cs)
  serves :
      {w : Watcher queue.Queue} {cs : List HeapCall} (turn : ℕ) (v : Watcher queue.Queue)
      (replies : List Reply)
      → worker_round queue turn w ≡ ok (v, replies)
      → Trace queue w' v cs
      → Trace queue w' w cs

module _ {queue : RequestQueue} (laws : QueueLaws queue) where
  open queue use {Queue, enqueue, wait_dequeue_bulk_timed}

  -- What the worker has handled and what is pending is what the threads have sent, and the books
  -- are those after what was handled.
  pub record Inv (start : Watcher Queue) (sent : List (ℕ × WorkerRequest)) (id : ℕ)
      (w : Watcher Queue) : Type 0 where
    pub handled : List (ℕ × WorkerRequest)
    pub now : Queue
    pub state : w ≡ record start {
      worker_request_queue = now;
      books = run (blocks (bare handled)) start.books;
      g_txn_id = id;
    }
    pub orders : (u : ℕ) → sent_by u handled ++ laws.pending u now ≡ sent_by u sent
    pub plain : (u : ℕ) → All IsBlock (laws.pending u now)

  pub begin-Inv :
      (t : ℕ) (start : Watcher Queue)
      → OnlyFrom laws t [] start.worker_request_queue
      → Inv start [] start.g_txn_id start
  unfolding run sent_by
  begin-Inv t start only =
      let idle : (u : ℕ) → laws.pending u start.worker_request_queue ≡ [] = λ u.
        length_zero (laws.pending u start.worker_request_queue)
          (omega (arith, laws.pending_size u start.worker_request_queue, only.no_more)) in
      record {
        handled = [];
        now = start.worker_request_queue;
        state = refl;
        orders = idle;
        plain = λ u. subst (All IsBlock) (sym (idle u)) tt;
      }

  serve-Inv :
      (start w v : Watcher Queue) (sent : List (ℕ × WorkerRequest)) (turn : ℕ)
      (replies : List Reply) (id : ℕ)
      → worker_round queue turn w ≡ ok (v, replies)
      → Inv start sent id w
      → Inv start sent id v
  serve-Inv start w v sent turn replies id e inv =
      let got = wait_dequeue_bulk_timed turn max_requests_to_dequeue inv.now in
      let b = run (blocks (bare inv.handled)) start.books in
      let at = record start { worker_request_queue = inv.now; books = b; g_txn_id = id } in
      let plain : (u : ℕ) → All IsBlock (sent_by u got.0 ++ laws.pending u got.1) = λ u.
        subst (All IsBlock) (sym (laws.batch_pending u turn max_requests_to_dequeue inv.now))
          (inv.plain u) in
      let handles = handle_all-blocks (bare got.0) b (
        All-bare got.0
          (λ u. All-first IsBlock (sent_by u got.0) (laws.pending u got.1) (plain u))) in
      let served = round-books laws turn (run (blocks (bare got.0)) b) [] at handles in
      let next : v ≡ record start {
        worker_request_queue = got.1;
        books = run (blocks (bare got.0)) b;
        g_txn_id = id;
      } =
        ap (λ out. out.0)
          (ok_injective (sym e ∙ ap (worker_round queue turn) inv.state ∙ served)) in
      record {
        handled = inv.handled ++ got.0;
        now = got.1;
        state =
            next
            ∙ ap (λ c. record start { worker_request_queue = got.1; books = c; g_txn_id = id })
                (sym (
                  ap (λ cs. run cs start.books) (blocks-bare inv.handled got.0)
                  ∙ run-append (blocks (bare inv.handled)) (blocks (bare got.0)) start.books));
        orders = λ u.
            ap (λ xs. xs ++ laws.pending u got.1) (sent_by-append u inv.handled got.0)
            ∙ append_assoc (sent_by u inv.handled) (sent_by u got.0) (laws.pending u got.1)
            ∙ ap (λ xs. sent_by u inv.handled ++ xs)
                (laws.batch_pending u turn max_requests_to_dequeue inv.now)
            ∙ inv.orders u;
        plain = λ u. All-second IsBlock (sent_by u got.0) (laws.pending u got.1) (plain u);
      }

  pub enqueue-orders :
      (t : ℕ) (r : WorkerRequest) (q : Queue) (handled sent : List (ℕ × WorkerRequest)) (u : ℕ)
      → sent_by t handled ++ laws.pending t q ≡ sent_by t sent
      → sent_by u handled ++ laws.pending u q ≡ sent_by u sent
      → sent_by u handled ++ laws.pending u (enqueue t r q) ≡ sent_by u (sent ++ (t, r) ∷ [])
  enqueue-orders t r q handled sent u at_t at_u = elim (Bool-cases (t == u)) [
    | inl e ↦
        let same : t ≡ u = ground (arith, e) in
        subst
          (λ v.
            sent_by v handled ++ laws.pending v (enqueue t r q) ≡ sent_by v (sent ++ (t, r) ∷ []))
          same
          (ap (λ xs. sent_by t handled ++ xs) (laws.pending_enqueue t r q)
            ∙ sym (append_assoc (sent_by t handled) (laws.pending t q) (r ∷ []))
            ∙ ap (λ xs. xs ++ r ∷ []) at_t
            ∙ sym (sent_by_last t r sent))
    | inr e ↦
        ap (λ xs. sent_by u handled ++ xs) (laws.pending_others u t r q e)
        ∙ at_u
        ∙ sym (sent_by_others u t r sent e)
  ]

  enqueue-plain :
      (t : ℕ) (r : WorkerRequest) (q : Queue) (u : ℕ)
      → IsBlock r
      → All IsBlock (laws.pending t q)
      → All IsBlock (laws.pending u q)
      → All IsBlock (laws.pending u (enqueue t r q))
  enqueue-plain t r q u block at_t at_u = elim (Bool-cases (t == u)) [
    | inl e ↦
        let same : t ≡ u = ground (arith, e) in
        subst (λ v. All IsBlock (laws.pending v (enqueue t r q))) same
          (subst (All IsBlock) (sym (laws.pending_enqueue t r q))
            (All-last IsBlock (laws.pending t q) r at_t block))
    | inr e ↦ subst (All IsBlock) (sym (laws.pending_others u t r q e)) at_u
  ]

  -- The queue, the books and the ids do not decide whether a thread is watched.
  pub IsWatching-state :
      {thread : ℕ} (start : Watcher Queue) (q : Queue) (b : Books) (id : ℕ)
      → IsWatching thread start
      → IsWatching thread (record start { worker_request_queue = q; books = b; g_txn_id = id })
  IsWatching-state start q b id on = record {
    malloc_on = on.malloc_on;
    calloc_on = on.calloc_on;
    realloc_on = on.realloc_on;
    free_on = on.free_on;
    globally = on.globally;
    here = on.here;
    fits = on.fits;
  }

  call-Inv :
      (start w v : Watcher Queue) (sent : List (ℕ × WorkerRequest)) (c : HeapCall) (id : ℕ)
      → IsWatching (caller c) start
      → IsOfInterest start.known_leaks start.malloc_depth_in_call_stack c
      → IsPlain c
      → call queue c w ≡ ok v
      → Inv start sent id w
      → Inv start
          (sent ++ (caller c, requested start.malloc_depth_in_call_stack id c) ∷ [])
          (next_id id c)
          v
  call-Inv start w v sent c id on new plain e inv =
      let r = requested start.malloc_depth_in_call_stack id c in
      let at = record start {
        worker_request_queue = inv.now;
        books = run (blocks (bare inv.handled)) start.books;
        g_txn_id = id;
      } in
      let called =
        call-sends queue c at
          (IsWatching-state start inv.now (run (blocks (bare inv.handled)) start.books) id on)
          new in
      record {
        handled = inv.handled;
        now = enqueue (caller c) r inv.now;
        state = ok_injective (sym e ∙ ap (call queue c) inv.state ∙ called);
        orders = λ u.
            enqueue-orders (caller c) r inv.now inv.handled sent u (inv.orders (caller c))
              (inv.orders u);
        plain = λ u.
            enqueue-plain (caller c) r inv.now u
              (requested-IsBlock start.malloc_depth_in_call_stack id c plain) (inv.plain (caller c))
              (inv.plain u);
      }

  pub trace-Inv :
      (start w' : Watcher Queue) (sent : List (ℕ × WorkerRequest)) (id : ℕ) {w : Watcher Queue}
      {cs : List HeapCall}
      → All (λ c. IsWatching (caller c) start) cs
      → All (IsOfInterest start.known_leaks start.malloc_depth_in_call_stack) cs
      → All IsPlain cs
      → Trace queue w' w cs
      → Inv start sent id w
      → (id' : ℕ) × Inv start (sent ++ sent_for start.malloc_depth_in_call_stack id cs) id' w'
  trace-Inv start w' sent id on new plain ends inv =
      (id, subst (λ xs. Inv start xs id w') (sym (append-nil sent)) inv)
  trace-Inv start w' sent id on new plain (calls {cs = cs} c v e rest) inv =
      let depth = start.malloc_depth_in_call_stack in
      let more = (caller c, requested depth id c) ∷ [] in
      subst (λ xs. (id' : ℕ) × Inv start xs id' w')
        (append_assoc sent more (sent_for depth (next_id id c) cs))
        (trace-Inv start w' (sent ++ more) (next_id id c) on.1 new.1 plain.1 rest
          (call-Inv start _ v sent c id on.0 new.0 plain.0 e inv))
  trace-Inv start w' sent id on new plain (serves turn v replies e rest) inv =
      trace-Inv start w' sent id on new plain rest (serve-Inv start _ v sent turn replies id e inv)
