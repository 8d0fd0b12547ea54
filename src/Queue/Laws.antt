-- ===== src/Queue/Laws.antt =====
-- What src/HeapWatcher.cpp relies on of moodycamel::BlockingConcurrentQueue, as its documentation
-- has it: what one thread sends comes out in the order in which it was sent, nothing is lost or
-- doubled, a batch keeps to its bound, and a dequeue finds something if there is something.
use heap_watcher.Prelude.{
  ℕ, suc, ◌+◌, ◌≤◌, ◌<◌, ◌≡◌, refl, sym, ap, ◌∙◌, List, [], ◌∷◌, ◌++◌, false, ◌==◌, if◌then◌else◌,
  length, length-append, arith,
}
use heap_watcher.Requests.{WorkerRequest}
use heap_watcher.Queue.{RequestQueue}

-- The requests of a batch that a thread sent.
unfoldable pub sent_by : ℕ → List (ℕ × WorkerRequest) → List WorkerRequest
sent_by t [] = []
sent_by t ((u, r) ∷ rs) = if u == t then r ∷ sent_by t rs else sent_by t rs

-- The requests of a batch, without their threads.
abbrev pub bare : List (ℕ × WorkerRequest) → List WorkerRequest
bare [] = []
bare ((u, r) ∷ rs) = r ∷ bare rs

module _ (queue : RequestQueue) where
  open queue use {Queue, empty, enqueue, wait_dequeue_bulk_timed}

  pub record QueueLaws : Type 0 where
    pub size : Queue → ℕ
    pub pending : ℕ → Queue → List WorkerRequest
    pub size_empty : size empty ≡ 0
    pub size_enqueue : (t : ℕ) (r : WorkerRequest) (q : Queue) → size (enqueue t r q) ≡ suc (size q)
    pub pending_enqueue :
        (t : ℕ) (r : WorkerRequest) (q : Queue) → pending t (enqueue t r q) ≡ pending t q ++ r ∷ []
    pub pending_others :
        (t u : ℕ) (r : WorkerRequest) (q : Queue)
        → (u == t) ≡ false
        → pending t (enqueue u r q) ≡ pending t q
    pub pending_size : (t : ℕ) (q : Queue) → length (pending t q) ≤ size q
    pub pending_apart :
        (t u : ℕ) (q : Queue)
        → (u == t) ≡ false
        → length (pending t q) + length (pending u q) ≤ size q
    pub batch_size :
        (turn n : ℕ) (q : Queue)
        → let got = wait_dequeue_bulk_timed turn n q in length got.0 + size got.1 ≡ size q
    pub batch_pending :
        (t turn n : ℕ) (q : Queue)
        → let got = wait_dequeue_bulk_timed turn n q in
          sent_by t got.0 ++ pending t got.1 ≡ pending t q
    pub batch_bound : (turn n : ℕ) (q : Queue) → length ((wait_dequeue_bulk_timed turn n q).0) ≤ n
    pub batch_progress :
        (turn n : ℕ) (q : Queue)
        → 0 < n
        → 0 < size q
        → 0 < length ((wait_dequeue_bulk_timed turn n q).0)

pub length-sent_by :
    (t : ℕ) (batch : List (ℕ × WorkerRequest)) → length (sent_by t batch) ≤ length batch
unfolding sent_by
length-sent_by t [] = omega arith
length-sent_by t ((u, r) ∷ batch) = ground (arith, length-sent_by t batch)

pub sent_by_last :
    (t : ℕ) (r : WorkerRequest) (q : List (ℕ × WorkerRequest))
    → sent_by t (q ++ (t, r) ∷ []) ≡ sent_by t q ++ r ∷ []
unfolding sent_by
sent_by_last t r [] = ground arith
sent_by_last t r ((u, s) ∷ q) = ground (arith, sent_by_last t r q)

pub sent_by_others :
    (t u : ℕ) (r : WorkerRequest) (q : List (ℕ × WorkerRequest))
    → (u == t) ≡ false
    → sent_by t (q ++ (u, r) ∷ []) ≡ sent_by t q
unfolding sent_by
sent_by_others t u r [] e = ground (arith, e)
sent_by_others t u r ((v, s) ∷ q) e = ground (arith, sent_by_others t u r q e)

sent_by_all :
    (t : ℕ) (batch : List (ℕ × WorkerRequest))
    → length (sent_by t batch) ≡ length batch
    → sent_by t batch ≡ bare batch
unfolding sent_by
sent_by_all t [] e = refl
sent_by_all t ((u, r) ∷ batch) e = ground (arith, e, sent_by_all t batch, length-sent_by t batch)

pub length-bare : (batch : List (ℕ × WorkerRequest)) → length (bare batch) ≡ length batch
length-bare [] = refl
length-bare ((u, r) ∷ batch) = ap suc (length-bare batch)

module _ {queue : RequestQueue} (laws : QueueLaws queue) where
  open queue use {Queue, enqueue, wait_dequeue_bulk_timed}

  -- The queue holds these requests of the thread, and no request of another.
  pub record OnlyFrom (t : ℕ) (rs : List WorkerRequest) (q : Queue) : Type 0 where
    pub own : laws.pending t q ≡ rs
    pub no_more : laws.size q ≡ length rs

  pub enqueue-OnlyFrom :
      (t : ℕ) (rs : List WorkerRequest) (r : WorkerRequest) (q : Queue)
      → OnlyFrom t rs q
      → OnlyFrom t (rs ++ r ∷ []) (enqueue t r q)
  enqueue-OnlyFrom t rs r q only = record {
    own = laws.pending_enqueue t r q ∙ ap (λ xs. xs ++ r ∷ []) only.own;
    no_more = omega (arith, laws.size_enqueue t r q, only.no_more, length-append rs (r ∷ []));
  }

  -- A batch from such a queue is the first part of its requests, and the rest stays.
  pub dequeue-OnlyFrom :
      (t turn n : ℕ) (rs : List WorkerRequest) (q : Queue)
      → OnlyFrom t rs q
      → let got = wait_dequeue_bulk_timed turn n q in
        (bare got.0 ++ laws.pending t got.1 ≡ rs) × OnlyFrom t (laws.pending t got.1) got.1
  dequeue-OnlyFrom t turn n rs q only =
      let got = wait_dequeue_bulk_timed turn n q in
      let cut = laws.batch_pending t turn n q ∙ only.own in
      let lengths : length (sent_by t got.0) + length (laws.pending t got.1) ≡ length rs =
        sym (length-append (sent_by t got.0) (laws.pending t got.1)) ∙ ap length cut in
      let counted = laws.batch_size turn n q in
      let whole : length (sent_by t got.0) ≡ length got.0 = omega (
        arith,
        lengths,
        counted,
        only.no_more,
        length-sent_by t got.0,
        laws.pending_size t got.1,
      ) in
      (
        ap (λ xs. xs ++ laws.pending t got.1) (sym (sent_by_all t got.0 whole)) ∙ cut,
        record { own = refl; no_more = omega (arith, lengths, counted, only.no_more, whole) },
      )
