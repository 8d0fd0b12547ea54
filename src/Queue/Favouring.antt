-- ===== src/Queue/Favouring.antt =====
-- A queue that meets the laws and serves one thread before all others.
use mathlib.Core.List.{append-nil}
use heap_watcher.Prelude.{
  ℕ, ◌+◌, ◌≡◌, refl, ◌∙◌, List, [], ◌∷◌, ◌++◌, ◌==◌, if◌then◌else◌, length, length-append,
  length-take, length-drop, take, drop, arith,
}
use heap_watcher.Requests.{WorkerRequest}
use heap_watcher.Queue.{RequestQueue}
use heap_watcher.Queue.Laws.{QueueLaws, sent_by, length-sent_by, sent_by_last, sent_by_others}
use heap_watcher.Queue.Orders.{from_thread}
use heap_watcher.Queue.Sample.{sent_by_cut, sent_by_apart}

abbrev pub not_from : ℕ → List (ℕ × WorkerRequest) → List (ℕ × WorkerRequest)
not_from t [] = []
not_from t ((u, r) ∷ q) = if u == t then not_from t q else (u, r) ∷ not_from t q

-- The requests of the thread, and then those of the others.
abbrev pub favoured : ℕ → List (ℕ × WorkerRequest) → List (ℕ × WorkerRequest)
favoured t q = from_thread t (sent_by t q) ++ not_from t q

abbrev pub favouring : ℕ → RequestQueue
favouring t = record {
  Queue = List (ℕ × WorkerRequest);
  empty = [];
  enqueue = λ thread r q. q ++ (thread, r) ∷ [];
  wait_dequeue_bulk_timed = λ turn n q. (take n (favoured t q), drop n (favoured t q));
}

sent_by_favoured_by :
    (t s : ℕ) (own : List WorkerRequest) (q : List (ℕ × WorkerRequest))
    → sent_by s (from_thread t own ++ q) ≡ (if t == s then own ++ sent_by s q else sent_by s q)
unfolding sent_by
sent_by_favoured_by t s [] q = ground arith
sent_by_favoured_by t s (r ∷ own) q = ground (arith, sent_by_favoured_by t s own q)

sent_by-not_from :
    (t s : ℕ) (q : List (ℕ × WorkerRequest))
    → sent_by s (not_from t q) ≡ (if t == s then [] else sent_by s q)
unfolding sent_by
sent_by-not_from t s [] = ground arith
sent_by-not_from t s ((u, r) ∷ q) = ground (arith, sent_by-not_from t s q)

pub sent_by-favoured :
    (t s : ℕ) (q : List (ℕ × WorkerRequest)) → sent_by s (favoured t q) ≡ sent_by s q
sent_by-favoured t s q =
    sent_by_favoured_by t s (sent_by t q) (not_from t q)
    ∙ ground (arith, sent_by-not_from t s q, append-nil (sent_by t q))

length-from_thread : (t : ℕ) (rs : List WorkerRequest) → length (from_thread t rs) ≡ length rs
length-from_thread t [] = refl
length-from_thread t (r ∷ rs) = omega (arith, length-from_thread t rs)

length-split :
    (t : ℕ) (q : List (ℕ × WorkerRequest)) → length (sent_by t q) + length (not_from t q) ≡ length q
unfolding sent_by
length-split t [] = omega arith
length-split t ((u, r) ∷ q) = ground (arith, length-split t q)

pub length-favoured : (t : ℕ) (q : List (ℕ × WorkerRequest)) → length (favoured t q) ≡ length q
length-favoured t q = omega (
  arith,
  length-append (from_thread t (sent_by t q)) (not_from t q),
  length-from_thread t (sent_by t q),
  length-split t q,
)

abbrev pub favouring_laws : (t : ℕ) → QueueLaws (favouring t)
favouring_laws t = record {
  size = length;
  pending = sent_by;
  size_empty = refl;
  size_enqueue = λ s r q. omega (arith, length-append q ((s, r) ∷ []));
  pending_enqueue = sent_by_last;
  pending_others = sent_by_others;
  pending_size = length-sent_by;
  pending_apart = sent_by_apart;
  batch_size = λ turn n q.
      omega
        (arith, length-take n (favoured t q), length-drop n (favoured t q), length-favoured t q);
  batch_pending = λ s turn n q. sent_by_cut s n (favoured t q) ∙ sent_by-favoured t s q;
  batch_bound = λ turn n q. omega (arith, length-take n (favoured t q));
  batch_progress = λ turn n q h k. omega (arith, length-take n (favoured t q), length-favoured t q);
}
