-- ===== src/Queue/Sample.antt =====
-- A queue that meets the laws: one list for all threads.
use heap_watcher.Prelude.{
  ℕ, zero, suc, ◌+◌, ◌≤◌, ◌≡◌, refl, false, ◌==◌, List, [], ◌∷◌, ◌++◌, length, length-append,
  length-take, length-drop, take, drop, arith,
}
use heap_watcher.Requests.{WorkerRequest}
use heap_watcher.Queue.{RequestQueue}
use heap_watcher.Queue.Laws.{QueueLaws, sent_by, length-sent_by, sent_by_last, sent_by_others}

abbrev pub list_queue : RequestQueue
list_queue = record {
  Queue = List (ℕ × WorkerRequest);
  empty = [];
  enqueue = λ thread r q. q ++ (thread, r) ∷ [];
  wait_dequeue_bulk_timed = λ turn n q. (take n q, drop n q);
}

pub sent_by_cut :
    (t n : ℕ) (q : List (ℕ × WorkerRequest))
    → sent_by t (take n q) ++ sent_by t (drop n q) ≡ sent_by t q
unfolding sent_by
sent_by_cut t zero q = refl
sent_by_cut t (suc n) [] = refl
sent_by_cut t (suc n) ((u, r) ∷ q) = ground (arith, sent_by_cut t n q)

pub sent_by_apart :
    (t u : ℕ) (q : List (ℕ × WorkerRequest))
    → (u == t) ≡ false
    → length (sent_by t q) + length (sent_by u q) ≤ length q
unfolding sent_by
sent_by_apart t u [] e = omega arith
sent_by_apart t u ((v, s) ∷ q) e = ground (arith, e, sent_by_apart t u q e)

abbrev pub list_queue_laws : QueueLaws list_queue
list_queue_laws = record {
  size = length;
  pending = sent_by;
  size_empty = refl;
  size_enqueue = λ t r q. omega (arith, length-append q ((t, r) ∷ []));
  pending_enqueue = sent_by_last;
  pending_others = sent_by_others;
  pending_size = length-sent_by;
  pending_apart = sent_by_apart;
  batch_size = λ turn n q. omega (arith, length-take n q, length-drop n q);
  batch_pending = λ t turn n q. sent_by_cut t n q;
  batch_bound = λ turn n q. omega (arith, length-take n q);
  batch_progress = λ turn n q h k. omega (arith, length-take n q);
}
