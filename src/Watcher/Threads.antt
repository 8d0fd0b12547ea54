-- ===== src/Watcher/Threads.antt =====
-- The end of a watch of any number of threads.
use mathlib.Core.Path.{subst}
use heap_watcher.Prelude.{
  ℕ, ◌<◌, ◌≡◌, sym, ap, ◌∙◌, List, [], ◌++◌, ◌==◌, length, All, arith, Returns, Bool-cases, inl,
  inr,
}
use heap_watcher.Requests.{WorkerRequest}
use heap_watcher.Queue.{RequestQueue}
use heap_watcher.Queue.Laws.{QueueLaws, OnlyFrom, bare, sent_by}
use heap_watcher.Worker.Reports.{Shows}
use heap_watcher.Worker.{reconciled, snapshot, Books, on_clear}
use heap_watcher.Worker.Races.{NoReuse, open_after, run}
use heap_watcher.Worker.Merges.{
  blocks, IsBlock, SameOrders, sent_by-append, blocks-bare, run-append, handle_all-blocks,
  merged-Shows,
}
use heap_watcher.Watcher.{Watcher}
use heap_watcher.Watcher.HeapCalls.{HeapCall, caller}
use heap_watcher.Watcher.Commands.{stop_watching}
use heap_watcher.Watcher.Sending.{IsWatching, IsOfInterest}
use heap_watcher.Watcher.Answers.{Reported, stop_watching-Reported}
use heap_watcher.Watcher.Quiet.{Handled}
use heap_watcher.Watcher.Commands
use heap_watcher.Queue.Orders.{
  from_thread, sent_by_own, sent_by_none, bare-from_thread, length_zero,
}
use heap_watcher.Watcher.Traces.{sent_for, IsPlain, Trace, begin-Inv, trace-Inv}

module _ {queue : RequestQueue} (laws : QueueLaws queue) where
  open queue use {Queue}

  -- What is pending of one thread, where it is all that is pending, goes last.
  pub last-SameOrders :
      (t : ℕ) (rs : List WorkerRequest) (sent handled : List (ℕ × WorkerRequest)) (q : Queue)
      → OnlyFrom laws t rs q
      → ((u : ℕ) → sent_by u handled ++ laws.pending u q ≡ sent_by u sent)
      → SameOrders sent (handled ++ from_thread t rs)
  last-SameOrders t rs sent handled q only orders u =
      sent_by-append u handled (from_thread t rs)
      ∙ ap (λ xs. sent_by u handled ++ xs)
          (elim (Bool-cases (t == u)) [
            | inl e ↦
                let same : t ≡ u = ground (arith, e) in
                subst (λ v. sent_by v (from_thread t rs) ≡ laws.pending v q) same
                  (sent_by_own t rs ∙ sym only.own)
            | inr e ↦
                sent_by_none t u rs e
                ∙ sym (
                    length_zero (laws.pending u q)
                      (omega (arith, laws.pending_apart u t q e, only.no_more, ap length only.own)))
          ])
      ∙ orders u

  -- What the worker makes of the rest of the queue.
  threads-Handled :
      (t : ℕ) (cs : List HeapCall) (b : Books) (rs : List WorkerRequest) (start w : Watcher Queue)
      → start.books ≡ on_clear b
      → OnlyFrom laws t [] start.worker_request_queue
      → All (λ c. IsWatching (caller c) start) cs
      → All (IsOfInterest start.known_leaks start.malloc_depth_in_call_stack) cs
      → All IsPlain cs
      → let sent = sent_for start.malloc_depth_in_call_stack start.g_txn_id cs in
        NoReuse (blocks (bare sent))
        → Trace queue w start cs
        → OnlyFrom laws t rs w.worker_request_queue
        → Handled rs w.books (open_after (blocks (bare sent)))
  threads-Handled t cs b rs start w cleared idle on new plain apart trace only =
      let sent = sent_for start.malloc_depth_in_call_stack start.g_txn_id cs in
      let (id, inv) =
        trace-Inv laws start w [] start.g_txn_id on new plain trace (begin-Inv laws t start idle) in
      let now : w.worker_request_queue ≡ inv.now = ap (λ v. v.worker_request_queue) inv.state in
      let only' = subst (OnlyFrom laws t rs) now only in
      let all = inv.handled ++ from_thread t rs in
      let books : w.books ≡ run (blocks (bare inv.handled)) (on_clear b) =
        ap (λ v. v.books) inv.state ∙ ap (run (blocks (bare inv.handled))) cleared in
      let plain' = subst (All IsBlock) only'.own (inv.plain t) in
      let done = run (blocks rs) w.books in
      let order = last-SameOrders t rs sent inv.handled inv.now only' inv.orders in
      record {
        books = done;
        runs = handle_all-blocks rs w.books plain';
        shows =
            subst (λ c. Shows (snapshot (reconciled c)) (open_after (blocks (bare sent))))
              (ap (λ cs'. run cs' (on_clear b))
                  (blocks-bare inv.handled (from_thread t rs)
                    ∙ ap (λ xs. blocks (bare inv.handled) ++ blocks xs) (bare-from_thread t rs))
                ∙ run-append (blocks (bare inv.handled)) (blocks rs) (on_clear b)
                ∙ ap (run (blocks rs)) (sym books))
              (merged-Shows sent all b order apart);
      }

  -- Threads make heap calls, none of them a realloc and none with a stack that shows a known leak,
  -- and no address is allocated twice; the worker runs its rounds; the two are interleaved in any
  -- way. The watch begins with cleared books and an empty queue, and when a thread stops it, no
  -- other thread has requests in the queue. Then the stop returns within as many rounds as it has
  -- requests of its own there and one more, with a snapshot that shows exactly the blocks that were
  -- allocated by some thread and freed by none.
  pub threads-Reported :
      (t p : ℕ) (turns : List ℕ) (cs : List HeapCall) (b : Books) (rs : List WorkerRequest)
      (start w : Watcher Queue)
      → start.books ≡ on_clear b
      → OnlyFrom laws t [] start.worker_request_queue
      → All (λ c. IsWatching (caller c) start) cs
      → All (IsOfInterest start.known_leaks start.malloc_depth_in_call_stack) cs
      → All IsPlain cs
      → let sent = sent_for start.malloc_depth_in_call_stack start.g_txn_id cs in
        NoReuse (blocks (bare sent))
        → Trace queue w start cs
        → OnlyFrom laws t rs w.worker_request_queue
        → length rs < length turns
        → Returns
            (Reported laws t p (open_after (blocks (bare sent))))
            (stop_watching queue t p turns w)
  threads-Reported t p turns cs b rs start w cleared idle on new plain apart trace only long =
      stop_watching-Reported laws t p turns rs _ w long only
        (threads-Handled t cs b rs start w cleared idle on new plain apart trace only)
