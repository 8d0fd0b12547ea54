-- ===== src/Watcher/Sessions.antt =====
-- From start_watching to stop_watching, for a program of one thread: the heap calls, the queue and
-- the worker together.
use mathlib.Core.Path.{subst}
use heap_watcher.Prelude.{
  ℕ, ◌<◌, ◌≤◌, ◌≡◌, refl, sym, true, false, Option, List, [], ◌∷◌, length, All, arith, Result,
  ◌>>=◌, Returns, Returns-bind,
}
use heap_watcher.Queue.{RequestQueue}
use heap_watcher.Queue.Laws.{QueueLaws, OnlyFrom}
use heap_watcher.Worker.{Reply, on_clear}
use heap_watcher.Worker.Ledger.{Ledger, no_blocks, History, Agrees}
use heap_watcher.Worker.Reports.{on_clear-Agrees}
use heap_watcher.Watcher.Backtrace.{max_malloc_depth_in_call_stack}
use heap_watcher.Watcher.{Watcher, set_multithreaded_instrumentation}
use heap_watcher.Watcher.HeapCalls.{HeapCall, caller, calls}
use heap_watcher.Watcher.Commands.{started, start_watching, stop_watching}
use heap_watcher.Watcher.Answers.{start_watching-Answered, Reported, stop_watching-Reported}
use heap_watcher.Watcher.Quiet.{length-all_requested, Handled-of}
use heap_watcher.Watcher.Sending.{IsWatching, IsOfInterest, all_requested, HasSent, calls-HasSent}

module _ {queue : RequestQueue} (laws : QueueLaws queue) where
  open queue use {Queue}

  pub set_multithreaded-IsWatching :
      (thread : ℕ) (w : Watcher Queue)
      → w.watching_thread thread ≡ true
      → w.malloc_depth_in_call_stack ≤ max_malloc_depth_in_call_stack
      → IsWatching thread (set_multithreaded_instrumentation w)
  unfolding set_multithreaded_instrumentation
  set_multithreaded-IsWatching thread w here fits = record {
    malloc_on = refl;
    calloc_on = refl;
    realloc_on = refl;
    free_on = refl;
    globally = refl;
    here = here;
    fits = fits;
  }

  -- The calls, and the end of the watch, where books that agree with the heap are at hand.
  watched-Reported :
      (thread p : ℕ) (turns : List ℕ) (cs : List HeapCall) (h₀ h : Ledger) (w : Watcher Queue)
      → IsWatching thread w
      → OnlyFrom laws thread [] w.worker_request_queue
      → All (λ c. caller c ≡ thread) cs
      → All (IsOfInterest w.known_leaks w.malloc_depth_in_call_stack) cs
      → Agrees w.books h₀
      → History h₀ (all_requested w.malloc_depth_in_call_stack w.g_txn_id cs) h
      → length cs < length turns
      → Returns
          (Reported laws thread p h)
          (do called ← calls queue cs w; stop_watching queue thread p turns called)
  watched-Reported thread p turns cs h₀ h w on only mine new agrees history long =
      let rs = all_requested w.malloc_depth_in_call_stack w.g_txn_id cs in
      Returns-bind (HasSent laws thread rs w) (Reported laws thread p h) (calls queue cs w)
        (λ called. stop_watching queue thread p turns called)
        (calls-HasSent laws thread cs [] w mine new on only)
        (λ called (sent, g, holds, e).
          subst (λ v. Returns (Reported laws thread p h) (stop_watching queue thread p turns v))
            (sym e)
            (stop_watching-Reported laws thread p turns rs h
              (record w { worker_request_queue = sent; g_txn_id = g })
              (omega (arith, long, length-all_requested cs w.malloc_depth_in_call_stack w.g_txn_id))
              holds
              (Handled-of cs w.malloc_depth_in_call_stack w.g_txn_id w.books h₀ h agrees history)))

  -- The whole of a watch, by one thread.
  abbrev pub session :
      ℕ
      → ℕ
      → ℕ
      → List ℕ
      → List ℕ
      → List HeapCall
      → Watcher Queue
      → Result (Option Reply × Watcher Queue)
  session thread p q turns turns' cs w = do
    started ← start_watching queue thread p turns w
    called ← calls queue cs started.1
    stop_watching queue thread q turns' called

  -- A thread starts a watch while none is in progress, makes heap calls whose requests are a proper
  -- history of the heap and whose stacks show no known leak, and stops the watch. The wrappers fit
  -- their array, the thread is not paused, no other thread sends requests, and the worker runs one
  -- round for the start and more rounds than there are calls for the stop. Then nothing faults, both
  -- waits end, the watch is over, and the snapshot shows exactly the blocks that are still open.
  pub session-Reported :
      (thread p q turn : ℕ) (turns turns' : List ℕ) (cs : List HeapCall) (h : Ledger)
      (w : Watcher Queue)
      → w.watching_globally ≡ false
      → w.watching_thread thread ≡ true
      → w.malloc_depth_in_call_stack ≤ max_malloc_depth_in_call_stack
      → OnlyFrom laws thread [] w.worker_request_queue
      → All (λ c. caller c ≡ thread) cs
      → All (IsOfInterest w.known_leaks w.malloc_depth_in_call_stack) cs
      → History no_blocks (all_requested w.malloc_depth_in_call_stack w.g_txn_id cs) h
      → length cs < length turns'
      → Returns (Reported laws thread q h) (session thread p q (turn ∷ turns) turns' cs w)
  unfolding set_multithreaded_instrumentation
  session-Reported thread p q turn turns turns' cs h w off here fits only mine new history long =
      Returns-bind _ (Reported laws thread q h) (start_watching queue thread p (turn ∷ turns) w) _
        (start_watching-Answered laws thread p turn turns w off only)
        (λ out (rest, emptied, e).
          subst
            (λ o.
              Returns (Reported laws thread q h)
                (do called ← calls queue cs o.1; stop_watching queue thread q turns' called))
            (sym e)
            (watched-Reported thread q turns' cs no_blocks h
              (set_multithreaded_instrumentation
                (record w { worker_request_queue = rest; books = on_clear w.books }))
              (set_multithreaded-IsWatching thread
                (record w { worker_request_queue = rest; books = on_clear w.books }) here fits)
              emptied mine new (on_clear-Agrees w.books) history long))
