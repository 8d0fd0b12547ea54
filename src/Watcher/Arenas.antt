-- ===== src/Watcher/Arenas.antt =====
-- The theorems on a watch of threads that keep to their own blocks.
use mathlib.Core.Path.{subst}
use heap_watcher.Prelude.{ℕ, ◌<◌, ◌≡◌, sym, List, [], length, All, Returns}
use heap_watcher.Requests.{WorkerRequest}
use heap_watcher.Queue.{RequestQueue}
use heap_watcher.Queue.Laws.{QueueLaws, OnlyFrom}
use heap_watcher.Worker.{Books, on_clear}
use heap_watcher.Worker.Ledger.{Ledger, no_blocks, History}
use heap_watcher.Watcher.{Watcher}
use heap_watcher.Watcher.HeapCalls.{HeapCall, caller}
use heap_watcher.Watcher.Commands.{worker_round, stop_watching}
use heap_watcher.Watcher.Sending.{IsWatching, IsOfInterest, all_requested}
use heap_watcher.Watcher.Answers.{Reported, stop_watching-Reported}
use heap_watcher.Watcher.Traces.{sent_for, Trace}
use heap_watcher.Watcher.Handling.{Handling, begin-Handling, trace-Handling}
use heap_watcher.Watcher.OwnBlocks.{OwnCall, sent_for-IsOwn, bare-sent_for, sound_round, sound_stop}

module _ {queue : RequestQueue} (laws : QueueLaws queue) where
  open queue use {Queue}

  -- Where the threads and the worker are after a trace.
  reached :
      (t : ℕ) (cs : List HeapCall) (start w : Watcher Queue)
      → OnlyFrom laws t [] start.worker_request_queue
      → All (λ c. IsWatching (caller c) start) cs
      → All (IsOfInterest start.known_leaks start.malloc_depth_in_call_stack) cs
      → Trace queue w start cs
      → (id : ℕ) × Handling laws start
          (sent_for start.malloc_depth_in_call_stack start.g_txn_id cs)
          id
          w
  reached t cs start w idle on new trace =
      trace-Handling laws start w [] start.g_txn_id on new trace (begin-Handling laws t start idle)

  -- Any number of threads make heap calls, reallocations among them, that are a proper history of the
  -- heap and in which every address is used by one thread only, though by that one any number of
  -- times; no stack shows a known leak; the watch began with cleared books and an empty queue.
  -- Whenever the worker takes a round among these calls, in any interleaving with them, the round
  -- does not fault.
  pub own_round :
      (owner : ℕ → ℕ) (t turn : ℕ) (cs : List HeapCall) (b : Books) (h : Ledger)
      (start w : Watcher Queue)
      → start.books ≡ on_clear b
      → OnlyFrom laws t [] start.worker_request_queue
      → All (λ c. IsWatching (caller c) start) cs
      → All (IsOfInterest start.known_leaks start.malloc_depth_in_call_stack) cs
      → All (OwnCall owner) cs
      → History no_blocks (all_requested start.malloc_depth_in_call_stack start.g_txn_id cs) h
      → Trace queue w start cs
      → Returns (λ out. Unit {0}) (worker_round queue turn w)
  own_round owner t turn cs b h start w cleared idle on new own history trace =
      let depth = start.malloc_depth_in_call_stack in
      let (id, inv) = reached t cs start w idle on new trace in
      sound_round laws owner b h start w (sent_for depth start.g_txn_id cs) id turn cleared
        (sent_for-IsOwn owner depth start.g_txn_id cs own)
        (subst (λ rs. History no_blocks rs h) (sym (bare-sent_for depth start.g_txn_id cs)) history)
        inv

  -- Any number of threads make heap calls, reallocations among them, that are a proper history of the
  -- heap and in which every address is used by one thread only, though by that one any number of
  -- times; no stack shows a known leak; the worker runs its rounds; the two are interleaved in any
  -- way. The watch begins with cleared books and an empty queue, and when a thread stops it, no other
  -- thread has requests in the queue. Then the stop returns within as many rounds as it has requests
  -- of its own there and one more, with a snapshot that shows exactly the blocks that are open at the
  -- end of the history, whatever the order in which the worker got the requests of the threads.
  pub own-Reported :
      (owner : ℕ → ℕ) (t p : ℕ) (turns : List ℕ) (cs : List HeapCall) (b : Books) (h : Ledger)
      (rs : List WorkerRequest) (start w : Watcher Queue)
      → start.books ≡ on_clear b
      → OnlyFrom laws t [] start.worker_request_queue
      → All (λ c. IsWatching (caller c) start) cs
      → All (IsOfInterest start.known_leaks start.malloc_depth_in_call_stack) cs
      → All (OwnCall owner) cs
      → History no_blocks (all_requested start.malloc_depth_in_call_stack start.g_txn_id cs) h
      → Trace queue w start cs
      → OnlyFrom laws t rs w.worker_request_queue
      → length rs < length turns
      → Returns (Reported laws t p h) (stop_watching queue t p turns w)
  own-Reported owner t p turns cs b h rs start w cleared idle on new own history trace only long =
      let depth = start.malloc_depth_in_call_stack in
      let (id, inv) = reached t cs start w idle on new trace in
      stop_watching-Reported laws t p turns rs h w long only (
        sound_stop laws owner b h start w (sent_for depth start.g_txn_id cs) id t rs cleared
          (sent_for-IsOwn owner depth start.g_txn_id cs own)
          (subst (λ xs. History no_blocks xs h) (sym (bare-sent_for depth start.g_txn_id cs))
            history)
          inv only)
