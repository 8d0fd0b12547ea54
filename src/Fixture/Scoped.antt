-- ===== src/Fixture/Scoped.antt =====
-- ScopedMultithreadedTestFixture: the constructor starts the watch, the destructor waits for the
-- threads, stops the watch and hands the snapshot to the routine of the client.
use heap_watcher.Prelude.{
  ℕ, ◌<◌, ◌≡◌, refl, true, false, Option, none, List, [], ◌∷◌, if◌then◌else◌, length, All, arith,
  Result, ok, ◌>>=◌, Returns,
}
use heap_watcher.Queue.{RequestQueue}
use heap_watcher.Queue.Laws.{QueueLaws, OnlyFrom, bare}
use heap_watcher.Worker.{Books, Reply, on_clear}
use heap_watcher.Requests.{WorkerRequest}
use heap_watcher.Worker.Races.{NoReuse, open_after}
use heap_watcher.Worker.Merges.{blocks}
use heap_watcher.Watcher.{Watcher}
use heap_watcher.Watcher.HeapCalls.{HeapCall, caller}
use heap_watcher.Watcher.Commands.{start_watching, stop_watching}
use heap_watcher.Watcher.Sending.{IsWatching, IsOfInterest}
use heap_watcher.Watcher.Traces.{sent_for, IsPlain, Trace}
use heap_watcher.Watcher.Threads.{threads-Reported}
use heap_watcher.Watcher.Answers.{Reported}
use heap_watcher.Fixture.{
  Worker, Fixture, new_fixture, all_finished, IsFinished, Completed, Moves, Reach,
}
use heap_watcher.Fixture.Schedules.{IsBlocked, unstarted-IsBlocked}

module _ (queue : RequestQueue) where
  open queue use {Queue}

  -- The constructor.
  unfoldable pub construct_scoped :
      ℕ → ℕ → List ℕ → Watcher Queue → Result (Fixture × (Option Reply × Watcher Queue))
  unfolding start_watching
  construct_scoped thread p turns w = do
    started ← start_watching queue thread p turns w
    ok (new_fixture, started)

  -- The destructor: the answer is what the routine of the client gets, `none` if it still waits.
  unfoldable pub destroy_scoped :
      ℕ → ℕ → List ℕ → Fixture → Watcher Queue → Result (Option Reply × Watcher Queue)
  unfolding all_finished stop_watching
  destroy_scoped thread p turns f w =
      if all_finished f.test_threads then stop_watching queue thread p turns w else ok (none, w)

all_finished_of : (ws : List Worker) → All IsFinished ws → all_finished ws ≡ true
unfolding all_finished
all_finished_of [] h = refl
all_finished_of (w ∷ ws) h = ground (arith, h.0, all_finished_of ws h.1)

not_all_finished : (ws : List Worker) → All IsBlocked ws → ¬ (ws ≡ []) → all_finished ws ≡ false
unfolding all_finished
not_all_finished [] h some_thread = absurd (some_thread refl)
not_all_finished (w ∷ ws) h some_thread = ground (arith, h.0)

module _ {queue : RequestQueue} (laws : QueueLaws queue) where
  open queue use {Queue}

  -- A scoped fixture that is destroyed before start_workload, with at least one thread: the
  -- destructor has not stopped the watch, and never will, since no thread can go on.
  pub destroyed_unstarted :
      (thread p : ℕ) (turns : List ℕ) (f : Fixture) (w : Watcher Queue)
      → Reach f
      → f.started ≡ false
      → ¬ (f.test_threads ≡ [])
      → (destroy_scoped queue thread p turns f w ≡ ok (none, w))
        × ((ws : List Worker) → ¬ Moves f.started f.test_threads ws)
  unfolding destroy_scoped
  destroyed_unstarted thread p turns f w reach off some_thread =
      let (waits, stuck) = unstarted-IsBlocked f reach off in
      let unfinished = not_all_finished f.test_threads waits some_thread in
      (ground (arith, unfinished), stuck)

  -- The routine of the client gets a snapshot that shows exactly the blocks that some thread
  -- allocated and none freed, where the threads are at their end and what they did with the heap
  -- meets the conditions of a watch of many threads.
  pub scoped-Reported :
      (t p : ℕ) (turns : List ℕ) (cs : List HeapCall) (b : Books) (rs : List WorkerRequest)
      (f : Fixture) (start w : Watcher Queue)
      → Completed f
      → start.books ≡ on_clear b
      → OnlyFrom laws t [] start.worker_request_queue
      → All (λ c. IsWatching (caller c) start) cs
      → All (IsOfInterest start.known_leaks start.malloc_depth_in_call_stack) cs
      → All IsPlain cs
      → let sent = sent_for start.malloc_depth_in_call_stack start.g_txn_id cs in
        NoReuse (blocks (bare sent))
        → Trace queue w start cs
        → OnlyFrom laws t rs w.worker_request_queue
        → length rs < length turns
        → Returns
            (Reported laws t p (open_after (blocks (bare sent))))
            (destroy_scoped queue t p turns f w)
  unfolding destroy_scoped
  scoped-Reported t p turns cs b rs f start w ended cleared idle on new plain apart trace only
        long =
      rw (all_finished_of f.test_threads ended) (
        threads-Reported laws t p turns cs b rs start w cleared idle on new plain apart trace only
          long)
