-- ===== src/Watcher/Commands.antt =====
-- The loop of worker_main over the queue, and the commands of src/HeapWatcher.cpp that send it a
-- request and wait for the promise. `turns` stands for the timing of the rounds of the loop that run
-- meanwhile; a wait that they do not end gives none. `command_mutex_` lets one command run at a time.
use heap_watcher.Prelude.{
  ℕ, Bool, Option, none, some, List, [], ◌∷◌, ◌==◌, if◌then◌else◌, Result, ok, ◌>>=◌,
}
use heap_watcher.Requests.{WorkerRequest, clear_of, snapshot_of, statistics_of}
use heap_watcher.Queue.{RequestQueue}
use heap_watcher.Queue.Laws.{bare}
use heap_watcher.Worker.{Reply, cleared, snapshot_taken, statistics_taken, handle_all}
use heap_watcher.Watcher.{
  Watcher, remove_instrumentation, set_multithreaded_instrumentation, pause_token, destroy_token,
}
use heap_watcher.Watcher.HeapCalls.{send}

abbrev pub max_requests_to_dequeue : ℕ
max_requests_to_dequeue = 20

abbrev pub promise_of : Reply → ℕ
promise_of (cleared p) = p
promise_of (snapshot_taken p s) = p
promise_of (statistics_taken p s) = p

-- The reply that sets a promise.
unfoldable pub reply_to : ℕ → List Reply → Option Reply
reply_to p [] = none
reply_to p (a ∷ replies) = if promise_of a == p then some a else reply_to p replies

module _ (queue : RequestQueue) where
  open queue use {Queue, wait_dequeue_bulk_timed}

  -- One round of the `while` of worker_main.
  unfoldable pub worker_round : ℕ → Watcher Queue → Result (Watcher Queue × List Reply)
  worker_round turn w =
      let got = wait_dequeue_bulk_timed turn max_requests_to_dequeue w.worker_request_queue in
      do
        (books, replies) ← handle_all (bare got.0) w.books
        ok (record w { worker_request_queue = got.1; books = books }, replies)

  -- `future.wait()` or `future.get()`: rounds of the worker until one sets the promise.
  unfoldable pub await : ℕ → List ℕ → Watcher Queue → Result (Option Reply × Watcher Queue)
  unfolding worker_round
  await p [] w = ok (none, w)
  await p (turn ∷ turns) w = do
    (w', replies) ← worker_round turn w
    elim (reply_to p replies) [ some answer ↦ ok (some answer, w') | none ↦ await p turns w' ]

  -- A request with a promise, and the wait for the promise.
  unfoldable pub ask :
      ℕ → WorkerRequest → ℕ → List ℕ → Watcher Queue → Result (Option Reply × Watcher Queue)
  unfolding send await
  ask thread r p turns w = await p turns (send queue thread r w)

  -- The end of start_watching.
  abbrev pub started : Option Reply × Watcher Queue → Option Reply × Watcher Queue
  started (none, w) = (none, w)
  started (some answer, w) = (some answer, set_multithreaded_instrumentation w)

  -- start_watching: `none` in front of the state if it returns at once or still waits.
  unfoldable pub start_watching :
      ℕ → ℕ → List ℕ → Watcher Queue → Result (Option Reply × Watcher Queue)
  unfolding ask set_multithreaded_instrumentation
  start_watching thread p turns w =
      if w.watching_globally
      then ok (none, w)
      else do answer ← ask thread (clear_of p) p turns w; ok (started answer)

  unfoldable pub stop_watching :
      ℕ → ℕ → List ℕ → Watcher Queue → Result (Option Reply × Watcher Queue)
  unfolding ask remove_instrumentation
  stop_watching thread p turns w = ask thread (snapshot_of p) p turns (remove_instrumentation w)

  -- The end of a PauseThreadWatchToken, which a command reaches when the wait has ended.
  abbrev pub resumed : ℕ → Bool → Option Reply × Watcher Queue → Option Reply × Watcher Queue
  resumed thread saved_value (none, w) = (none, w)
  resumed thread saved_value (some answer, w) = (some answer, destroy_token thread saved_value w)

  -- The block of snapshot and of high_level_stats, under a PauseThreadWatchToken.
  abbrev pub ask_paused :
      ℕ → WorkerRequest → ℕ → List ℕ → Watcher Queue → Result (Option Reply × Watcher Queue)
  ask_paused thread r p turns w =
      let (saved_value, paused) = pause_token thread w in
      do answer ← ask thread r p turns paused; ok (resumed thread saved_value answer)

  unfoldable pub snapshot : ℕ → ℕ → List ℕ → Watcher Queue → Result (Option Reply × Watcher Queue)
  unfolding ask pause_token destroy_token
  snapshot thread p turns w = ask_paused thread (snapshot_of p) p turns w

  unfoldable pub high_level_stats :
      ℕ → ℕ → List ℕ → Watcher Queue → Result (Option Reply × Watcher Queue)
  unfolding ask pause_token destroy_token
  high_level_stats thread p turns w = ask_paused thread (statistics_of p) p turns w
