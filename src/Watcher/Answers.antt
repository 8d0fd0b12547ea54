-- ===== src/Watcher/Answers.antt =====
-- What the commands start_watching, stop_watching and snapshot answer when one thread uses the heap.
use mathlib.Core.Path.{subst, fun_ext}
use heap_watcher.Prelude.{
  ℕ, ◌<◌, ◌≡◌, refl, sym, ap, ◌∙◌, false, Option, some, List, [], ◌∷◌, length, arith, ok, ◌>>=◌,
  Returns, Returns-bind, Returns-weaken,
}
use heap_watcher.Records.{HeapSnapshot}
use heap_watcher.Requests.{WorkerRequest, clear_of, snapshot_of, statistics_of}
use heap_watcher.Queue.{RequestQueue}
use heap_watcher.Queue.Laws.{QueueLaws, OnlyFrom, enqueue-OnlyFrom}
use heap_watcher.Worker.{
  Books, Reply, cleared, snapshot_taken, statistics_taken, statistics, on_clear, handle_all,
  reconciled, snapshot,
}
use heap_watcher.Worker.Ledger.{Ledger}
use heap_watcher.Worker.Reports.{Shows}
use heap_watcher.Watcher.{
  Watcher, pause_token, destroy_token, remove_instrumentation, set_multithreaded_instrumentation,
}
use heap_watcher.Watcher.HeapCalls.{send}
use heap_watcher.Watcher.Commands
use heap_watcher.Watcher.Commands.{
  resumed, reply_to, await, ask, started, start_watching, stop_watching, high_level_stats,
}
use heap_watcher.Watcher.Waiting.{Answered, await-Answered}
use heap_watcher.Watcher.Quiet.{Handled}

module _ {queue : RequestQueue} (laws : QueueLaws queue) where
  open queue use {Queue}

  start_unless_watching :
      (thread p : ℕ) (turns : List ℕ) (w : Watcher Queue)
      → w.watching_globally ≡ false
      → start_watching queue thread p turns w ≡ (
          await queue p turns (send queue thread (clear_of p) w) >>= λ answer.
          ok (started queue answer))
  unfolding start_watching ask
  start_unless_watching thread p turns w off = ground (arith, off)

  -- start_watching by a thread that finds the queue empty and no watch in progress: it returns in
  -- one round of the worker, with cleared books and every heap function instrumented.
  pub start_watching-Answered :
      (thread p turn : ℕ) (turns : List ℕ) (w : Watcher Queue)
      → w.watching_globally ≡ false
      → OnlyFrom laws thread [] w.worker_request_queue
      → Returns
          (λ out.
            (q : Queue) × OnlyFrom laws thread [] q
            × (out ≡ (
              some (cleared p),
              set_multithreaded_instrumentation
                  (record w { worker_request_queue = q; books = on_clear w.books }),
            )))
          (start_watching queue thread p (turn ∷ turns) w)
  unfolding send handle_all reply_to set_multithreaded_instrumentation
  start_watching-Answered thread p turn turns w off only =
      let asked = send queue thread (clear_of p) w in
      let waited =
        await-Answered laws thread p (turn ∷ turns) [] (clear_of p) (cleared p) w.books
          (on_clear w.books) [] asked (omega arith)
          (enqueue-OnlyFrom laws thread [] (clear_of p) w.worker_request_queue only) refl refl refl
          (ground arith) in
      rw (start_unless_watching thread p (turn ∷ turns) w off) (
        Returns-bind (Answered laws thread (cleared p) (on_clear w.books) asked) _
          (await queue p (turn ∷ turns) asked) (λ answer. ok (started queue answer)) waited
          (λ out (rest, emptied, e). (rest, emptied, ap (started queue) e)))

  -- A command has answered with a snapshot that shows the heap, with the watch at its end and an
  -- empty queue.
  abbrev pub Reported : ℕ → ℕ → Ledger → Option Reply × Watcher Queue → Type 0
  Reported thread p h out =
      (s : HeapSnapshot) × (out.0 ≡ some (snapshot_taken p s))
      × Shows s h
      × (out.1.watching_globally ≡ false)
      × OnlyFrom laws thread [] out.1.worker_request_queue

  -- The answer of stop_watching, from the books that the worker has made of the requests.
  pub stop_watching-Answered :
      (thread p : ℕ) (turns : List ℕ) (rs : List WorkerRequest) (b : Books) (w : Watcher Queue)
      → length rs < length turns
      → OnlyFrom laws thread rs w.worker_request_queue
      → handle_all rs w.books ≡ ok (b, [])
      → Returns
          (λ out. out.0 ≡ some (snapshot_taken p (snapshot (reconciled b))))
          (stop_watching queue thread p turns w)
  unfolding stop_watching ask send handle_all reply_to remove_instrumentation
  stop_watching-Answered thread p turns rs b w long only runs =
      let asked = send queue thread (snapshot_of p) (remove_instrumentation w) in
      let taken = snapshot_taken p (snapshot (reconciled b)) in
      Returns-weaken (Answered laws thread taken (reconciled b) asked) (λ out. out.0 ≡ some taken)
        (await queue p turns asked) (λ out (rest, emptied, e). ap (λ o. o.0) e)
        (await-Answered laws thread p turns rs (snapshot_of p) taken b (reconciled b) [] asked long
          (enqueue-OnlyFrom laws thread rs (snapshot_of p) w.worker_request_queue only) runs refl
          refl (ground arith))

  -- high_level_stats by a thread that finds the queue empty: it returns in one round the statistics
  -- of the books, and leaves the watch as it was.
  pub high_level_stats-Answered :
      (thread p turn : ℕ) (turns : List ℕ) (w : Watcher Queue)
      → OnlyFrom laws thread [] w.worker_request_queue
      → Returns
          (λ out.
            (q : Queue) × OnlyFrom laws thread [] q
            × (out ≡ (
              some (statistics_taken p (statistics w.books)),
              record w { worker_request_queue = q },
            )))
          (high_level_stats queue thread p (turn ∷ turns) w)
  unfolding high_level_stats ask send handle_all reply_to pause_token destroy_token
  high_level_stats-Answered thread p turn turns w only =
      let asked = send queue thread (statistics_of p) (pause_token thread w).1 in
      let answer = statistics_taken p (statistics w.books) in
      Returns-bind (Answered laws thread answer w.books asked) _
        (await queue p (turn ∷ turns) asked)
        (λ out. ok (resumed queue thread (w.watching_thread thread) out))
        (await-Answered laws thread p (turn ∷ turns) [] (statistics_of p) answer w.books w.books []
          asked (omega arith)
          (enqueue-OnlyFrom laws thread [] (statistics_of p) w.worker_request_queue only) refl refl
          refl (ground arith))
        (λ out (rest, emptied, e). (
          rest,
          emptied,
          ap (resumed queue thread (w.watching_thread thread)) e
              ∙ ap
                  (λ flags. (
                    some answer,
                    record w { worker_request_queue = rest; watching_thread = flags },
                  ))
                  (fun_ext (λ j. ground arith)),
        ))

  pub stop_watching-Reported :
      (thread p : ℕ) (turns : List ℕ) (rs : List WorkerRequest) (h : Ledger) (w : Watcher Queue)
      → length rs < length turns
      → OnlyFrom laws thread rs w.worker_request_queue
      → Handled rs w.books h
      → Returns (Reported thread p h) (stop_watching queue thread p turns w)
  unfolding stop_watching ask send handle_all reply_to remove_instrumentation
  stop_watching-Reported thread p turns rs h w long only done =
      let asked = send queue thread (snapshot_of p) (remove_instrumentation w) in
      let b = reconciled done.books in
      let waited =
        await-Answered laws thread p turns rs (snapshot_of p) (snapshot_taken p (snapshot b))
          done.books b [] asked long
          (enqueue-OnlyFrom laws thread rs (snapshot_of p) w.worker_request_queue only) done.runs
          refl refl (ground arith) in
      Returns-weaken (Answered laws thread (snapshot_taken p (snapshot b)) b asked)
        (Reported thread p h) (await queue p turns asked)
        (λ out (rest, emptied, e). (
          snapshot b,
          ap (λ o. o.0) e,
          done.shows,
          ap (λ o. o.1.watching_globally) e,
          subst (OnlyFrom laws thread []) (sym (ap (λ o. o.1.worker_request_queue) e)) emptied,
        ))
        waited

  -- The watch goes on after a snapshot that shows the heap: what it changes is the books and the
  -- queue, which is empty.
  abbrev pub GoesOn : ℕ → ℕ → Ledger → Watcher Queue → Option Reply × Watcher Queue → Type 0
  GoesOn thread p h w out =
      (s : HeapSnapshot) × (rest : Queue) × (b : Books) × Shows s h
      × OnlyFrom laws thread [] rest
      × (out ≡ (some (snapshot_taken p s), record w { worker_request_queue = rest; books = b }))

  -- The answer of snapshot, from what the worker makes of the requests ahead in the queue.
  pub snapshot-GoesOn :
      (thread p : ℕ) (turns : List ℕ) (rs : List WorkerRequest) (h : Ledger) (w : Watcher Queue)
      → length rs < length turns
      → OnlyFrom laws thread rs w.worker_request_queue
      → Handled rs w.books h
      → Returns (GoesOn thread p h w) (Commands.snapshot queue thread p turns w)
  unfolding Commands.snapshot ask send handle_all reply_to pause_token destroy_token
  snapshot-GoesOn thread p turns rs h w long only done =
      let paused = (pause_token thread w).1 in
      let asked = send queue thread (snapshot_of p) paused in
      let b = reconciled done.books in
      let waited =
        await-Answered laws thread p turns rs (snapshot_of p) (snapshot_taken p (snapshot b))
          done.books b [] asked long
          (enqueue-OnlyFrom laws thread rs (snapshot_of p) w.worker_request_queue only) done.runs
          refl refl (ground arith) in
      Returns-bind (Answered laws thread (snapshot_taken p (snapshot b)) b asked)
        (GoesOn thread p h w) (await queue p turns asked)
        (λ out. ok (resumed queue thread (w.watching_thread thread) out)) waited
        (λ out (rest, emptied, e). (
          snapshot b,
          rest,
          b,
          done.shows,
          emptied,
          ap (resumed queue thread (w.watching_thread thread)) e
              ∙ ap
                  (λ flags. (
                    some (snapshot_taken p (snapshot b)),
                    record w { worker_request_queue = rest; books = b; watching_thread = flags },
                  ))
                  (fun_ext (λ j. ground arith)),
        ))
