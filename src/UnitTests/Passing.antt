-- ===== src/UnitTests/Passing.antt =====
-- The sections pass, whatever addresses libc returns.
use mathlib.Core.Path.{subst}
use heap_watcher.Prelude.{
  ℕ, ◌≤◌, ◌<◌, ◌≡◌, refl, sym, ap, ◌∙◌, Bool, true, false, ◌&&◌, some, List, [], ◌∷◌, length, All,
  arith, ok, ◌>>=◌, Returns, Returns-bind, Returns-weaken, ok_bind,
}
use heap_watcher.Queue.{RequestQueue}
use heap_watcher.Queue.Laws.{QueueLaws, OnlyFrom, enqueue-OnlyFrom}
use heap_watcher.Requests.{WorkerRequest, free_of}
use heap_watcher.Worker
use heap_watcher.Worker.{
  Reply, statistics, statistics_taken, snapshot_taken, reconciled, on_clear, snapshot, handle_all,
}
use heap_watcher.Watcher.Backtrace.{max_malloc_depth_in_call_stack}
use heap_watcher.Watcher.{Watcher, set_multithreaded_instrumentation, pause_watching_this_thread}
use heap_watcher.Watcher.HeapCalls.{free_call}
use heap_watcher.Watcher.Commands.{start_watching, stop_watching, high_level_stats}
use heap_watcher.Watcher.Answers.{
  start_watching-Answered, high_level_stats-Answered, stop_watching-Answered,
}
use heap_watcher.Watcher.Sending.{
  IsWatching, IsOfInterest, HasSent, calls-HasSent, after, call-sends,
}
use heap_watcher.Watcher.Sessions.{set_multithreaded-IsWatching}
use heap_watcher.Watcher.Pausing.{calls_paused, pause_off}
use heap_watcher.Watcher.Guards.{paused_guard, destroy_guard, made, paused_by, destroy_guard-frees}
use heap_watcher.Workloads.{workload_calls}
use heap_watcher.Workloads.Small.{workload_calls-By}
use heap_watcher.UnitTests.{
  Section, no_leaks_section, one_leak_section, one_leak_nested_section, one_calloc_leak_section,
  no_leaks_with_realloc_section, one_leak_with_realloc_section, pause_tracking_section, workload_of,
  required, statistics_are_zero, snapshot_meets, before_workload, run_workload, section,
}
use heap_watcher.UnitTests.Books.{section_requests, Worked, section-Worked}

length-section_requests :
    (k : Section) (depth id thread token a b : ℕ) (frames : List ℕ)
    → length (section_requests k depth id thread token a b frames) ≤ 3
unfolding workload_of workload_calls
length-section_requests pause_tracking_section depth id thread token a b frames = omega arith
length-section_requests no_leaks_section depth id thread token a b frames = omega arith
length-section_requests one_leak_section depth id thread token a b frames = omega arith
length-section_requests one_leak_nested_section depth id thread token a b frames = omega arith
length-section_requests one_calloc_leak_section depth id thread token a b frames = omega arith
length-section_requests no_leaks_with_realloc_section depth id thread token a b frames = omega arith
length-section_requests one_leak_with_realloc_section depth id thread token a b frames = omega arith

zero_after_clear :
    (p : ℕ) (b : Worker.Books)
    → statistics_are_zero (some (statistics_taken p (statistics (on_clear b)))) ≡ true
unfolding statistics_are_zero on_clear statistics
zero_after_clear p b = refl

module _ {queue : RequestQueue} (laws : QueueLaws queue) where
  open queue use {Queue}

  -- What comes before the workload passes, and changes the queue at most.
  before_workload-passes :
      (k : Section) (thread p turn : ℕ) (turns : List ℕ) (b : Worker.Books) (w : Watcher Queue)
      → w.books ≡ on_clear b
      → OnlyFrom laws thread [] w.worker_request_queue
      → Returns
          (λ out.
            (out.0 ≡ true)
            × ((q : Queue) × OnlyFrom laws thread [] q
                × (out.1 ≡ record w { worker_request_queue = q })))
          (before_workload queue k thread p (turn ∷ turns) w)
  unfolding before_workload
  before_workload-passes no_leaks_section thread p turn turns b w cleared only =
      Returns-bind _ _ (high_level_stats queue thread p (turn ∷ turns) w) _
        (high_level_stats-Answered laws thread p turn turns w only)
        (λ out (q, emptied, e). (
          ap (λ o. statistics_are_zero o.0) e
              ∙ ap (λ c. statistics_are_zero (some (statistics_taken p (statistics c)))) cleared
              ∙ zero_after_clear p b,
          (q, emptied, ap (λ o. o.1) e),
        ))
  before_workload-passes _ thread p turn turns b w cleared only =
      (refl, (w.worker_request_queue, only, refl))

  run_workload-HasSent :
      (k : Section) (thread token a b : ℕ) (frames : List ℕ) (w : Watcher Queue)
      → IsWatching thread w
      → OnlyFrom laws thread [] w.worker_request_queue
      → All
          (IsOfInterest w.known_leaks w.malloc_depth_in_call_stack)
          (workload_calls (workload_of k) thread a b frames)
      → Returns
          (HasSent laws thread
            (section_requests k w.malloc_depth_in_call_stack w.g_txn_id thread token a b frames)
            w)
          (run_workload queue k thread token a b frames w)
  unfolding run_workload paused_guard pause_watching_this_thread
  run_workload-HasSent pause_tracking_section thread token a b frames w on only new =
      let cs = workload_calls (workload_of pause_tracking_section) thread a b frames in
      let mine = workload_calls-By (workload_of pause_tracking_section) thread a b frames in
      subst (Returns (HasSent laws thread (free_of token ∷ []) w))
        (sym (
          ok_bind (destroy_guard queue thread (made queue thread token w))
            (calls_paused queue thread cs (paused_by queue thread w) mine (pause_off thread w))
          ∙ destroy_guard-frees queue thread token w
          ∙ call-sends queue (free_call thread token) w on tt))
        (
          (after queue (free_call thread token) w).worker_request_queue,
          w.g_txn_id,
          enqueue-OnlyFrom laws thread [] (free_of token) w.worker_request_queue only,
          refl,
        )
  run_workload-HasSent k thread token a b frames w on only new =
      let cs = workload_calls (workload_of k) thread a b frames in
      calls-HasSent laws thread cs [] w (workload_calls-By (workload_of k) thread a b frames) new on
        only

  -- The end of a section: the stop, and the REQUIREs.
  stop-meets :
      (k : Section) (thread r : ℕ) (turns : List ℕ) (rs : List WorkerRequest) (b : Worker.Books)
      (w : Watcher Queue)
      → (worked : Worked k rs b) → w.books ≡ on_clear b
      → length rs < length turns
      → OnlyFrom laws thread rs w.worker_request_queue
      → Returns
          (λ out. snapshot_meets (required k) out.0 ≡ true)
          (stop_watching queue thread r turns w)
  stop-meets k thread r turns rs b w worked cleared long only =
      Returns-weaken _ (λ out. snapshot_meets (required k) out.0 ≡ true)
        (stop_watching queue thread r turns w)
        (λ out e. ap (snapshot_meets (required k)) e ∙ worked.meets r)
        (stop_watching-Answered laws thread r turns rs worked.books w long only
          (ap (handle_all rs) cleared ∙ worked.runs))

  -- A section from the workload on, where what came before has passed.
  workload-passes :
      (k : Section) (thread r token a b : ℕ) (turns frames : List ℕ) (books : Worker.Books)
      (passed : Bool) (w : Watcher Queue)
      → passed ≡ true
      → w.books ≡ on_clear books
      → IsWatching thread w
      → OnlyFrom laws thread [] w.worker_request_queue
      → All
          (IsOfInterest w.known_leaks w.malloc_depth_in_call_stack)
          (workload_calls (workload_of k) thread a b frames)
      → 3 < length turns
      → Returns
          (λ out. out ≡ true)
          (do
            done ← run_workload queue k thread token a b frames w
            stopped ← stop_watching queue thread r turns done
            ok (passed && snapshot_meets (required k) stopped.0))
  workload-passes k thread r token a b turns frames books passed w before cleared on only new long =
      let rs = section_requests k w.malloc_depth_in_call_stack w.g_txn_id thread token a b frames in
      Returns-bind (HasSent laws thread rs w) (λ out. out ≡ true)
        (run_workload queue k thread token a b frames w) _
        (run_workload-HasSent k thread token a b frames w on only new)
        (λ done (q, g, sent, e).
          subst
            (λ v.
              Returns (λ out. out ≡ true)
                (do
                  stopped ← stop_watching queue thread r turns v
                  ok (passed && snapshot_meets (required k) stopped.0)))
            (sym e)
            (Returns-bind (λ out. snapshot_meets (required k) out.0 ≡ true) (λ out. out ≡ true)
              (stop_watching queue thread r turns
                (record w { worker_request_queue = q; g_txn_id = g }))
              _
              (stop-meets k thread r turns rs books
                (record w { worker_request_queue = q; g_txn_id = g })
                (section-Worked k w.malloc_depth_in_call_stack w.g_txn_id thread token a b frames
                  books)
                cleared
                (omega (
                  arith,
                  long,
                  length-section_requests k w.malloc_depth_in_call_stack w.g_txn_id thread token a b
                      frames,
                ))
                sent)
              (λ stopped met. ground (arith, before, met))))

  -- Each of these sections of the unit tests passes, whatever addresses libc returns, that of
  -- the guard's token included, and whatever frames the calls have: the thread is not paused before, no watch is in progress and the queue is
  -- empty, the wrappers fit their array, no stack shows a known leak, and the worker runs a round in
  -- each of the first waits and four in the last. No step faults, every wait ends, and every REQUIRE
  -- on the statistics and on the number of leaks holds.
  pub section-passes :
      (k : Section) (thread p q r token a b turn turn' : ℕ) (turns turns' turns'' frames : List ℕ)
      (w : Watcher Queue)
      → w.watching_globally ≡ false
      → w.watching_thread thread ≡ true
      → w.malloc_depth_in_call_stack ≤ max_malloc_depth_in_call_stack
      → OnlyFrom laws thread [] w.worker_request_queue
      → All
          (IsOfInterest w.known_leaks w.malloc_depth_in_call_stack)
          (workload_calls (workload_of k) thread a b frames)
      → 3 < length turns''
      → Returns
          (λ passed. passed ≡ true)
          (section queue k thread p q r token a b (turn ∷ turns) (turn' ∷ turns') turns'' frames w)
  unfolding section set_multithreaded_instrumentation
  section-passes k thread p q r token a b turn turn' turns turns' turns'' frames w off here fits
        only new long =
      Returns-bind _ (λ passed. passed ≡ true) (start_watching queue thread p (turn ∷ turns) w) _
        (start_watching-Answered laws thread p turn turns w off only)
        (λ started (q₁, only₁, e₁).
          let w₁ =
            set_multithreaded_instrumentation
              (record w { worker_request_queue = q₁; books = on_clear w.books }) in
          subst
            (λ o.
              Returns (λ passed. passed ≡ true)
                (do
                  before ← before_workload queue k thread q (turn' ∷ turns') o.1
                  done ← run_workload queue k thread token a b frames before.1
                  stopped ← stop_watching queue thread r turns'' done
                  ok (before.0 && snapshot_meets (required k) stopped.0)))
            (sym e₁)
            (Returns-bind _ (λ passed. passed ≡ true)
              (before_workload queue k thread q (turn' ∷ turns') w₁) _
              (before_workload-passes k thread q turn' turns' w.books w₁ refl only₁)
              (λ before (passed, (q₂, only₂, e₂)).
                subst
                  (λ v.
                    Returns (λ out. out ≡ true)
                      (do
                        done ← run_workload queue k thread token a b frames v
                        stopped ← stop_watching queue thread r turns'' done
                        ok (before.0 && snapshot_meets (required k) stopped.0)))
                  (sym e₂)
                  (workload-passes k thread r token a b turns'' frames w.books before.0
                    (record w₁ { worker_request_queue = q₂ }) passed refl
                    (set_multithreaded-IsWatching laws thread
                      (record w { worker_request_queue = q₂; books = on_clear w.books }) here fits)
                    only₂ new long))))
