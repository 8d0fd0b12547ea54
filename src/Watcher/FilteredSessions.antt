-- ===== src/Watcher/FilteredSessions.antt =====
-- A whole watch by one thread, in which some allocations show a known leak.
use mathlib.Core.Path.{subst}
use heap_watcher.Prelude.{
  ℕ, zero, suc, ◌≤◌, ◌<◌, ◌≡◌, refl, sym, ap, ◌∙◌, true, false, some, List, [], ◌∷◌, length, All,
  arith, add64, ok, ◌>>=◌, Returns, Returns-bind, Returns-weaken, IfReturns, IfReturns-bind, Option,
}
use heap_watcher.Records.{HeapSnapshot}
use heap_watcher.Requests.{WorkerRequest}
use heap_watcher.Queue.{RequestQueue}
use heap_watcher.Queue.Laws.{QueueLaws, OnlyFrom}
use heap_watcher.KnownLeaks.{LeakAddressAndOffset}
use heap_watcher.Worker.{Books, Reply, snapshot_taken, on_clear, reconciled, snapshot, handle_all}
use heap_watcher.Worker.KnownCount.{counted, handle_all-SameCount, reconciled-SameCount}
use heap_watcher.Worker.Ledger.{Ledger, no_blocks, History, Agrees, handle_all-Agrees}
use heap_watcher.Worker.Reports.{Shows, on_clear-Agrees}
use heap_watcher.Watcher.Backtrace.{max_malloc_depth_in_call_stack}
use heap_watcher.Watcher.{Watcher, set_multithreaded_instrumentation}
use heap_watcher.Watcher.HeapCalls.{HeapCall, caller, calls}
use heap_watcher.Watcher.Commands.{start_watching, stop_watching}
use heap_watcher.Watcher.Answers.{start_watching-Answered, stop_watching-Answered}
use heap_watcher.Watcher.Quiet.{IsQuiet, handle-IsQuiet, Handled, Handled-from}
use heap_watcher.Watcher.Sessions.{session, set_multithreaded-IsWatching}
use heap_watcher.Watcher.Filtered.{
  Filtered, no_calls, left_out, passed_on, HasFiltered, calls-HasFiltered,
}

length-Filtered :
    {known : List LeakAddressAndOffset} {depth g : ℕ} {cs : List HeapCall}
    {sent : List WorkerRequest} {n : ℕ}
    → Filtered known depth g cs sent n
    → length sent ≤ length cs
length-Filtered (no_calls g) = omega arith
length-Filtered (left_out g c cs rs n shows rest) = omega (arith, length-Filtered rest)
length-Filtered (passed_on g c cs rs n new rest) = omega (arith, length-Filtered rest)

-- The worker answers nothing to the requests that pass the filter.
Filtered-IsQuiet :
    {known : List LeakAddressAndOffset} {depth g : ℕ} {cs : List HeapCall}
    {sent : List WorkerRequest} {n : ℕ} (b : Books)
    → Filtered known depth g cs sent n
    → IfReturns IsQuiet (handle_all sent b)
unfolding handle_all
Filtered-IsQuiet b (no_calls g) = refl
Filtered-IsQuiet b (left_out g c cs rs n shows rest) = Filtered-IsQuiet b rest
Filtered-IsQuiet {depth = depth} b (passed_on g c cs rs n new rest) =
    IfReturns-bind IsQuiet IsQuiet _ _ (handle-IsQuiet c depth g b) (λ out e.
      IfReturns-bind IsQuiet IsQuiet (handle_all rs out.0) _ (Filtered-IsQuiet out.0 rest)
        (λ out' e'. rw (e, e') refl))

counted-Agrees : (n : ℕ) (b : Books) → Agrees (counted n (on_clear b)) no_blocks
unfolding on_clear
counted-Agrees zero b = on_clear-Agrees b
counted-Agrees (suc n) b =
    counted-Agrees n (record b { number_of_known_leaks = add64 b.number_of_known_leaks 1 })

-- A clear leaves the number of known leaks as it is.
counted-on_clear :
    (n : ℕ) (b : Books)
    → (counted n (on_clear b)).number_of_known_leaks ≡ (counted n b).number_of_known_leaks
unfolding on_clear
counted-on_clear zero b = refl
counted-on_clear (suc n) b =
    counted-on_clear n (record b { number_of_known_leaks = add64 b.number_of_known_leaks 1 })

-- The number of known leaks in a snapshot of the books after requests without an answer.
snapshot-count :
    (rs : List WorkerRequest) (b b' : Books)
    → handle_all rs b ≡ ok (b', [])
    → (snapshot (reconciled b')).high_level_statistics.number_of_known_leaks
      ≡ b.number_of_known_leaks
unfolding snapshot
snapshot-count rs b b' runs =
    reconciled-SameCount b'
    ∙ subst (IfReturns (λ out. out.0.number_of_known_leaks ≡ b.number_of_known_leaks)) runs
        (handle_all-SameCount rs b)

module _ {queue : RequestQueue} (laws : QueueLaws queue) where
  open queue use {Queue}

  -- A snapshot that shows the heap, and the number of known leaks.
  abbrev pub ReportsCount : ℕ → Ledger → ℕ → Option Reply × Watcher Queue → Type 0
  ReportsCount p h count out =
      (s : HeapSnapshot) × (out.0 ≡ some (snapshot_taken p s))
      × Shows s h
      × (s.high_level_statistics.number_of_known_leaks ≡ count)

  stop-ReportsCount :
      (thread p n : ℕ) (turns : List ℕ) (sent : List WorkerRequest) (h : Ledger) (b : Books)
      (w : Watcher Queue)
      → w.books ≡ counted n (on_clear b)
      → length sent < length turns
      → OnlyFrom laws thread sent w.worker_request_queue
      → Handled sent w.books h
      → Returns
          (ReportsCount p h (counted n b).number_of_known_leaks)
          (stop_watching queue thread p turns w)
  stop-ReportsCount thread p n turns sent h b w counts long only done =
      Returns-weaken _ (ReportsCount p h (counted n b).number_of_known_leaks)
        (stop_watching queue thread p turns w)
        (λ out e. (
          snapshot (reconciled done.books),
          e,
          done.shows,
          snapshot-count sent w.books done.books done.runs
              ∙ ap (λ c. c.number_of_known_leaks) counts
              ∙ counted-on_clear n b,
        ))
        (stop_watching-Answered laws thread p turns sent done.books w long only done.runs)

  -- A thread starts a watch while none is in progress, makes any heap calls, and stops the watch.
  -- Those of the calls whose stack shows a known leak are left out, and the requests of the others
  -- are a proper history of the heap. The wrappers fit their array, the thread is not paused, no
  -- other thread sends requests, and the worker runs one round for the start and more rounds than
  -- there are calls for the stop. Then nothing faults, both waits end, the snapshot shows exactly
  -- the blocks of the other calls that are still open, and its number of known leaks has gone up by
  -- one, modulo 2 ^ 64, for each call that was left out.
  pub known_session-ReportsCount :
      (thread p q turn : ℕ) (turns turns' : List ℕ) (cs : List HeapCall) (sent : List WorkerRequest)
      (n : ℕ) (h : Ledger) (w : Watcher Queue)
      → w.watching_globally ≡ false
      → w.watching_thread thread ≡ true
      → w.malloc_depth_in_call_stack ≤ max_malloc_depth_in_call_stack
      → OnlyFrom laws thread [] w.worker_request_queue
      → All (λ c. caller c ≡ thread) cs
      → Filtered w.known_leaks w.malloc_depth_in_call_stack w.g_txn_id cs sent n
      → History no_blocks sent h
      → length cs < length turns'
      → Returns
          (ReportsCount q h (counted n w.books).number_of_known_leaks)
          (session laws thread p q (turn ∷ turns) turns' cs w)
  unfolding set_multithreaded_instrumentation
  known_session-ReportsCount thread p q turn turns turns' cs sent n h w off here fits only mine
        filtered history long =
      let goal = ReportsCount q h (counted n w.books).number_of_known_leaks in
      Returns-bind _ goal (start_watching queue thread p (turn ∷ turns) w) _
        (start_watching-Answered laws thread p turn turns w off only)
        (λ out (rest, emptied, e).
          let cleared = record w { worker_request_queue = rest; books = on_clear w.books } in
          let w₁ = set_multithreaded_instrumentation cleared in
          subst
            (λ o.
              Returns goal
                (do called ← calls queue cs o.1; stop_watching queue thread q turns' called))
            (sym e)
            (Returns-bind (HasFiltered laws thread sent n w₁) goal (calls queue cs w₁) _
              (calls-HasFiltered laws thread [] w₁ filtered refl refl refl mine
                (set_multithreaded-IsWatching laws thread cleared here fits) emptied)
              (λ called (queued, g, holds, e').
                let w₂ = record w₁ {
                  worker_request_queue = queued;
                  g_txn_id = g;
                  books = counted n (on_clear w.books);
                } in
                subst (λ v. Returns goal (stop_watching queue thread q turns' v)) (sym e')
                  (stop-ReportsCount thread q n turns' sent h w.books w₂ refl
                    (omega (arith, long, length-Filtered filtered)) holds
                    (Handled-from sent (counted n (on_clear w.books)) h
                      (handle_all-Agrees (counted n (on_clear w.books)) no_blocks h sent
                        (counted-Agrees n w.books) history)
                      (Filtered-IsQuiet (counted n (on_clear w.books)) filtered))))))
