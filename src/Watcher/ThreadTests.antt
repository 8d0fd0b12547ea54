-- ===== src/Watcher/ThreadTests.antt =====
-- Two threads over one queue, and pauses within pauses.
use heap_watcher.Prelude.{◌≡◌, refl, true, false, List, [], ◌∷◌, arith, ok, Returns, ◌>>=◌}
use heap_watcher.Watcher.Sample.{
  frames, start, watched, of_interest, watched-IsWatching, start-OnlyFrom,
}
use heap_watcher.Queue.Laws.{QueueLaws, OnlyFrom, sent_by, bare}
use heap_watcher.Queue.Sample.{list_queue, list_queue_laws}
use heap_watcher.Queue.Favouring.{favouring}
use heap_watcher.Worker.{initial_books, on_clear}
use heap_watcher.Worker.Races.{open_after, allocated, run}
use heap_watcher.Worker.Merges.{blocks, handle_all-blocks}
use heap_watcher.Watcher.Waiting.{round-books}
use heap_watcher.Watcher.{Watcher, set_multithreaded_instrumentation}
use heap_watcher.Watcher.HeapCalls.{HeapCall, malloc_call, calloc_call, free_call, call}
use heap_watcher.Watcher.Commands.{worker_round, stop_watching}
use heap_watcher.Watcher.Sending.{after, after-IsWatching, call-sends}
use heap_watcher.Watcher.Traces.{sent_for, Trace, ends, calls, serves}
use heap_watcher.Watcher.Threads.{threads-Reported}
use heap_watcher.Watcher.Answers.{Reported}
use heap_watcher.Watcher.LateRequests.{StopsEmpty, late_request}
use heap_watcher.Watcher.Guards.{
  Scope, done, then_call, then_paused, run_scope, paused_guard, destroy_guard, then_paused-sends,
  crossed_guards,
}

abbrev first : HeapCall
first = malloc_call 5 8 100 frames

abbrev second : HeapCall
second = calloc_call 6 4 8 200 frames

abbrev third : HeapCall
third = free_call 6 100

abbrev cs : List HeapCall
cs = first ∷ second ∷ third ∷ []

abbrev one : Watcher (list_queue.Queue)
one = after list_queue first start

abbrev two : Watcher (list_queue.Queue)
two = after list_queue second one

abbrev three : Watcher (list_queue.Queue)
three = after list_queue third two

abbrev served : Watcher (list_queue.Queue)
served = record three {
  worker_request_queue = [];
  books = run (blocks (bare (sent_for 3 1 cs))) (on_clear initial_books);
}

serving : worker_round list_queue 0 three ≡ ok (served, [])
unfolding set_multithreaded_instrumentation
serving =
    round-books list_queue_laws 0 (run (blocks (bare (sent_for 3 1 cs))) (on_clear initial_books))
      [] three
      (handle_all-blocks (bare (sent_for 3 1 cs)) (on_clear initial_books) (tt, (tt, (tt, tt))))

-- Three calls, and then a round of the worker.
trace : Trace list_queue served start cs
unfolding set_multithreaded_instrumentation
trace = calls first one (call-sends list_queue first start (watched-IsWatching 5 []) of_interest) (
    calls second two
      (call-sends list_queue second one
        (after-IsWatching list_queue 6 first start (watched-IsWatching 6 [])) of_interest)
      (calls third three
        (call-sends list_queue third two
          (after-IsWatching list_queue 6 second one
            (after-IsWatching list_queue 6 first start (watched-IsWatching 6 [])))
          tt)
        (serves 0 served [] serving ends)))

served-OnlyFrom : OnlyFrom list_queue_laws 5 [] served.worker_request_queue
unfolding sent_by
served-OnlyFrom = record { own = refl; no_more = refl }

threads-Reported_example :
    Returns
      (Reported list_queue_laws 5 2 (open_after (blocks (bare (sent_for 3 1 cs)))))
      (stop_watching list_queue 5 2 (0 ∷ []) served)
unfolding set_multithreaded_instrumentation allocated
threads-Reported_example =
    threads-Reported list_queue_laws 5 2 (0 ∷ []) cs initial_books [] start served refl
      (start-OnlyFrom 5)
      (watched-IsWatching 5 [], (watched-IsWatching 6 [], (watched-IsWatching 6 [], tt)))
      (of_interest, (of_interest, (tt, tt))) (tt, (tt, (tt, tt))) (refl, (refl, tt)) trace
      served-OnlyFrom (omega arith)

late_request_example :
    QueueLaws (favouring 5)
    × Returns (StopsEmpty 2) (do
      called ← call (favouring 5) (malloc_call 6 8 100 frames) (watched [])
      stop_watching (favouring 5) 5 2 (0 ∷ []) called)
unfolding set_multithreaded_instrumentation
late_request_example =
    late_request 5 6 refl 2 8 100 0 [] frames initial_books (watched []) (watched-IsWatching 6 [])
      of_interest

-- Two pauses, one in the other, with a call in each.
abbrev inner : Scope
inner = then_call first (then_paused 901 (then_call first done) done)

then_paused-sends_example :
    run_scope list_queue 5 (then_paused 900 inner (then_call first done)) start
    ≡ run_scope list_queue 5 (then_call first done) (after list_queue (free_call 5 900) start)
then_paused-sends_example =
    then_paused-sends list_queue 5 900 inner (then_call first done) start (watched-IsWatching 5 [])
      (refl, ((refl, tt), tt))

crossed_guards_example :
    Returns
      (λ (out : Watcher (list_queue.Queue) × Watcher (list_queue.Queue)).
        (out.0.watching_thread 5 ≡ true) × (out.1.watching_thread 5 ≡ false))
      (do
        (one_guard, once) ← paused_guard list_queue 5 900 start
        (two_guards, twice) ← paused_guard list_queue 5 901 once
        between ← destroy_guard list_queue 5 one_guard twice
        end ← destroy_guard list_queue 5 two_guards between
        ok (between, end))
unfolding set_multithreaded_instrumentation
crossed_guards_example = crossed_guards list_queue 5 900 901 start refl
