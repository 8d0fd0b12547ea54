-- ===== src/Watcher/Tests.antt =====
-- The watcher over a plain list for its queue.
use heap_watcher.Prelude.{
  ℕ, ◌≡◌, refl, true, false, none, List, [], ◌∷◌, ◌++◌, arith, fault, write_past_end, Returns,
  Option, some, inr, ◌==◌, if◌then◌else◌,
}
use heap_watcher.Requests.{ReallocRecord, free_of, statistics_of}
use heap_watcher.Records.{AllocationRecord, allocation_record}
use heap_watcher.KnownLeaks.Filter.{IsIgnored}
use heap_watcher.Queue.Laws.{OnlyFrom, sent_by}
use heap_watcher.Worker.Order.{moved}
use heap_watcher.Worker.Ledger.{Ledger, no_blocks, History, opens, closes, moves}
use heap_watcher.Watcher.HeapCalls.{call}
use heap_watcher.Prelude.{IfReturns}
use heap_watcher.Watcher.Sending.{all_requested}
use heap_watcher.Watcher.Flags.{SameFlags, call-SameFlags}
use heap_watcher.Watcher.Answers.{Reported}
use heap_watcher.Watcher.FailedRealloc.{after_failure, failed_realloc}
use heap_watcher.Watcher.Sessions.{session, session-Reported}
use heap_watcher.Queue.Sample.{list_queue, list_queue_laws}
use heap_watcher.Worker.{Books, statistics_taken, initial_books, on_free, statistics, handle_all}
use heap_watcher.Watcher.Commands.{reply_to, await}
use heap_watcher.Watcher.Waiting.{Answered, await-Answered}
use heap_watcher.Watcher.{Watcher, libc, is_watching_this_thread, set_multithreaded_instrumentation}
use heap_watcher.Watcher.HeapCalls.{
  HeapCall, malloc_call, calloc_call, realloc_call, free_call, malloc,
}
use heap_watcher.Watcher.Recording.{shown, Records, malloc-Records, malloc_overruns}

-- After the constructor, with the wrappers `depth` frames deep.
abbrev idle : ℕ → Watcher (list_queue.Queue)
idle depth = record {
  malloc_function = libc;
  calloc_function = libc;
  realloc_function = libc;
  free_function = libc;
  watching_globally = false;
  watching_thread = λ thread. true;
  watched_single_thread_id = none;
  worker_request_queue = [];
  single_threaded_allocations = [];
  known_leaks = record { address = 70; offset_from_malloc = 0 } ∷ [];
  malloc_depth_in_call_stack = depth;
  books = initial_books;
  g_txn_id = 1;
}

abbrev watching : ℕ → Watcher (list_queue.Queue)
watching depth = set_multithreaded_instrumentation (idle depth)

abbrev frames : List ℕ
frames = 1 ∷ 2 ∷ 3 ∷ 10 ∷ 20 ∷ 30 ∷ 40 ∷ 50 ∷ 60 ∷ []

malloc-Records_example :
    Returns
      (Records list_queue 5 8 100 frames (watching 3))
      (malloc list_queue 5 8 100 frames (watching 3))
unfolding set_multithreaded_instrumentation is_watching_this_thread
malloc-Records_example =
    malloc-Records list_queue 5 8 100 frames (watching 3) refl refl (omega arith)

malloc_overruns_example : malloc list_queue 5 8 100 frames (watching 4) ≡ fault write_past_end
unfolding set_multithreaded_instrumentation is_watching_this_thread
malloc_overruns_example =
    malloc_overruns list_queue 5 8 100 frames (watching 4) refl refl (omega arith) (omega arith)

abbrev leaking : List HeapCall
leaking = malloc_call 5 8 100 frames ∷ free_call 5 300 ∷ []

-- One block is allocated and freed, one is allocated and stays, and moves.
abbrev program : List HeapCall
program =
    malloc_call 5 8 100 frames
    ∷ calloc_call 5 4 8 200 frames
    ∷ free_call 5 100
    ∷ realloc_call 5 200 300 64
    ∷ []

abbrev put : ℕ → Option AllocationRecord → Ledger → Ledger
put a o h j = if a == j then o else h j

abbrev small_block : AllocationRecord
small_block = allocation_record 8 100 1 (10 ∷ 20 ∷ 30 ∷ 40 ∷ [])

abbrev zeroed_block : AllocationRecord
zeroed_block = allocation_record 32 200 2 (10 ∷ 20 ∷ 30 ∷ 40 ∷ [])

abbrev growth : ReallocRecord
growth = record { original_address = 200; new_address = 300; new_size = 64 }

abbrev one_open : Ledger
one_open = put 100 (some small_block) no_blocks

abbrev two_open : Ledger
two_open = put 200 (some zeroed_block) one_open

abbrev one_left : Ledger
one_left = put 100 none two_open

abbrev moved_on : Ledger
moved_on = put 300 (some (moved growth zeroed_block)) (put 200 none one_left)

program-History : History no_blocks (all_requested 3 1 program) moved_on
program-History = (
  one_open,
  opens small_block refl (λ j. refl),
  (
    two_open,
    opens zeroed_block refl (λ j. refl),
    (
      one_left,
      closes 100 small_block refl (λ j. refl),
      (moved_on, moves growth zeroed_block refl (inr refl) (λ j. refl), λ j. refl),
    ),
  ),
)

of_interest : ¬ IsIgnored (idle 3).known_leaks (shown 3 frames)
of_interest h = ground (arith, h)

idle-OnlyFrom : OnlyFrom list_queue_laws 5 [] (idle 3).worker_request_queue
unfolding sent_by
idle-OnlyFrom = record { own = refl; no_more = refl }

session-Reported_example :
    Returns
      (Reported list_queue_laws 5 2 moved_on)
      (session list_queue_laws 5 1 2 (0 ∷ []) (0 ∷ 0 ∷ 0 ∷ 0 ∷ 0 ∷ []) program (idle 3))
session-Reported_example =
    session-Reported list_queue_laws 5 1 2 0 [] (0 ∷ 0 ∷ 0 ∷ 0 ∷ 0 ∷ []) program moved_on (idle 3)
      refl refl (omega arith) idle-OnlyFrom (refl, (refl, (refl, (refl, tt))))
      (of_interest, (of_interest, (tt, (tt, tt)))) program-History (omega arith)

-- The realloc of the program has moved a block to 300, and a second realloc of it fails.
failed_realloc_example :
    Returns
      (Reported list_queue_laws 5 2 (after_failure 300 999 (moved growth zeroed_block) moved_on))
      (session list_queue_laws 5 1 2
        (0 ∷ [])
        (0 ∷ 0 ∷ 0 ∷ 0 ∷ 0 ∷ 0 ∷ [])
        (program ++ realloc_call 5 300 0 999 ∷ [])
        (idle 3))
failed_realloc_example =
    failed_realloc list_queue_laws 5 1 2 0 300 999 [] (0 ∷ 0 ∷ 0 ∷ 0 ∷ 0 ∷ 0 ∷ []) program moved_on
      (moved growth zeroed_block) (idle 3) refl refl (omega arith) idle-OnlyFrom
      (refl, (refl, (refl, (refl, tt)))) (of_interest, (of_interest, (tt, (tt, tt))))
      program-History refl refl (omega arith)

abbrev asking : Watcher (list_queue.Queue)
asking = record (idle 3) { worker_request_queue = (5, free_of 7) ∷ (5, statistics_of 2) ∷ [] }

abbrev one_free : Books
one_free = on_free 7 initial_books

asking-OnlyFrom :
    OnlyFrom list_queue_laws 5 (free_of 7 ∷ statistics_of 2 ∷ []) asking.worker_request_queue
unfolding sent_by
asking-OnlyFrom = record { own = refl; no_more = refl }

await-Answered_example :
    Returns
      (Answered list_queue_laws 5 (statistics_taken 2 (statistics one_free)) one_free asking)
      (await list_queue 2 (0 ∷ 0 ∷ []) asking)
unfolding handle_all reply_to
await-Answered_example =
    await-Answered list_queue_laws 5 2 (0 ∷ 0 ∷ []) (free_of 7 ∷ []) (statistics_of 2)
      (statistics_taken 2 (statistics one_free)) one_free one_free [] asking (omega arith)
      asking-OnlyFrom refl refl refl refl

call-SameFlags_example :
    IfReturns (SameFlags (watching 3)) (call list_queue (free_call 5 300) (watching 3))
call-SameFlags_example = call-SameFlags list_queue (free_call 5 300) (watching 3)
