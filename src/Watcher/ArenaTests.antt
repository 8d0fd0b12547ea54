-- ===== src/Watcher/ArenaTests.antt =====
-- Two threads with addresses of their own: one reallocates, the other uses an address twice.
use heap_watcher.Prelude.{
  ℕ, ◌≡◌, refl, inr, none, some, List, [], ◌∷◌, ltb, ◌==◌, if◌then◌else◌, All, arith, ok, fault,
  Returns,
}
use heap_watcher.Records.{AllocationRecord, allocation_record}
use heap_watcher.Requests.{ReallocRecord}
use heap_watcher.Queue.Laws.{OnlyFrom, sent_by, bare}
use heap_watcher.Queue.Sample.{list_queue, list_queue_laws}
use heap_watcher.AddressMap.{find, emplace, erase}
use heap_watcher.Worker.{Books, handle_all, initial_books, on_clear}
use heap_watcher.Worker.Batches.{Outcome}
use heap_watcher.Worker.Order.{moved}
use heap_watcher.Worker.Ledger.{Ledger, no_blocks, History, opens, closes, moves}
use heap_watcher.Watcher.{Watcher, set_multithreaded_instrumentation}
use heap_watcher.Watcher.HeapCalls.{HeapCall, malloc_call, realloc_call, free_call}
use heap_watcher.Watcher.Commands.{worker_round, stop_watching}
use heap_watcher.Watcher.Waiting.{round-books}
use heap_watcher.Watcher.Sending.{IsOfInterest, all_requested}
use heap_watcher.Watcher.Answers.{Reported}
use heap_watcher.Watcher.Traces.{sent_for, Trace, ends, serves}
use heap_watcher.Watcher.Sample.{
  frames, start, of_interest, watched-IsWatching, start-OnlyFrom, all_after, calls-Trace,
}
use heap_watcher.Watcher.OwnBlocks.{OwnCall}
use heap_watcher.Watcher.Arenas.{own_round, own-Reported}

abbrev cs : List HeapCall
cs =
    malloc_call 5 8 100 frames
    ∷ malloc_call 6 16 200 frames
    ∷ free_call 6 200
    ∷ realloc_call 5 100 150 24
    ∷ malloc_call 6 32 200 frames
    ∷ []

abbrev owner : ℕ → ℕ
owner a = if ltb a 200 then 5 else 6

abbrev block : ℕ → ℕ → ℕ → AllocationRecord
block size address id = allocation_record size address id (10 ∷ 20 ∷ 30 ∷ 40 ∷ [])

abbrev growth : ReallocRecord
growth = record { original_address = 100; new_address = 150; new_size = 24 }

abbrev put : ℕ → AllocationRecord → Ledger → Ledger
put a r h j = if a == j then some r else h j

abbrev drop_block : ℕ → Ledger → Ledger
drop_block a h j = if a == j then none else h j

abbrev one : Ledger
one = put 100 (block 8 100 1) no_blocks

abbrev two : Ledger
two = put 200 (block 16 200 2) one

abbrev three : Ledger
three = drop_block 200 two

abbrev four : Ledger
four = put 150 (moved growth (block 8 100 1)) (drop_block 100 three)

abbrev five : Ledger
five = put 200 (block 32 200 3) four

history : History no_blocks (all_requested 3 1 cs) five
history = (
  one,
  opens (block 8 100 1) refl (λ j. refl),
  (
    two,
    opens (block 16 200 2) refl (λ j. refl),
    (
      three,
      closes 200 (block 16 200 2) refl (λ j. refl),
      (
        four,
        moves growth (block 8 100 1) refl (inr refl) (λ j. refl),
        (five, opens (block 32 200 3) refl (λ j. refl), λ j. refl),
      ),
    ),
  ),
)

abbrev books_of : Outcome → Books
books_of (ok out) = out.0
books_of (fault e) = initial_books

abbrev made : Watcher (list_queue.Queue)
made = all_after cs start

abbrev served : Watcher (list_queue.Queue)
served = record made {
  worker_request_queue = [];
  books = books_of (handle_all (bare (sent_for 3 1 cs)) (on_clear initial_books));
}

serving : worker_round list_queue 0 made ≡ ok (served, [])
unfolding set_multithreaded_instrumentation handle_all find emplace erase
serving = round-books list_queue_laws 0 served.books [] made refl

served-OnlyFrom : OnlyFrom list_queue_laws 5 [] served.worker_request_queue
unfolding sent_by
served-OnlyFrom = record { own = refl; no_more = refl }

new : All (IsOfInterest start.known_leaks start.malloc_depth_in_call_stack) cs
unfolding set_multithreaded_instrumentation
new = (of_interest, (of_interest, (tt, (tt, (of_interest, tt)))))

trace : Trace list_queue served start cs
unfolding set_multithreaded_instrumentation
trace =
    calls-Trace cs start served (λ thread. watched-IsWatching thread []) new
      (serves 0 served [] serving ends)

-- The calls, before the worker has seen any of them.
unserved : Trace list_queue made start cs
unserved = calls-Trace cs start made (λ thread. watched-IsWatching thread []) new ends

own : All (OwnCall owner) cs
own = (refl, (refl, (refl, ((refl, refl), (refl, tt)))))

own_round_example : Returns (λ out. Unit {0}) (worker_round list_queue 0 made)
unfolding set_multithreaded_instrumentation
own_round_example =
    own_round list_queue_laws owner 5 0 cs initial_books five start made refl (start-OnlyFrom 5)
      (
        watched-IsWatching 5 [],
        (
          watched-IsWatching 6 [],
          (watched-IsWatching 6 [], (watched-IsWatching 5 [], (watched-IsWatching 6 [], tt))),
        ),
      )
      new own history unserved

own-Reported_example :
    Returns (Reported list_queue_laws 5 2 five) (stop_watching list_queue 5 2 (0 ∷ []) served)
unfolding set_multithreaded_instrumentation
own-Reported_example =
    own-Reported list_queue_laws owner 5 2 (0 ∷ []) cs initial_books five [] start served refl
      (start-OnlyFrom 5)
      (
        watched-IsWatching 5 [],
        (
          watched-IsWatching 6 [],
          (watched-IsWatching 6 [], (watched-IsWatching 5 [], (watched-IsWatching 6 [], tt))),
        ),
      )
      new own history trace served-OnlyFrom (omega arith)
