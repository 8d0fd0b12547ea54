-- ===== src/Watcher/FailedRealloc.antt =====
-- A realloc that fails: libc returns a null pointer and leaves the block as it is.
use mathlib.Core.Path.{subst, fun_ext}
use heap_watcher.Prelude.{
  ℕ, suc, ◌<◌, ◌≤◌, ◌≡◌, refl, inr, true, false, none, some, List, [], ◌∷◌, ◌++◌, ◌==◌,
  if◌then◌else◌, length, length-append, All, arith, Returns,
}
use heap_watcher.Records.{AllocationRecord}
use heap_watcher.Requests.{ReallocRecord, realloc_request}
use heap_watcher.Queue.{RequestQueue}
use heap_watcher.Queue.Laws.{QueueLaws, OnlyFrom}
use heap_watcher.Worker.Order.{moved}
use heap_watcher.Worker.Ledger.{Ledger, no_blocks, History, HeapStep, moves}
use heap_watcher.Watcher.Backtrace.{max_malloc_depth_in_call_stack}
use heap_watcher.Watcher.{Watcher}
use heap_watcher.Watcher.HeapCalls.{HeapCall, realloc_call, caller}
use heap_watcher.Watcher.Sending.{IsOfInterest, all_requested, next_id}
use heap_watcher.Watcher.Answers.{Reported}
use heap_watcher.Watcher.Sessions.{session, session-Reported}

-- What the worker is told: the block has moved to address 0.
abbrev to_null : ℕ → ℕ → ReallocRecord
to_null a size = record { original_address = a; new_address = 0; new_size = size }

-- The blocks of which the snapshot tells then.
abbrev pub after_failure : ℕ → ℕ → AllocationRecord → Ledger → Ledger
after_failure a size old h j =
    if 0 == j then some (moved (to_null a size) old) else if a == j then none else h j

realloc_last :
    (depth g thread a size : ℕ) (cs : List HeapCall) (h₀ h h' : Ledger)
    → History h₀ (all_requested depth g cs) h
    → HeapStep h h' (realloc_request a 0 size)
    → History h₀ (all_requested depth g (cs ++ realloc_call thread a 0 size ∷ [])) h'
realloc_last depth g thread a size [] h₀ h h' same step =
    (h', subst (λ k. HeapStep k h' (realloc_request a 0 size)) (fun_ext same) step, λ j. refl)
realloc_last depth g thread a size (c ∷ cs) h₀ h h' (k, first, rest) step =
    (k, first, realloc_last depth (next_id g c) thread a size cs k h h' rest step)

All-last :
    (P : HeapCall → Type 0) (cs : List HeapCall) (c : HeapCall)
    → All P cs
    → P c
    → All P (cs ++ c ∷ [])
All-last P [] c h k = (k, tt)
All-last P (d ∷ cs) c h k = (h.0, All-last P cs c h.1 k)

module _ {queue : RequestQueue} (laws : QueueLaws queue) where
  open queue use {Queue}

  -- A thread starts a watch, makes heap calls that are a proper history of the heap, makes a realloc
  -- of an open block that returns a null pointer, and stops the watch, under the conditions of a watch
  -- by one thread and with no block recorded at address 0 before. Then nothing faults, and the
  -- snapshot shows the block at address 0 with the new size, none at its own address, and all others.
  pub failed_realloc :
      (thread p q turn a size : ℕ) (turns turns' : List ℕ) (cs : List HeapCall) (h : Ledger)
      (old : AllocationRecord) (w : Watcher Queue)
      → w.watching_globally ≡ false
      → w.watching_thread thread ≡ true
      → w.malloc_depth_in_call_stack ≤ max_malloc_depth_in_call_stack
      → OnlyFrom laws thread [] w.worker_request_queue
      → All (λ c. caller c ≡ thread) cs
      → All (IsOfInterest w.known_leaks w.malloc_depth_in_call_stack) cs
      → History no_blocks (all_requested w.malloc_depth_in_call_stack w.g_txn_id cs) h
      → h a ≡ some old
      → h 0 ≡ none
      → suc (length cs) < length turns'
      → Returns (Reported laws thread q (after_failure a size old h)) (
          session laws thread p q (turn ∷ turns) turns' (cs ++ realloc_call thread a 0 size ∷ []) w)
  failed_realloc thread p q turn a size turns turns' cs h old w off here fits only mine new history
        held null long =
      let failing = realloc_call thread a 0 size in
      session-Reported laws thread p q turn turns turns' (cs ++ failing ∷ [])
        (after_failure a size old h) w off here fits only
        (All-last (λ c. caller c ≡ thread) cs failing mine refl)
        (All-last (IsOfInterest w.known_leaks w.malloc_depth_in_call_stack) cs failing new tt)
        (realloc_last w.malloc_depth_in_call_stack w.g_txn_id thread a size cs no_blocks h
          (after_failure a size old h) history
          (moves (to_null a size) old held (inr null) (λ j. refl)))
        (omega (arith, long, length-append cs (failing ∷ [])))
