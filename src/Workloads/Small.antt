-- ===== src/Workloads/Small.antt =====
-- The workloads without a loop, under a watch, and the blocks that they leave.
use heap_watcher.Prelude.{
  ℕ, suc, ◌≤◌, ◌<◌, ◌≡◌, refl, ◌⊎◌, true, false, none, some, List, [], ◌∷◌, length, All, arith, u32,
  Returns, Returns-weaken, sym,
}
use mathlib.Core.Path.{subst}
use heap_watcher.Queue.{RequestQueue}
use heap_watcher.Queue.Laws.{QueueLaws, OnlyFrom}
use heap_watcher.Records.{AllocationRecord, allocation_record, HeapSnapshot}
use heap_watcher.Requests.{ReallocRecord, realloc_of, malloc_of, free_of}
use heap_watcher.Worker.{snapshot_taken}
use heap_watcher.Worker.Order.{moved}
use heap_watcher.Worker.Ledger.{Ledger, no_blocks, History, HeapStep, opens, closes, moves}
use heap_watcher.Worker.Reports.{at_address, Ascending}
use heap_watcher.Watcher.Backtrace.{max_malloc_depth_in_call_stack}
use heap_watcher.Watcher.Frames.{four_frames}
use heap_watcher.Watcher.{Watcher}
use heap_watcher.Watcher.HeapCalls.{caller}
use heap_watcher.Watcher.Sending.{IsOfInterest, all_requested}
use heap_watcher.Watcher.Answers.{Reported}
use heap_watcher.Watcher.Sessions.{session, session-Reported}
use heap_watcher.Workloads.{
  Workload, no_leaks, known_leak, known_leak_2, nested_known_leak_2, one_leak, one_leak_nested,
  one_calloc_leak, no_leaks_with_realloc, one_leak_with_realloc, workload_calls,
}
use heap_watcher.Workloads.Proper.{unused, put, AllFresh}

at_address-below :
    (lo a : ℕ) (rs : List AllocationRecord) → Ascending lo rs → a < lo → at_address a rs ≡ none
at_address-below lo a [] up less = refl
at_address-below lo a (r ∷ rs) up less =
    ground (arith, up.0, at_address-below (suc r.address) a rs up.1)

-- A list of records in ascending order is known by what it has at each address.
pub same_records :
    (lo : ℕ) (xs ys : List AllocationRecord)
    → Ascending lo xs
    → Ascending lo ys
    → ((a : ℕ) → at_address a xs ≡ at_address a ys)
    → xs ≡ ys
same_records lo [] [] up up' same = refl
same_records lo [] (y ∷ ys) up up' same = absurd (ground (arith, same y.address))
same_records lo (x ∷ xs) [] up up' same = absurd (ground (arith, same x.address))
same_records lo (x ∷ xs) (y ∷ ys) up up' same =
    let same_first : x ≡ y = ground (
      arith,
      same x.address,
      same y.address,
      up',
      at_address-below (suc y.address) x.address ys up'.1,
      at_address-below (suc x.address) y.address xs up.1,
    ) in
    let up_y : Ascending (suc x.address) ys =
      subst (λ z. Ascending (suc z.address) ys) (sym same_first) up'.1 in
    let rest : xs ≡ ys = same_records (suc x.address) xs ys up.1 up_y (λ a. ground (
      arith,
      same a,
      same_first,
      at_address-below (suc x.address) a xs up.1,
      at_address-below (suc x.address) a ys up_y,
    )) in
    cc

-- The records of the blocks that a workload leaves open, with the id and the stack of its first
-- allocation.
abbrev pub left_open : Workload → ℕ → ℕ → ℕ → List ℕ → List AllocationRecord
left_open no_leaks a b id trace = []
left_open known_leak a b id trace = allocation_record 8 a id trace ∷ []
left_open known_leak_2 a b id trace = allocation_record 16 a id trace ∷ []
left_open nested_known_leak_2 a b id trace = allocation_record 16 a id trace ∷ []
left_open one_leak a b id trace = allocation_record 4 a id trace ∷ []
left_open one_leak_nested a b id trace = allocation_record 4 a id trace ∷ []
left_open one_calloc_leak a b id trace = allocation_record 72 a id trace ∷ []
left_open no_leaks_with_realloc a b id trace = []
left_open one_leak_with_realloc a b id trace = allocation_record 8 b (u32 id) trace ∷ []

abbrev showing : List AllocationRecord → Ledger
showing rs j = at_address j rs

abbrev grown : ℕ → ℕ → ReallocRecord
grown a b = record { original_address = a; new_address = b; new_size = 8 }

allocates : (r : AllocationRecord) → HeapStep no_blocks (showing (r ∷ [])) (malloc_of r)
allocates r = opens r refl (λ j. refl)

grows :
    (a b : ℕ) (r : AllocationRecord)
    → r.address ≡ a
    → (b ≡ a) ⊎ (put a true unused b ≡ false)
    → HeapStep (showing (r ∷ [])) (showing (moved (grown a b) r ∷ [])) (realloc_of (grown a b))
grows a b r e fresh =
    moves (grown a b) r (ground (arith, e)) (ground (arith, e, fresh)) (λ j. ground (arith, e))

frees :
    (a : ℕ) (r : AllocationRecord)
    → r.address ≡ a
    → HeapStep (showing (r ∷ [])) no_blocks (free_of a)
frees a r e = closes a r (ground (arith, e)) (λ j. ground (arith, e))

abbrev block_of : ℕ → ℕ → ℕ → ℕ → List ℕ → AllocationRecord
block_of size a depth id frames = allocation_record size a id (four_frames depth frames)

leaves_one : (r : AllocationRecord) → History no_blocks (malloc_of r ∷ []) (showing (r ∷ []))
leaves_one r = (showing (r ∷ []), allocates r, λ j. refl)

workload_calls-History :
    (k : Workload) (thread a b depth id : ℕ) (frames : List ℕ)
    → let cs = workload_calls k thread a b frames in
      AllFresh unused cs
      → History no_blocks
          (all_requested depth id cs)
          (showing (left_open k a b id (four_frames depth frames)))
unfolding workload_calls
workload_calls-History no_leaks thread a b depth id frames fresh =
    let r = block_of 4 a depth id frames in
    (showing (r ∷ []), allocates r, (no_blocks, frees a r refl, λ j. refl))
workload_calls-History known_leak thread a b depth id frames fresh =
    leaves_one (block_of 8 a depth id frames)
workload_calls-History known_leak_2 thread a b depth id frames fresh =
    leaves_one (block_of 16 a depth id frames)
workload_calls-History nested_known_leak_2 thread a b depth id frames fresh =
    leaves_one (block_of 16 a depth id frames)
workload_calls-History one_leak thread a b depth id frames fresh =
    leaves_one (block_of 4 a depth id frames)
workload_calls-History one_leak_nested thread a b depth id frames fresh =
    leaves_one (block_of 4 a depth id frames)
workload_calls-History one_calloc_leak thread a b depth id frames fresh =
    leaves_one (block_of 72 a depth id frames)
workload_calls-History no_leaks_with_realloc thread a b depth id frames fresh =
    let r = block_of 4 a depth id frames in
    let r' = moved (grown a b) r in
    (
      showing (r ∷ []),
      allocates r,
      (showing (r' ∷ []), grows a b r refl fresh.1.0, (no_blocks, frees b r' refl, λ j. refl)),
    )
workload_calls-History one_leak_with_realloc thread a b depth id frames fresh =
    let r = block_of 4 a depth id frames in
    let r' = moved (grown a b) r in
    (showing (r ∷ []), allocates r, (showing (r' ∷ []), grows a b r refl fresh.1.0, λ j. refl))

left_open-Ascending :
    (k : Workload) (a b id : ℕ) (trace : List ℕ) → Ascending 0 (left_open k a b id trace)
left_open-Ascending no_leaks a b id trace = tt
left_open-Ascending no_leaks_with_realloc a b id trace = tt
left_open-Ascending _ a b id trace = (omega arith, tt)

pub workload_calls-By :
    (k : Workload) (thread a b : ℕ) (frames : List ℕ)
    → All (λ c. caller c ≡ thread) (workload_calls k thread a b frames)
unfolding workload_calls
workload_calls-By no_leaks thread a b frames = (refl, (refl, tt))
workload_calls-By no_leaks_with_realloc thread a b frames = (refl, (refl, (refl, tt)))
workload_calls-By one_leak_with_realloc thread a b frames = (refl, (refl, tt))
workload_calls-By _ thread a b frames = (refl, tt)

module _ {queue : RequestQueue} (laws : QueueLaws queue) where
  open queue use {Queue}

  -- A thread runs a workload under a watch. The conditions on the watch are those of a watch by one
  -- thread, no call shows a known leak, and libc returns addresses at which no block is open, or, for
  -- a realloc, the block's own. Then nothing faults, the waits end, and the snapshot lists exactly
  -- the blocks that the workload leaks: none for those without a leak, and one for the others, with
  -- its address, its size, and the id and stack of its first allocation.
  pub small-Reported :
      (k : Workload) (thread p q turn a b : ℕ) (turns turns' frames : List ℕ) (w : Watcher Queue)
      → let cs = workload_calls k thread a b frames in
        let trace = four_frames w.malloc_depth_in_call_stack frames in
        w.watching_globally ≡ false
        → w.watching_thread thread ≡ true
        → w.malloc_depth_in_call_stack ≤ max_malloc_depth_in_call_stack
        → OnlyFrom laws thread [] w.worker_request_queue
        → All (IsOfInterest w.known_leaks w.malloc_depth_in_call_stack) cs
        → AllFresh unused cs
        → length cs < length turns'
        → Returns
            (λ out.
              (s : HeapSnapshot) × (out.0 ≡ some (snapshot_taken q s))
              × (s.open_allocations ≡ left_open k a b w.g_txn_id trace)
              × (out.1.watching_globally ≡ false))
            (session laws thread p q (turn ∷ turns) turns' cs w)
  small-Reported k thread p q turn a b turns turns' frames w off here fits only new fresh long =
      let cs = workload_calls k thread a b frames in
      let left = left_open k a b w.g_txn_id (four_frames w.malloc_depth_in_call_stack frames) in
      Returns-weaken (Reported laws thread q (showing left)) _
        (session laws thread p q (turn ∷ turns) turns' cs w)
        (λ out (s, answered, shows, over, emptied). (
          s,
          answered,
          same_records 0 s.open_allocations left shows.ascending
              (left_open-Ascending k a b w.g_txn_id _) shows.complete,
          over,
        ))
        (session-Reported laws thread p q turn turns turns' cs (showing left) w off here fits only
          (workload_calls-By k thread a b frames) new
          (workload_calls-History k thread a b w.malloc_depth_in_call_stack w.g_txn_id frames fresh)
          long)
