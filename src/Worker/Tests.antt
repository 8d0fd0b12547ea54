-- ===== src/Worker/Tests.antt =====
-- The worker on concrete requests: tests, and the theorems at inputs that meet their hypotheses.
use heap_watcher.Prelude.{
  ℕ, ◌≡◌, refl, inr, Option, none, some, List, [], ◌∷◌, ◌++◌, ◌==◌, if◌then◌else◌, map, arith,
  fault, end_dereferenced, Returns, IfReturns,
}
use heap_watcher.AddressMap.{find, emplace, erase}
use heap_watcher.AddressMap.Laws.{total}
use heap_watcher.Records.{AllocationRecord, allocation_record, has_leaks}
use heap_watcher.Requests.{
  ReallocRecord, WorkerRequest, malloc_of, realloc_of, free_of, clear_of, snapshot_of,
  realloc_request,
}
use heap_watcher.Worker.{
  Books, initial_books, on_malloc, handle, handle_all, reconciled, snapshot, statistics,
}
use heap_watcher.Worker.Order.{moved}
use heap_watcher.Worker.Accounts.{IsBalanced, handle-IsBalanced, no_leaks_accounts}
use heap_watcher.Worker.Ledger.{Ledger, no_blocks, opens, closes, moves, History}
use heap_watcher.Worker.Reports.{EndsWith, at_address, watch-EndsWith}
use heap_watcher.Worker.Races.{
  BlockCall, mallocs, frees, request, open_after, allocated, freed, out_of_order,
}
use heap_watcher.Worker.Forgotten.{hidden_leak}
use heap_watcher.Worker.Gaps.{realloc_untracked}

abbrev first_block : AllocationRecord
first_block = allocation_record 8 100 1 (11 ∷ 12 ∷ 13 ∷ 14 ∷ [])

abbrev second_block : AllocationRecord
second_block = allocation_record 16 200 2 (21 ∷ 22 ∷ 0 ∷ 0 ∷ [])

abbrev growth : ReallocRecord
growth = record { original_address = 200; new_address = 300; new_size = 32 }

-- Two blocks, the second one moved, the first one freed.
abbrev session : List WorkerRequest
session = malloc_of first_block ∷ malloc_of second_block ∷ realloc_of growth ∷ free_of 100 ∷ []

abbrev put : ℕ → Option AllocationRecord → Ledger → Ledger
put a o h j = if a == j then o else h j

abbrev one_open : Ledger
one_open = put 100 (some first_block) no_blocks

abbrev two_open : Ledger
two_open = put 200 (some second_block) one_open

abbrev grown : Ledger
grown = put 300 (some (moved growth second_block)) (put 200 none two_open)

abbrev leaked : Ledger
leaked = put 100 none grown

session-History : History no_blocks session leaked
session-History = (
  one_open,
  opens first_block refl (λ j. refl),
  (
    two_open,
    opens second_block refl (λ j. refl),
    (
      grown,
      moves growth second_block refl (inr refl) (λ j. refl),
      (leaked, closes 100 first_block refl (λ j. refl), λ j. refl),
    ),
  ),
)

watch-EndsWith_example :
    Returns
      (λ out. EndsWith 2 leaked out.1)
      (handle_all ((clear_of 1 ∷ session) ++ snapshot_of 2 ∷ []) initial_books)
watch-EndsWith_example = watch-EndsWith initial_books 1 2 session leaked session-History

-- The block that stays open has its stack trace and its new size.
leak_listed :
    Returns
      (λ out. (snapshot out.0).open_allocations ≡ moved growth second_block ∷ [])
      (handle_all session initial_books)
unfolding handle_all find emplace erase
leak_listed = refl

-- A free before its malloc, a leak, and a free with no malloc.
abbrev race : List BlockCall
race = frees 100 ∷ mallocs second_block ∷ mallocs first_block ∷ frees 400 ∷ []

out_of_order_example :
    Returns
      (λ out. EndsWith 2 (open_after race) out.1)
      (handle_all (clear_of 1 ∷ map request race ++ snapshot_of 2 ∷ []) initial_books)
unfolding allocated
out_of_order_example = out_of_order race initial_books 1 2 (refl, (refl, tt))

race_leaves : (open_after race 200 ≡ some second_block) × (open_after race 100 ≡ none)
unfolding allocated freed
race_leaves = (refl, refl)

-- One open block, and all counters to match.
abbrev one_block : Books
one_block = on_malloc first_block initial_books

initial_books-IsBalanced : IsBalanced initial_books
unfolding total
initial_books-IsBalanced = record {
  ordered = record { sorted = tt; keyed = tt };
  frees_fit = omega arith;
  bytes_fit = omega arith;
  blocks = refl;
  bytes = refl;
}

handle-IsBalanced_example :
    Returns (λ out. IsBalanced out.0) (handle (malloc_of first_block) initial_books)
unfolding find
handle-IsBalanced_example =
    handle-IsBalanced (malloc_of first_block) initial_books refl initial_books-IsBalanced

one_block-IsBalanced : IsBalanced one_block
unfolding handle find
one_block-IsBalanced =
    handle-IsBalanced (malloc_of first_block) initial_books refl initial_books-IsBalanced

-- The block was freed by a request that came first.
abbrev settled_block : Books
settled_block = record one_block { frees_without_mallocs = 100 ∷ [] }

settled_block-IsBalanced : IsBalanced settled_block
settled_block-IsBalanced = record {
  ordered = record { sorted = one_block-IsBalanced.sorted; keyed = one_block-IsBalanced.keyed };
  frees_fit = one_block-IsBalanced.frees_fit;
  bytes_fit = one_block-IsBalanced.bytes_fit;
  blocks = one_block-IsBalanced.blocks;
  bytes = one_block-IsBalanced.bytes;
}

no_leaks_accounts_example :
    let s = statistics (reconciled settled_block) in
    (s.number_of_mallocs ≡ s.number_of_frees) × (s.bytes_allocated ≡ s.bytes_freed)
unfolding handle find emplace erase has_leaks
no_leaks_accounts_example = no_leaks_accounts settled_block settled_block-IsBalanced refl

hidden_leak_example :
    IfReturns
      (λ out. at_address 100 (snapshot (reconciled out.0)).open_allocations ≡ none)
      (handle_all (free_of 100 ∷ snapshot_of 3 ∷ malloc_of first_block ∷ []) initial_books)
unfolding find
hidden_leak_example =
    hidden_leak 100 (snapshot_of 3 ∷ malloc_of first_block ∷ []) initial_books
      (record { sorted = tt; keyed = tt }) refl (tt, (tt, tt))

realloc_untracked_example :
    handle_all ((clear_of 1 ∷ session) ++ realloc_request 0 500 24 ∷ []) initial_books
    ≡ fault end_dereferenced
realloc_untracked_example =
    realloc_untracked initial_books 1 session leaked
      (record { original_address = 0; new_address = 500; new_size = 24 }) session-History refl
