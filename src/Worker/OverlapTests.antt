-- ===== src/Worker/OverlapTests.antt =====
-- One open block, whose address is used again before its free arrives, or whose realloc fails.
use heap_watcher.Prelude.{
  ◌≡◌, List, fault, end_dereferenced, refl, some, none, [], ◌∷◌, ◌++◌, ◌==◌, if◌then◌else◌, Returns,
}
use heap_watcher.Records.{AllocationRecord, allocation_record}
use heap_watcher.Requests.{ReallocRecord, malloc_of, free_of, realloc_of, clear_of, snapshot_of}
use heap_watcher.Worker.{initial_books, handle_all}
use heap_watcher.Worker.Ledger.{Ledger, no_blocks, History, opens}
use heap_watcher.Worker.Reports.{EndsWith}
use heap_watcher.Worker.Races.{BlockCall, mallocs, frees}
use heap_watcher.Worker.Overlaps.{without_block, reuse_before_free, reuse_then_realloc}

abbrev block : AllocationRecord
block = allocation_record 8 100 1 (11 ∷ 12 ∷ 13 ∷ 14 ∷ [])

abbrev next_block : AllocationRecord
next_block = allocation_record 16 100 2 (21 ∷ 22 ∷ 23 ∷ 24 ∷ [])

abbrev one_open : Ledger
one_open j = if 100 == j then some block else none

abbrev next_growth : ReallocRecord
next_growth = record { original_address = 100; new_address = 200; new_size = 32 }

one_open-History : History no_blocks (malloc_of block ∷ []) one_open
one_open-History = (one_open, opens block refl (λ j. refl), λ j. refl)

reuse_before_free_example :
    Returns
      (λ out. EndsWith 2 (without_block 100 one_open) out.1)
      (handle_all
        ((clear_of 1 ∷ malloc_of block ∷ [])
          ++ malloc_of next_block ∷ free_of 100 ∷ snapshot_of 2 ∷ [])
        initial_books)
reuse_before_free_example =
    reuse_before_free initial_books 1 2 (malloc_of block ∷ []) one_open block next_block
      one_open-History refl

reuse_then_realloc_example :
    handle_all
      ((clear_of 1 ∷ malloc_of block ∷ [])
        ++ malloc_of next_block ∷ free_of 100 ∷ realloc_of next_growth ∷ [])
      initial_books
    ≡ fault end_dereferenced
reuse_then_realloc_example =
    reuse_then_realloc initial_books 1 (malloc_of block ∷ []) one_open block next_block next_growth
      one_open-History refl refl

-- Two blocks at one address, the second allocation of which comes before the first free.
abbrev mixed : List BlockCall
mixed = mallocs block ∷ mallocs next_block ∷ frees 100 ∷ frees 100 ∷ []
