-- ===== src/Workloads/Proper.antt =====
-- What libc promises of the addresses it returns.
use heap_watcher.Prelude.{ℕ, ◌≡◌, ◌⊎◌, Bool, true, false, List, [], ◌∷◌, ◌==◌, if◌then◌else◌}
use heap_watcher.Watcher.HeapCalls.{HeapCall, malloc_call, calloc_call, realloc_call, free_call}

-- Whether a block is open at an address.
abbrev pub Usage : Type 0
Usage = ℕ → Bool

abbrev pub unused : Usage
unused j = false

abbrev pub put : ℕ → Bool → Usage → Usage
put a b o j = if a == j then b else o j

abbrev pub effect : HeapCall → Usage → Usage
effect (malloc_call thread size address frames) o = put address true o
effect (calloc_call thread nitems size address frames) o = put address true o
effect (realloc_call thread original_address new_address new_size) o =
    put new_address true (put original_address false o)
effect (free_call thread address) o = put address false o

-- libc returns an address at which no block is open, or, for a realloc, the block's own.
abbrev pub IsFresh : Usage → HeapCall → Type 0
IsFresh o (malloc_call thread size address frames) = o address ≡ false
IsFresh o (calloc_call thread nitems size address frames) = o address ≡ false
IsFresh o (realloc_call thread original_address new_address new_size) =
    (new_address ≡ original_address) ⊎ (o new_address ≡ false)
IsFresh o (free_call thread address) = Unit {0}

abbrev pub AllFresh : Usage → List HeapCall → Type 0
AllFresh o [] = Unit {0}
AllFresh o (c ∷ cs) = IsFresh o c × AllFresh (effect c o) cs
