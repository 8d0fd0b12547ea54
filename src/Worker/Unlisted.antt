-- ===== src/Worker/Unlisted.antt =====
-- Requests of several threads that use the same addresses, in whatever order they come: which blocks
-- a snapshot cannot list.
use heap_watcher.Prelude.{
  ℕ, ◌+◌, ◌≤◌, ◌≡◌, false, Option, none, some, List, [], ◌∷◌, ◌==◌, if◌then◌else◌,
}
use heap_watcher.AddressMap.{AddressMap, find}
use heap_watcher.Records.{AllocationRecord}
use heap_watcher.Worker.{Books, contains}
use heap_watcher.Worker.Order.{IsOrdered}
use heap_watcher.Worker.Ledger.{Ledger}
use heap_watcher.Worker.Races.{BlockCall, mallocs, frees}

-- How often an address is allocated, and freed.
abbrev pub mallocs_at : ℕ → List BlockCall → ℕ
mallocs_at a [] = 0
mallocs_at a (mallocs r ∷ cs) = (if r.address == a then 1 else 0) + mallocs_at a cs
mallocs_at a (frees x ∷ cs) = mallocs_at a cs

abbrev pub frees_at : ℕ → List BlockCall → ℕ
frees_at a [] = 0
frees_at a (mallocs r ∷ cs) = frees_at a cs
frees_at a (frees x ∷ cs) = (if x == a then 1 else 0) + frees_at a cs

abbrev listed : Option AllocationRecord → ℕ
listed none = 0
listed (some r) = 1

-- Unless a free has come too early, each free at the address has taken out an allocation there.
record Covers (a m f : ℕ) (b : Books) : Type 0 where
  ordered : IsOrdered b
  covered : contains a b.frees_without_mallocs ≡ false → f + listed (find a b.allocations) ≤ m
