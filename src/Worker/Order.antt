-- ===== src/Worker/Order.antt =====
-- `allocations_` stays in order, and every record stays at its own address.
use heap_watcher.Prelude.{ℕ, ◌≡◌, refl, List, [], ◌∷◌, inl, inr, Option-cases, arith, IfReturns}
use heap_watcher.AddressMap.{AddressMap, find, emplace, erase, IsSorted}
use heap_watcher.AddressMap.Laws.{emplace-IsSorted, erase-Above}
use heap_watcher.Records.{AllocationRecord, allocation_record}
use heap_watcher.Requests.{
  ReallocRecord, WorkerRequest, uninitialized_request, malloc_of, realloc_of, free_of, clear_of,
  snapshot_of, statistics_of,
}
use heap_watcher.Worker.{
  Books, close, on_malloc, on_realloc, realloc_found, on_free, free_found, on_clear, reconcile_one,
  reconcile, reconciled, handle,
}

-- Every record stands at its own address.
abbrev pub Keyed : AddressMap AllocationRecord → Type 0
Keyed [] = Unit {0}
Keyed ((k, r) ∷ m) = (r.address ≡ k) × Keyed m

emplace-Keyed :
    (r : AllocationRecord) (m : AddressMap AllocationRecord)
    → Keyed m
    → Keyed (emplace r.address r m)
unfolding emplace
emplace-Keyed r [] h = (refl, tt)
emplace-Keyed r ((k, w) ∷ m) h = ground (arith, emplace-Keyed r m)

erase-Keyed : (a : ℕ) (m : AddressMap AllocationRecord) → Keyed m → Keyed (erase a m)
unfolding erase
erase-Keyed a [] h = tt
erase-Keyed a ((k, w) ∷ m) h = ground (arith, erase-Keyed a m)

-- The record of a block after `realloc`.
abbrev pub moved : ReallocRecord → AllocationRecord → AllocationRecord
moved q old = allocation_record q.new_size q.new_address old.txn_id old.raw_stack_trace

-- The map without the entry of a block that moves.
abbrev pub without : ℕ → Books → AddressMap AllocationRecord
without a b = erase a b.allocations

pub record IsOrdered (b : Books) : Type 0 where
  pub sorted : IsSorted b.allocations
  pub keyed : Keyed b.allocations

pub on_malloc-IsOrdered :
    (r : AllocationRecord) (b : Books) → IsOrdered b → IsOrdered (on_malloc r b)
unfolding on_malloc
on_malloc-IsOrdered r b h = record {
  sorted = emplace-IsSorted r.address r b.allocations h.sorted;
  keyed = emplace-Keyed r b.allocations h.keyed;
}

pub close-IsOrdered :
    (a : ℕ) (r : AllocationRecord) (b : Books) → IsOrdered b → IsOrdered (close a r b)
close-IsOrdered a r b h = record {
  sorted = erase-Above 0 a b.allocations h.sorted;
  keyed = erase-Keyed a b.allocations h.keyed;
}

-- The books after `realloc` of a block that is found.
abbrev pub moved_books : ReallocRecord → AllocationRecord → Books → Books
moved_books q old b = record b {
  allocations = emplace q.new_address (moved q old) (without q.original_address b);
}

pub moved-IsOrdered :
    (q : ReallocRecord) (old : AllocationRecord) (b : Books)
    → IsOrdered b
    → IsOrdered (moved_books q old b)
moved-IsOrdered q old b h = record {
  sorted =
      emplace-IsSorted q.new_address (moved q old) (without q.original_address b)
        (erase-Above 0 q.original_address b.allocations h.sorted);
  keyed =
      emplace-Keyed (moved q old) (without q.original_address b)
        (erase-Keyed q.original_address b.allocations h.keyed);
}

on_realloc-IsOrdered :
    (q : ReallocRecord) (b : Books) → IsOrdered b → IfReturns IsOrdered (on_realloc q b)
unfolding on_realloc
on_realloc-IsOrdered q b h = elim (Option-cases (find q.original_address b.allocations)) [
  | inl e ↦ rw (e, realloc_found) tt
  | inr (old, e) ↦
      let v = moved-IsOrdered q old b h in
      rw (e, realloc_found) (record { sorted = v.sorted; keyed = v.keyed })
]

pub on_free-IsOrdered : (a : ℕ) (b : Books) → IsOrdered b → IsOrdered (on_free a b)
unfolding on_free
on_free-IsOrdered a b h = elim (Option-cases (find a b.allocations)) [
  | inl e ↦ rw (e, free_found) (record { sorted = h.sorted; keyed = h.keyed })
  | inr (r, e) ↦ rw (e, free_found) (close-IsOrdered a r b h)
]

reconcile_one-IsOrdered : (a : ℕ) (b : Books) → IsOrdered b → IsOrdered (reconcile_one a b)
unfolding reconcile_one
reconcile_one-IsOrdered a b h = elim (Option-cases (find a b.allocations)) [
  | inl e ↦ rw (e, reconcile_one) h
  | inr (r, e) ↦ rw (e, reconcile_one) (close-IsOrdered a r b h)
]

pub reconcile-IsOrdered : (xs : List ℕ) (b : Books) → IsOrdered b → IsOrdered (reconcile xs b)
unfolding reconcile
reconcile-IsOrdered [] b h = h
reconcile-IsOrdered (a ∷ xs) b h =
    reconcile-IsOrdered xs (reconcile_one a b) (reconcile_one-IsOrdered a b h)

pub on_clear-IsOrdered : (b : Books) → IsOrdered (on_clear b)
unfolding on_clear
on_clear-IsOrdered b = record { sorted = tt; keyed = tt }

-- Every request that the worker handles, a racing or an illegal one too, leaves the map in order.
pub handle-IsOrdered :
    (r : WorkerRequest) (b : Books) → IsOrdered b → IfReturns (λ out. IsOrdered out.0) (handle r b)
unfolding handle
handle-IsOrdered uninitialized_request b h = h
handle-IsOrdered (malloc_of r) b h = on_malloc-IsOrdered r b h
handle-IsOrdered (realloc_of q) b h = ground (arith, on_realloc-IsOrdered q b h)
handle-IsOrdered (free_of a) b h = on_free-IsOrdered a b h
handle-IsOrdered (clear_of p) b h = on_clear-IsOrdered b
handle-IsOrdered (snapshot_of p) b h =
    unfold reconciled in reconcile-IsOrdered b.frees_without_mallocs b h
handle-IsOrdered (statistics_of p) b h = h
