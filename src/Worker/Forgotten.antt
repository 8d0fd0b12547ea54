-- ===== src/Worker/Forgotten.antt =====
-- `frees_without_mallocs_` is emptied only when the records are cleared. An address that is in it
-- stays hidden from every later snapshot, whatever is allocated there.
use heap_watcher.Prelude.{
  IfReturns-bind, IfReturns-both, All, ◌∙◌, ℕ, ◌≡◌, refl, true, none, List, [], ◌∷◌, arith, inl,
  inr, Option-cases, IfReturns,
}
use heap_watcher.AddressMap.{find}
use heap_watcher.Requests.{
  WorkerRequest, uninitialized_request, malloc_of, realloc_of, free_of, clear_of, snapshot_of,
  statistics_of,
}
use heap_watcher.Worker.{
  Books, contains, on_realloc, realloc_found, on_free, reconcile_one, reconcile, reconciled,
  snapshot, handle, handle_all,
}
use heap_watcher.Worker.Order.{IsOrdered, handle-IsOrdered, on_free-IsOrdered, reconcile-IsOrdered}
use heap_watcher.Worker.Reconcile.{contains-set_emplace, find-reconcile}
use heap_watcher.Worker.Reports.{at_address, snapshot-Shows}

-- The books are in order, and the set of early frees holds the address.
record Hides (a : ℕ) (b : Books) : Type 0 where
  ordered : IsOrdered b
  held : contains a b.frees_without_mallocs ≡ true

-- The requests that a program and its observers send between two clears.
abbrev pub KeepsRecords : WorkerRequest → Type 0
KeepsRecords (clear_of p) = ⊥
KeepsRecords _ = Unit {0}

reconcile-frees :
    (xs : List ℕ) (b : Books) → (reconcile xs b).frees_without_mallocs ≡ b.frees_without_mallocs
unfolding reconcile
reconcile-frees [] b = refl
reconcile-frees (x ∷ xs) b = ground (arith, reconcile-frees xs (reconcile_one x b))

handle_held :
    (a : ℕ) (r : WorkerRequest) (b : Books)
    → KeepsRecords r
    → contains a b.frees_without_mallocs ≡ true
    → IfReturns (λ out. contains a out.0.frees_without_mallocs ≡ true) (handle r b)
unfolding handle
handle_held a uninitialized_request b k h = h
handle_held a (malloc_of r) b k h = h
handle_held a (realloc_of q) b k h = elim (Option-cases (find q.original_address b.allocations)) [
  | inl e ↦ rw (e, on_realloc, realloc_found) tt
  | inr (old, e) ↦ rw (e, on_realloc, realloc_found) h
]
handle_held a (free_of x) b k h =
    ground (arith, h, contains-set_emplace x b.frees_without_mallocs a)
handle_held a (clear_of p) b k h = absurd k
handle_held a (snapshot_of p) b k h =
    unfold reconciled in rw (reconcile-frees b.frees_without_mallocs b) h
handle_held a (statistics_of p) b k h = h

handle-Hides :
    (a : ℕ) (r : WorkerRequest) (b : Books)
    → KeepsRecords r
    → Hides a b
    → IfReturns (λ out. Hides a out.0) (handle r b)
handle-Hides a r b k h =
    IfReturns-both (λ out. IsOrdered out.0) (λ out. contains a out.0.frees_without_mallocs ≡ true)
      (λ out. Hides a out.0) (handle r b) (λ out o c. record { ordered = o; held = c })
      (handle-IsOrdered r b h.ordered) (handle_held a r b k h.held)

handle_all-Hides :
    (a : ℕ) (rs : List WorkerRequest) (b : Books)
    → All KeepsRecords rs
    → Hides a b
    → IfReturns (λ out. Hides a out.0) (handle_all rs b)
unfolding handle_all
handle_all-Hides a [] b k h = h
handle_all-Hides a (r ∷ rs) b k h =
    IfReturns-bind (λ out. Hides a out.0) (λ out. Hides a out.0) (handle r b) _
      (handle-Hides a r b k.0 h)
      (λ out h'.
        IfReturns-bind (λ out. Hides a out.0) (λ out. Hides a out.0) (handle_all rs out.0) _
          (handle_all-Hides a rs out.0 k.1 h') (λ out' h''. h''))

Hides-snapshot :
    (a : ℕ) (b : Books) → Hides a b → at_address a (snapshot (reconciled b)).open_allocations ≡ none
unfolding reconciled
Hides-snapshot a b h =
    (snapshot-Shows (reconciled b) (λ j. find j (reconciled b).allocations)
        (reconcile-IsOrdered b.frees_without_mallocs b h.ordered) (λ j. refl)).complete
      a
    ∙ (find-reconcile b.frees_without_mallocs b a h.ordered.sorted ∙ rw h.held)

free-Hides : (a : ℕ) (b : Books) → IsOrdered b → find a b.allocations ≡ none → Hides a (on_free a b)
unfolding on_free
free-Hides a b o e = record {
  ordered = on_free-IsOrdered a b o;
  held = ground (arith, e, contains-set_emplace a b.frees_without_mallocs a);
}

-- Once a block is freed that the worker has no record of, no snapshot up to the next clear lists an
-- allocation at its address, whatever requests come in between: a later leak there is missed.
pub hidden_leak :
    (a : ℕ) (rs : List WorkerRequest) (b : Books)
    → IsOrdered b
    → find a b.allocations ≡ none
    → All KeepsRecords rs
    → IfReturns
        (λ out. at_address a (snapshot (reconciled out.0)).open_allocations ≡ none)
        (handle_all (free_of a ∷ rs) b)
unfolding handle_all
hidden_leak a rs b o e k =
    IfReturns-bind (λ out. Hides a out.0) _ (handle_all rs (on_free a b)) _
      (handle_all-Hides a rs (on_free a b) k (free-Hides a b o e))
      (λ out h. Hides-snapshot a out.0 h)
