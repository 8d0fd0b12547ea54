-- ===== src/Worker/KnownCount.antt =====
-- number_of_known_leaks_, which the heap functions count up and no request touches.
use heap_watcher.Prelude.{
  ℕ, zero, suc, add64, ◌≡◌, refl, ◌∙◌, none, some, List, [], ◌∷◌, arith, IfReturns, IfReturns-bind,
  Option,
}
use heap_watcher.AddressMap.{find}
use heap_watcher.Records.{AllocationRecord}
use heap_watcher.Requests.{
  ReallocRecord, WorkerRequest, uninitialized_request, malloc_of, realloc_of, free_of, clear_of,
  snapshot_of, statistics_of,
}
use heap_watcher.Worker.{
  Books, on_clear, on_malloc, on_realloc, realloc_found, on_free, free_found, reconcile,
  reconcile_one, reconciled, handle, handle_all,
}

-- The books after `n` more allocations with a known leak in their stack.
abbrev pub counted : ℕ → Books → Books
counted zero b = b
counted (suc n) b = counted n (record b { number_of_known_leaks = add64 b.number_of_known_leaks 1 })

abbrev SameCount : Books → Books → Type 0
SameCount b b' = b'.number_of_known_leaks ≡ b.number_of_known_leaks

reconcile_one-SameCount : (a : ℕ) (b : Books) → SameCount b (reconcile_one a b)
unfolding reconcile_one
reconcile_one-SameCount a b = ground arith

reconcile-SameCount : (xs : List ℕ) (b : Books) → SameCount b (reconcile xs b)
unfolding reconcile
reconcile-SameCount [] b = refl
reconcile-SameCount (a ∷ xs) b =
    reconcile-SameCount xs (reconcile_one a b) ∙ reconcile_one-SameCount a b

pub reconciled-SameCount : (b : Books) → SameCount b (reconciled b)
unfolding reconciled
reconciled-SameCount b = reconcile-SameCount b.frees_without_mallocs b

realloc_found-SameCount :
    (q : ReallocRecord) (b : Books) (found : Option AllocationRecord)
    → IfReturns (SameCount b) (realloc_found q b found)
unfolding realloc_found
realloc_found-SameCount q b none = tt
realloc_found-SameCount q b (some old) = refl

handle-SameCount :
    (r : WorkerRequest) (b : Books) → IfReturns (λ out. SameCount b out.0) (handle r b)
unfolding handle on_malloc on_realloc realloc_found on_free free_found on_clear
handle-SameCount uninitialized_request b = refl
handle-SameCount (malloc_of r) b = refl
handle-SameCount (realloc_of q) b =
    IfReturns-bind (SameCount b) (λ out. SameCount b out.0) (on_realloc q b) _
      (realloc_found-SameCount q (record b { number_of_reallocs = add64 b.number_of_reallocs 1 })
        (find q.original_address b.allocations))
      (λ b' e. e)
handle-SameCount (free_of a) b = ground arith
handle-SameCount (clear_of p) b = refl
handle-SameCount (snapshot_of p) b = reconciled-SameCount b
handle-SameCount (statistics_of p) b = refl

-- No request changes the number of known leaks.
pub handle_all-SameCount :
    (rs : List WorkerRequest) (b : Books) → IfReturns (λ out. SameCount b out.0) (handle_all rs b)
unfolding handle_all
handle_all-SameCount [] b = refl
handle_all-SameCount (r ∷ rs) b =
    IfReturns-bind (λ out. SameCount b out.0) (λ out. SameCount b out.0) (handle r b) _
      (handle-SameCount r b)
      (λ out e.
        IfReturns-bind (λ out'. SameCount out.0 out'.0) (λ out'. SameCount b out'.0)
          (handle_all rs out.0) _ (handle_all-SameCount rs out.0) (λ out' e'. e' ∙ e))
