-- ===== src/Worker/Ledger.antt =====
-- The heap as the program sees it, and the worker as an implementation of it.
use heap_watcher.Prelude.{
  ℕ, ◌≡◌, refl, ◌⊎◌, Option, none, some, List, [], ◌∷◌, ◌==◌, if◌then◌else◌, arith, Returns,
  Returns-bind, Returns-both,
}
use heap_watcher.AddressMap.{find}
use heap_watcher.AddressMap.Laws.{find-emplace, find-erase}
use heap_watcher.Records.{AllocationRecord}
use heap_watcher.Requests.{
  ReallocRecord, WorkerRequest, malloc_of, realloc_of, free_of, clear_of, snapshot_of,
  statistics_of,
}
use heap_watcher.Worker.{Books, on_realloc, realloc_found, free_found, handle, handle_all}
use heap_watcher.Worker.Order.{moved, without}
use heap_watcher.Worker.Reconcile.{reconciled_settled}
use heap_watcher.Worker.Accounts.{IsBalanced, IsLegal, handle-IsBalanced}

-- Which block is open at an address.
abbrev pub Ledger : Type 0
Ledger = ℕ → Option AllocationRecord

abbrev pub no_blocks : Ledger
no_blocks j = none

-- One request of a program that uses its heap properly: `malloc` opens a block where none is open,
-- `free` and `realloc` take open blocks, and `realloc` moves to its own or to a free address.
pub data HeapStep (h h' : Ledger) : WorkerRequest → Type 0 where
  opens :
      (r : AllocationRecord)
      → h r.address ≡ none
      → ((j : ℕ) → h' j ≡ (if r.address == j then some r else h j))
      → HeapStep h h' (malloc_of r)
  closes :
      (a : ℕ) (r : AllocationRecord)
      → h a ≡ some r
      → ((j : ℕ) → h' j ≡ (if a == j then none else h j))
      → HeapStep h h' (free_of a)
  moves :
      (q : ReallocRecord) (old : AllocationRecord)
      → h q.original_address ≡ some old
      → (q.new_address ≡ q.original_address) ⊎ (h q.new_address ≡ none)
      → ((j : ℕ)
          → h' j ≡ (
              if q.new_address == j
              then some (moved q old)
              else if q.original_address == j
              then none
              else h j))
      → HeapStep h h' (realloc_of q)
  snapshots : (p : ℕ) → ((j : ℕ) → h' j ≡ h j) → HeapStep h h' (snapshot_of p)
  measures : (p : ℕ) → ((j : ℕ) → h' j ≡ h j) → HeapStep h h' (statistics_of p)
  restarts : (p : ℕ) → ((j : ℕ) → h' j ≡ none) → HeapStep h h' (clear_of p)

-- The requests take the heap from `h` to `h'`, one step each.
abbrev pub History : Ledger → List WorkerRequest → Ledger → Type 0
History h [] h' = (j : ℕ) → h' j ≡ h j
History h (r ∷ rs) h'' = (h' : Ledger) × HeapStep h h' r × History h' rs h''

-- The books show the open blocks, and no free is left over.
pub record Agrees (b : Books) (h : Ledger) : Type 0 where
  pub balanced : IsBalanced b
  pub settled : b.frees_without_mallocs ≡ []
  pub at : (j : ℕ) → find j b.allocations ≡ h j

step-IsLegal :
    {b : Books} {h h' : Ledger} {r : WorkerRequest} → Agrees b h → HeapStep h h' r → IsLegal r b
step-IsLegal {b} g (opens r e u) = ground (arith, g.at r.address)
step-IsLegal {b} g (closes a r e u) = tt
step-IsLegal {b} g (moves q old e f u) = (
  old,
  ground (arith, g.at q.original_address),
  ground (
    arith,
    g.at q.new_address,
    find-erase q.original_address b.allocations q.new_address g.balanced.sorted,
  ),
)
step-IsLegal {b} g (snapshots p u) = tt
step-IsLegal {b} g (measures p u) = tt
step-IsLegal {b} g (restarts p u) = tt

-- What a step leaves of the two other fields of `Agrees`.
abbrev Follows : Ledger → Books → Type 0
Follows h b = (b.frees_without_mallocs ≡ []) × ((j : ℕ) → find j b.allocations ≡ h j)

step-Follows :
    {b : Books} {h h' : Ledger} {r : WorkerRequest}
    → Agrees b h
    → HeapStep h h' r
    → Returns (λ out. Follows h' out.0) (handle r b)
unfolding handle find
step-Follows {b} g (opens r e u) = (
  g.settled,
  λ j. ground (arith, u j, g.at j, g.at r.address, find-emplace r.address r b.allocations j),
)
step-Follows {b} g (closes a r e u) =
    rw (g.at a, e, free_found)
      (g.settled, λ j. ground (arith, u j, g.at j, find-erase a b.allocations j g.balanced.sorted))
step-Follows {b} {h' = h'} g (moves q old e f u) =
    rw (g.at q.original_address, e, on_realloc, realloc_found)
      (
        g.settled,
        λ j. ground (
          arith,
          u j,
          g.at j,
          find-emplace q.new_address (moved q old) (without q.original_address b) j
              ((step-IsLegal {h' = h'} g (moves q old e f u)).2),
          find-erase q.original_address b.allocations j g.balanced.sorted,
        ),
      )
step-Follows {b} g (snapshots p u) =
    rw (reconciled_settled b g.settled) (g.settled, λ j. ground (arith, u j, g.at j))
step-Follows {b} g (measures p u) = (g.settled, λ j. ground (arith, u j, g.at j))
step-Follows {b} g (restarts p u) = (refl, λ j. ground (arith, u j))

-- A step of the program's heap is handled without a fault, and the books go on agreeing with it.
pub handle-Agrees :
    {b : Books} {h h' : Ledger} {r : WorkerRequest}
    → Agrees b h
    → HeapStep h h' r
    → Returns (λ out. Agrees out.0 h') (handle r b)
handle-Agrees {b} {h' = h'} {r = r} g st =
    Returns-both (λ out. IsBalanced out.0) (λ out. Follows h' out.0) (λ out. Agrees out.0 h')
      (handle r b) (λ out v f. record { balanced = v; settled = f.0; at = f.1 })
      (handle-IsBalanced r b (step-IsLegal g st) g.balanced) (step-Follows g st)

Agrees-same : {b : Books} {h h' : Ledger} → ((j : ℕ) → h' j ≡ h j) → Agrees b h → Agrees b h'
Agrees-same u g = record {
  balanced = g.balanced;
  settled = g.settled;
  at = λ j. ground (arith, g.at j, u j);
}

-- Books that agree with the heap agree with it after any history, which is handled without a fault.
pub handle_all-Agrees :
    (b : Books) (h h' : Ledger) (rs : List WorkerRequest)
    → Agrees b h
    → History h rs h'
    → Returns (λ out. Agrees out.0 h') (handle_all rs b)
unfolding handle_all
handle_all-Agrees b h h' [] g u = Agrees-same u g
handle_all-Agrees b h h'' (r ∷ rs) g (h', st, rest) =
    Returns-bind (λ out. Agrees out.0 h') (λ out. Agrees out.0 h'') (handle r b) _
      (handle-Agrees g st)
      (λ out g'.
        Returns-bind (λ out. Agrees out.0 h'') (λ out. Agrees out.0 h'') (handle_all rs out.0) _
          (handle_all-Agrees out.0 h' h'' rs g' rest) (λ out' g''. g''))
