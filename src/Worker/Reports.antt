-- ===== src/Worker/Reports.antt =====
-- What the client reads off a snapshot: the open blocks of its heap, in ascending order.
use heap_watcher.Prelude.{
  ℕ, suc, ◌≤◌, ◌≡◌, refl, Option, none, some, List, [], ◌∷◌, ◌++◌, ◌==◌, if◌then◌else◌, arith, ok,
  fault, Returns, Returns-bind,
}
use heap_watcher.AddressMap.{AddressMap, find, values, Above}
use heap_watcher.Records.{AllocationRecord, HeapSnapshot}
use heap_watcher.Requests.{WorkerRequest, clear_of, snapshot_of}
use heap_watcher.Worker.{Books, Reply, snapshot_taken, on_clear, snapshot, reconciled, handle_all}
use heap_watcher.Worker.Accounts.{on_clear-IsBalanced}
use heap_watcher.Worker.Order.{Keyed, IsOrdered}
use heap_watcher.Worker.Reconcile.{reconciled_settled}
use heap_watcher.Worker.Ledger.{Ledger, no_blocks, History, Agrees, handle_all-Agrees}
use heap_watcher.Worker.Batches.{Outcome, resume, handle_all-append}

-- The record of a list that names the address.
abbrev pub at_address : ℕ → List AllocationRecord → Option AllocationRecord
at_address a [] = none
at_address a (r ∷ rs) = if r.address == a then some r else at_address a rs

abbrev pub Ascending : ℕ → List AllocationRecord → Type 0
Ascending lo [] = Unit {0}
Ascending lo (r ∷ rs) = (lo ≤ r.address) × Ascending (suc r.address) rs

-- The snapshot lists the open blocks of the heap and no others, each once, by ascending address.
pub record Shows (s : HeapSnapshot) (h : Ledger) : Type 0 where
  pub ascending : Ascending 0 s.open_allocations
  pub complete : (a : ℕ) → at_address a s.open_allocations ≡ h a

at_address-values :
    (a : ℕ) (m : AddressMap AllocationRecord) → Keyed m → at_address a (values m) ≡ find a m
unfolding find
at_address-values a [] h = refl
at_address-values a ((k, r) ∷ m) h = ground (arith, at_address-values a m)

Ascending-values :
    (lo : ℕ) (m : AddressMap AllocationRecord) → Keyed m → Above lo m → Ascending lo (values m)
Ascending-values lo [] h s = tt
Ascending-values lo ((k, r) ∷ m) h s = (ground arith, rw h.0 (Ascending-values (suc k) m h.1 s.1))

pub snapshot-Shows :
    (b : Books) (h : Ledger)
    → IsOrdered b
    → ((a : ℕ) → find a b.allocations ≡ h a)
    → Shows (snapshot b) h
unfolding snapshot
snapshot-Shows b h o u = record {
  ascending = Ascending-values 0 b.allocations o.keyed o.sorted;
  complete = λ a. ground (arith, at_address-values a b.allocations o.keyed, u a);
}

-- The last reply is a snapshot, for the promise `p`, that shows the heap.
pub record EndsWith (p : ℕ) (h : Ledger) (replies : List Reply) : Type 0 where
  pub earlier : List Reply
  pub taken : HeapSnapshot
  pub last : replies ≡ earlier ++ snapshot_taken p taken ∷ []
  pub shows : Shows taken h

resume_snapshot :
    (p : ℕ) (h : Ledger) (r : Outcome)
    → Returns (λ out. Agrees out.0 h) r
    → Returns (λ out. EndsWith p h out.1) (resume r (handle_all (snapshot_of p ∷ [])))
unfolding handle_all
resume_snapshot p h (fault _) g = elim g [ ]
resume_snapshot p h (ok (b, replies)) g = record {
  earlier = replies;
  taken = snapshot (reconciled b);
  last = refl;
  shows = rw (reconciled_settled b g.settled) (snapshot-Shows b h g.balanced.ordered g.at);
}

pub on_clear-Agrees : (b : Books) → Agrees (on_clear b) no_blocks
unfolding on_clear find
on_clear-Agrees b = record { balanced = on_clear-IsBalanced b; settled = refl; at = λ j. refl }

pub session_Agrees :
    (b : Books) (p : ℕ) (rs : List WorkerRequest) (h : Ledger)
    → History no_blocks rs h
    → Returns (λ out. Agrees out.0 h) (handle_all (clear_of p ∷ rs) b)
unfolding handle_all
session_Agrees b p rs h hist =
    Returns-bind (λ out. Agrees out.0 h) (λ out. Agrees out.0 h) (handle_all rs (on_clear b)) _
      (handle_all-Agrees (on_clear b) no_blocks h rs (on_clear-Agrees b) hist) (λ out g. g)

-- Whatever the worker recorded before, clear, then any proper history of the heap, then a snapshot:
-- the worker handles all of it without a fault, and the snapshot shows exactly the open blocks.
pub watch-EndsWith :
    (b : Books) (p q : ℕ) (rs : List WorkerRequest) (h : Ledger)
    → History no_blocks rs h
    → Returns (λ out. EndsWith q h out.1) (handle_all ((clear_of p ∷ rs) ++ snapshot_of q ∷ []) b)
watch-EndsWith b p q rs h hist =
    rw (handle_all-append (clear_of p ∷ rs) (snapshot_of q ∷ []) b)
      (resume_snapshot q h (handle_all (clear_of p ∷ rs) b) (session_Agrees b p rs h hist))
