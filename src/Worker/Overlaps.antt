-- ===== src/Worker/Overlaps.antt =====
-- Requests that reach the worker in an order that the heap did not go through.
use heap_watcher.Prelude.{
  ℕ, ◌≡◌, refl, sym, ap, ◌∙◌, none, some, List, [], ◌∷◌, ◌++◌, ◌==◌, if◌then◌else◌, arith, ok,
  fault, end_dereferenced, Returns, Returns-bind,
}
use mathlib.Core.Path.{subst}
use mathlib.Core.List.{append_assoc}
use heap_watcher.AddressMap.{find, emplace, erase}
use heap_watcher.AddressMap.Laws.{emplace_present, find-erase}
use heap_watcher.Records.{AllocationRecord}
use heap_watcher.Requests.{
  ReallocRecord, WorkerRequest, malloc_of, realloc_of, free_of, clear_of, snapshot_of,
}
use heap_watcher.Worker.{
  Books, close, on_malloc, on_free, on_realloc, realloc_found, free_found, reconciled, snapshot,
  snapshot_taken, handle_all,
}
use heap_watcher.Worker.Order.{IsOrdered, on_malloc-IsOrdered, on_free-IsOrdered}
use heap_watcher.Worker.Ledger.{Ledger, no_blocks, History, Agrees}
use heap_watcher.Worker.Batches.{Outcome, resume, handle_all-append}
use heap_watcher.Worker.Reconcile.{reconciled_settled}
use heap_watcher.Worker.Reports.{EndsWith, snapshot-Shows, session_Agrees}

abbrev pub without_block : ℕ → Ledger → Ledger
without_block a h j = if a == j then none else h j

-- The books after a second malloc at an open address and the free of the first block there.
overlap_found :
    (old new : AllocationRecord) (b : Books) (h : Ledger)
    → Agrees b h
    → h new.address ≡ some old
    → on_free new.address (on_malloc new b) ≡ close new.address old (on_malloc new b)
unfolding on_free on_malloc
overlap_found old new b h g held =
    let found = g.at new.address ∙ held in
    let same = emplace_present new.address new old b.allocations g.balanced.sorted found in
    let still : find new.address (emplace new.address new b.allocations) ≡ some old =
      ap (find new.address) same ∙ found in
    rw (still, free_found)

overlap_end :
    (q : ℕ) (old new : AllocationRecord) (b : Books) (h : Ledger)
    → Agrees b h
    → h new.address ≡ some old
    → Returns
        (λ out. EndsWith q (without_block new.address h) out.1)
        (handle_all (malloc_of new ∷ free_of new.address ∷ snapshot_of q ∷ []) b)
unfolding handle_all on_malloc
overlap_end q old new b h g held =
    let c = close new.address old (on_malloc new b) in
    let found = g.at new.address ∙ held in
    let same = emplace_present new.address new old b.allocations g.balanced.sorted found in
    let ordered = subst IsOrdered (overlap_found old new b h g held) (
      on_free-IsOrdered new.address (on_malloc new b)
        (on_malloc-IsOrdered new b g.balanced.ordered)) in
    rw (overlap_found old new b h g held) (record {
      earlier = [];
      taken = snapshot (reconciled c);
      last = refl;
      shows = rw (reconciled_settled c g.settled) (
          snapshot-Shows c (without_block new.address h) ordered (λ j.
            ap (λ m. find j (erase new.address m)) same
            ∙ find-erase new.address b.allocations j g.balanced.sorted
            ∙ ground (arith, g.at j)));
    })

resume_overlap :
    (q : ℕ) (old new : AllocationRecord) (h : Ledger) (r : Outcome)
    → h new.address ≡ some old
    → Returns (λ out. Agrees out.0 h) r
    → Returns
        (λ out. EndsWith q (without_block new.address h) out.1)
        (resume r (handle_all (malloc_of new ∷ free_of new.address ∷ snapshot_of q ∷ [])))
resume_overlap q old new h (fault _) held g = elim g [ ]
resume_overlap q old new h (ok (b, replies)) held g =
    Returns-bind (λ out. EndsWith q (without_block new.address h) out.1)
      (λ out. EndsWith q (without_block new.address h) out.1)
      (handle_all (malloc_of new ∷ free_of new.address ∷ snapshot_of q ∷ []) b)
      (λ out. ok (out.0, replies ++ out.1)) (overlap_end q old new b h g held)
      (λ out e. record {
        earlier = replies ++ e.earlier;
        taken = e.taken;
        last =
            ap (λ xs. replies ++ xs) e.last
            ∙ sym (append_assoc replies e.earlier (snapshot_taken q e.taken ∷ []));
        shows = e.shows;
      })

-- After a clear and any proper history, with a block open at the address, the worker gets an
-- allocation of a second block there and then the free of the first: the second block goes
-- unrecorded, the free takes out the first, and the next snapshot lists no block at the address, and
-- all others.
pub reuse_before_free :
    (b : Books) (p q : ℕ) (rs : List WorkerRequest) (h : Ledger) (old new : AllocationRecord)
    → History no_blocks rs h
    → h new.address ≡ some old
    → Returns
        (λ out. EndsWith q (without_block new.address h) out.1)
        (handle_all
          ((clear_of p ∷ rs) ++ malloc_of new ∷ free_of new.address ∷ snapshot_of q ∷ [])
          b)
reuse_before_free b p q rs h old new hist held =
    rw
      (handle_all-append (clear_of p ∷ rs)
        (malloc_of new ∷ free_of new.address ∷ snapshot_of q ∷ []) b)
      (resume_overlap q old new h (handle_all (clear_of p ∷ rs) b) held
        (session_Agrees b p rs h hist))

overlap_realloc :
    (q : ReallocRecord) (old new : AllocationRecord) (b : Books) (h : Ledger)
    → Agrees b h
    → h new.address ≡ some old
    → q.original_address ≡ new.address
    → handle_all (malloc_of new ∷ free_of new.address ∷ realloc_of q ∷ []) b
      ≡ fault end_dereferenced
unfolding handle_all on_malloc
overlap_realloc q old new b h g held e =
    let found = g.at new.address ∙ held in
    let same = emplace_present new.address new old b.allocations g.balanced.sorted found in
    let gone : find q.original_address (close new.address old (on_malloc new b)).allocations
        ≡ none =
      ap (λ m. find q.original_address (erase new.address m)) same
      ∙ find-erase new.address b.allocations q.original_address g.balanced.sorted
      ∙ ground (arith, e) in
    rw (overlap_found old new b h g held, gone, on_realloc, realloc_found)

-- After a clear and any proper history, with a block open at the address, the worker gets an
-- allocation at the address, a free of it, and a realloc of it, in this order: it reads past the end
-- of its map.
pub reuse_then_realloc :
    (b : Books) (p : ℕ) (rs : List WorkerRequest) (h : Ledger) (old new : AllocationRecord)
    (q : ReallocRecord)
    → History no_blocks rs h
    → h new.address ≡ some old
    → q.original_address ≡ new.address
    → handle_all ((clear_of p ∷ rs) ++ malloc_of new ∷ free_of new.address ∷ realloc_of q ∷ []) b
      ≡ fault end_dereferenced
reuse_then_realloc b p rs h old new q hist held e =
    rw
      (handle_all-append (clear_of p ∷ rs) (malloc_of new ∷ free_of new.address ∷ realloc_of q ∷ [])
        b)
      (go (handle_all (clear_of p ∷ rs) b) (session_Agrees b p rs h hist))
  where
    go :
        (r : Outcome)
        → Returns (λ out. Agrees out.0 h) r
        → resume r (handle_all (malloc_of new ∷ free_of new.address ∷ realloc_of q ∷ []))
          ≡ fault end_dereferenced
    go (fault _) g = elim g [ ]
    go (ok (b', replies)) g = rw (overlap_realloc q old new b' h g held e) refl
