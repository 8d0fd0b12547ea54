-- ===== src/Worker/Accounts.antt =====
-- The counters of the worker agree with the map of open allocations.
use heap_watcher.Prelude.{
  ℕ, ◌+◌, ◌<◌, u64_mod, true, false, Returns-bind, ◌≡◌, refl, none, some, List, [], ◌∷◌, length,
  arith, inl, inr, Option-cases, u64, Returns,
}
use heap_watcher.AddressMap.{values, AddressMap, find}
use heap_watcher.AddressMap.Laws.{total, total-emplace, total-erase, length-emplace, length-erase}
use heap_watcher.Records.{has_leaks, is_empty, AllocationRecord}
use heap_watcher.Requests.{
  ReallocRecord, WorkerRequest, uninitialized_request, malloc_of, realloc_of, free_of, clear_of,
  snapshot_of, statistics_of,
}
use heap_watcher.Worker.Order.{
  IsOrdered, moved, without, on_malloc-IsOrdered, close-IsOrdered, moved-IsOrdered,
}
use heap_watcher.Worker.{
  snapshot, statistics, free_found, realloc_found, Books, close, on_malloc, on_realloc, on_free,
  on_clear, reconcile_one, reconcile, reconciled, handle,
}

-- The bytes of the open allocations.
abbrev pub open_bytes : Books → ℕ
open_bytes b = total (λ r. r.size) b.allocations

-- The map is in order, and the counters agree with it: what was allocated is what was freed and
-- what is open, for blocks and for bytes, modulo 2 ^ 64.
pub record IsBalanced (b : Books) : Type 0 where
  pub ordered : IsOrdered b
  pub open ordered use *
  pub frees_fit : b.number_of_frees < u64_mod
  pub bytes_fit : b.bytes_freed < u64_mod
  pub blocks : b.number_of_mallocs ≡ u64 (b.number_of_frees + length b.allocations)
  pub bytes : b.bytes_allocated ≡ u64 (b.bytes_freed + open_bytes b)

on_malloc-IsBalanced :
    (r : AllocationRecord) (b : Books)
    → find r.address b.allocations ≡ none
    → IsBalanced b
    → IsBalanced (on_malloc r b)
unfolding on_malloc
on_malloc-IsBalanced r b e h = record {
  ordered = on_malloc-IsOrdered r b h.ordered;
  frees_fit = h.frees_fit;
  bytes_fit = h.bytes_fit;
  blocks = ground (arith, h.blocks, length-emplace r.address r b.allocations e);
  bytes = ground (arith, h.bytes, total-emplace (λ r. r.size) r.address r b.allocations e);
}

close-IsBalanced :
    (a : ℕ) (r : AllocationRecord) (b : Books)
    → find a b.allocations ≡ some r
    → IsBalanced b
    → IsBalanced (close a r b)
close-IsBalanced a r b e h = record {
  ordered = close-IsOrdered a r b h.ordered;
  frees_fit = omega arith;
  bytes_fit = omega arith;
  blocks = ground (arith, h.blocks, length-erase a r b.allocations e);
  bytes = ground (arith, h.bytes, total-erase (λ r. r.size) a r b.allocations e);
}

on_free-IsBalanced : (a : ℕ) (b : Books) → IsBalanced b → IsBalanced (on_free a b)
unfolding on_free
on_free-IsBalanced a b h = elim (Option-cases (find a b.allocations)) [
  | inl e ↦
      rw (e, free_found)
        (record {
          ordered = record { sorted = h.sorted; keyed = h.keyed };
          frees_fit = h.frees_fit;
          bytes_fit = h.bytes_fit;
          blocks = h.blocks;
          bytes = h.bytes;
        })
  | inr (r, e) ↦ rw (e, free_found) (close-IsBalanced a r b e h)
]

reconcile_one-IsBalanced : (a : ℕ) (b : Books) → IsBalanced b → IsBalanced (reconcile_one a b)
unfolding reconcile_one
reconcile_one-IsBalanced a b h = elim (Option-cases (find a b.allocations)) [
  | inl e ↦ rw (e, reconcile_one) h
  | inr (r, e) ↦ rw (e, reconcile_one) (close-IsBalanced a r b e h)
]

pub reconcile-IsBalanced : (xs : List ℕ) (b : Books) → IsBalanced b → IsBalanced (reconcile xs b)
unfolding reconcile
reconcile-IsBalanced [] b h = h
reconcile-IsBalanced (a ∷ xs) b h =
    reconcile-IsBalanced xs (reconcile_one a b) (reconcile_one-IsBalanced a b h)

pub reconciled-IsBalanced : (b : Books) → IsBalanced b → IsBalanced (reconciled b)
unfolding reconciled
reconciled-IsBalanced b h = reconcile-IsBalanced b.frees_without_mallocs b h

on_realloc-IsBalanced :
    (q : ReallocRecord) (b : Books) (old : AllocationRecord)
    → find q.original_address b.allocations ≡ some old
    → find q.new_address (without q.original_address b) ≡ none
    → IsBalanced b
    → Returns IsBalanced (on_realloc q b)
unfolding on_realloc
on_realloc-IsBalanced q b old e f h =
    rw (e, realloc_found)
      (record {
        ordered = record {
          sorted = (moved-IsOrdered q old b h.ordered).sorted;
          keyed = (moved-IsOrdered q old b h.ordered).keyed;
        };
        frees_fit = h.frees_fit;
        bytes_fit = h.bytes_fit;
        blocks = ground (
          arith,
          h.blocks,
          length-erase q.original_address old b.allocations e,
          length-emplace q.new_address (moved q old) (without q.original_address b) f,
        );
        bytes = ground (
          arith,
          h.bytes,
          total-erase (λ r. r.size) q.original_address old b.allocations e,
          total-emplace (λ r. r.size) q.new_address (moved q old) (without q.original_address b) f,
        );
      })

pub on_clear-IsBalanced : (b : Books) → IsBalanced (on_clear b)
unfolding on_clear total
on_clear-IsBalanced b = record {
  ordered = record { sorted = tt; keyed = tt };
  frees_fit = omega arith;
  bytes_fit = omega arith;
  blocks = refl;
  bytes = refl;
}

-- What a request must respect: a new block does not overlap an open one, and only an open block
-- moves, to its own address or to a free one.
abbrev pub IsLegal : WorkerRequest → Books → Type 0
IsLegal (malloc_of r) b = find r.address b.allocations ≡ none
IsLegal (realloc_of q) b =
    (old : AllocationRecord) × (find q.original_address b.allocations ≡ some old)
    × (find q.new_address (without q.original_address b) ≡ none)
IsLegal _ b = Unit {0}

-- From balanced books, the worker handles every legal request without a fault, and leaves balanced
-- books.
pub handle-IsBalanced :
    (r : WorkerRequest) (b : Books)
    → IsLegal r b
    → IsBalanced b
    → Returns (λ out. IsBalanced out.0) (handle r b)
unfolding handle
handle-IsBalanced uninitialized_request b l h = h
handle-IsBalanced (malloc_of r) b l h = on_malloc-IsBalanced r b l h
handle-IsBalanced (realloc_of q) b (old, e, f) h =
    Returns-bind IsBalanced (λ out. IsBalanced out.0) (on_realloc q b) _
      (on_realloc-IsBalanced q b old e f h) (λ b' h'. h')
handle-IsBalanced (free_of a) b l h = on_free-IsBalanced a b h
handle-IsBalanced (clear_of p) b l h = on_clear-IsBalanced b
handle-IsBalanced (snapshot_of p) b l h = reconcile-IsBalanced b.frees_without_mallocs b h
handle-IsBalanced (statistics_of p) b l h = h

no_values : (m : AddressMap AllocationRecord) → is_empty (values m) ≡ true → m ≡ []
no_values [] e = refl
no_values ((k, r) ∷ m) e = absurd (cc)

no_leaks_closed :
    (b : Books)
    → IsBalanced b
    → b.allocations ≡ []
    → (b.number_of_mallocs ≡ b.number_of_frees) × (b.bytes_allocated ≡ b.bytes_freed)
unfolding total
no_leaks_closed b h e =
    let n : length b.allocations ≡ 0 = rw e in
    let t : open_bytes b ≡ 0 = rw e in
    (ground (arith, h.blocks, n, h.frees_fit), ground (arith, h.bytes, t, h.bytes_fit))

-- If a snapshot of balanced books shows no open allocation, then as many blocks were freed as were
-- allocated, and as many bytes.
pub no_leaks_accounts :
    (b : Books)
    → IsBalanced b
    → has_leaks (snapshot (reconciled b)) ≡ false
    → let s = statistics (reconciled b) in
      (s.number_of_mallocs ≡ s.number_of_frees) × (s.bytes_allocated ≡ s.bytes_freed)
unfolding has_leaks snapshot
no_leaks_accounts b h e =
    no_leaks_closed (reconciled b) (reconciled-IsBalanced b h)
      (no_values (reconciled b).allocations (ground (arith, e)))
