-- ===== src/Worker/Reconcile.antt =====
-- The loop over `frees_without_mallocs_` that a snapshot runs first.
use heap_watcher.Prelude.{ℕ, ◌≡◌, refl, true, none, List, [], ◌∷◌, ◌==◌, if◌then◌else◌, arith}
use heap_watcher.AddressMap.{find, IsSorted}
use heap_watcher.AddressMap.Laws.{find-erase, erase-Above}
use heap_watcher.Worker.{Books, contains, set_emplace, reconcile_one, reconcile, reconciled}

pub contains-set_emplace :
    (a : ℕ) (xs : List ℕ) (j : ℕ)
    → contains j (set_emplace a xs) ≡ (if a == j then true else contains j xs)
unfolding set_emplace
contains-set_emplace a xs j = ground arith

pub reconcile_one-IsSorted :
    (a : ℕ) (b : Books) → IsSorted b.allocations → IsSorted (reconcile_one a b).allocations
unfolding reconcile_one
reconcile_one-IsSorted a b s = ground (arith, erase-Above 0 a b.allocations)

pub find-reconcile_one :
    (a : ℕ) (b : Books) (j : ℕ)
    → IsSorted b.allocations
    → find j (reconcile_one a b).allocations ≡ (if a == j then none else find j b.allocations)
unfolding reconcile_one
find-reconcile_one a b j s = ground (arith, find-erase a b.allocations j)

pub reconcile-IsSorted :
    (xs : List ℕ) (b : Books) → IsSorted b.allocations → IsSorted (reconcile xs b).allocations
unfolding reconcile
reconcile-IsSorted [] b s = s
reconcile-IsSorted (a ∷ xs) b s =
    reconcile-IsSorted xs (reconcile_one a b) (reconcile_one-IsSorted a b s)

-- After the loop the map holds what it held, without the addresses of the set.
pub find-reconcile :
    (xs : List ℕ) (b : Books) (j : ℕ)
    → IsSorted b.allocations
    → find j (reconcile xs b).allocations ≡ (if contains j xs then none else find j b.allocations)
unfolding reconcile contains
find-reconcile [] b j s = refl
find-reconcile (a ∷ xs) b j s = ground (
  arith,
  find-reconcile xs (reconcile_one a b) j (reconcile_one-IsSorted a b s),
  find-reconcile_one a b j s,
)

-- With no free left over, a snapshot changes nothing.
pub reconciled_settled : (b : Books) → b.frees_without_mallocs ≡ [] → reconciled b ≡ b
unfolding reconciled
reconciled_settled b e = rw (e, reconcile)
