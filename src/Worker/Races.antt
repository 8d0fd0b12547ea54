-- ===== src/Worker/Races.antt =====
-- Requests of several threads reach the worker in an order of the queue's making: a free may come
-- before its malloc. While no address is used twice, the order does not show in a snapshot.
use mathlib.Core.Path.{subst₂}
use heap_watcher.Prelude.{Returns, ok, map}
use heap_watcher.Prelude.{
  ℕ, ◌≡◌, refl, Bool, true, false, Option, none, some, List, [], ◌∷◌, ◌++◌, ◌==◌, if◌then◌else◌,
  ◌||◌, arith, inr, ◌⊎◌,
}
use heap_watcher.AddressMap.{find, IsSorted}
use heap_watcher.AddressMap.Laws.{find-emplace, find-erase, emplace-IsSorted, erase-Above}
use heap_watcher.Records.{AllocationRecord}
use heap_watcher.Requests.{WorkerRequest, malloc_of, free_of, clear_of, snapshot_of}
use heap_watcher.Worker.{
  Books, contains, on_malloc, on_free, on_clear, reconciled, handle_all, snapshot, cleared,
}
use heap_watcher.Worker.Order.{
  IsOrdered, on_malloc-IsOrdered, on_free-IsOrdered, on_clear-IsOrdered, reconcile-IsOrdered,
}
use heap_watcher.Worker.Ledger.{Ledger}
use heap_watcher.Worker.Batches.{handle_all-append}
use heap_watcher.Worker.Reports.{EndsWith, snapshot-Shows}
use heap_watcher.Worker.Reconcile.{contains-set_emplace, find-reconcile}

-- What a program that never reallocates asks for.
pub data BlockCall : Type 0 where
  mallocs : AllocationRecord → BlockCall
  frees : ℕ → BlockCall

abbrev pub request : BlockCall → WorkerRequest
request (mallocs r) = malloc_of r
request (frees a) = free_of a

-- The allocation at an address, wherever it stands among the calls.
unfoldable pub allocated : ℕ → List BlockCall → Option AllocationRecord
allocated a [] = none
allocated a (mallocs r ∷ cs) = if r.address == a then some r else allocated a cs
allocated a (frees x ∷ cs) = allocated a cs

-- Whether the address is freed, before or after its allocation.
unfoldable pub freed : ℕ → List BlockCall → Bool
freed a [] = false
freed a (mallocs r ∷ cs) = freed a cs
freed a (frees x ∷ cs) = if x == a then true else freed a cs

-- No address is allocated twice.
abbrev pub NoReuse : List BlockCall → Type 0
NoReuse [] = Unit {0}
NoReuse (mallocs r ∷ cs) = (allocated r.address cs ≡ none) × NoReuse cs
NoReuse (frees x ∷ cs) = NoReuse cs

-- What the map and the set say of one address, after calls that have allocated `al` there and
-- have freed it if `fr`.
record Tracks (a : ℕ) (al : Option AllocationRecord) (fr : Bool) (b : Books) : Type 0 where
  sorted : IsSorted b.allocations
  unseen : al ≡ none → find a b.allocations ≡ none
  waiting : al ≡ none → contains a b.frees_without_mallocs ≡ fr
  kept : fr ≡ false → find a b.allocations ≡ al
  open_only : fr ≡ false → contains a b.frees_without_mallocs ≡ false
  gone : fr ≡ true → (contains a b.frees_without_mallocs ≡ true) ⊎ (find a b.allocations ≡ none)

-- The state of an address after one more call.
abbrev also_allocated : ℕ → BlockCall → Option AllocationRecord → Option AllocationRecord
also_allocated a (mallocs r) al = if r.address == a then some r else al
also_allocated a (frees x) al = al

abbrev also_freed : ℕ → BlockCall → Bool → Bool
also_freed a (mallocs r) fr = fr
also_freed a (frees x) fr = if x == a then true else fr

on_malloc-Tracks :
    (a : ℕ) (r : AllocationRecord) (al : Option AllocationRecord) (fr : Bool) (b : Books)
    → find r.address b.allocations ≡ none
    → ((r.address == a) ≡ true → al ≡ none)
    → Tracks a al fr b
    → Tracks a (also_allocated a (mallocs r) al) fr (on_malloc r b)
unfolding on_malloc
on_malloc-Tracks a r al fr b e fresh t =
    let found = find-emplace r.address r b.allocations a e in
    record {
      sorted = emplace-IsSorted r.address r b.allocations t.sorted;
      unseen = λ n. ground (arith, found, n, t.unseen);
      waiting = λ n. ground (arith, n, fresh, t.waiting);
      kept = λ n. ground (arith, found, n, t.kept);
      open_only = t.open_only;
      gone = λ n. ground (arith, found, n, fresh, t.gone, t.waiting);
    }

on_free-Tracks :
    (a x : ℕ) (al : Option AllocationRecord) (fr : Bool) (b : Books)
    → Tracks a al fr b
    → Tracks a al (also_freed a (frees x) fr) (on_free x b)
unfolding on_free
on_free-Tracks a x al fr b t =
    let found = find-erase x b.allocations a t.sorted in
    let added = contains-set_emplace x b.frees_without_mallocs a in
    record {
      sorted = ground (arith, t.sorted, erase-Above 0 x b.allocations);
      unseen = λ n. ground (arith, found, n, t.unseen);
      waiting = λ n. ground (arith, found, added, n, t.waiting, t.unseen);
      kept = λ n. ground (arith, found, n, t.kept);
      open_only = λ n. ground (arith, added, n, t.open_only);
      gone = λ n. ground (arith, found, added, n, t.gone);
    }

-- The books after the calls, the earliest first.
unfoldable pub run : List BlockCall → Books → Books
run [] b = b
run (mallocs r ∷ cs) b = run cs (on_malloc r b)
run (frees x ∷ cs) b = run cs (on_free x b)

either : Option AllocationRecord → Option AllocationRecord → Option AllocationRecord
either none o = o
either (some r) o = some r

run-Tracks :
    (cs : List BlockCall) (al : ℕ → Option AllocationRecord) (fr : ℕ → Bool) (b : Books)
    → NoReuse cs
    → ((a : ℕ) → (allocated a cs ≡ none) ⊎ (al a ≡ none))
    → ((a : ℕ) → Tracks a (al a) (fr a) b)
    → (a : ℕ) → Tracks a (either (al a) (allocated a cs)) (fr a || freed a cs) (run cs b)
unfolding run allocated freed either
run-Tracks [] al fr b n apart t a =
    subst₂ (λ o f. Tracks a o f b) (ground arith) (ground arith) (t a)
run-Tracks (mallocs r ∷ cs) al fr b n apart t a =
    let clear : al r.address ≡ none = ground (arith, apart r.address) in
    subst₂ (λ o f. Tracks a o f (run cs (on_malloc r b))) (ground (arith, apart a)) refl
      (run-Tracks cs (λ j. also_allocated j (mallocs r) (al j)) fr (on_malloc r b) n.1
        (λ j. ground (arith, apart j, n.0))
        (λ j.
          on_malloc-Tracks j r (al j) (fr j) b ((t r.address).unseen clear)
            (λ e. ground (arith, clear, e)) (t j))
        a)
run-Tracks (frees x ∷ cs) al fr b n apart t a =
    subst₂ (λ o f. Tracks a o f (run cs (on_free x b))) refl (ground arith)
      (run-Tracks cs al (λ j. also_freed j (frees x) (fr j)) (on_free x b) n apart
        (λ j. on_free-Tracks j x (al j) (fr j) b (t j)) a)

run-on_clear :
    (cs : List BlockCall) (b : Books)
    → NoReuse cs
    → (a : ℕ) → Tracks a (allocated a cs) (freed a cs) (run cs (on_clear b))
unfolding on_clear find contains either
run-on_clear cs b n a =
    run-Tracks cs (λ j. none) (λ j. false) (on_clear b) n (λ j. inr refl)
      (λ j. record {
        sorted = tt;
        unseen = λ e. refl;
        waiting = λ e. refl;
        kept = λ e. refl;
        open_only = λ e. refl;
        gone = λ e. inr refl;
      })
      a

pub run-reconciled :
    (cs : List BlockCall) (b : Books) (a : ℕ)
    → NoReuse cs
    → find a (reconciled (run cs (on_clear b))).allocations
      ≡ (if freed a cs then none else allocated a cs)
unfolding reconciled
run-reconciled cs b a n =
    let t = run-on_clear cs b n a in
    let c = run cs (on_clear b) in
    ground (arith, t.kept, t.open_only, t.gone, find-reconcile c.frees_without_mallocs c a t.sorted)

pub run-IsOrdered : (cs : List BlockCall) (b : Books) → IsOrdered b → IsOrdered (run cs b)
unfolding run
run-IsOrdered [] b o = o
run-IsOrdered (mallocs r ∷ cs) b o = run-IsOrdered cs (on_malloc r b) (on_malloc-IsOrdered r b o)
run-IsOrdered (frees x ∷ cs) b o = run-IsOrdered cs (on_free x b) (on_free-IsOrdered x b o)

pub reconciled-IsOrdered : (b : Books) → IsOrdered b → IsOrdered (reconciled b)
unfolding reconciled
reconciled-IsOrdered b o = reconcile-IsOrdered b.frees_without_mallocs b o

pub run-handle_all :
    (cs : List BlockCall) (b : Books) → handle_all (map request cs) b ≡ ok (run cs b, [])
unfolding run handle_all
run-handle_all [] b = refl
run-handle_all (mallocs r ∷ cs) b = rw (run-handle_all cs (on_malloc r b))
run-handle_all (frees x ∷ cs) b = rw (run-handle_all cs (on_free x b))

-- What the calls leave open, in whatever order they come.
abbrev pub open_after : List BlockCall → Ledger
open_after cs a = if freed a cs then none else allocated a cs

-- Calls that never allocate an address twice reach the worker in any order, a free before its
-- malloc included, after the records were cleared: the worker handles them without a fault, and the
-- next snapshot lists, in ascending order, the blocks that were allocated and were not freed, and no
-- others.
pub out_of_order :
    (cs : List BlockCall) (b : Books) (p q : ℕ)
    → NoReuse cs
    → Returns
        (λ out. EndsWith q (open_after cs) out.1)
        (handle_all (clear_of p ∷ map request cs ++ snapshot_of q ∷ []) b)
unfolding handle_all
out_of_order cs b p q n =
    let c = run cs (on_clear b) in
    let ordered = reconciled-IsOrdered c (run-IsOrdered cs (on_clear b) (on_clear-IsOrdered b)) in
    rw
      (
        handle_all-append (map request cs) (snapshot_of q ∷ []) (on_clear b),
        run-handle_all cs (on_clear b),
      )
      (record {
        earlier = cleared p ∷ [];
        taken = snapshot (reconciled c);
        last = refl;
        shows =
            snapshot-Shows (reconciled c) (open_after cs) ordered (λ a. run-reconciled cs b a n);
      })
