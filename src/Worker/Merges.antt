-- ===== src/Worker/Merges.antt =====
-- Requests of several threads in two orders that keep the order of each thread: for blocks that are
-- allocated once, both say the same of every address.
use mathlib.Core.Path.{subst}
use heap_watcher.Prelude.{
  ℕ, ◌≡◌, refl, sym, ap, ◌∙◌, Option, none, some, List, [], ◌∷◌, ◌++◌, map, ◌==◌, if◌then◌else◌,
  All, arith, Bool-cases, ok, inl, inr,
}
use heap_watcher.Requests.{
  WorkerRequest, uninitialized_request, malloc_of, realloc_of, free_of, clear_of, snapshot_of,
  statistics_of,
}
use heap_watcher.Queue.Laws.{sent_by, bare}
use heap_watcher.Prelude.{ok}
use heap_watcher.Worker.Races.{
  run, run-handle_all, run-reconciled, run-IsOrdered, reconciled-IsOrdered,
}
use heap_watcher.Worker.{Books, on_malloc, on_free, on_clear, handle_all, reconciled, snapshot}
use heap_watcher.Worker.Order.{on_clear-IsOrdered}
use heap_watcher.Worker.Reports.{Shows, snapshot-Shows}
use heap_watcher.Worker.Races.{
  BlockCall, mallocs, frees, request, allocated, freed, NoReuse, open_after,
}

abbrev pub block_of : WorkerRequest → Option BlockCall
block_of (malloc_of r) = some (mallocs r)
block_of (free_of a) = some (frees a)
block_of _ = none

abbrev pub put : Option BlockCall → List BlockCall → List BlockCall
put none cs = cs
put (some c) cs = c ∷ cs

-- The allocations and frees among requests.
abbrev pub blocks : List WorkerRequest → List BlockCall
blocks [] = []
blocks (r ∷ rs) = put (block_of r) (blocks rs)

abbrev pub IsBlock : WorkerRequest → Type 0
IsBlock (malloc_of r) = Unit {0}
IsBlock (free_of a) = Unit {0}
IsBlock _ = ⊥

pub request-blocks : (rs : List WorkerRequest) → All IsBlock rs → map request (blocks rs) ≡ rs
request-blocks [] h = refl
request-blocks (malloc_of r ∷ rs) h = ap (λ xs. malloc_of r ∷ xs) (request-blocks rs h.1)
request-blocks (uninitialized_request ∷ rs) h = elim h.0 [ ]
request-blocks (realloc_of q ∷ rs) h = elim h.0 [ ]
request-blocks (clear_of p ∷ rs) h = elim h.0 [ ]
request-blocks (snapshot_of p ∷ rs) h = elim h.0 [ ]
request-blocks (statistics_of p ∷ rs) h = elim h.0 [ ]
request-blocks (free_of a ∷ rs) h = ap (λ xs. free_of a ∷ xs) (request-blocks rs h.1)

put-append : (o : Option BlockCall) (cs ds : List BlockCall) → put o (cs ++ ds) ≡ put o cs ++ ds
put-append none cs ds = refl
put-append (some c) cs ds = refl

pub blocks-append : (rs ss : List WorkerRequest) → blocks (rs ++ ss) ≡ blocks rs ++ blocks ss
blocks-append [] ss = refl
blocks-append (r ∷ rs) ss =
    ap (put (block_of r)) (blocks-append rs ss) ∙ put-append (block_of r) (blocks rs) (blocks ss)

pub bare-append : (xs ys : List (ℕ × WorkerRequest)) → bare (xs ++ ys) ≡ bare xs ++ bare ys
bare-append [] ys = refl
bare-append ((u, r) ∷ xs) ys = ap (λ zs. r ∷ zs) (bare-append xs ys)

-- Two lists of calls say the same of every address.
pub record SameBlocks (cs ds : List BlockCall) : Type 0 where
  pub no_reuse : NoReuse ds
  pub same_allocated : (a : ℕ) → allocated a ds ≡ allocated a cs
  pub same_freed : (a : ℕ) → freed a ds ≡ freed a cs

insert-allocated :
    (c : BlockCall) (xs ys : List BlockCall) (a : ℕ)
    → NoReuse (c ∷ xs ++ ys)
    → allocated a (xs ++ c ∷ ys) ≡ allocated a (c ∷ xs ++ ys)
unfolding allocated
insert-allocated c [] ys a n = refl
insert-allocated (mallocs r) (mallocs s ∷ xs) ys a n =
    ground (arith, n.0, insert-allocated (mallocs r) xs ys a)
insert-allocated (mallocs r) (frees x ∷ xs) ys a n = insert-allocated (mallocs r) xs ys a n
insert-allocated (frees z) (mallocs s ∷ xs) ys a n =
    ground (arith, insert-allocated (frees z) xs ys a n.1)
insert-allocated (frees z) (frees x ∷ xs) ys a n = insert-allocated (frees z) xs ys a n

insert-freed :
    (c : BlockCall) (xs ys : List BlockCall) (a : ℕ)
    → freed a (xs ++ c ∷ ys) ≡ freed a (c ∷ xs ++ ys)
unfolding freed
insert-freed c [] ys a = refl
insert-freed (mallocs r) (mallocs s ∷ xs) ys a = insert-freed (mallocs r) xs ys a
insert-freed (mallocs r) (frees x ∷ xs) ys a = ground (arith, insert-freed (mallocs r) xs ys a)
insert-freed (frees z) (mallocs s ∷ xs) ys a = insert-freed (frees z) xs ys a
insert-freed (frees z) (frees x ∷ xs) ys a = ground (arith, insert-freed (frees z) xs ys a)

insert-NoReuse :
    (c : BlockCall) (xs ys : List BlockCall) → NoReuse (c ∷ xs ++ ys) → NoReuse (xs ++ c ∷ ys)
unfolding allocated
insert-NoReuse c [] ys n = n
insert-NoReuse (mallocs r) (mallocs s ∷ xs) ys n =
    let apart : NoReuse (mallocs r ∷ xs ++ ys) = (ground (arith, n.0), n.1.1) in
    (
      insert-allocated (mallocs r) xs ys s.address apart ∙ ground (arith, n.0, n.1.0),
      insert-NoReuse (mallocs r) xs ys apart,
    )
insert-NoReuse (mallocs r) (frees x ∷ xs) ys n = insert-NoReuse (mallocs r) xs ys n
insert-NoReuse (frees z) (mallocs s ∷ xs) ys n =
    (insert-allocated (frees z) xs ys s.address n.1 ∙ n.0, insert-NoReuse (frees z) xs ys n.1)
insert-NoReuse (frees z) (frees x ∷ xs) ys n = insert-NoReuse (frees z) xs ys n

insert-SameBlocks :
    (o : Option BlockCall) (xs ys : List BlockCall)
    → NoReuse (put o (xs ++ ys))
    → SameBlocks (put o (xs ++ ys)) (xs ++ put o ys)
insert-SameBlocks none xs ys n = record {
  no_reuse = n;
  same_allocated = λ a. refl;
  same_freed = λ a. refl;
}
insert-SameBlocks (some c) xs ys n = record {
  no_reuse = insert-NoReuse c xs ys n;
  same_allocated = λ a. insert-allocated c xs ys a n;
  same_freed = λ a. insert-freed c xs ys a;
}

put-SameBlocks :
    (o : Option BlockCall) (cs ds : List BlockCall)
    → NoReuse (put o cs)
    → SameBlocks cs ds
    → SameBlocks (put o cs) (put o ds)
unfolding allocated freed
put-SameBlocks none cs ds n s = s
put-SameBlocks (some (mallocs r)) cs ds n s = record {
  no_reuse = (s.same_allocated r.address ∙ n.0, s.no_reuse);
  same_allocated = λ a. ground (arith, s.same_allocated a);
  same_freed = λ a. s.same_freed a;
}
put-SameBlocks (some (frees x)) cs ds n s = record {
  no_reuse = s.no_reuse;
  same_allocated = λ a. s.same_allocated a;
  same_freed = λ a. ground (arith, s.same_freed a);
}

SameBlocks-trans :
    (cs ds es : List BlockCall) → SameBlocks cs ds → SameBlocks ds es → SameBlocks cs es
SameBlocks-trans cs ds es s t = record {
  no_reuse = t.no_reuse;
  same_allocated = λ a. t.same_allocated a ∙ s.same_allocated a;
  same_freed = λ a. t.same_freed a ∙ s.same_freed a;
}

-- The first request of a thread, taken out of where it stands.
record FirstOut (t : ℕ) (r : WorkerRequest) (rest : List WorkerRequest)
    (handled : List (ℕ × WorkerRequest)) : Type 0 where
  before : List (ℕ × WorkerRequest)
  behind : List (ℕ × WorkerRequest)
  stands : handled ≡ before ++ (t, r) ∷ behind
  others : (u : ℕ) → sent_by u (before ++ behind) ≡ (if t == u then rest else sent_by u handled)

first_out :
    (t : ℕ) (r : WorkerRequest) (rest : List WorkerRequest) (handled : List (ℕ × WorkerRequest))
    → sent_by t handled ≡ r ∷ rest
    → FirstOut t r rest handled
unfolding sent_by
first_out t r rest [] e = absurd cc
first_out t r rest ((v, s) ∷ hs) e = elim (Bool-cases (v == t)) [
  | inl same ↦
      let now : s ∷ sent_by t hs ≡ r ∷ rest = ground (arith, e, same) in
      let head : s ≡ r = cc in
      let tail : sent_by t hs ≡ rest = cc in
      let thread : v ≡ t = ground (arith, same) in
      record { before = []; behind = hs; stands = cc; others = λ u. ground (arith, tail, thread) }
  | inr other ↦
      let inner = first_out t r rest hs (ground (arith, e, other)) in
      record {
        before = (v, s) ∷ inner.before;
        behind = inner.behind;
        stands = ap (λ xs. (v, s) ∷ xs) inner.stands;
        others = λ u. ground (arith, inner.others u, other);
      }
]

-- Two lists of requests in which every thread has sent the same, in the same order.
abbrev pub SameOrders : List (ℕ × WorkerRequest) → List (ℕ × WorkerRequest) → Type 0
SameOrders sent handled = (u : ℕ) → sent_by u handled ≡ sent_by u sent

merge_of_none : (handled : List (ℕ × WorkerRequest)) → SameOrders [] handled → handled ≡ []
unfolding sent_by
merge_of_none [] same = refl
merge_of_none ((v, s) ∷ hs) same = absurd (ground (arith, same v))

put-NoReuse : (o : Option BlockCall) (cs : List BlockCall) → NoReuse (put o cs) → NoReuse cs
put-NoReuse none cs n = n
put-NoReuse (some (mallocs r)) cs n = n.1
put-NoReuse (some (frees x)) cs n = n

pub blocks-bare :
    (xs ys : List (ℕ × WorkerRequest))
    → blocks (bare (xs ++ ys)) ≡ blocks (bare xs) ++ blocks (bare ys)
blocks-bare xs ys = ap blocks (bare-append xs ys) ∙ blocks-append (bare xs) (bare ys)

-- Where no address is allocated twice, the order between the threads does not show.
pub merged-SameBlocks :
    (sent handled : List (ℕ × WorkerRequest))
    → SameOrders sent handled
    → NoReuse (blocks (bare sent))
    → SameBlocks (blocks (bare sent)) (blocks (bare handled))
unfolding sent_by
merged-SameBlocks [] handled same n =
    rw (merge_of_none handled same)
      (record { no_reuse = tt; same_allocated = λ a. refl; same_freed = λ a. refl })
merged-SameBlocks ((t, r) ∷ sent) handled same n =
    let out = first_out t r (sent_by t sent) handled (ground (arith, same t)) in
    let o = block_of r in
    let x = blocks (bare out.before) in
    let y = blocks (bare out.behind) in
    let inner : SameBlocks (blocks (bare sent)) (x ++ y) =
      subst (SameBlocks (blocks (bare sent))) (blocks-bare out.before out.behind) (
        merged-SameBlocks sent (out.before ++ out.behind)
          (λ u. ground (arith, out.others u, same u)) (put-NoReuse o (blocks (bare sent)) n)) in
    let moved = put-SameBlocks o (blocks (bare sent)) (x ++ y) n inner in
    let stands : blocks (bare handled) ≡ x ++ put o y =
      ap (λ hs. blocks (bare hs)) out.stands ∙ blocks-bare out.before ((t, r) ∷ out.behind) in
    subst (SameBlocks (put o (blocks (bare sent)))) (sym stands) (
      SameBlocks-trans (put o (blocks (bare sent))) (put o (x ++ y)) (x ++ put o y) moved
        (insert-SameBlocks o x y moved.no_reuse))

pub sent_by-append :
    (u : ℕ) (xs ys : List (ℕ × WorkerRequest)) → sent_by u (xs ++ ys) ≡ sent_by u xs ++ sent_by u ys
unfolding sent_by
sent_by-append u [] ys = refl
sent_by-append u ((v, s) ∷ xs) ys = ground (arith, sent_by-append u xs ys)

pub run-append : (cs ds : List BlockCall) (b : Books) → run (cs ++ ds) b ≡ run ds (run cs b)
unfolding run
run-append [] ds b = refl
run-append (mallocs r ∷ cs) ds b = run-append cs ds (on_malloc r b)
run-append (frees x ∷ cs) ds b = run-append cs ds (on_free x b)

-- Requests for blocks are handled without a fault, and nothing is answered to them.
pub handle_all-blocks :
    (rs : List WorkerRequest) (b : Books)
    → All IsBlock rs
    → handle_all rs b ≡ ok (run (blocks rs) b, [])
handle_all-blocks rs b h =
    ap (λ xs. handle_all xs b) (sym (request-blocks rs h)) ∙ run-handle_all (blocks rs) b

-- After a clear, a snapshot that comes after merged requests shows what the calls leave open.
pub merged-Shows :
    (sent handled : List (ℕ × WorkerRequest)) (b : Books)
    → SameOrders sent handled
    → NoReuse (blocks (bare sent))
    → Shows
        (snapshot (reconciled (run (blocks (bare handled)) (on_clear b))))
        (open_after (blocks (bare sent)))
merged-Shows sent handled b same n =
    let cs = blocks (bare handled) in
    let c = run cs (on_clear b) in
    let merged = merged-SameBlocks sent handled same n in
    snapshot-Shows (reconciled c) (open_after (blocks (bare sent)))
      (reconciled-IsOrdered c (run-IsOrdered cs (on_clear b) (on_clear-IsOrdered b)))
      (λ a. ground (
        arith,
        run-reconciled cs b a merged.no_reuse,
        merged.same_allocated a,
        merged.same_freed a,
      ))
