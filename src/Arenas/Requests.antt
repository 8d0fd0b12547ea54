-- ===== src/Arenas/Requests.antt =====
-- The requests to the worker of src/HeapWatcher.cpp as acts on the open blocks, where every address
-- is used by one thread.
use mathlib.Core.List.{append-nil}
use mathlib.Core.Path.{subst, fun_ext}
use heap_watcher.Prelude.{
  ℕ, ◌≡◌, ◌≢◌, refl, sym, ap, ◌∙◌, ◌⊎◌, inl, inr, Option, none, some, false, List, [], ◌∷◌, ◌++◌,
  ◌==◌, if◌then◌else◌, All, arith, Bool-cases,
}
use heap_watcher.Records.{AllocationRecord}
use heap_watcher.Requests.{ReallocRecord, WorkerRequest, malloc_of, realloc_of, free_of}
use heap_watcher.Queue.Laws.{sent_by, bare}
use heap_watcher.Worker.Order.{moved}
use heap_watcher.Worker.Ledger.{
  Ledger, History, HeapStep, opens, closes, moves, snapshots, measures, restarts,
}
use heap_watcher.Arenas.{
  acts_of, acts, IsLocal, AllLegal, after_all, OwnActs, OwnActs-each, first_own, rest_own,
  reordered_legal, reordered_after,
}

-- The record after a realloc, where the block was open.
abbrev resized : ReallocRecord → Option AllocationRecord → Option AllocationRecord
resized q none = none
resized q (some old) = some (moved q old)

-- The open blocks after a request of a heap call.
abbrev pub next : WorkerRequest → Ledger → Ledger
next (malloc_of r) h j = if r.address == j then some r else h j
next (free_of a) h j = if a == j then none else h j
next (realloc_of q) h j =
    if q.new_address == j
    then resized q (h q.original_address)
    else if q.original_address == j
    then none
    else h j
next _ h j = h j

abbrev pub IsProper : WorkerRequest → Ledger → Type 0
IsProper (malloc_of r) h = h r.address ≡ none
IsProper (free_of a) h = (r : AllocationRecord) × (h a ≡ some r)
IsProper (realloc_of q) h =
    ((r : AllocationRecord) × (h q.original_address ≡ some r))
    × ((q.new_address ≡ q.original_address) ⊎ (h q.new_address ≡ none))
IsProper _ h = ⊥

-- The request is about addresses of the thread.
abbrev pub IsOwn : (ℕ → ℕ) → ℕ → WorkerRequest → Type 0
IsOwn owner t (malloc_of r) = owner r.address ≡ t
IsOwn owner t (free_of a) = owner a ≡ t
IsOwn owner t (realloc_of q) = (owner q.original_address ≡ t) × (owner q.new_address ≡ t)
IsOwn owner t _ = ⊥

-- An address of another thread is another address.
pub apart : (owner : ℕ → ℕ) (t a j : ℕ) → owner a ≡ t → owner j ≢ t → (a == j) ≡ false
apart owner t a j mine other = elim (Bool-cases (a == j)) [
  | inl e ↦ let same : a ≡ j = ground (arith, e) in absurd (other (ap owner (sym same) ∙ mine))
  | inr e ↦ e
]

module _ (owner : ℕ → ℕ) where
  request_others :
      (t : ℕ) (r : WorkerRequest) (h : Ledger) (j : ℕ)
      → IsOwn owner t r
      → owner j ≢ t
      → next r h j ≡ h j
  request_others t (malloc_of r) h j own other = ground (arith, apart owner t r.address j own other)
  request_others t (free_of a) h j own other = ground (arith, apart owner t a j own other)
  request_others t (realloc_of q) h j own other = ground (
    arith,
    apart owner t q.original_address j own.0 other,
    apart owner t q.new_address j own.1 other,
  )
  request_others t _ h j own other = elim own [ ]

  request_legal :
      (t : ℕ) (r : WorkerRequest) (h k : Ledger)
      → IsOwn owner t r
      → ((j : ℕ) → owner j ≡ t → h j ≡ k j)
      → IsProper r h
      → IsProper r k
  request_legal t (malloc_of r) h k own same proper = sym (same r.address own) ∙ proper
  request_legal t (free_of a) h k own same (r, held) = (r, sym (same a own) ∙ held)
  request_legal t (realloc_of q) h k own same ((r, held), fresh) = (
    (r, sym (same q.original_address own.0) ∙ held),
    elim fresh [ inl e ↦ inl e | inr e ↦ inr (sym (same q.new_address own.1) ∙ e) ],
  )
  request_legal t _ h k own same proper = elim own [ ]

  request_next :
      (t : ℕ) (r : WorkerRequest) (h k : Ledger)
      → IsOwn owner t r
      → ((j : ℕ) → owner j ≡ t → h j ≡ k j)
      → (j : ℕ) → owner j ≡ t
      → next r h j ≡ next r k j
  request_next t (malloc_of r) h k own same j mine = ground (arith, same j mine)
  request_next t (free_of a) h k own same j mine = ground (arith, same j mine)
  request_next t (realloc_of q) h k own same j mine =
      let moves_same = ap (resized q) (same q.original_address own.0) in
      ground (arith, same j mine, moves_same)
  request_next t _ h k own same j mine = elim own [ ]

  pub requests-IsLocal : IsLocal owner next IsProper (IsOwn owner)
  requests-IsLocal = record {
    others = request_others;
    legal_same = request_legal;
    next_same = request_next;
  }

  -- One step of a history of heap calls.
  step-IsProper :
      (t : ℕ) (r : WorkerRequest) (h h' : Ledger)
      → IsOwn owner t r
      → HeapStep h h' r
      → IsProper r h × (h' ≡ next r h)
  step-IsProper t r h h' own (opens x e u) = (e, fun_ext u)
  step-IsProper t r h h' own (closes a x e u) = ((x, e), fun_ext u)
  step-IsProper t r h h' own (moves q x e f u) =
      (((x, e), f), fun_ext (λ j. ground (arith, u j, ap (resized q) e)))
  step-IsProper t r h h' own (snapshots p u) = elim own [ ]
  step-IsProper t r h h' own (measures p u) = elim own [ ]
  step-IsProper t r h h' own (restarts p u) = elim own [ ]

  IsProper-step : (r : WorkerRequest) (h : Ledger) → IsProper r h → HeapStep h (next r h) r
  IsProper-step (malloc_of r) h e = opens r e (λ j. refl)
  IsProper-step (free_of a) h (x, e) = closes a x e (λ j. refl)
  IsProper-step (realloc_of q) h ((x, e), f) = moves q x e f (λ j. ground (arith, ap (resized q) e))
  IsProper-step _ h proper = elim proper [ ]

  split_acts :
      (s : List (ℕ × WorkerRequest)) (h h' : Ledger)
      → OwnActs owner next IsProper (IsOwn owner) s
      → History h (acts s) h'
      → AllLegal owner next IsProper (IsOwn owner) (acts s) h
        × (h' ≡ after_all owner next IsProper (IsOwn owner) (acts s) h)
  split_acts [] h h' own same = (tt, fun_ext same)
  split_acts ((u, r) ∷ s) h h'' own (h', step, rest) =
      let (proper, same) =
        step-IsProper u r h h' (first_own owner next IsProper (IsOwn owner) u r s own) step in
      let (others, after) =
        split_acts s (next r h) h'' (rest_own owner next IsProper (IsOwn owner) u r s own)
          (subst (λ k. History k (acts s) h'') same rest) in
      ((proper, others), after)

  join_acts :
      (rs : List WorkerRequest) (h : Ledger)
      → AllLegal owner next IsProper (IsOwn owner) rs h
      → History h rs (after_all owner next IsProper (IsOwn owner) rs h)
  join_acts [] h legal = λ j. refl
  join_acts (r ∷ rs) h legal =
      (next r h, IsProper-step r h legal.0, join_acts rs (next r h) legal.1)

sent_by-acts_of : (t : ℕ) (s : List (ℕ × WorkerRequest)) → sent_by t s ≡ acts_of t s
unfolding sent_by
sent_by-acts_of t [] = refl
sent_by-acts_of t ((u, r) ∷ s) = ground (arith, sent_by-acts_of t s)

bare-acts : (s : List (ℕ × WorkerRequest)) → bare s ≡ acts s
bare-acts [] = refl
bare-acts ((u, r) ∷ s) = ap (λ rs. r ∷ rs) (bare-acts s)

module _ (owner : ℕ → ℕ) (sent handled : List (ℕ × WorkerRequest)) (h₀ h : Ledger)
    (own : All (λ act. IsOwn owner act.0 act.1) sent) (history : History h₀ (bare sent) h) where
  sent-OwnActs : OwnActs owner next IsProper (IsOwn owner) sent
  sent-OwnActs = OwnActs-each owner next IsProper (IsOwn owner) sent own

  sent-IsProper :
      AllLegal owner next IsProper (IsOwn owner) (acts sent) h₀
      × (h ≡ after_all owner next IsProper (IsOwn owner) (acts sent) h₀)
  sent-IsProper =
      split_acts owner sent h₀ h sent-OwnActs
        (subst (λ rs. History h₀ rs h) (bare-acts sent) history)

  -- The open blocks after the handled requests.
  after_handled : Ledger
  after_handled = after_all owner next IsProper (IsOwn owner) (acts handled) h₀

  reordered_part :
      (left : ℕ → List WorkerRequest)
      → ((t : ℕ) → sent_by t handled ++ left t ≡ sent_by t sent)
      → History h₀ (bare handled) after_handled
  unfolding after_handled
  reordered_part left same =
      subst (λ rs. History h₀ rs after_handled) (sym (bare-acts handled))
        (join_acts owner (acts handled) h₀ (
          reordered_legal owner next IsProper (IsOwn owner) (requests-IsLocal owner) sent handled
            left h₀ sent-OwnActs
            (λ t.
              ap (λ rs. rs ++ left t) (sym (sent_by-acts_of t handled))
              ∙ same t
              ∙ sent_by-acts_of t sent)
            sent-IsProper.0))

  -- The first requests of each thread, in any order that keeps the order of each thread, are a
  -- proper history too.
  pub reordered-History :
      (left : ℕ → List WorkerRequest)
      → ((t : ℕ) → sent_by t handled ++ left t ≡ sent_by t sent)
      → (h' : Ledger) × History h₀ (bare handled) h'
  reordered-History left same = (after_handled, reordered_part left same)

  -- And where they are all the requests, it ends at the same open blocks.
  pub finished-History :
      ((t : ℕ) → sent_by t handled ≡ sent_by t sent) → History h₀ (bare handled) h
  unfolding after_handled
  finished-History same =
      let whole =
        reordered_after owner next IsProper (IsOwn owner) (requests-IsLocal owner) sent handled h₀
          sent-OwnActs (λ t. sym (sent_by-acts_of t handled) ∙ same t ∙ sent_by-acts_of t sent) in
      subst (History h₀ (bare handled)) (whole ∙ sym sent-IsProper.1)
        (reordered_part (λ t. []) (λ t. append-nil (sent_by t handled) ∙ same t))

  -- The requests of a thread are its own.
  pub sent_by-IsOwn : (t : ℕ) → All (IsOwn owner t) (sent_by t sent)
  sent_by-IsOwn t = subst (All (IsOwn owner t)) (sym (sent_by-acts_of t sent)) (sent-OwnActs t)
