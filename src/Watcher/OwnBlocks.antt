-- ===== src/Watcher/OwnBlocks.antt =====
-- A watch of threads each of which keeps to its own blocks, reallocations and the reuse of addresses
-- included.
use mathlib.Core.List.{append_assoc}
use mathlib.Core.Path.{subst}
use heap_watcher.Prelude.{
  ℕ, ◌≡◌, refl, sym, ap, ◌∙◌, List, [], ◌∷◌, ◌++◌, All, All-second, ok, fault, Returns,
  Returns-bind, IfReturns, IfReturns-after, IfReturns-bind,
}
use heap_watcher.Requests.{WorkerRequest, malloc_of, realloc_of, free_of}
use heap_watcher.Queue.{RequestQueue}
use heap_watcher.Queue.Laws.{QueueLaws, OnlyFrom, bare, sent_by}
use heap_watcher.Queue.Orders.{from_thread, bare-from_thread}
use heap_watcher.Worker.{Books, Reply, on_clear, on_realloc, handle, handle_all}
use heap_watcher.Worker.Batches.{Outcome, resume, handle_all-append}
use heap_watcher.Worker.Ledger.{Ledger, no_blocks, History, Agrees, handle_all-Agrees}
use heap_watcher.Worker.Reports.{on_clear-Agrees}
use heap_watcher.Worker.Merges.{bare-append, sent_by-append}
use heap_watcher.Watcher.{Watcher}
use heap_watcher.Watcher.HeapCalls.{
  HeapCall, malloc_call, calloc_call, realloc_call, free_call, caller,
}
use heap_watcher.Watcher.Commands.{max_requests_to_dequeue, worker_round}
use heap_watcher.Watcher.Sending.{requested, next_id, all_requested}
use heap_watcher.Watcher.Quiet.{Handled, Agrees-Shows}
use heap_watcher.Watcher.Traces.{sent_for}
use heap_watcher.Watcher.Threads.{last-SameOrders}
use heap_watcher.Watcher.Handling.{Handling}
use heap_watcher.Arenas.Requests.{IsOwn, reordered-History, finished-History, sent_by-IsOwn}

-- The call is about addresses of its own thread.
abbrev pub OwnCall : (ℕ → ℕ) → HeapCall → Type 0
OwnCall owner (malloc_call thread size address frames) = owner address ≡ thread
OwnCall owner (calloc_call thread nitems size address frames) = owner address ≡ thread
OwnCall owner (realloc_call thread original_address new_address new_size) =
    (owner original_address ≡ thread) × (owner new_address ≡ thread)
OwnCall owner (free_call thread address) = owner address ≡ thread

requested-IsOwn :
    (owner : ℕ → ℕ) (depth g : ℕ) (c : HeapCall)
    → OwnCall owner c
    → IsOwn owner (caller c) (requested depth g c)
requested-IsOwn owner depth g (malloc_call thread size address frames) own = own
requested-IsOwn owner depth g (calloc_call thread nitems size address frames) own = own
requested-IsOwn owner depth g (realloc_call thread original new_address new_size) own = own
requested-IsOwn owner depth g (free_call thread address) own = own

pub sent_for-IsOwn :
    (owner : ℕ → ℕ) (depth g : ℕ) (cs : List HeapCall)
    → All (OwnCall owner) cs
    → All (λ act. IsOwn owner act.0 act.1) (sent_for depth g cs)
sent_for-IsOwn owner depth g [] own = tt
sent_for-IsOwn owner depth g (c ∷ cs) own =
    (requested-IsOwn owner depth g c own.0, sent_for-IsOwn owner depth (next_id g c) cs own.1)

pub bare-sent_for :
    (depth g : ℕ) (cs : List HeapCall) → bare (sent_for depth g cs) ≡ all_requested depth g cs
bare-sent_for depth g [] = refl
bare-sent_for depth g (c ∷ cs) =
    ap (λ rs. requested depth g c ∷ rs) (bare-sent_for depth (next_id g c) cs)

abbrev Silent : Books × List Reply → Type 0
Silent out = out.1 ≡ []

own-Silent :
    (owner : ℕ → ℕ) (t : ℕ) (r : WorkerRequest) (b : Books)
    → IsOwn owner t r
    → IfReturns Silent (handle r b)
unfolding handle
own-Silent owner t (malloc_of r) b own = refl
own-Silent owner t (free_of a) b own = refl
own-Silent owner t (realloc_of q) b own =
    IfReturns-after Silent (on_realloc q b) (λ b'. ok (b', [])) (λ b'. refl)
own-Silent owner t _ b own = elim own [ ]

all_own-Silent :
    (owner : ℕ → ℕ) (t : ℕ) (rs : List WorkerRequest) (b : Books)
    → All (IsOwn owner t) rs
    → IfReturns Silent (handle_all rs b)
unfolding handle_all
all_own-Silent owner t [] b own = refl
all_own-Silent owner t (r ∷ rs) b own =
    IfReturns-bind Silent Silent (handle r b) _ (own-Silent owner t r b own.0) (λ out e.
      IfReturns-bind Silent Silent (handle_all rs out.0) _ (all_own-Silent owner t rs out.0 own.1)
        (λ out' e'. rw (e, e') refl))

-- What holds of a resumed run holds of what comes after.
after_resume :
    (P : Books → Type 0) (b : Books) (replies : List Reply) (r : Outcome)
    → Returns (λ out. P out.0) (resume (ok (b, replies)) (λ _. r))
    → Returns (λ out. P out.0) r
after_resume P b replies (ok out) g = g
after_resume P b replies (fault e) g = g

quiet_end :
    (rs : List WorkerRequest) (b : Books) (h : Ledger) (r : Outcome)
    → handle_all rs b ≡ r
    → Returns (λ out. Agrees out.0 h) r
    → IfReturns Silent r
    → Handled rs b h
quiet_end rs b h (ok (b', replies)) e a q = record {
  books = b';
  runs = e ∙ ap (λ xs. ok (b', xs)) q;
  shows = Agrees-Shows b' h a;
}
quiet_end rs b h (fault f) e a q = absurd a

-- What is handled after a proper part of what was sent.
goes_on :
    (handled : List (ℕ × WorkerRequest)) (b books : Books) (replies : List Reply)
    (rs : List WorkerRequest) (h : Ledger)
    → handle_all (bare handled) (on_clear b) ≡ ok (books, replies)
    → History no_blocks (bare handled ++ rs) h
    → Returns (λ out. Agrees out.0 h) (handle_all rs books)
goes_on handled b books replies rs h ran history =
    after_resume (λ b'. Agrees b' h) books replies (handle_all rs books)
      (subst (Returns (λ out. Agrees out.0 h))
        (handle_all-append (bare handled) rs (on_clear b) ∙ ap (λ o. resume o (handle_all rs)) ran)
        (handle_all-Agrees (on_clear b) no_blocks h (bare handled ++ rs) (on_clear-Agrees b)
          history))

module _ {queue : RequestQueue} (laws : QueueLaws queue) where
  open queue use {Queue, wait_dequeue_bulk_timed}

  round-Returns :
      (turn : ℕ) (w : Watcher Queue) (h : Ledger)
      → Returns
          (λ out. Agrees out.0 h)
          (handle_all
            (bare (wait_dequeue_bulk_timed turn max_requests_to_dequeue w.worker_request_queue).0)
            w.books)
      → Returns (λ out. Unit {0}) (worker_round queue turn w)
  unfolding worker_round
  round-Returns turn w h agrees =
      Returns-bind (λ out. Agrees out.0 h) (λ out. Unit {0})
        (handle_all
          (bare (wait_dequeue_bulk_timed turn max_requests_to_dequeue w.worker_request_queue).0)
          w.books)
        _ agrees (λ out g. tt)

  -- A round of the worker after a part of what was sent.
  pub sound_round :
      (owner : ℕ → ℕ) (b : Books) (h : Ledger) (start w : Watcher Queue)
      (sent : List (ℕ × WorkerRequest)) (id turn : ℕ)
      → start.books ≡ on_clear b
      → All (λ act. IsOwn owner act.0 act.1) sent
      → History no_blocks (bare sent) h
      → Handling laws start sent id w
      → Returns (λ out. Unit {0}) (worker_round queue turn w)
  sound_round owner b h start w sent id turn cleared own history inv =
      let got = wait_dequeue_bulk_timed turn max_requests_to_dequeue inv.now in
      let (h', part) =
        reordered-History owner sent (inv.handled ++ got.0) no_blocks h own history
          (λ u. laws.pending u got.1)
          (λ u.
            ap (λ xs. xs ++ laws.pending u got.1) (sent_by-append u inv.handled got.0)
            ∙ append_assoc (sent_by u inv.handled) (sent_by u got.0) (laws.pending u got.1)
            ∙ ap (λ xs. sent_by u inv.handled ++ xs)
                (laws.batch_pending u turn max_requests_to_dequeue inv.now)
            ∙ inv.orders u) in
      let agrees =
        goes_on inv.handled b inv.books inv.replies (bare got.0) h'
          (sym (ap (handle_all (bare inv.handled)) cleared) ∙ inv.ran)
          (subst (λ rs. History no_blocks rs h') (bare-append inv.handled got.0) part) in
      subst (λ v. Returns (λ out. Unit {0}) (worker_round queue turn v)) (sym inv.state)
        (round-Returns turn
          (record start { worker_request_queue = inv.now; books = inv.books; g_txn_id = id }) h'
          agrees)

  pub sound_stop :
      (owner : ℕ → ℕ) (b : Books) (h : Ledger) (start w : Watcher Queue)
      (sent : List (ℕ × WorkerRequest)) (id t : ℕ) (rs : List WorkerRequest)
      → start.books ≡ on_clear b
      → All (λ act. IsOwn owner act.0 act.1) sent
      → History no_blocks (bare sent) h
      → (inv : Handling laws start sent id w) → OnlyFrom laws t rs w.worker_request_queue
      → Handled rs w.books h
  sound_stop owner b h start w sent id t rs cleared own history inv only =
      let now = ap (λ v. v.worker_request_queue) inv.state in
      let only' = subst (OnlyFrom laws t rs) now only in
      let all = inv.handled ++ from_thread t rs in
      let whole =
        finished-History owner sent all no_blocks h own history
          (last-SameOrders laws t rs sent inv.handled inv.now only' inv.orders) in
      let agrees =
        goes_on inv.handled b inv.books inv.replies rs h
          (sym (ap (handle_all (bare inv.handled)) cleared) ∙ inv.ran)
          (subst (λ xs. History no_blocks xs h)
            (bare-append inv.handled (from_thread t rs)
              ∙ ap (λ xs. bare inv.handled ++ xs) (bare-from_thread t rs))
            whole) in
      let mine : All (IsOwn owner t) rs = All-second (IsOwn owner t) (sent_by t inv.handled) rs (
        subst (All (IsOwn owner t))
          (sym (inv.orders t) ∙ ap (λ xs. sent_by t inv.handled ++ xs) only'.own)
          (sent_by-IsOwn owner sent all no_blocks h own history t)) in
      subst (λ c. Handled rs c h) (sym (ap (λ v. v.books) inv.state))
        (quiet_end rs inv.books h (handle_all rs inv.books) refl agrees
          (all_own-Silent owner t rs inv.books mine))
