-- ===== src/Watcher/Quiet.antt =====
-- The requests of heap calls as the worker handles them: it answers nothing to them, and its books
-- show the heap.
use heap_watcher.Prelude.{
  ℕ, suc, ◌≡◌, refl, ap, ◌∙◌, List, [], ◌∷◌, length, ok, fault, Returns, IfReturns, IfReturns-after,
  IfReturns-bind,
}
use heap_watcher.Requests.{WorkerRequest}
use heap_watcher.Worker.{Books, Reply, on_realloc, handle, handle_all, reconciled, snapshot}
use heap_watcher.Worker.Reconcile.{reconciled_settled}
use heap_watcher.Worker.Batches.{Outcome}
use heap_watcher.Worker.Ledger.{Ledger, History, Agrees, handle_all-Agrees}
use heap_watcher.Worker.Reports.{Shows, snapshot-Shows}
use heap_watcher.Watcher.Sending.{all_requested, requested, next_id}
use heap_watcher.Watcher.HeapCalls.{HeapCall, malloc_call, calloc_call, realloc_call, free_call}

pub length-all_requested :
    (cs : List HeapCall) (depth g : ℕ) → length (all_requested depth g cs) ≡ length cs
length-all_requested [] depth g = refl
length-all_requested (c ∷ cs) depth g = ap suc (length-all_requested cs depth (next_id g c))

abbrev pub IsQuiet : Books × List Reply → Type 0
IsQuiet out = out.1 ≡ []

pub handle-IsQuiet :
    (c : HeapCall) (depth g : ℕ) (b : Books) → IfReturns IsQuiet (handle (requested depth g c) b)
unfolding handle
handle-IsQuiet (malloc_call thread size address frames) depth g b = refl
handle-IsQuiet (calloc_call thread nitems size address frames) depth g b = refl
handle-IsQuiet (realloc_call thread original_address new_address new_size) depth g b =
    IfReturns-after IsQuiet
      (on_realloc
        (record {
          original_address = original_address;
          new_address = new_address;
          new_size = new_size;
        })
        b)
      (λ b'. ok (b', [])) (λ b'. refl)
handle-IsQuiet (free_call thread address) depth g b = refl

-- The worker answers nothing to the requests of heap calls.
handle_all-IsQuiet :
    (cs : List HeapCall) (depth g : ℕ) (b : Books)
    → IfReturns IsQuiet (handle_all (all_requested depth g cs) b)
unfolding handle_all
handle_all-IsQuiet [] depth g b = refl
handle_all-IsQuiet (c ∷ cs) depth g b =
    IfReturns-bind IsQuiet IsQuiet (handle (requested depth g c) b) _ (handle-IsQuiet c depth g b)
      (λ out e.
        IfReturns-bind IsQuiet IsQuiet (handle_all (all_requested depth (next_id g c) cs) out.0) _
          (handle_all-IsQuiet cs depth (next_id g c) out.0) (λ out' e'. rw (e, e') refl))

-- What a snapshot of books shows that agree with the heap.
pub Agrees-Shows : (b : Books) (h : Ledger) → Agrees b h → Shows (snapshot (reconciled b)) h
Agrees-Shows b h agrees =
    rw (reconciled_settled b agrees.settled) (snapshot-Shows b h agrees.balanced.ordered agrees.at)

-- What the worker has made of the requests of the calls: no fault, no reply, and books of which a
-- snapshot shows the heap.
pub record Handled (rs : List WorkerRequest) (b : Books) (h : Ledger) : Type 0 where
  pub books : Books
  pub runs : handle_all rs b ≡ ok (books, [])
  pub shows : Shows (snapshot (reconciled books)) h

pub Handled-from :
    (rs : List WorkerRequest) (b : Books) (h : Ledger)
    → Returns (λ out. Agrees out.0 h) (handle_all rs b)
    → IfReturns IsQuiet (handle_all rs b)
    → Handled rs b h
Handled-from rs b h = go (handle_all rs b) refl
  where
    go :
        (r : Outcome)
        → handle_all rs b ≡ r
        → Returns (λ out. Agrees out.0 h) r
        → IfReturns IsQuiet r
        → Handled rs b h
    go (ok (b', replies)) e a q = record {
      books = b';
      runs = e ∙ ap (λ xs. ok (b', xs)) q;
      shows = Agrees-Shows b' h a;
    }
    go (fault f) e a q = absurd a

pub Handled-of :
    (cs : List HeapCall) (depth g : ℕ) (b : Books) (h₀ h : Ledger)
    → Agrees b h₀
    → History h₀ (all_requested depth g cs) h
    → Handled (all_requested depth g cs) b h
Handled-of cs depth g b h₀ h agrees history =
    Handled-from (all_requested depth g cs) b h
      (handle_all-Agrees b h₀ h (all_requested depth g cs) agrees history)
      (handle_all-IsQuiet cs depth g b)
