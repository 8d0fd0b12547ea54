-- ===== src/Queue/Orders.antt =====
-- Requests of one thread among those of others.
use heap_watcher.Prelude.{ℕ, ◌≡◌, refl, ap, false, List, [], ◌∷◌, ◌==◌, length, arith}
use heap_watcher.Requests.{WorkerRequest}
use heap_watcher.Queue.Laws.{sent_by, bare}

-- Requests of one thread, with the thread.
abbrev pub from_thread : ℕ → List WorkerRequest → List (ℕ × WorkerRequest)
from_thread t [] = []
from_thread t (r ∷ rs) = (t, r) ∷ from_thread t rs

pub sent_by_own : (t : ℕ) (rs : List WorkerRequest) → sent_by t (from_thread t rs) ≡ rs
unfolding sent_by
sent_by_own t [] = refl
sent_by_own t (r ∷ rs) = ground (arith, sent_by_own t rs)

pub sent_by_none :
    (t u : ℕ) (rs : List WorkerRequest) → (t == u) ≡ false → sent_by u (from_thread t rs) ≡ []
unfolding sent_by
sent_by_none t u [] e = refl
sent_by_none t u (r ∷ rs) e = ground (arith, e, sent_by_none t u rs e)

pub bare-from_thread : (t : ℕ) (rs : List WorkerRequest) → bare (from_thread t rs) ≡ rs
bare-from_thread t [] = refl
bare-from_thread t (r ∷ rs) = ap (λ xs. r ∷ xs) (bare-from_thread t rs)

pub length_zero : (xs : List WorkerRequest) → length xs ≡ 0 → xs ≡ []
length_zero [] e = refl
length_zero (x ∷ xs) e = absurd (omega arith)
