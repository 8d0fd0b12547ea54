-- ===== src/Watcher/Joining.antt =====
-- The join of the destructor of HeapWatcherImpl ends.
use heap_watcher.Prelude.{
  ℕ, ◌<◌, ◌≤◌, ◌≡◌, ◌≢◌, refl, ◌⊎◌, inl, inr, true, false, List, arith, ok, fault, Result, Returns,
}
use heap_watcher.Queue.{RequestQueue}
use heap_watcher.Worker.{Reply}
use heap_watcher.Watcher.{Watcher}
use heap_watcher.Watcher.Commands.{worker_round}
use heap_watcher.Watcher.Lifetime.{
  WorkerAt, unstarted, at_condition, in_body, ended, constructing, alive, joining, destroyed,
  Lifetime, begin_worker, begin_destructor, WorkerGoes, starts, enters, serves, leaves, OthersGo,
  constructed, destructs, joins, calls, Reached, begins, by_worker, by_others,
}

module _ (queue : RequestQueue) where
  open queue use {Queue}

  -- How the flag, the worker and the owner fit together.
  data Fits (l : Lifetime Queue) : Type 0 where
    new : l.owner ≡ constructing → l.worker ≡ unstarted → l.worker_thread_running ≡ false → Fits l
    looping :
        (l.owner ≡ constructing) ⊎ (l.owner ≡ alive)
        → (l.worker ≡ at_condition) ⊎ (l.worker ≡ in_body)
        → l.worker_thread_running ≡ true
        → Fits l
    ending : l.owner ≡ joining → l.worker ≢ unstarted → l.worker_thread_running ≡ false → Fits l
    over : l.owner ≡ destroyed → l.worker ≡ ended → l.worker_thread_running ≡ false → Fits l

  worker-Fits :
      (thread : ℕ) (l l' : Lifetime Queue) → WorkerGoes queue thread l l' → Fits l → Fits l'
  unfolding begin_worker
  worker-Fits thread l l' (starts e) (new o w r) = looping (inl o) (inl refl) refl
  worker-Fits thread l l' (starts e) (looping o w r) = absurd (ground (arith, e, w))
  worker-Fits thread l l' (starts e) (ending o w r) = absurd (w e)
  worker-Fits thread l l' (starts e) (over o w r) = absurd (ground (arith, e, w))
  worker-Fits thread l l' (enters e k) (new o w r) = absurd (ground (arith, e, w))
  worker-Fits thread l l' (enters e k) (looping o w r) = looping o (inr refl) r
  worker-Fits thread l l' (enters e k) (ending o w r) = absurd (ground (arith, k, r))
  worker-Fits thread l l' (enters e k) (over o w r) = absurd (ground (arith, e, w))
  worker-Fits thread l l' (serves turn v replies e k) (new o w r) = absurd (ground (arith, e, w))
  worker-Fits thread l l' (serves turn v replies e k) (looping o w r) = looping o (inl refl) r
  worker-Fits thread l l' (serves turn v replies e k) (ending o w r) =
      ending o (λ x. ground (arith, x)) r
  worker-Fits thread l l' (serves turn v replies e k) (over o w r) = absurd (ground (arith, e, w))
  worker-Fits thread l l' (leaves e k) (new o w r) = absurd (ground (arith, e, w))
  worker-Fits thread l l' (leaves e k) (looping o w r) = absurd (ground (arith, k, r))
  worker-Fits thread l l' (leaves e k) (ending o w r) = ending o (λ x. ground (arith, x)) r
  worker-Fits thread l l' (leaves e k) (over o w r) = absurd (ground (arith, e, w))

  others-Fits : (l l' : Lifetime Queue) → OthersGo queue l l' → Fits l → Fits l'
  unfolding begin_destructor
  others-Fits l l' (constructed e k) (new o w r) = absurd (ground (arith, k, r))
  others-Fits l l' (constructed e k) (looping o w r) = looping (inr refl) w r
  others-Fits l l' (constructed e k) (ending o w r) = absurd (ground (arith, e, o))
  others-Fits l l' (constructed e k) (over o w r) = absurd (ground (arith, e, o))
  others-Fits l l' (destructs e) (new o w r) = absurd (ground (arith, e, o))
  others-Fits l l' (destructs e) (looping o w r) = ending refl (λ x. ground (arith, x, w)) refl
  others-Fits l l' (destructs e) (ending o w r) = absurd (ground (arith, e, o))
  others-Fits l l' (destructs e) (over o w r) = absurd (ground (arith, e, o))
  others-Fits l l' (joins e k) (new o w r) = absurd (ground (arith, e, o))
  others-Fits l l' (joins e k) (looping o w r) = absurd (ground (arith, e, o))
  others-Fits l l' (joins e k) (ending o w r) = over refl k r
  others-Fits l l' (joins e k) (over o w r) = absurd (ground (arith, e, o))
  others-Fits l l' (calls c v k) (new o w r) = new o w r
  others-Fits l l' (calls c v k) (looping o w r) = looping o w r
  others-Fits l l' (calls c v k) (ending o w r) = ending o w r
  others-Fits l l' (calls c v k) (over o w r) = over o w r

  reached-Fits : (thread : ℕ) {l : Lifetime Queue} → Reached queue thread l → Fits l
  reached-Fits thread (begins w) = new refl refl refl
  reached-Fits thread (by_worker {l} {l'} h m) = worker-Fits thread l l' m (reached-Fits thread h)
  reached-Fits thread (by_others {l} {l'} h m) = others-Fits l l' m (reached-Fits thread h)

  -- The steps that the worker has left, once the flag is unset.
  abbrev pub steps_left : WorkerAt → ℕ
  steps_left unstarted = 3
  steps_left at_condition = 1
  steps_left in_body = 2
  steps_left ended = 0

  -- The destructor waits in its join, and not for long.
  pub record Ending (thread : ℕ) (l : Lifetime Queue) : Type 0 where
    pub few : steps_left l.worker ≤ 2
    pub fewer :
        (l' : Lifetime Queue)
        → WorkerGoes queue thread l l'
        → steps_left l'.worker < steps_left l.worker
    pub untouched :
        (l' : Lifetime Queue) → OthersGo queue l l' → steps_left l'.worker ≡ steps_left l.worker
    pub goes_on :
        (turn : ℕ)
        → Returns (λ out. Unit {0}) (worker_round queue turn l.state)
        → (OthersGo queue l (record l { owner = destroyed }))
          ⊎ ((l' : Lifetime Queue) × WorkerGoes queue thread l l')

  WorkerAt-cases : (p : WorkerAt) → p ≢ unstarted → (p ≡ at_condition) ⊎ (p ≡ in_body) ⊎ (p ≡ ended)
  WorkerAt-cases unstarted h = absurd (h refl)
  WorkerAt-cases at_condition h = inl refl
  WorkerAt-cases in_body h = inr (inl refl)
  WorkerAt-cases ended h = inr (inr refl)

  joining_facts :
      (l : Lifetime Queue)
      → Fits l
      → l.owner ≡ joining
      → (l.worker ≢ unstarted) × (l.worker_thread_running ≡ false)
  joining_facts l (new o w r) e = absurd (ground (arith, e, o))
  joining_facts l (looping o w r) e = absurd (ground (arith, e, o))
  joining_facts l (ending o w r) e = (w, r)
  joining_facts l (over o w r) e = absurd (ground (arith, e, o))

  few_left : (p : WorkerAt) → p ≢ unstarted → steps_left p ≤ 2
  few_left p begun = ground (arith, WorkerAt-cases p begun)

  fewer_left :
      (thread : ℕ) (l : Lifetime Queue)
      → l.worker_thread_running ≡ false
      → l.worker ≢ unstarted
      → (l' : Lifetime Queue) → WorkerGoes queue thread l l'
      → steps_left l'.worker < steps_left l.worker
  fewer_left thread l unset begun l' (starts e) = absurd (begun e)
  fewer_left thread l unset begun l' (enters e k) = absurd (ground (arith, k, unset))
  fewer_left thread l unset begun l' (serves turn v replies e k) = ground (arith, e)
  fewer_left thread l unset begun l' (leaves e k) = ground (arith, e)

  same_left :
      (l : Lifetime Queue)
      → l.owner ≡ joining
      → (l' : Lifetime Queue) → OthersGo queue l l'
      → steps_left l'.worker ≡ steps_left l.worker
  unfolding begin_destructor
  same_left l o l' (constructed e k) = refl
  same_left l o l' (destructs e) = refl
  same_left l o l' (joins e k) = refl
  same_left l o l' (calls c v k) = refl

  served :
      (thread turn : ℕ) (l : Lifetime Queue) (r : Result (Watcher Queue × List Reply))
      → l.worker ≡ in_body
      → worker_round queue turn l.state ≡ r
      → Returns (λ out. Unit {0}) r
      → (l' : Lifetime Queue) × WorkerGoes queue thread l l'
  served thread turn l (ok (v, replies)) e k h = (_, serves turn v replies e k)
  served thread turn l (fault f) e k h = absurd h

  progress :
      (thread : ℕ) (l : Lifetime Queue)
      → l.owner ≡ joining
      → l.worker_thread_running ≡ false
      → l.worker ≢ unstarted
      → (turn : ℕ) → Returns (λ out. Unit {0}) (worker_round queue turn l.state)
      → (OthersGo queue l (record l { owner = destroyed }))
        ⊎ ((l' : Lifetime Queue) × WorkerGoes queue thread l l')
  progress thread l o unset begun turn h = elim (WorkerAt-cases l.worker begun) [
    | inl e ↦ inr (_, leaves e unset)
    | inr (inl e) ↦ inr (served thread turn l (worker_round queue turn l.state) e refl h)
    | inr (inr e) ↦ inl (joins o e)
  ]

  -- In every order of steps, from the constructor on: once the destructor waits in its join, the
  -- worker has two steps left at most, each step takes one off, and no step of another thread adds
  -- one. And some step can be taken, if the round that the worker may be in returns: the worker's
  -- own, or the join returning.
  pub joining-Ending :
      (thread : ℕ) (l : Lifetime Queue)
      → Reached queue thread l
      → l.owner ≡ joining
      → Ending thread l
  joining-Ending thread l h o =
      let (begun, unset) = joining_facts l (reached-Fits thread h) o in
      record {
        few = few_left l.worker begun;
        fewer = fewer_left thread l unset begun;
        untouched = same_left l o;
        goes_on = progress thread l o unset begun;
      }
