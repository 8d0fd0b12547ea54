-- ===== src/Watcher/Lifetime.antt =====
-- From the constructor of HeapWatcherImpl to its destructor: the flag worker_thread_running_, the
-- loop of worker_main that tests it, and the join.
use heap_watcher.Prelude.{ℕ, ◌≡◌, Bool, true, false, List, ◌==◌, if◌then◌else◌, ok}
use heap_watcher.Queue.{RequestQueue}
use heap_watcher.Worker.{Reply}
use heap_watcher.Watcher.{Watcher}
use heap_watcher.Watcher.HeapCalls.{HeapCall, call}
use heap_watcher.Watcher.Commands.{worker_round}

-- Where the worker thread is: before its first statement, at the condition of `while`, in the body,
-- or at its end.
pub data WorkerAt : Type 0 where
  unstarted : WorkerAt
  at_condition : WorkerAt
  in_body : WorkerAt
  ended : WorkerAt

-- Where the thread that owns the object is: in the loop of the constructor that waits for the flag,
-- past it, in the join of the destructor, or past that.
pub data OwnerAt : Type 0 where
  constructing : OwnerAt
  alive : OwnerAt
  joining : OwnerAt
  destroyed : OwnerAt

pub record Lifetime (Q : Type 0) : Type 0 where
  pub worker : WorkerAt
  pub owner : OwnerAt
  pub worker_thread_running : Bool
  pub state : Watcher Q

-- The first statements of worker_main, where the worker is the given thread.
unfoldable pub begin_worker : {Q : Type 0} → ℕ → Lifetime Q → Lifetime Q
begin_worker thread l = record l {
  worker = at_condition;
  worker_thread_running = true;
  state = record (l.state) {
    watching_thread = λ t. if t == thread then false else l.state.watching_thread t;
  };
}

-- The first statement of the destructor; the join comes next.
unfoldable pub begin_destructor : {Q : Type 0} → Lifetime Q → Lifetime Q
begin_destructor l = record l { owner = joining; worker_thread_running = false }

module _ (queue : RequestQueue) where
  open queue use {Queue}

  -- The worker thread goes on.
  pub data WorkerGoes (thread : ℕ) (l : Lifetime Queue) : Lifetime Queue → Type 0 where
    starts : l.worker ≡ unstarted → WorkerGoes thread l (begin_worker thread l)
    enters :
        l.worker ≡ at_condition
        → l.worker_thread_running ≡ true
        → WorkerGoes thread l (record l { worker = in_body })
    serves :
        (turn : ℕ) (v : Watcher Queue) (replies : List Reply)
        → l.worker ≡ in_body
        → worker_round queue turn l.state ≡ ok (v, replies)
        → WorkerGoes thread l (record l { worker = at_condition; state = v })
    leaves :
        l.worker ≡ at_condition
        → l.worker_thread_running ≡ false
        → WorkerGoes thread l (record l { worker = ended })

  -- The owner goes on, or some thread makes a heap call.
  pub data OthersGo (l : Lifetime Queue) : Lifetime Queue → Type 0 where
    constructed :
        l.owner ≡ constructing
        → l.worker_thread_running ≡ true
        → OthersGo l (record l { owner = alive })
    destructs : l.owner ≡ alive → OthersGo l (begin_destructor l)
    joins : l.owner ≡ joining → l.worker ≡ ended → OthersGo l (record l { owner = destroyed })
    calls :
        (c : HeapCall) (v : Watcher Queue)
        → call queue c l.state ≡ ok v
        → OthersGo l (record l { state = v })

  -- What is reached from the start of the constructor.
  pub data Reached (thread : ℕ) : Lifetime Queue → Type 0 where
    begins :
        (w : Watcher Queue)
        → Reached thread (record {
          worker = unstarted;
          owner = constructing;
          worker_thread_running = false;
          state = w;
        })
    by_worker :
        {l l' : Lifetime Queue} → Reached thread l → WorkerGoes thread l l' → Reached thread l'
    by_others : {l l' : Lifetime Queue} → Reached thread l → OthersGo l l' → Reached thread l'
