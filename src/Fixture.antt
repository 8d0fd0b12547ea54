-- ===== src/Fixture.antt =====
-- The fixtures of include/MultithreadedTestFixture.hpp: threads that wait for a common start, run a
-- workload each, and are joined; and the scoped fixture, which watches the heap around them.
pub mod Schedules
pub mod Scoped
mod Tests
use heap_watcher.Prelude.{
  ℕ, zero, suc, Bool, true, false, not, Option, none, some, List, [], ◌∷◌, ◌++◌, ◌≡◌, ◌&&◌,
  if◌then◌else◌, All,
}

-- Where a thread is in workload_wrapper: waiting for the start, asleep for its random start, in the
-- workload function with so many steps left before it returns, or at the end. `none` is a workload
-- function that does not return.
pub data Phase : Type 0 where
  blocked : Phase
  delayed : Phase
  working : Option ℕ → Phase
  finished : Phase

-- A thread: its workload function, of which the steps that it takes are known, and whether its random
-- start is above 0.
pub record Worker : Type 0 where
  pub workload : Option ℕ
  pub random_start : Bool
  pub phase : Phase

-- MultithreadedTestFixture: `test_threads_`, and whether `start_synchronizer_` is set.
pub record Fixture : Type 0 where
  pub test_threads : List Worker
  pub started : Bool

abbrev pub new_fixture : Fixture
new_fixture = record { test_threads = []; started = false }

-- The threads that add_workload makes. With a random start above 0 each draws its own, which can
-- come out as 0; the draws are an argument, and those that are missing count as 0.
unfoldable pub new_workers : ℕ → Option ℕ → Bool → List Bool → List Worker
new_workers zero workload random_start draws = []
new_workers (suc n) workload random_start [] =
    record { workload = workload; random_start = false; phase = blocked }
    ∷ new_workers n workload random_start []
new_workers (suc n) workload random_start (d ∷ draws) =
    record { workload = workload; random_start = random_start && d; phase = blocked }
    ∷ new_workers n workload random_start draws

unfoldable pub add_workload : ℕ → Option ℕ → Bool → List Bool → Fixture → Fixture
unfolding new_workers
add_workload num_workers workload random_start draws f = record f {
  test_threads = f.test_threads ++ new_workers num_workers workload random_start draws;
}

-- start_workload: `none` is the std::future_error of a promise that is set already.
unfoldable pub start_workload : Fixture → Option Fixture
start_workload f = if f.started then none else some (record f { started = true })

-- A step in the workload function, which returns after its last one.
abbrev pub next_step : Option ℕ → Phase
next_step none = working none
next_step (some zero) = finished
next_step (some (suc n)) = working (some n)

-- Where a thread goes from where it is, if it can go on.
abbrev pub next_phase : Bool → Worker → Option Phase
next_phase started w = elim w.phase [
  | blocked ↦
      if started then some (if w.random_start then delayed else working w.workload) else none
  | delayed ↦ some (working w.workload)
  | working left ↦ some (next_step left)
  | finished ↦ none
]

-- One thread goes on, whichever the scheduler picks.
pub data Moves (started : Bool) : List Worker → List Worker → Type 0 where
  here :
      (w : Worker) (ws : List Worker) (p : Phase)
      → next_phase started w ≡ some p
      → Moves started (w ∷ ws) (record w { phase = p } ∷ ws)
  there :
      (w : Worker) {ws ws' : List Worker} → Moves started ws ws' → Moves started (w ∷ ws) (w ∷ ws')

-- wait_for_completion: whether every `join` has returned.
unfoldable pub all_finished : List Worker → Bool
all_finished [] = true
all_finished (w ∷ ws) = elim w.phase [
  | blocked ↦ false
  | delayed ↦ false
  | working left ↦ false
  | finished ↦ all_finished ws
]

-- The same as a proposition.
abbrev pub IsFinished : Worker → Type 0
IsFinished w = w.phase ≡ finished

abbrev pub Completed : Fixture → Type 0
Completed f = All IsFinished f.test_threads

-- One step of the program that uses the fixture, or of its threads.
pub data Step (f : Fixture) : Fixture → Type 0 where
  adds :
      (num_workers : ℕ) (workload : Option ℕ) (random_start : Bool) (draws : List Bool)
      → Step f (add_workload num_workers workload random_start draws f)
  starts : (f' : Fixture) → start_workload f ≡ some f' → Step f f'
  moves :
      (ws : List Worker)
      → Moves f.started f.test_threads ws
      → Step f (record f { test_threads = ws })

pub data Reach : Fixture → Type 0 where
  fresh : Reach new_fixture
  later : {f f' : Fixture} → Reach f → Step f f' → Reach f'
