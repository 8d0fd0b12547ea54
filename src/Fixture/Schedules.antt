-- ===== src/Fixture/Schedules.antt =====
-- When the workloads of a fixture run, and that they come to an end.
use mathlib.Core.Path.{subst}
use heap_watcher.Prelude.{
  ℕ, zero, suc, ◌+◌, ◌≤◌, ◌≡◌, refl, ◌⊎◌, inl, inr, Bool, true, false, none, Option, sym, some,
  List, [], ◌∷◌, ◌++◌, if◌then◌else◌, All, arith, Bool-cases,
}
use heap_watcher.Fixture.{
  Phase, blocked, delayed, working, finished, Worker, Fixture, new_workers, add_workload,
  start_workload, next_phase, next_step, Moves, here, there, IsFinished, Step, adds, starts, moves,
  Reach, fresh, later,
}

abbrev pub IsBlocked : Worker → Type 0
IsBlocked w = w.phase ≡ blocked

new_workers-IsBlocked :
    (n : ℕ) (workload : Option ℕ) (random_start : Bool) (draws : List Bool)
    → All IsBlocked (new_workers n workload random_start draws)
unfolding new_workers
new_workers-IsBlocked zero workload random_start draws = tt
new_workers-IsBlocked (suc n) workload random_start [] =
    (refl, new_workers-IsBlocked n workload random_start [])
new_workers-IsBlocked (suc n) workload random_start (d ∷ draws) =
    (refl, new_workers-IsBlocked n workload random_start draws)

All-both : (P : Worker → Type 0) (xs ys : List Worker) → All P xs → All P ys → All P (xs ++ ys)
All-both P [] ys h k = k
All-both P (x ∷ xs) ys h k = (h.0, All-both P xs ys h.1 k)

-- A thread that waits for the start does not go on before it.
blocked_stays : {ws ws' : List Worker} → All IsBlocked ws → Moves false ws ws' → ⊥
blocked_stays h (here w ws p e) = ground (arith, h.0, e)
blocked_stays h (there w m) = blocked_stays h.1 m

-- The state before the start.
abbrev pub Waits : Fixture → Type 0
Waits f = (f.started ≡ true) ⊎ All IsBlocked f.test_threads

further-Waits : {f f' : Fixture} → Waits f → Step f f' → Waits f'
unfolding add_workload start_workload
further-Waits {f} h (adds n k r ds) = elim h [
  | inl e ↦ inl e
  | inr b ↦
      inr (
        All-both IsBlocked f.test_threads (new_workers n k r ds) b (new_workers-IsBlocked n k r ds))
]
further-Waits {f} h (starts f' e) = ground (arith, e)
further-Waits {f} h (moves ws m) = elim (Bool-cases f.started) [
  | inl on ↦ inl on
  | inr off ↦ elim h [
    | inl e ↦ inl e
    | inr b ↦ absurd (blocked_stays b (subst (λ s. Moves s f.test_threads ws) off m))
  ]
]

reach-Waits : {f : Fixture} → Reach f → Waits f
reach-Waits fresh = inr tt
reach-Waits (later r st) = further-Waits (reach-Waits r) st

-- Whatever the program adds and the scheduler picks, as long as start_workload has not been called
-- every thread waits for the start: no workload has begun, and no thread can go on by itself.
pub unstarted-IsBlocked :
    (f : Fixture)
    → Reach f
    → f.started ≡ false
    → All IsBlocked f.test_threads × ((ws : List Worker) → ¬ Moves f.started f.test_threads ws)
unstarted-IsBlocked f r off =
    let b : All IsBlocked f.test_threads = elim (reach-Waits r) [
      | inl on ↦ absurd (ground (arith, on, off))
      | inr b ↦ b
    ] in
    (b, λ ws m. blocked_stays b (subst (λ s. Moves s f.test_threads ws) off m))

-- The workload function of the thread returns.
abbrev pub IsReturning : Worker → Type 0
IsReturning w = (n : ℕ) × (w.workload ≡ some n)

-- It has not been replaced by one that does not.
abbrev IsOnCourse : Phase → Type 0
IsOnCourse (working none) = ⊥
IsOnCourse _ = Unit {0}

abbrev IsSound : Worker → Type 0
IsSound w = IsReturning w × IsOnCourse w.phase

-- The steps of a workload function, and its return.
abbrev pub steps : Option ℕ → ℕ
steps none = 0
steps (some n) = suc n

-- The moves that a thread still has to make: out of the wait, out of its random start, and those of
-- its workload function.
abbrev left_at : Worker → Phase → ℕ
left_at w blocked = (if w.random_start then 2 else 1) + steps w.workload
left_at w delayed = 1 + steps w.workload
left_at w (working left) = steps left
left_at w finished = 0

-- The moves of a thread from the start to its end.
abbrev pub moves_of : Worker → ℕ
moves_of w = (if w.random_start then 2 else 1) + steps w.workload

abbrev pub all_moves : List Worker → ℕ
all_moves [] = 0
all_moves (w ∷ ws) = moves_of w + all_moves ws

abbrev left : List Worker → ℕ
left [] = 0
left (w ∷ ws) = left_at w w.phase + left ws

-- A thread makes one of its moves, and is on course as before.
one_less :
    (w : Worker) (p : Phase)
    → IsSound w
    → next_phase true w ≡ some p
    → (1 + left_at w p ≡ left_at w w.phase) × IsOnCourse p
one_less w p ((n, returns), course) e = go w.phase refl
  where
    go : (q : Phase) → w.phase ≡ q → (1 + left_at w p ≡ left_at w w.phase) × IsOnCourse p
    go blocked h = ground (arith, h, e, returns)
    go delayed h = ground (arith, h, e, returns)
    go (working none) h = absurd (subst IsOnCourse h course)
    go (working (some zero)) h = ground (arith, h, e)
    go (working (some (suc m))) h = ground (arith, h, e)
    go finished h = ground (arith, h, e)

all_less :
    {ws ws' : List Worker}
    → All IsSound ws
    → Moves true ws ws'
    → (1 + left ws' ≡ left ws) × All IsSound ws'
all_less sound (here w ws p e) =
    let (less, course) = one_less w p sound.0 e in
    (omega (arith, less), ((sound.0.0, course), sound.1))
all_less sound (there w m) =
    let (less, rest) = all_less sound.1 m in (omega (arith, less), (sound.0, rest))

-- After the start a thread that is not at the end can go on.
goes_on : (ws : List Worker) → All IsFinished ws ⊎ ((ws' : List Worker) × Moves true ws ws')
goes_on [] = inl tt
goes_on (w ∷ ws) = elim (goes_on ws) [
  | inr (ws', m) ↦ inr (w ∷ ws', there w m)
  | inl h ↦ go w.phase refl h
]
  where
    go :
        (q : Phase)
        → w.phase ≡ q
        → All IsFinished ws
        → All IsFinished (w ∷ ws) ⊎ ((ws' : List Worker) × Moves true (w ∷ ws) ws')
    go blocked e h =
        inr (
          _,
          here w ws (if w.random_start then delayed else working w.workload) (ground (arith, e)),
        )
    go delayed e h = inr (_, here w ws (working w.workload) (ground (arith, e)))
    go (working n) e h = inr (_, here w ws (next_step n) (ground (arith, e)))
    go finished e h = inl (e, h)

-- So many moves of the threads, as the scheduler picks them.
pub data Run (started : Bool) (ws : List Worker) : ℕ → List Worker → Type 0 where
  stays : Run started ws 0 ws
  goes :
      {n : ℕ} {ws' ws'' : List Worker}
      → Run started ws n ws'
      → Moves started ws' ws''
      → Run started ws (suc n) ws''

moves_left :
    {ws ws' : List Worker} {n : ℕ}
    → All IsSound ws
    → Run true ws n ws'
    → (n + left ws' ≡ left ws) × All IsSound ws'
moves_left sound stays = (omega arith, sound)
moves_left sound (goes r m) =
    let (same, sound') = moves_left sound r in
    let (less, sound'') = all_less sound' m in (omega (arith, same, less), sound'')

begin-IsSound : (ws : List Worker) → All IsBlocked ws → All IsReturning ws → All IsSound ws
begin-IsSound [] b r = tt
begin-IsSound (w ∷ ws) b r = ((r.0, subst IsOnCourse (sym b.0) tt), begin-IsSound ws b.1 r.1)

left-all_moves : (ws : List Worker) → All IsBlocked ws → left ws ≡ all_moves ws
left-all_moves [] b = refl
left-all_moves (w ∷ ws) b = ground (arith, b.0, left-all_moves ws b.1)

left-finished : (ws : List Worker) → All IsFinished ws → left ws ≡ 0
left-finished [] h = refl
left-finished (w ∷ ws) h = ground (arith, h.0, left-finished ws h.1)

-- Threads that wait for the start, with workload functions that return, after start_workload: no
-- schedule makes more moves than the threads have, one out of the wait, one out of the random start
-- where there is one, the steps of the workload function and its return. When every thread is at its
-- end, exactly these moves have been made, so that every workload has been run to its end; until then
-- some thread can go on.
pub workloads_finish :
    (n : ℕ) (ws ws' : List Worker)
    → All IsBlocked ws
    → All IsReturning ws
    → Run true ws n ws'
    → (n ≤ all_moves ws)
      × ((All IsFinished ws' × (n ≡ all_moves ws)) ⊎ ((ws'' : List Worker) × Moves true ws' ws''))
workloads_finish n ws ws' b r run =
    let (same, sound) = moves_left (begin-IsSound ws b r) run in
    let start = left-all_moves ws b in
    (
      omega (arith, same, start),
      elim (goes_on ws') [
        | inl h ↦ inl (h, omega (arith, same, start, left-finished ws' h))
        | inr m ↦ inr m
      ],
    )
