-- ===== src/Watcher/Guards.antt =====
-- PauseThreadWatchGuard of include/HeapWatcher.hpp: who owns the token of a pause, and pauses within
-- pauses.
use heap_watcher.Prelude.{
  ℕ, ◌≡◌, refl, ap, ◌∙◌, Bool, true, false, Option, none, some, arith, Result, ok, ◌>>=◌, Returns,
  Returns-bind, IfReturns, Bool-cases, inl, inr, sym,
}
use heap_watcher.Prelude.{ok_bind}
use heap_watcher.Queue.{RequestQueue}
use mathlib.Core.Path.{subst}
use heap_watcher.Requests.{free_of}
use heap_watcher.Watcher.Flags.{SameFlags, call-SameFlags}
use heap_watcher.Watcher.{
  Watcher, HeapFunction, libc, instrumented, single_thread_instrumented, is_watching_this_thread,
  is_watching_single, pause_token, destroy_token, pause_watching_this_thread,
}
use heap_watcher.Watcher.HeapCalls.{HeapCall, free_call, caller, call, send, erase_single}
use heap_watcher.Watcher.Sending.{IsWatching, after, call-sends}
use heap_watcher.Watcher.Pausing.{destroy-pause, call_paused, pause_off}

-- The token on the heap: its address and its saved value.
pub record Token : Type 0 where
  pub address : ℕ
  pub saved_value : Bool

-- The guard's unique_ptr: the token that it owns, if it owns one.
pub record PauseThreadWatchGuard : Type 0 where
  pub token : Option Token

-- The constructor, which takes the token over.
abbrev pub guard_of : Token → PauseThreadWatchGuard
guard_of token = record { token = some token }

-- The move constructor: the guard that is left, and the new one.
unfoldable pub move_guard : PauseThreadWatchGuard → PauseThreadWatchGuard × PauseThreadWatchGuard
move_guard guard = (record { token = none }, guard)

-- What a thread does between two points: heap calls, and scopes with a guard of their own, whose
-- token `new` puts at the address.
pub data Scope : Type 0 where
  done : Scope
  then_call : HeapCall → Scope → Scope
  then_paused : (address : ℕ) → Scope → Scope → Scope

-- Every call is the thread's.
abbrev pub IsOf : ℕ → Scope → Type 0
IsOf thread done = Unit {0}
IsOf thread (then_call c rest) = (caller c ≡ thread) × IsOf thread rest
IsOf thread (then_paused address inner rest) = IsOf thread inner × IsOf thread rest

module _ (queue : RequestQueue) where
  open queue use {Queue}

  -- The destructor: the unique_ptr deletes the token if there is one, so that the flag is set back
  -- first, and then the block of the token is freed.
  unfoldable pub destroy_guard : ℕ → PauseThreadWatchGuard → Watcher Queue → Result (Watcher Queue)
  unfolding destroy_token call
  destroy_guard thread guard w = elim guard.token [
    | none ↦ ok w
    | some token ↦
        call queue (free_call thread token.address) (destroy_token thread token.saved_value w)
  ]

  -- pause_watching_this_thread with the guard that it returns: a temporary one is moved, and
  -- destroyed when it owns nothing any more. The `new` of the token is a heap call of a thread that
  -- is paused already, and changes nothing.
  unfoldable pub paused_guard :
      ℕ → ℕ → Watcher Queue → Result (PauseThreadWatchGuard × Watcher Queue)
  unfolding pause_watching_this_thread move_guard destroy_guard
  paused_guard thread address w =
      let (saved_value, paused) = pause_watching_this_thread thread w in
      let token : Token = record { address = address; saved_value = saved_value } in
      let (left, moved) = move_guard (guard_of token) in
      do w' ← destroy_guard thread left paused; ok (moved, w')

  unfoldable pub run_scope : ℕ → Scope → Watcher Queue → Result (Watcher Queue)
  unfolding call paused_guard destroy_guard
  run_scope thread done w = ok w
  run_scope thread (then_call c rest) w = do called ← call queue c w; run_scope thread rest called
  run_scope thread (then_paused address inner rest) w = do
    (guard, paused) ← paused_guard thread address w
    ran ← run_scope thread inner paused
    ended ← destroy_guard thread guard ran
    run_scope thread rest ended

  -- The guard that a pause makes.
  abbrev pub made : ℕ → ℕ → Watcher Queue → PauseThreadWatchGuard
  made thread address w =
      guard_of (record { address = address; saved_value = w.watching_thread thread })

  abbrev pub paused_by : ℕ → Watcher Queue → Watcher Queue
  paused_by thread w = (pause_watching_this_thread thread w).1

  pub paused_guard-makes :
      (thread address : ℕ) (w : Watcher Queue)
      → paused_guard thread address w ≡ ok (made thread address w, paused_by thread w)
  unfolding paused_guard pause_watching_this_thread
  paused_guard-makes thread address w = refl

  -- The end of a pause is a free of the token, in the state before the pause.
  pub destroy_guard-frees :
      (thread address : ℕ) (w : Watcher Queue)
      → destroy_guard thread (made thread address w) (paused_by thread w)
        ≡ call queue (free_call thread address) w
  unfolding destroy_guard pause_watching_this_thread
  destroy_guard-frees thread address w =
      ap (call queue (free_call thread address)) (destroy-pause thread w)

  scope_paused :
      (thread : ℕ) (scope : Scope) (w : Watcher Queue)
      → IsOf thread scope
      → w.watching_thread thread ≡ false
      → run_scope thread scope w ≡ ok w
  unfolding run_scope paused_guard pause_watching_this_thread
  scope_paused thread done w mine e = refl
  scope_paused thread (then_call c rest) w mine e =
      rw (call_paused queue c w (rw mine.0 e)) (scope_paused thread rest w mine.1 e)
  scope_paused thread (then_paused address inner rest) w mine e =
      ok_bind (λ ran. destroy_guard thread (made thread address w) ran >>= run_scope thread rest)
        (scope_paused thread inner (paused_by thread w) mine.0 (pause_off thread w))
      ∙ ok_bind (run_scope thread rest)
          (destroy_guard-frees thread address w ∙ call_paused queue (free_call thread address) w e)
      ∙ scope_paused thread rest w mine.1 e

  -- A scope of a watched thread with a guard of its own, whatever heap calls and further pauses of
  -- that thread stand in it, sends one request, which is none of theirs: the free of the guard's
  -- token, which the thread makes when it is watched again. What follows runs as after a free of the
  -- token in place of the scope.
  pub then_paused-sends :
      (thread address : ℕ) (inner rest : Scope) (w : Watcher Queue)
      → IsWatching thread w
      → IsOf thread inner
      → run_scope thread (then_paused address inner rest) w
        ≡ run_scope thread rest (after queue (free_call thread address) w)
  unfolding run_scope paused_guard pause_watching_this_thread
  then_paused-sends thread address inner rest w on mine =
      ok_bind (λ ran. destroy_guard thread (made thread address w) ran >>= run_scope thread rest)
        (scope_paused thread inner (paused_by thread w) mine (pause_off thread w))
      ∙ ok_bind (run_scope thread rest) (
          destroy_guard-frees thread address w
          ∙ call-sends queue (free_call thread address) w on tt)

  free_returns :
      (thread address : ℕ) (w : Watcher Queue)
      → (v : Watcher Queue) × (call queue (free_call thread address) w ≡ ok v)
  unfolding call pause_token destroy_token
  free_returns thread address w = go w.free_function refl
    where
      go :
          (f : HeapFunction)
          → w.free_function ≡ f
          → (v : Watcher Queue) × (call queue (free_call thread address) w ≡ ok v)
      go libc e = (w, ground (arith, e))
      go instrumented e = elim (Bool-cases (is_watching_this_thread thread w)) [
        | inl on ↦ (
          destroy_token thread (w.watching_thread thread)
              (send queue thread (free_of address) (pause_token thread w).1),
          ground (arith, e, on),
        )
        | inr off ↦ (w, ground (arith, e, off))
      ]
      go single_thread_instrumented e = elim (Bool-cases (is_watching_single thread w)) [
        | inl on ↦ (
          destroy_token thread (w.watching_thread thread)
              (erase_single address (pause_token thread w).1),
          ground (arith, e, on),
        )
        | inr off ↦ (w, ground (arith, e, off))
      ]

  -- A free returns, and changes no flag.
  free-keeps :
      (thread address : ℕ) (w : Watcher Queue)
      → Returns (SameFlags w) (call queue (free_call thread address) w)
  free-keeps thread address w =
      let (v, e) = free_returns thread address w in
      subst (Returns (SameFlags w)) (sym e)
        (subst (IfReturns (SameFlags w)) e (call-SameFlags queue (free_call thread address) w))

  -- Two guards of a thread, of which the first is destroyed first, as moving it allows: the thread is
  -- watched between the two destructors, although the second guard is there, and is not watched after
  -- them, although no guard is left. All four steps return.
  pub crossed_guards :
      (thread address address' : ℕ) (w : Watcher Queue)
      → w.watching_thread thread ≡ true
      → Returns
          (λ (out : Watcher Queue × Watcher Queue).
            (out.0.watching_thread thread ≡ true) × (out.1.watching_thread thread ≡ false))
          (do
            (first, once) ← paused_guard thread address w
            (second, twice) ← paused_guard thread address' once
            between ← destroy_guard thread first twice
            end ← destroy_guard thread second between
            ok (between, end))
  unfolding paused_guard destroy_guard pause_watching_this_thread destroy_token
  crossed_guards thread address address' w e =
      let once = paused_by thread w in
      let first_ended = destroy_token thread (w.watching_thread thread) (paused_by thread once) in
      Returns-bind (SameFlags first_ended) _ (call queue (free_call thread address) first_ended) _
        (free-keeps thread address first_ended)
        (λ between same.
          let second_ended = destroy_token thread (once.watching_thread thread) between in
          Returns-bind (SameFlags second_ended) _
            (call queue (free_call thread address') second_ended) _
            (free-keeps thread address' second_ended)
            (λ end same'. (ground (arith, e, same thread), ground (arith, e, same' thread))))
