-- ===== src/Watcher/Pausing.antt =====
-- A thread that is paused leaves no trace in the watcher.
use mathlib.Core.Path.{fun_ext}
use heap_watcher.Prelude.{ℕ, ◌≡◌, refl, ap, false, List, [], ◌∷◌, All, arith, ok}
use heap_watcher.Queue.{RequestQueue}
use heap_watcher.Watcher.{Watcher, destroy_token, pause_watching_this_thread}
use heap_watcher.Watcher.HeapCalls.{
  HeapCall, malloc_call, calloc_call, realloc_call, free_call, caller, call, calls,
}

module _ {Q : Type 0} where
  -- The destructor puts back what the constructor saved.
  pub destroy-pause :
      (thread : ℕ) (w : Watcher Q)
      → let paused = pause_watching_this_thread thread w in
        destroy_token thread paused.0 paused.1 ≡ w
  unfolding destroy_token pause_watching_this_thread
  destroy-pause thread w =
      ap (λ flags. record w { watching_thread = flags }) (fun_ext (λ j. ground arith))

  pub pause_off :
      (thread : ℕ) (w : Watcher Q)
      → (pause_watching_this_thread thread w).1.watching_thread thread ≡ false
  unfolding pause_watching_this_thread
  pause_off thread w = ground arith

module _ (queue : RequestQueue) where
  open queue use {Queue}

  -- A heap call of a paused thread changes nothing, whichever functions are in place.
  pub call_paused :
      (c : HeapCall) (w : Watcher Queue)
      → w.watching_thread (caller c) ≡ false
      → call queue c w ≡ ok w
  unfolding call
  call_paused (malloc_call thread size address frames) w e = ground (arith, e)
  call_paused (calloc_call thread nitems size address frames) w e = ground (arith, e)
  call_paused (realloc_call thread original new_address new_size) w e = ground (arith, e)
  call_paused (free_call thread address) w e = ground (arith, e)

  pub calls_paused :
      (thread : ℕ) (cs : List HeapCall) (w : Watcher Queue)
      → All (λ c. caller c ≡ thread) cs
      → w.watching_thread thread ≡ false
      → calls queue cs w ≡ ok w
  unfolding calls
  calls_paused thread [] w mine e = refl
  calls_paused thread (c ∷ cs) w mine e =
      rw (call_paused c w (rw mine.0 e)) (calls_paused thread cs w mine.1 e)
