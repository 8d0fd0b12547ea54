-- ===== src/Watcher/Flags.antt =====
-- Every heap call leaves the flag of every thread as it was: the pause token puts it back.
use heap_watcher.Prelude.{
  ℕ, ◌*◌, u64, ◌≡◌, refl, Bool, true, false, List, if◌then◌else◌, inl, inr, Option-cases, arith,
  Result, ok, IfReturns, IfReturns-after, IfReturns-bind,
}
use heap_watcher.AddressMap.{find}
use heap_watcher.Requests.{realloc_request, free_of}
use heap_watcher.Queue.{RequestQueue}
use heap_watcher.KnownLeaks.{is_known_leak}
use heap_watcher.Watcher.Backtrace.{capture, read_tail, from_pointer, tail_depth}
use heap_watcher.Watcher.{
  Watcher, HeapFunction, libc, instrumented, single_thread_instrumented, is_watching_this_thread,
  is_watching_single, pause_token, destroy_token,
}
use heap_watcher.Watcher.HeapCalls.{
  HeapCall, malloc_call, calloc_call, realloc_call, free_call, guarded, record_single, erase_single,
  emplace_single, send, send_malloc, count_known_leak, move_single, record_captured,
  record_allocation, call,
}

-- The flags of two states are the same.
abbrev pub SameFlags : {Q : Type 0} → Watcher Q → Watcher Q → Type 0
SameFlags w v = (j : ℕ) → v.watching_thread j ≡ w.watching_thread j

module _ {Q : Type 0} where
  guarded-SameFlags :
      (thread : ℕ) (body : Watcher Q → Result (Watcher Q)) (w : Watcher Q)
      → ((v : Watcher Q) → IfReturns (SameFlags v) (body v))
      → IfReturns (SameFlags w) (guarded thread body w)
  unfolding pause_token destroy_token
  guarded-SameFlags thread body w keep =
      IfReturns-bind (SameFlags (pause_token thread w).1) (SameFlags w)
        (body (pause_token thread w).1) _ (keep (pause_token thread w).1)
        (λ v e j. ground (arith, e j))

  record_single-SameFlags :
      (size address : ℕ) (frames : List ℕ) (w : Watcher Q)
      → IfReturns (SameFlags w) (record_single size address frames w)
  unfolding record_single
  record_single-SameFlags size address frames w =
      IfReturns-after (SameFlags w) (capture w.malloc_depth_in_call_stack frames) _ λ stack_tail.
        IfReturns-after (SameFlags w) (read_tail w.malloc_depth_in_call_stack stack_tail)
          (λ trace. ok (emplace_single size address trace w)) (λ trace j. refl)

  move_single-SameFlags :
      (original_address new_address new_size : ℕ) (w : Watcher Q)
      → IfReturns (SameFlags w) (move_single original_address new_address new_size w)
  unfolding move_single
  move_single-SameFlags original_address new_address new_size w =
      elim (Option-cases (find original_address w.books.allocations)) [
        | inl e ↦ rw (e, move_single) (λ j. refl)
        | inr (prior, e) ↦ rw (e, move_single) (λ j. refl)
      ]

  if-SameFlags :
      (b : Bool) (w : Watcher Q) (r s : Result (Watcher Q))
      → IfReturns (SameFlags w) r
      → IfReturns (SameFlags w) s
      → IfReturns (SameFlags w) (if b then r else s)
  if-SameFlags true w r s h k = h
  if-SameFlags false w r s h k = k

  -- The choice by a function pointer.
  dispatch-SameFlags :
      (f : HeapFunction) (w : Watcher Q) (r s : Result (Watcher Q))
      → IfReturns (SameFlags w) r
      → IfReturns (SameFlags w) s
      → IfReturns
          (SameFlags w)
          (elim f [ libc ↦ ok w | instrumented ↦ r | single_thread_instrumented ↦ s ])
  dispatch-SameFlags libc w r s h k = λ j. refl
  dispatch-SameFlags instrumented w r s h k = h
  dispatch-SameFlags single_thread_instrumented w r s h k = k

module _ (queue : RequestQueue) where
  open queue use {Queue}

  record_captured-SameFlags :
      (thread size address : ℕ) (stack_tail : List ℕ) (w : Watcher Queue)
      → IfReturns (SameFlags w) (record_captured queue thread size address stack_tail w)
  unfolding record_captured
  record_captured-SameFlags thread size address stack_tail w =
      IfReturns-after (SameFlags w)
        (is_known_leak w.known_leaks (from_pointer w.malloc_depth_in_call_stack stack_tail)
          (tail_depth w.malloc_depth_in_call_stack))
        _
        λ known.
          if-SameFlags known w (ok (count_known_leak queue w)) _ (λ j. refl)
            (IfReturns-after (SameFlags w) (read_tail w.malloc_depth_in_call_stack stack_tail)
              (λ trace. ok (send_malloc queue thread size address trace w)) (λ trace j. refl))

  record_allocation-SameFlags :
      (thread size address : ℕ) (frames : List ℕ) (w : Watcher Queue)
      → IfReturns (SameFlags w) (record_allocation queue thread size address frames w)
  unfolding record_allocation
  record_allocation-SameFlags thread size address frames w =
      IfReturns-after (SameFlags w) (capture w.malloc_depth_in_call_stack frames)
        (λ stack_tail. record_captured queue thread size address stack_tail w)
        (λ stack_tail. record_captured-SameFlags thread size address stack_tail w)

  -- Whatever a heap call does, the flag of every thread is afterwards what it was before.
  pub call-SameFlags : (c : HeapCall) (w : Watcher Queue) → IfReturns (SameFlags w) (call queue c w)
  unfolding call
  call-SameFlags (malloc_call thread size address frames) w =
      dispatch-SameFlags w.malloc_function w _ _
        (if-SameFlags (is_watching_this_thread thread w) w _ _
          (guarded-SameFlags thread _ w (record_allocation-SameFlags thread size address frames))
          (λ j. refl))
        (if-SameFlags (is_watching_single thread w) w _ _
          (guarded-SameFlags thread _ w (record_single-SameFlags size address frames)) (λ j. refl))
  call-SameFlags (calloc_call thread nitems size address frames) w =
      dispatch-SameFlags w.calloc_function w _ _
        (if-SameFlags (is_watching_this_thread thread w) w _ _
          (guarded-SameFlags thread _ w
            (record_allocation-SameFlags thread (u64 (size * nitems)) address frames))
          (λ j. refl))
        (if-SameFlags (is_watching_single thread w) w _ _
          (guarded-SameFlags thread _ w (record_single-SameFlags size address frames)) (λ j. refl))
  call-SameFlags (realloc_call thread original new_address new_size) w =
      dispatch-SameFlags w.realloc_function w _ _
        (if-SameFlags (is_watching_this_thread thread w) w _ _
          (guarded-SameFlags thread
            (λ v. ok (send queue thread (realloc_request original new_address new_size) v)) w
            (λ v j. refl))
          (λ j. refl))
        (if-SameFlags (is_watching_single thread w) w _ _
          (guarded-SameFlags thread _ w (move_single-SameFlags original new_address new_size))
          (λ j. refl))
  call-SameFlags (free_call thread address) w =
      dispatch-SameFlags w.free_function w _ _
        (if-SameFlags (is_watching_this_thread thread w) w _ _
          (guarded-SameFlags thread (λ v. ok (send queue thread (free_of address) v)) w
            (λ v j. refl))
          (λ j. refl))
        (if-SameFlags (is_watching_single thread w) w _ _
          (guarded-SameFlags thread (λ v. ok (erase_single address v)) w (λ v j. refl)) (λ j. refl))
