-- ===== src/Watcher/ProbedDepth.antt =====
-- The depth of the wrappers in the call stack that probe_for_malloc_stack_depth of
-- src/HeapWatcher.cpp finds.
use heap_watcher.Prelude.{
  ℕ, suc, ◌+◌, ◌≤◌, ◌≡◌, ◌≢◌, refl, sym, ap, ◌⊎◌, inl, inr, true, false, none, some, List, [], ◌∷◌,
  ◌++◌, ◌==◌, length, length-append, All, arith, ok, Returns, Bool-cases,
}
use heap_watcher.Records.{max_callstack_retained}
use heap_watcher.Queue.{RequestQueue}
use heap_watcher.Symbols.{ModuleFunctionOffset, SymbolServices, symbols_for_addresses}
use heap_watcher.Watcher.{Watcher, remove_instrumentation}
use heap_watcher.Watcher.HeapCalls.{free}
use heap_watcher.Watcher.Backtrace.{max_malloc_depth_in_call_stack}
use heap_watcher.Watcher.Frames.{four_frames}
use heap_watcher.Watcher.OneCapture.{run_single-recorded}
use heap_watcher.Watcher.Probing.{
  same_text, first_named, malloc_name, probed_depth, probe_for_malloc_stack_depth,
}

-- The comparison of names decides whether they are the same.
same_text-cases :
    (c d : List ℕ) → ((c ≡ d) × (same_text c d ≡ true)) ⊎ ((c ≢ d) × (same_text c d ≡ false))
same_text-cases [] [] = inl (refl, refl)
same_text-cases [] (d ∷ ds) = inr (λ e. cc, refl)
same_text-cases (c ∷ cs) [] = inr (λ e. cc, refl)
same_text-cases (c ∷ cs) (d ∷ ds) = elim (Bool-cases (c == d)) [
  | inl same ↦ elim (same_text-cases cs ds) [
    | inl (e, t) ↦ inl (ground (arith, same, e), ground (arith, same, t))
    | inr (apart, t) ↦ inr (λ e. apart (cc), ground (arith, same, t))
  ]
  | inr other ↦ inr (λ e. ground (arith, other, e), ground (arith, other))
]

-- The first function with the name is the one at the index.
abbrev pub IsFirst : List ℕ → List ModuleFunctionOffset → ℕ → Type 0
IsFirst name ss i =
    (before : List ModuleFunctionOffset) × (s : ModuleFunctionOffset) × (after : List
      ModuleFunctionOffset)
    × (ss ≡ before ++ s ∷ after)
    × (s.function ≡ name)
    × All (λ t. t.function ≢ name) before
    × (length before ≡ i)

first_named-cases :
    (name : List ℕ) (offset : ℕ) (ss : List ModuleFunctionOffset)
    → (All (λ t. t.function ≢ name) ss × (first_named (name ∷ []) offset ss ≡ none))
      ⊎ ((i : ℕ) × IsFirst name ss i × (first_named (name ∷ []) offset ss ≡ some (offset + i)))
unfolding first_named
first_named-cases name offset [] = inl (tt, refl)
first_named-cases name offset (s ∷ ss) = elim (same_text-cases name s.function) [
  | inl (e, t) ↦ inr (0, ([], s, ss, refl, sym e, tt, refl), ground (arith, t))
  | inr (apart, t) ↦ elim (first_named-cases name (suc offset) ss) [
    | inl (no_one, f) ↦ inl ((λ e. apart (sym e), no_one), ground (arith, t, f))
    | inr (i, (before, s', after, split, named, others, count), f) ↦ inr (
      suc i,
      (
        s ∷ before,
        s',
        after,
        ap (λ xs. s ∷ xs) split,
        named,
        (λ e. apart (sym e), others),
        ap suc count,
      ),
      ground (arith, t, f),
    )
  ]
]

-- The depth that the probe has found: one behind the first frame named malloc, and at most one
-- more than the array `stack_tail` has room for; or that of before, where no frame has the name.
abbrev pub Probed : ℕ → List ModuleFunctionOffset → ℕ → Type 0
Probed depth ss depth' =
    (All (λ t. t.function ≢ malloc_name) ss × (depth' ≡ depth))
    ⊎ ((i : ℕ) × IsFirst malloc_name ss i
        × (depth' ≡ i + 1)
        × (depth' ≤ max_malloc_depth_in_call_stack + 1))

probed_depth-Probed :
    (depth : ℕ) (ss : List ModuleFunctionOffset)
    → length ss ≤ max_callstack_retained
    → Probed depth ss (probed_depth depth (first_named (malloc_name ∷ []) 0 ss))
unfolding probed_depth
probed_depth-Probed depth ss fits = elim (first_named-cases malloc_name 0 ss) [
  | inl (no_one, f) ↦ inl (no_one, rw f refl)
  | inr (i, (before, s, after, split, named, others, count), f) ↦ inr (
    i,
    (before, s, after, split, named, others, count),
    rw f (omega arith),
    rw f (omega (arith, fits, ap length split, length-append before (s ∷ after), count)),
  )
]

module _ (services : SymbolServices) (queue : RequestQueue) where
  open queue use {Queue}

  -- probe_for_malloc_stack_depth, run in an unpaused thread with the wrappers within their array,
  -- where the symbols of the four frames behind the wrappers can be had, at most one for each. The
  -- depth becomes one more than the number of frames in front of the first function with the name
  -- malloc, and stays as it is where there is none; it can be one more than the array has room for.
  -- The watch is off, and no block is in the single-threaded records.
  pub probe-Probed :
      (thread leaked_memory : ℕ) (frames : List ℕ) (ss : List ModuleFunctionOffset)
      (w : Watcher Queue)
      → w.watching_thread thread ≡ true
      → w.malloc_depth_in_call_stack ≤ max_malloc_depth_in_call_stack
      → symbols_for_addresses services (four_frames w.malloc_depth_in_call_stack frames) ≡ ok ss
      → length ss ≤ max_callstack_retained
      → Returns
          (λ out.
            Probed w.malloc_depth_in_call_stack ss out.malloc_depth_in_call_stack
            × (out.watching_globally ≡ false)
            × (out.single_threaded_allocations ≡ []))
          (probe_for_malloc_stack_depth services queue thread leaked_memory frames w)
  unfolding probe_for_malloc_stack_depth free remove_instrumentation
  probe-Probed thread leaked_memory frames ss w here fits named few =
      rw (run_single-recorded services queue thread 16 leaked_memory frames w here fits, named)
        (probed_depth-Probed w.malloc_depth_in_call_stack ss few, refl, refl)
