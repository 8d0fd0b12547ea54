-- ===== src/Symbols/StackTrace.antt =====
-- The loop of AllocationRecord::stack_trace over the array of return addresses.
use heap_watcher.Prelude.{
  ℕ, suc, ◌+◌, ◌≤◌, ◌≡◌, refl, ◌≢◌, List, [], ◌∷◌, ◌++◌, All, length, ap, length-append, arith, ok,
  fault, read_past_end,
}
use heap_watcher.Records.{AllocationRecord, max_callstack_retained}
use heap_watcher.Symbols.{SymbolServices, tail_entries, stack_trace, symbols_for_addresses}

-- The loop runs through nonzero addresses up to the bound, and stops at the first null one.
tail_entries-stops :
    (n : ℕ) (as' rest : List ℕ)
    → All (λ a. a ≢ 0) as'
    → n + length as' ≤ max_callstack_retained
    → tail_entries n (as' ++ 0 ∷ rest) ≡ ok as'
unfolding tail_entries
tail_entries-stops n [] rest h fits = refl
tail_entries-stops n (a ∷ as') rest h fits = ground (arith, tail_entries-stops (suc n) as' rest h.1)

tail_entries-overruns :
    (n : ℕ) (as' : List ℕ)
    → All (λ a. a ≢ 0) as'
    → n + length as' ≡ max_callstack_retained
    → tail_entries n as' ≡ fault read_past_end
unfolding tail_entries
tail_entries-overruns n [] h fits = refl
tail_entries-overruns n (a ∷ as') h fits = ground (arith, tail_entries-overruns (suc n) as' h.1)

module _ (services : SymbolServices) where
  -- Of a stack trace that a null address ends within the array, stack_trace looks up the addresses
  -- before it, and reads nothing past the array.
  pub stack_trace-stops :
      (r : AllocationRecord) (as' rest : List ℕ)
      → r.raw_stack_trace ≡ as' ++ 0 ∷ rest
      → length r.raw_stack_trace ≡ max_callstack_retained
      → All (λ a. a ≢ 0) as'
      → stack_trace services r ≡ symbols_for_addresses services as'
  unfolding stack_trace
  stack_trace-stops r as' rest e n h = rw (
    e,
    tail_entries-stops 0 as' rest h (omega (arith, n, ap length e, length-append as' (0 ∷ rest))),
  )

  -- Of a full stack trace, with no null address in the array, the loop reads the element one past
  -- the array before it tests its bound.
  pub stack_trace-overruns :
      (r : AllocationRecord)
      → length r.raw_stack_trace ≡ max_callstack_retained
      → All (λ a. a ≢ 0) r.raw_stack_trace
      → stack_trace services r ≡ fault read_past_end
  unfolding stack_trace
  stack_trace-overruns r n h = rw (tail_entries-overruns 0 r.raw_stack_trace h (omega (arith, n)))
