-- ===== src/Watcher/CaptureTests.antt =====
-- The probe and the capture of known leaks over services that find malloc in every frame.
use Prim.Native.Char.{code}
use Prim.Native.String.{String}
use heap_watcher.Prelude.{
  ℕ, ◌≡◌, refl, false, some, none, List, [], ◌∷◌, map, arith, ok, fault, read_past_end, Returns,
}
use heap_watcher.Records.{AllocationRecord, allocation_record}
use heap_watcher.Queue.Sample.{list_queue}
use heap_watcher.Symbols.{SymbolServices, ModuleFunctionOffset, symbols_for_addresses}
use heap_watcher.Symbols.Text.{find_char, substr}
use heap_watcher.Watcher.{Watcher}
use heap_watcher.Watcher.HeapCalls.{malloc_call}
use heap_watcher.Watcher.Probing.{
  initial_watcher, malloc_name, capture_known_leak, probe_for_malloc_stack_depth,
}
use heap_watcher.AddressMap.{find}
use heap_watcher.Watcher.{set_single_threaded_instrumentation, is_watching_single}
use heap_watcher.Watcher.HeapCalls.{realloc, calloc}
use heap_watcher.Watcher.SingleThread.{single_realloc_missed, HasRecord, single_calloc_size}
use heap_watcher.Watcher.OneCapture.{capture-overruns}
use heap_watcher.Watcher.ProbedDepth.{Probed, probe-Probed}

abbrev codes : String → List ℕ
codes String.[] = []
codes (String.◌∷◌ c s) = code c ∷ codes s

abbrev everywhere : SymbolServices
everywhere = record {
  demangle = λ name. none;
  backtrace_symbols = λ addresses. some (map (λ a. codes "./tests(malloc+0x1c) [0x40]") addresses);
}

abbrev fresh : Watcher (list_queue.Queue)
fresh = initial_watcher everywhere list_queue 1

abbrev in_malloc : ModuleFunctionOffset
in_malloc = record {
  address = codes "0x40";
  module_name = codes "./tests";
  function = codes "malloc";
  offset = codes "+0x1c";
}

abbrev leak : AllocationRecord
leak = allocation_record 16 100 1 (10 ∷ 20 ∷ 30 ∷ 0 ∷ [])

leak_symbols :
    symbols_for_addresses everywhere leak.raw_stack_trace
    ≡ ok (in_malloc ∷ in_malloc ∷ in_malloc ∷ [])
unfolding symbols_for_addresses find_char substr
leak_symbols = refl

probe-Probed_example :
    Returns
      (λ out.
        Probed 0 (in_malloc ∷ in_malloc ∷ in_malloc ∷ []) out.malloc_depth_in_call_stack
        × (out.watching_globally ≡ false)
        × (out.single_threaded_allocations ≡ []))
      (probe_for_malloc_stack_depth everywhere list_queue 7 100 (10 ∷ 20 ∷ 30 ∷ []) fresh)
probe-Probed_example =
    probe-Probed everywhere list_queue 7 100 (10 ∷ 20 ∷ 30 ∷ [])
      (in_malloc ∷ in_malloc ∷ in_malloc ∷ []) fresh refl (omega arith) leak_symbols (omega arith)

capture-overruns_example :
    capture_known_leak everywhere list_queue 7
      (malloc_name ∷ [])
      (malloc_call 7 16 100 (10 ∷ 20 ∷ 30 ∷ 40 ∷ 50 ∷ []) ∷ [])
      fresh
    ≡ fault read_past_end
capture-overruns_example =
    capture-overruns everywhere list_queue 7 16 100 (10 ∷ 20 ∷ 30 ∷ 40 ∷ 50 ∷ []) (malloc_name ∷ [])
      fresh refl refl (omega arith)
      (
        λ e. omega (arith, e),
        (λ e. omega (arith, e), (λ e. omega (arith, e), (λ e. omega (arith, e), tt))),
      )

abbrev single : Watcher (list_queue.Queue)
single = set_single_threaded_instrumentation (record fresh {
  watched_single_thread_id = some 7;
  single_threaded_allocations = (100, leak) ∷ [];
})

single_realloc_missed_example :
    Returns
      (λ w'. find 100 w'.single_threaded_allocations ≡ some leak)
      (realloc list_queue 7 100 300 64 single)
unfolding set_single_threaded_instrumentation find
single_realloc_missed_example =
    single_realloc_missed list_queue 7 100 300 64 leak single refl refl refl

single_calloc_size_example :
    Returns
      (HasRecord list_queue 8 300 (10 ∷ 20 ∷ 30 ∷ []) single)
      (calloc list_queue 7 4 8 300 (10 ∷ 20 ∷ 30 ∷ []) single)
unfolding set_single_threaded_instrumentation find is_watching_single
single_calloc_size_example =
    single_calloc_size list_queue 7 4 8 300 (10 ∷ 20 ∷ 30 ∷ []) single refl refl (omega arith) refl
