-- ===== src/KnownLeaks.antt =====
-- The filter for known leaks: LeakAddressAndOffset, is_known_leak and known_leaks of
-- src/HeapWatcher.cpp.
pub mod Filter
mod Tests
use heap_watcher.Prelude.{
  ℕ, Bool, true, false, none, some, List, [], ◌∷◌, get_elem?, ltb, ◌==◌, if◌then◌else◌, Result, ok,
  fault, read_past_end,
}

-- The offset is an `int` that capture_known_leak counts up from 0.
pub record LeakAddressAndOffset : Type 0 where
  pub address : ℕ
  pub offset_from_malloc : ℕ

-- std::find(known_leaks_.begin(), known_leaks_.end(), address) != known_leaks_.end()
unfoldable pub has_address : ℕ → List LeakAddressAndOffset → Bool
has_address a [] = false
has_address a (k ∷ ks) = if k.address == a then true else has_address a ks

-- The loop of is_known_leak over what is left of `known_leaks_`. `stack_trace` is the memory from
-- the pointer on.
unfoldable pub scan_known :
    List LeakAddressAndOffset → List LeakAddressAndOffset → List ℕ → ℕ → Result Bool
unfolding has_address
scan_known known [] stack_trace trace_depth = ok false
scan_known known (k ∷ ks) stack_trace trace_depth =
    let rest = scan_known known ks stack_trace trace_depth in
    if ltb k.offset_from_malloc trace_depth
    then (elim (get_elem? stack_trace k.offset_from_malloc) [
      | none ↦ fault read_past_end
      | some a ↦ if has_address a known then ok true else rest
    ])
    else rest

unfoldable pub is_known_leak : List LeakAddressAndOffset → List ℕ → ℕ → Result Bool
unfolding scan_known
is_known_leak known stack_trace trace_depth = scan_known known known stack_trace trace_depth

-- HeapWatcherImpl::known_leaks: the addresses, without the offsets.
unfoldable pub known_leak_addresses : List LeakAddressAndOffset → List ℕ
known_leak_addresses [] = []
known_leak_addresses (k ∷ ks) = k.address ∷ known_leak_addresses ks
