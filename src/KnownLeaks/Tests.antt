-- ===== src/KnownLeaks/Tests.antt =====
-- The filter on concrete leaks and stacks.
use heap_watcher.Prelude.{◌≡◌, refl, [], ◌∷◌, arith, ok}
use heap_watcher.Prelude.{true, false}
use heap_watcher.KnownLeaks.{LeakAddressAndOffset, is_known_leak}
use heap_watcher.KnownLeaks.Filter.{
  Decides, IsIgnored, IsMeantIgnored, is_known_leak-Decides, crossed_offsets,
}

abbrev tls : LeakAddressAndOffset
tls = record { address = 70; offset_from_malloc = 0 }

abbrev nested : LeakAddressAndOffset
nested = record { address = 80; offset_from_malloc = 1 }

abbrev also_nested : LeakAddressAndOffset
also_nested = record { address = 81; offset_from_malloc = 1 }

is_known_leak-Decides_example :
    Decides
      (IsIgnored (tls ∷ nested ∷ []) (10 ∷ 20 ∷ 30 ∷ 40 ∷ []))
      (is_known_leak (tls ∷ nested ∷ []) (10 ∷ 20 ∷ 30 ∷ 40 ∷ []) 4)
is_known_leak-Decides_example = is_known_leak-Decides (tls ∷ nested ∷ []) (10 ∷ 20 ∷ 30 ∷ 40 ∷ [])

crossed_offsets_example :
    (is_known_leak (tls ∷ nested ∷ []) (80 ∷ 20 ∷ 30 ∷ 40 ∷ []) 4 ≡ ok true)
    × (¬ IsMeantIgnored (tls ∷ nested ∷ []) (80 ∷ 20 ∷ 30 ∷ 40 ∷ []))
crossed_offsets_example =
    crossed_offsets tls nested (80 ∷ 20 ∷ 30 ∷ 40 ∷ []) (omega arith) refl (λ e. ground (arith, e))

not_ignored : is_known_leak (tls ∷ nested ∷ []) (10 ∷ 20 ∷ 30 ∷ 40 ∷ []) 4 ≡ ok false
unfolding is_known_leak
not_ignored = refl
