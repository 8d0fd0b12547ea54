-- ===== src/AddressMap.antt =====
-- std::map<const void*, V>: entries in ascending order of address, one for each address.
-- The operations are those that src/HeapWatcher.cpp calls.
pub mod Laws
use heap_watcher.Prelude.{
  ℕ, suc, ◌≤◌, Bool, true, false, Option, none, some, List, [], ◌∷◌, ltb, ◌==◌, if◌then◌else◌,
}

-- Addresses are numbers; nullptr is 0.
abbrev pub AddressMap {ℓ} : Type ℓ → Type ℓ
AddressMap V = List (ℕ × V)

module _ {ℓ} {V : Type ℓ} where
  -- find(address), where `none` is end()
  unfoldable pub find : ℕ → AddressMap V → Option V
  find a [] = none
  find a ((k, v) ∷ m) = if k == a then some v else find a m

  -- emplace(address, v): an entry that is there stays as it is.
  unfoldable pub emplace : ℕ → V → AddressMap V → AddressMap V
  emplace a v [] = (a, v) ∷ []
  emplace a v ((k, w) ∷ m) =
      if ltb a k then (a, v) ∷ (k, w) ∷ m else if k == a then (k, w) ∷ m else (k, w) ∷ emplace a v m

  -- erase(address), or erase(iterator) at the entry of the address
  unfoldable pub erase : ℕ → AddressMap V → AddressMap V
  erase a [] = []
  erase a ((k, w) ∷ m) = if k == a then m else (k, w) ∷ erase a m

  -- The values in the order of iteration.
  abbrev pub values : AddressMap V → List V
  values [] = []
  values ((k, v) ∷ m) = v ∷ values m

  -- Addresses ascend from `lo` on.
  abbrev pub Above : ℕ → AddressMap V → Type 0
  Above lo [] = Unit {0}
  Above lo ((k, v) ∷ m) = (lo ≤ k) × Above (suc k) m

  abbrev pub IsSorted : AddressMap V → Type 0
  IsSorted m = Above 0 m
