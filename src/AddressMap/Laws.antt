-- ===== src/AddressMap/Laws.antt =====
-- What the operations of std::map do to `find`, and that they keep the order.
use heap_watcher.Prelude.{
  ℕ, suc, ◌+◌, ◌≤◌, ◌<◌, ◌≡◌, refl, none, some, [], ◌∷◌, ◌==◌, if◌then◌else◌, length, arith,
}
use heap_watcher.AddressMap.{AddressMap, find, emplace, erase, Above, IsSorted}

module _ {ℓ} {V : Type ℓ} where
  Above-mono : (lo hi : ℕ) (m : AddressMap V) → lo ≤ hi → Above hi m → Above lo m
  Above-mono lo hi [] h s = tt
  Above-mono lo hi ((k, v) ∷ m) h s = (omega arith, s.1)

  pub emplace-Above :
      (lo a : ℕ) (v : V) (m : AddressMap V) → lo ≤ a → Above lo m → Above lo (emplace a v m)
  unfolding emplace
  emplace-Above lo a v [] h s = (h, tt)
  emplace-Above lo a v ((k, w) ∷ m) h s = ground (arith, emplace-Above (suc k) a v m)

  pub emplace-IsSorted : (a : ℕ) (v : V) (m : AddressMap V) → IsSorted m → IsSorted (emplace a v m)
  emplace-IsSorted a v m s = emplace-Above 0 a v m (omega arith) s

  pub erase-Above : (lo a : ℕ) (m : AddressMap V) → Above lo m → Above lo (erase a m)
  unfolding erase
  erase-Above lo a [] s = tt
  erase-Above lo a ((k, w) ∷ m) s = ground (arith, erase-Above (suc k) a m, Above-mono lo (suc k) m)

  -- Below the first address nothing is found.
  pub find_below : (lo a : ℕ) (m : AddressMap V) → a < lo → Above lo m → find a m ≡ none
  unfolding find
  find_below lo a [] h s = refl
  find_below lo a ((k, v) ∷ m) h s = ground (arith, find_below (suc k) a m)

  -- A new entry is found at its address, and nothing else changes.
  pub find-emplace :
      (a : ℕ) (v : V) (m : AddressMap V) (j : ℕ)
      → find a m ≡ none
      → find j (emplace a v m) ≡ (if a == j then some v else find j m)
  unfolding find emplace
  find-emplace a v [] j e = refl
  find-emplace a v ((k, w) ∷ m) j e = ground (arith, find-emplace a v m j)

  -- An entry that is there is not overwritten.
  emplace_present_from :
      (lo a : ℕ) (v w : V) (m : AddressMap V) → Above lo m → find a m ≡ some w → emplace a v m ≡ m
  unfolding find emplace
  emplace_present_from lo a v w [] s e = absurd (cc)
  emplace_present_from lo a v w ((k, u) ∷ m) s e =
      ground (arith, emplace_present_from (suc k) a v w m, find_below (suc k) a m)

  pub emplace_present :
      (a : ℕ) (v w : V) (m : AddressMap V) → IsSorted m → find a m ≡ some w → emplace a v m ≡ m
  emplace_present a v w m = emplace_present_from 0 a v w m

  find-erase_from :
      (lo a : ℕ) (m : AddressMap V) (j : ℕ)
      → Above lo m
      → find j (erase a m) ≡ (if a == j then none else find j m)
  unfolding find erase
  find-erase_from lo a [] j s = ground arith
  find-erase_from lo a ((k, w) ∷ m) j s =
      ground (arith, find-erase_from (suc k) a m j, find_below (suc k) a m)

  -- An erased address is not found any more, and nothing else changes.
  pub find-erase :
      (a : ℕ) (m : AddressMap V) (j : ℕ)
      → IsSorted m
      → find j (erase a m) ≡ (if a == j then none else find j m)
  find-erase a m j s = find-erase_from 0 a m j s

  -- The sum of a measure of the values.
  unfoldable pub total : (V → ℕ) → AddressMap V → ℕ
  total f [] = 0
  total f ((k, v) ∷ m) = f v + total f m

  pub total-emplace :
      (f : V → ℕ) (a : ℕ) (v : V) (m : AddressMap V)
      → find a m ≡ none
      → total f (emplace a v m) ≡ f v + total f m
  unfolding find emplace total
  total-emplace f a v [] e = omega arith
  total-emplace f a v ((k, w) ∷ m) e = ground (arith, total-emplace f a v m)

  pub total-erase :
      (f : V → ℕ) (a : ℕ) (v : V) (m : AddressMap V)
      → find a m ≡ some v
      → total f m ≡ f v + total f (erase a m)
  unfolding find erase total
  total-erase f a v [] e = absurd (cc)
  total-erase f a v ((k, w) ∷ m) e = ground (arith, total-erase f a v m)

  pub length-emplace :
      (a : ℕ) (v : V) (m : AddressMap V) → find a m ≡ none → length (emplace a v m) ≡ suc (length m)
  unfolding find emplace
  length-emplace a v [] e = refl
  length-emplace a v ((k, w) ∷ m) e = ground (arith, length-emplace a v m)

  pub length-erase :
      (a : ℕ) (v : V) (m : AddressMap V) → find a m ≡ some v → length m ≡ suc (length (erase a m))
  unfolding find erase
  length-erase a v [] e = absurd (cc)
  length-erase a v ((k, w) ∷ m) e = ground (arith, length-erase a v m)
