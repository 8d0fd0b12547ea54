-- ===== src/KnownLeaks/Filter.antt =====
-- What is_known_leak accepts, against what is meant: a stack trace with the address of a known leak
-- at the offset of that leak.
use heap_watcher.Prelude.{
  ℕ, zero, ◌≢◌, ◌∙◌, suc, ◌<◌, ◌≡◌, refl, sym, ◌⊎◌, inl, inr, Bool, true, false, some, List, [],
  ◌∷◌, get_elem?, length, All, ltb, ◌==◌, arith, Result, ok, Bool-cases,
}
use heap_watcher.KnownLeaks.{LeakAddressAndOffset, has_address, scan_known, is_known_leak}

-- The frame at the offset of one leak holds the address of another, or of the same.
abbrev pub FrameHolds : LeakAddressAndOffset → LeakAddressAndOffset → List ℕ → Type 0
FrameHolds at of trace = get_elem? trace at.offset_from_malloc ≡ some of.address

-- A list has an element with the property.
abbrev pub Any : (LeakAddressAndOffset → Type 0) → List LeakAddressAndOffset → Type 0
Any P [] = ⊥
Any P (k ∷ ks) = P k ⊎ Any P ks

-- What the documentation promises to ignore.
abbrev pub IsMeantIgnored : List LeakAddressAndOffset → List ℕ → Type 0
IsMeantIgnored known trace = Any (λ k. FrameHolds k k trace) known

pub in_range : (trace : List ℕ) (i : ℕ) → i < length trace → (a : ℕ) × (get_elem? trace i ≡ some a)
in_range [] i h = elim h [ ]
in_range (x ∷ xs) zero h = (x, refl)
in_range (x ∷ xs) (suc i) h = in_range xs i (omega arith)

in_range-get_elem? : (trace : List ℕ) (i a : ℕ) → get_elem? trace i ≡ some a → i < length trace
in_range-get_elem? [] i a e = absurd (cc)
in_range-get_elem? (x ∷ xs) zero a e = omega arith
in_range-get_elem? (x ∷ xs) (suc i) a e = omega (arith, in_range-get_elem? xs i a e)

pub Any-map :
    (P Q : LeakAddressAndOffset → Type 0) (ks : List LeakAddressAndOffset)
    → ((k : LeakAddressAndOffset) → P k → Q k)
    → Any P ks
    → Any Q ks
Any-map P Q [] f h = h
Any-map P Q (k ∷ ks) f (inl h) = inl (f k h)
Any-map P Q (k ∷ ks) f (inr h) = inr (Any-map P Q ks f h)

-- The answer of a test that must come out as `P` says.
abbrev pub Decides : Type 0 → Result Bool → Type 0
Decides P r = (P × (r ≡ ok true)) ⊎ ((¬ P) × (r ≡ ok false))

has_address-cases :
    (a : ℕ) (ks : List LeakAddressAndOffset)
    → (Any (λ k. k.address ≡ a) ks × (has_address a ks ≡ true))
      ⊎ ((¬ Any (λ k. k.address ≡ a) ks) × (has_address a ks ≡ false))
unfolding has_address
has_address-cases a [] = inr (λ h. h, refl)
has_address-cases a (k ∷ ks) = elim (has_address-cases a ks) [
  | inl (h, e) ↦ inl (inr h, ground (arith, e))
  | inr (h, e) ↦ elim (Bool-cases (k.address == a)) [
    | inl same ↦ inl (inl (ground arith), ground (arith, e))
    | inr other ↦ inr (λ x. elim x [ inl y ↦ ground (arith, y) | inr y ↦ h y ], ground (arith, e))
  ]
]

Any-none :
    (P : LeakAddressAndOffset → Type 0) (ks : List LeakAddressAndOffset)
    → ((k : LeakAddressAndOffset) → ¬ P k)
    → ¬ Any P ks
Any-none P [] f h = h
Any-none P (k ∷ ks) f (inl h) = f k h
Any-none P (k ∷ ks) f (inr h) = Any-none P ks f h

-- A test that answers at the first element, or goes on to the rest.
Decides-cons :
    (P Q : Type 0) (r rest : Result Bool)
    → (P × (r ≡ ok true)) ⊎ ((¬ P) × (r ≡ rest))
    → Decides Q rest
    → Decides (P ⊎ Q) r
Decides-cons P Q r rest (inl (h, e)) d = inl (inl h, e)
Decides-cons P Q r rest (inr (h, e)) (inl (h', e')) = inl (inr h', e ∙ e')
Decides-cons P Q r rest (inr (h, e)) (inr (h', e')) =
    inr (λ x. elim x [ inl y ↦ h y | inr y ↦ h' y ], e ∙ e')

-- Some known leak has its offset at a frame that holds the address of some known leak.
abbrev pub IsIgnored : List LeakAddressAndOffset → List ℕ → Type 0
IsIgnored known trace = Any (λ at. Any (λ of. FrameHolds at of trace) known) known

module _ (known : List LeakAddressAndOffset) (trace : List ℕ) where
  abbrev HoldsKnown : LeakAddressAndOffset → Type 0
  HoldsKnown at = Any (λ of. FrameHolds at of trace) known

  outside :
      (k : LeakAddressAndOffset) → ltb k.offset_from_malloc (length trace) ≡ false → ¬ HoldsKnown k
  outside k far =
      Any-none (λ of. FrameHolds k of trace) known
        (λ of e. ground (arith, in_range-get_elem? trace k.offset_from_malloc of.address e))

  frame-cases :
      (k : LeakAddressAndOffset) (a : ℕ)
      → get_elem? trace k.offset_from_malloc ≡ some a
      → (HoldsKnown k × (has_address a known ≡ true))
        ⊎ ((¬ HoldsKnown k) × (has_address a known ≡ false))
  frame-cases k a e = elim (has_address-cases a known) [
    | inl (h, t) ↦ inl (
      Any-map (λ of. of.address ≡ a) (λ of. FrameHolds k of trace) known
          (λ of u. ground (arith, e, u)) h,
      t,
    )
    | inr (h, f) ↦ inr (
      λ x. h (
          Any-map (λ of. FrameHolds k of trace) (λ of. of.address ≡ a) known
            (λ of u. ground (arith, e, u)) x),
      f,
    )
  ]

  first-cases :
      (k : LeakAddressAndOffset) (ks : List LeakAddressAndOffset)
      → (HoldsKnown k × (scan_known known (k ∷ ks) trace (length trace) ≡ ok true))
        ⊎ ((¬ HoldsKnown k)
            × (scan_known known (k ∷ ks) trace (length trace)
                ≡ scan_known known ks trace (length trace)))
  first-cases k ks = elim (Bool-cases (ltb k.offset_from_malloc (length trace))) [
    | inr far ↦ inr (outside k far, unfold scan_known in rw far)
    | inl near ↦
        let (a, e) = in_range trace k.offset_from_malloc (ground arith) in
        elim (frame-cases k a e) [
          | inl (h, t) ↦ inl (h, unfold scan_known in rw (near, e, t))
          | inr (h, f) ↦ inr (h, unfold scan_known in rw (near, e, f))
        ]
  ]

  scan_known-Decides :
      (ks : List LeakAddressAndOffset)
      → Decides (Any HoldsKnown ks) (scan_known known ks trace (length trace))
  scan_known-Decides [] = inr (λ h. h, unfold scan_known in refl)
  scan_known-Decides (k ∷ ks) =
      Decides-cons (HoldsKnown k) (Any HoldsKnown ks) _ _ (first-cases k ks) (scan_known-Decides ks)

  -- Within a stack trace of the stated depth, the filter never reads out of bounds. It answers true
  -- exactly if the frame at the offset of some known leak holds the address of some known leak.
  pub is_known_leak-Decides :
      Decides (IsIgnored known trace) (is_known_leak known trace (length trace))
  unfolding is_known_leak
  is_known_leak-Decides = scan_known-Decides known

Any-diagonal :
    (P : LeakAddressAndOffset → LeakAddressAndOffset → Type 0) (ks : List LeakAddressAndOffset)
    → Any (λ k. P k k) ks
    → Any (λ at. Any (P at) ks) ks
Any-diagonal P [] h = h
Any-diagonal P (k ∷ ks) (inl h) = inl (inl h)
Any-diagonal P (k ∷ ks) (inr h) = inr (
    Any-map (λ at. Any (P at) ks) (λ at. Any (P at) (k ∷ ks)) ks (λ at x. inr x)
      (Any-diagonal P ks h))

Any-constant : (X : Type 0) (ks : List LeakAddressAndOffset) → Any (λ k. X) ks → X
Any-constant X [] h = absurd h
Any-constant X (k ∷ ks) (inl h) = h
Any-constant X (k ∷ ks) (inr h) = Any-constant X ks h

Any-with :
    (P Q R : LeakAddressAndOffset → Type 0) (ks : List LeakAddressAndOffset)
    → ((k : LeakAddressAndOffset) → P k → Q k → R k)
    → Any P ks
    → All Q ks
    → Any R ks
Any-with P Q R [] f h q = h
Any-with P Q R (k ∷ ks) f (inl h) q = inl (f k h q.0)
Any-with P Q R (k ∷ ks) f (inr h) q = inr (Any-with P Q R ks f h q.1)

accepted :
    (known : List LeakAddressAndOffset) (trace : List ℕ)
    → IsIgnored known trace
    → is_known_leak known trace (length trace) ≡ ok true
accepted known trace h = elim (is_known_leak-Decides known trace) [
  | inl (_, e) ↦ e
  | inr (refused, _) ↦ absurd (refused h)
]

-- A trace with the address of a known leak at the offset of that leak is always ignored.
pub meant_ignored :
    (known : List LeakAddressAndOffset) (trace : List ℕ)
    → IsMeantIgnored known trace
    → is_known_leak known trace (length trace) ≡ ok true
meant_ignored known trace h =
    accepted known trace (Any-diagonal (λ at of. FrameHolds at of trace) known h)

-- As long as all known leaks were captured at the same offset, the filter ignores nothing but
-- traces with the address of a known leak at the offset of that leak.
same_offset_exact :
    (known : List LeakAddressAndOffset) (trace : List ℕ) (n : ℕ)
    → All (λ k. k.offset_from_malloc ≡ n) known
    → is_known_leak known trace (length trace) ≡ ok true
    → IsMeantIgnored known trace
same_offset_exact known trace n same e = elim (is_known_leak-Decides known trace) [
  | inl (h, _) ↦ Any-constant (IsMeantIgnored known trace) known (
      Any-with (λ at. Any (λ of. FrameHolds at of trace) known) (λ k. k.offset_from_malloc ≡ n)
        (λ at. IsMeantIgnored known trace) known
        (λ at x u.
          Any-with (λ of. FrameHolds at of trace) (λ k. k.offset_from_malloc ≡ n)
            (λ k. FrameHolds k k trace) known (λ of y v. rw (v ∙ sym u) y) x same)
        h same)
  | inr (_, f) ↦ absurd (cc)
]

-- Of two known leaks, the address of the second at the offset of the first is enough for the
-- filter, though at its own offset the second is not found: the offsets are not kept apart.
pub crossed_offsets :
    (k₁ k₂ : LeakAddressAndOffset) (trace : List ℕ)
    → k₁.address ≢ k₂.address
    → FrameHolds k₁ k₂ trace
    → ¬ FrameHolds k₂ k₂ trace
    → (is_known_leak (k₁ ∷ k₂ ∷ []) trace (length trace) ≡ ok true)
      × (¬ IsMeantIgnored (k₁ ∷ k₂ ∷ []) trace)
crossed_offsets k₁ k₂ trace apart here away = (
  accepted (k₁ ∷ k₂ ∷ []) trace (inl (inr (inl here))),
  λ h. elim h [ inl x ↦ ground (arith, x) | inr y ↦ elim y [ inl x ↦ away x | inr z ↦ z ] ],
)
