-- ===== src/Arenas.antt =====
-- Acts of several threads on a state that has a value at each address, where every address belongs
-- to one thread, which alone looks at it and changes it: the order between threads does not show.
-- The requests to the worker (src/HeapWatcher.cpp) are such acts.
pub mod Requests
use heap_watcher.Prelude.{
  ℕ, ◌≡◌, ◌≢◌, refl, sym, ap, ◌∙◌, inl, inr, List, [], ◌∷◌, ◌++◌, ◌==◌, if◌then◌else◌, All,
  All-first, arith, ◌⊎◌, Bool-cases,
}
use mathlib.Core.Path.{subst, fun_ext}

pub same_thread : (t u : ℕ) → (u ≡ t) ⊎ (u ≢ t)
same_thread t u = elim (Bool-cases (u == t)) [
  | inl e ↦ inl (ground (arith, e))
  | inr e ↦ inr (λ x. ground (arith, e, x))
]

module _ {A : Type 0} where
  -- The acts of one thread, in their order.
  abbrev pub acts_of : ℕ → List (ℕ × A) → List A
  acts_of t [] = []
  acts_of t ((u, a) ∷ acts) = if u == t then a ∷ acts_of t acts else acts_of t acts

  -- The acts of all threads, in their order.
  abbrev pub acts : List (ℕ × A) → List A
  acts [] = []
  acts ((u, a) ∷ more) = a ∷ acts more

  acts_of-same :
      (t u : ℕ) (a : A) (s : List (ℕ × A)) → u ≡ t → acts_of t ((u, a) ∷ s) ≡ a ∷ acts_of t s
  acts_of-same t u a s e = ground (arith, e)

  acts_of-other :
      (t u : ℕ) (a : A) (s : List (ℕ × A)) → u ≢ t → acts_of t ((u, a) ∷ s) ≡ acts_of t s
  acts_of-other t u a s e = ground (arith, e)

module _ {X A : Type 0} (owner : ℕ → ℕ) (next : A → (ℕ → X) → ℕ → X) (Legal : A → (ℕ → X) → Type 0)
    (Own : ℕ → A → Type 0) where
  -- The states agree on what belongs to the thread.
  abbrev pub Same : ℕ → (ℕ → X) → (ℕ → X) → Type 0
  Same t h k = (j : ℕ) → owner j ≡ t → h j ≡ k j

  -- An act of a thread looks at what belongs to the thread, and changes nothing else.
  pub record IsLocal : Type 0 where
    pub others : (t : ℕ) (a : A) (h : ℕ → X) (j : ℕ) → Own t a → owner j ≢ t → next a h j ≡ h j
    pub legal_same : (t : ℕ) (a : A) (h k : ℕ → X) → Own t a → Same t h k → Legal a h → Legal a k
    pub next_same :
        (t : ℕ) (a : A) (h k : ℕ → X) → Own t a → Same t h k → Same t (next a h) (next a k)

  abbrev pub AllLegal : List A → (ℕ → X) → Type 0
  AllLegal [] h = Unit {0}
  AllLegal (a ∷ as') h = Legal a h × AllLegal as' (next a h)

  abbrev pub after_all : List A → (ℕ → X) → ℕ → X
  after_all [] h = h
  after_all (a ∷ as') h = after_all as' (next a h)

  -- Every act is one of its thread's own.
  abbrev pub OwnActs : List (ℕ × A) → Type 0
  OwnActs s = (t : ℕ) → All (Own t) (acts_of t s)

  pub AllLegal-first : (as' bs : List A) (h : ℕ → X) → AllLegal (as' ++ bs) h → AllLegal as' h
  AllLegal-first [] bs h legal = tt
  AllLegal-first (a ∷ as') bs h legal = (legal.0, AllLegal-first as' bs (next a h) legal.1)

  pub first_own : (u : ℕ) (a : A) (s : List (ℕ × A)) → OwnActs ((u, a) ∷ s) → Own u a
  first_own u a s own = (subst (All (Own u)) (acts_of-same u u a s refl) (own u)).0

  pub rest_own : (u : ℕ) (a : A) (s : List (ℕ × A)) → OwnActs ((u, a) ∷ s) → OwnActs s
  rest_own u a s own t = elim (same_thread t u) [
    | inl e ↦ (subst (All (Own t)) (acts_of-same t u a s e) (own t)).1
    | inr e ↦ subst (All (Own t)) (acts_of-other t u a s e) (own t)
  ]

  pub OwnActs-each : (s : List (ℕ × A)) → All (λ act. Own act.0 act.1) s → OwnActs s
  OwnActs-each [] own t = tt
  OwnActs-each ((u, a) ∷ s) own t = elim (same_thread t u) [
    | inl e ↦
        subst (All (Own t)) (sym (acts_of-same t u a s e))
          (subst (λ v. Own v a) e own.0, OwnActs-each s own.1 t)
    | inr e ↦ subst (All (Own t)) (sym (acts_of-other t u a s e)) (OwnActs-each s own.1 t)
  ]

  module _ (local : IsLocal) where
    carried-AllLegal :
        (t : ℕ) (as' : List A) (h k : ℕ → X)
        → All (Own t) as'
        → Same t h k
        → AllLegal as' h
        → AllLegal as' k
    carried-AllLegal t [] h k own same legal = tt
    carried-AllLegal t (a ∷ as') h k own same legal = (
      local.legal_same t a h k own.0 same legal.0,
      carried-AllLegal t as' (next a h) (next a k) own.1 (local.next_same t a h k own.0 same)
          legal.1,
    )

    -- Another thread's act leaves the thread's part as it is.
    passed : (t u : ℕ) (a : A) (h k : ℕ → X) → Own u a → u ≢ t → Same t h k → Same t (next a h) k
    passed t u a h k own apart same j mine =
        local.others u a h j own (λ e. apart (sym e ∙ mine)) ∙ same j mine

    -- What a thread finds at the end comes from its own acts.
    pub after_own :
        (t : ℕ) (s : List (ℕ × A)) (h k : ℕ → X)
        → OwnActs s
        → Same t h k
        → Same t (after_all (acts s) h) (after_all (acts_of t s) k)
    after_own t [] h k own same = same
    after_own t ((u, a) ∷ s) h k own same =
        let mine = first_own u a s own in
        elim (same_thread t u) [
          | inl e ↦
              subst (λ as'. Same t (after_all (acts s) (next a h)) (after_all as' k))
                (sym (acts_of-same t u a s e))
                (after_own t s (next a h) (next a k) (rest_own u a s own)
                  (local.next_same t a h k (subst (λ v. Own v a) e mine) same))
          | inr e ↦
              subst (λ as'. Same t (after_all (acts s) (next a h)) (after_all as' k))
                (sym (acts_of-other t u a s e))
                (after_own t s (next a h) k (rest_own u a s own) (passed t u a h k mine e same))
        ]

    -- The acts of a thread are legal by themselves.
    pub legal_own :
        (t : ℕ) (s : List (ℕ × A)) (h k : ℕ → X)
        → OwnActs s
        → Same t h k
        → AllLegal (acts s) h
        → AllLegal (acts_of t s) k
    legal_own t [] h k own same legal = tt
    legal_own t ((u, a) ∷ s) h k own same legal =
        let mine = first_own u a s own in
        elim (same_thread t u) [
          | inl e ↦
              let mine' = subst (λ v. Own v a) e mine in
              subst (λ as'. AllLegal as' k) (sym (acts_of-same t u a s e))
                (
                  local.legal_same t a h k mine' same legal.0,
                  legal_own t s (next a h) (next a k) (rest_own u a s own)
                      (local.next_same t a h k mine' same) legal.1,
                )
          | inr e ↦
              subst (λ as'. AllLegal as' k) (sym (acts_of-other t u a s e))
                (legal_own t s (next a h) k (rest_own u a s own) (passed t u a h k mine e same)
                  legal.1)
        ]

    -- Acts that are legal for each thread by itself are legal together.
    pub legal_together :
        (s : List (ℕ × A)) (h : ℕ → X)
        → OwnActs s
        → ((t : ℕ) → AllLegal (acts_of t s) h)
        → AllLegal (acts s) h
    legal_together [] h own legal = tt
    legal_together ((u, a) ∷ s) h own legal =
        let mine = first_own u a s own in
        let first = subst (λ as'. AllLegal as' h) (acts_of-same u u a s refl) (legal u) in
        let others = rest_own u a s own in
        (
          first.0,
          legal_together s (next a h) others (λ t. elim (same_thread t u) [
            | inl e ↦ (subst (λ as'. AllLegal as' h) (acts_of-same t u a s e) (legal t)).1
            | inr e ↦
                carried-AllLegal t (acts_of t s) h (next a h) (others t)
                  (λ j x. sym (passed t u a h h mine e (λ i y. refl) j x))
                  (subst (λ as'. AllLegal as' h) (acts_of-other t u a s e) (legal t))
          ]),
        )

    -- Acts of which some threads still have the last ones to do: they are legal in any order that
    -- keeps the order of each thread.
    pub reordered_legal :
        (s s' : List (ℕ × A)) (left : ℕ → List A) (h : ℕ → X)
        → OwnActs s
        → ((t : ℕ) → acts_of t s' ++ left t ≡ acts_of t s)
        → AllLegal (acts s) h
        → AllLegal (acts s') h
    reordered_legal s s' left h own same legal =
        legal_together s' h
          (λ t.
            All-first (Own t) (acts_of t s') (left t) (subst (All (Own t)) (sym (same t)) (own t)))
          (λ t. AllLegal-first (acts_of t s') (left t) h (
            subst (λ as'. AllLegal as' h) (sym (same t))
              (legal_own t s h h own (λ j x. refl) legal)))

    -- And they leave the same state, once all are done.
    pub reordered_after :
        (s s' : List (ℕ × A)) (h : ℕ → X)
        → OwnActs s
        → ((t : ℕ) → acts_of t s' ≡ acts_of t s)
        → after_all (acts s') h ≡ after_all (acts s) h
    reordered_after s s' h own same = fun_ext (λ j.
        let t = owner j in
        after_own t s' h h (λ u. subst (All (Own u)) (sym (same u)) (own u)) (λ i x. refl) j refl
        ∙ ap (λ as'. after_all as' h j) (same t)
        ∙ sym (after_own t s h h own (λ i x. refl) j refl))
