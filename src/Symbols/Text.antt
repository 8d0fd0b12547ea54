-- ===== src/Symbols/Text.antt =====
-- std::string::find(char, pos) and std::string::substr.
use heap_watcher.Prelude.{
  ℕ, zero, take, drop, ◌>>=◌, Bool-cases, inl, inr, suc, ◌+◌, ◌-◌, ◌<◌, ◌≡◌, refl, ap, ◌∙◌, false,
  List, [], ◌∷◌, ◌++◌, All, ◌≢◌, ltb, ◌==◌, if◌then◌else◌, length, length-append, u64_mod, arith,
  Result, ok, fault, out_of_range,
}

abbrev pub npos : ℕ
npos = u64_mod - 1

-- The first position from `pos` on that holds the character; `i` is where the list begins.
unfoldable pub find_from : ℕ → List ℕ → ℕ → ℕ → ℕ
find_from c [] pos i = npos
find_from c (x ∷ xs) zero i = if x == c then i else find_from c xs 0 (i + 1)
find_from c (x ∷ xs) (suc pos) i = find_from c xs pos (i + 1)

unfoldable pub find_char : ℕ → List ℕ → ℕ → ℕ
unfolding find_from
find_char c s pos = find_from c s pos 0

-- It throws if `pos` is past the end, and cuts `count` at the end.
unfoldable pub substr : List ℕ → ℕ → ℕ → Result (List ℕ)
substr s pos count = if ltb (length s) pos then fault out_of_range else ok (take count (drop pos s))

abbrev pub Lacks : ℕ → List ℕ → Type 0
Lacks c = All (λ x. x ≢ c)

find_from-hit :
    (c i : ℕ) (xs ys : List ℕ) → Lacks c xs → find_from c (xs ++ c ∷ ys) 0 i ≡ i + length xs
unfolding find_from
find_from-hit c i [] ys h = ground arith
find_from-hit c i (x ∷ xs) ys h = ground (arith, find_from-hit c (i + 1) xs ys h.1)

find_from_skip :
    (c i : ℕ) (xs ys : List ℕ)
    → find_from c (xs ++ ys) (length xs) i ≡ find_from c ys 0 (i + length xs)
unfolding find_from
find_from_skip c i [] ys = ap (find_from c ys 0) (omega arith)
find_from_skip c i (x ∷ xs) ys =
    find_from_skip c (i + 1) xs ys ∙ ap (find_from c ys 0) (omega arith)

-- The first occurrence after a prefix.
pub find_char-hit :
    (c : ℕ) (xs ys zs : List ℕ)
    → Lacks c ys
    → find_char c (xs ++ (ys ++ c ∷ zs)) (length xs) ≡ length xs + length ys
unfolding find_char
find_char-hit c xs ys zs h =
    find_from_skip c 0 xs (ys ++ c ∷ zs) ∙ (find_from-hit c (0 + length xs) ys zs h ∙ omega arith)

take_prefix : (xs ys : List ℕ) → take (length xs) (xs ++ ys) ≡ xs
take_prefix [] ys = refl
take_prefix (x ∷ xs) ys = ap (◌∷◌ x) (take_prefix xs ys)

drop_prefix : (xs ys : List ℕ) → drop (length xs) (xs ++ ys) ≡ ys
drop_prefix [] ys = refl
drop_prefix (x ∷ xs) ys = drop_prefix xs ys

-- A piece between two others.
pub substr-middle : (xs ys zs : List ℕ) → substr (xs ++ (ys ++ zs)) (length xs) (length ys) ≡ ok ys
unfolding substr
substr-middle xs ys zs =
    let fits : ltb (length (xs ++ (ys ++ zs))) (length xs) ≡ false =
      ground (arith, length-append xs (ys ++ zs)) in
    rw (fits, drop_prefix xs (ys ++ zs), take_prefix ys zs)

pub Lacks-append : (c : ℕ) (xs ys : List ℕ) → Lacks c xs → Lacks c ys → Lacks c (xs ++ ys)
Lacks-append c [] ys h k = k
Lacks-append c (x ∷ xs) ys h k = (h.0, Lacks-append c xs ys h.1 k)

-- The same two, for a text that is known to be so composed.
pub find_char_at :
    (c : ℕ) (s : List ℕ) (pos : ℕ) (xs ys zs : List ℕ)
    → s ≡ xs ++ (ys ++ c ∷ zs)
    → pos ≡ length xs
    → Lacks c ys
    → find_char c s pos ≡ length xs + length ys
find_char_at c s pos xs ys zs e p h = rw (e, p) (find_char-hit c xs ys zs h)

pub substr_at :
    (s : List ℕ) (pos count : ℕ) (xs ys zs : List ℕ)
    → s ≡ xs ++ (ys ++ zs)
    → pos ≡ length xs
    → count ≡ length ys
    → substr s pos count ≡ ok ys
substr_at s pos count xs ys zs e p n = rw (e, p, n) (substr-middle xs ys zs)

pub substr_past :
    (s : List ℕ) (pos count : ℕ) → length s < pos → substr s pos count ≡ fault out_of_range
unfolding substr
substr_past s pos count h = ground arith

-- A cut can only throw: if what follows it throws in any case, so does the whole.
pub substr-bind {ℓ} :
    {B : Type ℓ} (s : List ℕ) (pos count : ℕ) (f : List ℕ → Result B)
    → ((t : List ℕ) → f t ≡ fault out_of_range)
    → (substr s pos count >>= f) ≡ fault out_of_range
unfolding substr
substr-bind s pos count f h = elim (Bool-cases (ltb (length s) pos)) [
  | inl past ↦ rw past
  | inr within ↦ rw within (h (take count (drop pos s)))
]
