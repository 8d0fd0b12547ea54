-- ===== src/Symbols/Decode.antt =====
-- decode_mangled_line against the layout of a line of backtrace_symbols.
use mathlib.Core.List.{append_assoc}
use heap_watcher.Prelude.{
  ℕ, suc, ◌+◌, ◌<◌, ◌≡◌, refl, ◌∙◌, List, [], ◌∷◌, ◌++◌, length, length-append, add64, sub64, arith,
  ok, fault, out_of_range,
}
use heap_watcher.Symbols.Text.{
  npos, find_char, substr, Lacks, Lacks-append, find_char_at, substr_at, substr_past, substr-bind,
}
use heap_watcher.Symbols.{SymbolServices, unmangle, decode_mangled_line}

-- module(function+offset) [address], the offset without its plus sign
abbrev pub backtrace_line : List ℕ → List ℕ → List ℕ → List ℕ → List ℕ
backtrace_line m f o a = m ++ b'(' ∷ (f ++ b'+' ∷ (o ++ b')' ∷ b' ' ∷ b'[' ∷ (a ++ b']' ∷ [])))

-- No part holds a character by which the line is cut.
pub record IsLine (m f o a : List ℕ) : Type 0 where
  pub short : length (backtrace_line m f o a) < npos
  pub module_name : Lacks b'(' m × Lacks b'[' m × Lacks b']' m
  pub function : Lacks b'+' f × Lacks b')' f × Lacks b'[' f × Lacks b']' f
  pub offset : Lacks b')' o × Lacks b'[' o × Lacks b']' o
  pub address : Lacks b']' a

module _ (m f o a : List ℕ) (is_line : IsLine m f o a) where
  line : List ℕ
  line = backtrace_line m f o a

  -- The line up to the bracket.
  abbrev located : List ℕ
  located = m ++ b'(' ∷ (f ++ b'+' ∷ (o ++ b')' ∷ b' ' ∷ []))

  located-Lacks :
      (c : ℕ)
      → Lacks c m
      → Lacks c f
      → Lacks c o
      → Lacks c (b'(' ∷ b'+' ∷ b')' ∷ b' ' ∷ [])
      → Lacks c located
  located-Lacks c hm hf ho (p, (q, (r, (s, _)))) =
      Lacks-append c m _ hm (p, Lacks-append c f _ hf (q, Lacks-append c o _ ho (r, (s, tt))))

  open_paren : find_char b'(' line 0 ≡ length m
  unfolding line
  open_paren = find_char_at b'(' _ 0 [] m _ refl refl is_line.module_name.0 ∙ omega arith

  plus : find_char b'+' line (length m) ≡ length m + suc (length f)
  unfolding line
  plus = find_char_at b'+' _ (length m) m (b'(' ∷ f) _ refl refl (omega arith, is_line.function.0)

  close_paren : find_char b')' line (length m) ≡ length m + suc (length f + suc (length o))
  unfolding line
  close_paren =
      find_char_at b')' _ (length m) m (b'(' ∷ (f ++ b'+' ∷ o)) (b' ' ∷ b'[' ∷ (a ++ b']' ∷ []))
        (simp append_assoc) refl
        (omega arith, Lacks-append b')' f _ is_line.function.1 (omega arith, is_line.offset.0))
      ∙ omega (arith, length-append f (b'+' ∷ o))

  open_bracket : find_char b'[' line 0 ≡ length located
  unfolding line
  open_bracket =
      find_char_at b'[' _ 0 [] located (a ++ b']' ∷ []) (simp append_assoc) refl
        (located-Lacks b'[' is_line.module_name.1 is_line.function.2 is_line.offset.1 (omega arith))
      ∙ omega arith

  close_bracket : find_char b']' line 0 ≡ length located + suc (length a)
  unfolding line
  close_bracket =
      find_char_at b']' _ 0 [] (located ++ b'[' ∷ a) [] (simp append_assoc) refl (
        Lacks-append b']' located _
          (located-Lacks b']' is_line.module_name.2 is_line.function.3 is_line.offset.2
            (omega arith))
          (omega arith, is_line.address))
      ∙ omega (arith, length-append located (b'[' ∷ a))

  length-line :
      length line ≡ length m + suc (length f + suc (length o + suc (suc (suc (length a + 1)))))
  unfolding line
  length-line = omega (
    arith,
    length-append m (b'(' ∷ (f ++ b'+' ∷ (o ++ b')' ∷ b' ' ∷ b'[' ∷ (a ++ b']' ∷ [])))),
    length-append f (b'+' ∷ (o ++ b')' ∷ b' ' ∷ b'[' ∷ (a ++ b']' ∷ []))),
    length-append o (b')' ∷ b' ' ∷ b'[' ∷ (a ++ b']' ∷ [])),
    length-append a (b']' ∷ []),
  )

  length-located : length located ≡ length m + suc (length f + suc (length o + 2))
  length-located = omega (
    arith,
    length-append m (b'(' ∷ (f ++ b'+' ∷ (o ++ b')' ∷ b' ' ∷ []))),
    length-append f (b'+' ∷ (o ++ b')' ∷ b' ' ∷ [])),
    length-append o (b')' ∷ b' ' ∷ []),
  )

  -- Every position is a number that does not wrap.
  short : length line < npos
  unfolding line
  short = is_line.short

  name_part :
      substr line (add64 (length m) 1) (sub64 (sub64 (length m + suc (length f)) (length m)) 1)
      ≡ ok f
  unfolding line
  name_part =
      substr_at _ _ _ (m ++ b'(' ∷ []) f (b'+' ∷ (o ++ b')' ∷ b' ' ∷ b'[' ∷ (a ++ b']' ∷ [])))
        (simp append_assoc) (omega (arith, length-line, short, length-append m (b'(' ∷ [])))
        (omega (arith, length-line, short))

  address_part :
      substr line
        (add64 (length located) 1)
        (sub64 (sub64 (length located + suc (length a)) (length located)) 1)
      ≡ ok a
  unfolding line
  address_part =
      substr_at _ _ _ (located ++ b'[' ∷ []) a (b']' ∷ []) (simp append_assoc)
        (omega (arith, length-line, length-located, short, length-append located (b'[' ∷ [])))
        (omega (arith, length-line, length-located, short))

  module_part : substr line 0 (length m) ≡ ok m
  unfolding line
  module_part = substr_at _ _ _ [] m _ refl refl refl

  offset_part :
      substr line
        (length m + suc (length f))
        (sub64 (length m + suc (length f + suc (length o))) (length m + suc (length f)))
      ≡ ok (b'+' ∷ o)
  unfolding line
  offset_part =
      substr_at _ _ _ (m ++ b'(' ∷ f) (b'+' ∷ o) (b')' ∷ b' ' ∷ b'[' ∷ (a ++ b']' ∷ []))
        (simp append_assoc) (omega (arith, length-append m (b'(' ∷ f)))
        (omega (arith, length-line, short))

  decode_line :
      (services : SymbolServices)
      → decode_mangled_line services line
        ≡ ok (record {
          address = a;
          module_name = m;
          function = unmangle services f;
          offset = b'+' ∷ o;
        })
  unfolding decode_mangled_line
  decode_line services = rw (
    open_paren, plus, close_paren, open_bracket, close_bracket, name_part, address_part,
    module_part, offset_part,
  )

-- A line in the layout of backtrace_symbols, whose parts hold no character by which it is cut, is
-- taken apart into these parts: the function is demangled, and the offset keeps its plus sign.
pub decode-backtrace_line :
    (services : SymbolServices) (m f o a : List ℕ)
    → IsLine m f o a
    → decode_mangled_line services (backtrace_line m f o a)
      ≡ ok (record {
        address = a;
        module_name = m;
        function = unmangle services f;
        offset = b'+' ∷ o;
      })
unfolding line
decode-backtrace_line services m f o a l = decode_line m f o a l services

-- Where a line has no plus sign from its first parenthesis on, as one for an address in no known
-- module, the last cut starts past the end and std::out_of_range is thrown.
pub no_plus_throws :
    (services : SymbolServices) (s : List ℕ)
    → length s < npos
    → find_char b'+' s (find_char b'(' s 0) ≡ npos
    → decode_mangled_line services s ≡ fault out_of_range
unfolding decode_mangled_line
no_plus_throws services s h e = substr-bind s _ _ _ λ mangled_name.
    substr-bind s _ _ _ λ address. substr-bind s _ _ _ λ module_name. rw (e, substr_past s npos _ h)
