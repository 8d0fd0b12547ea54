-- ===== src/Symbols/Printing.antt =====
-- The stream operators for ModuleFunctionOffset in src/HeapWatcher.cpp: what they put on a stream.
use mathlib.Core.List.{append-nil, append_assoc}
use heap_watcher.Prelude.{
  ℕ, ◌≡◌, refl, sym, ap, ◌∙◌, List, [], ◌∷◌, ◌++◌, map, All, ◌==◌, if◌then◌else◌, arith,
}
use heap_watcher.Symbols.{ModuleFunctionOffset}
use heap_watcher.Symbols.Text.{Lacks}

-- "    "
abbrev pub gap : List ℕ
gap = b' ' ∷ b' ' ∷ b' ' ∷ b' ' ∷ []

-- std::endl
abbrev pub endl : ℕ
endl = 10

unfoldable pub print_symbol : ModuleFunctionOffset → List ℕ
print_symbol r = r.address ++ gap ++ r.module_name ++ gap ++ r.function ++ gap ++ r.offset

unfoldable pub print_symbols : List ModuleFunctionOffset → List ℕ
unfolding print_symbol
print_symbols [] = []
print_symbols (r ∷ records) = print_symbol r ++ endl ∷ print_symbols records

-- The lines of a text, each with its end, after the part of the first one that is read already.
abbrev pub read_lines : List ℕ → List ℕ → List (List ℕ)
read_lines begun [] = []
read_lines begun (x ∷ text) =
    let ended = read_lines [] text in
    let longer = read_lines (begun ++ x ∷ []) text in if x == endl then begun ∷ ended else longer

read_lines-first :
    (begun line text : List ℕ)
    → Lacks endl line
    → read_lines begun (line ++ endl ∷ text) ≡ (begun ++ line) ∷ read_lines [] text
read_lines-first begun [] text lacks = ap (λ l. l ∷ read_lines [] text) (sym (append-nil begun))
read_lines-first begun (x ∷ line) text lacks =
    let rest = read_lines-first (begun ++ x ∷ []) line text lacks.1 in
    let joined = append_assoc begun (x ∷ []) line in ground (arith, rest, joined, lacks.0)

-- Where no field has a line break, the lines of what is printed are the records, one line each, in
-- their order.
read_lines-print_symbols :
    (records : List ModuleFunctionOffset)
    → All (λ r. Lacks endl (print_symbol r)) records
    → read_lines [] (print_symbols records) ≡ map print_symbol records
unfolding print_symbols
read_lines-print_symbols [] lacks = refl
read_lines-print_symbols (r ∷ records) lacks =
    read_lines-first [] (print_symbol r) (print_symbols records) lacks.0
    ∙ ap (λ ls. print_symbol r ∷ ls) (read_lines-print_symbols records lacks.1)
