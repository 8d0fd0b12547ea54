-- ===== src/Symbols.antt =====
-- src/BacktraceDemangler.cpp, AllocationRecord::stack_trace and KnownLeaks::symbols: from return
-- addresses to names. Text is a list of character codes.
pub mod Text
pub mod Decode
pub mod StackTrace
pub mod Printing
mod Tests
use heap_watcher.Prelude.{
  ℕ, zero, suc, Bool, true, false, Option, none, some, List, [], ◌∷◌, ltb, ◌==◌, if◌then◌else◌,
  get_elem?, add64, sub64, Result, ok, fault, read_past_end, ◌>>=◌,
}
use heap_watcher.KnownLeaks.{LeakAddressAndOffset, known_leak_addresses}
use heap_watcher.Records.{AllocationRecord, max_callstack_retained}
use Text.{find_char, substr}

pub record ModuleFunctionOffset : Type 0 where
  pub address : List ℕ
  pub module_name : List ℕ
  pub function : List ℕ
  pub offset : List ℕ

-- What the code calls and does not implement: abi::__cxa_demangle, where `none` is a status other
-- than 0, and backtrace_symbols of execinfo.h, where `none` is a null result.
pub record SymbolServices : Type 0 where
  pub demangle : List ℕ → Option (List ℕ)
  pub backtrace_symbols : List ℕ → Option (List (List ℕ))

-- The addresses before the first nullptr: `num_addresses` is their number.
unfoldable pub leading_addresses : List ℕ → List ℕ
leading_addresses [] = []
leading_addresses (a ∷ as') = if a == 0 then [] else a ∷ leading_addresses as'

-- The `while` of AllocationRecord::stack_trace from `number_of_tail_entries` on. The list is what
-- is left of the array there; the element is read before the bound is tested.
unfoldable pub tail_entries : ℕ → List ℕ → Result (List ℕ)
tail_entries n [] = fault read_past_end
tail_entries n (a ∷ as') =
    let rest = tail_entries (suc n) as' in
    if a == 0
    then ok []
    else if ltb n max_callstack_retained
    then (do more ← rest; ok (a ∷ more))
    else ok []

module _ (services : SymbolServices) where
  abbrev pass_through : List ℕ → Option (List ℕ) → List ℕ
  pass_through mangled_name none = mangled_name
  pass_through mangled_name (some name) = name

  -- The body of `if (!mangled_name.empty())`; the name is empty otherwise.
  unfoldable pub unmangle : List ℕ → List ℕ
  unmangle [] = []
  unmangle (c ∷ cs) = pass_through (c ∷ cs) (services.demangle (c ∷ cs))

  unfoldable pub decode_mangled_line : List ℕ → Result ModuleFunctionOffset
  unfolding unmangle
  decode_mangled_line line =
      let open_paren_loc = find_char b'(' line 0 in
      let plus_loc = find_char b'+' line open_paren_loc in
      let close_paren_loc = find_char b')' line open_paren_loc in
      let open_bracket_loc = find_char b'[' line 0 in
      do
        mangled_name ←
            substr line (add64 open_paren_loc 1) (sub64 (sub64 plus_loc open_paren_loc) 1)
        address ←
            substr line (add64 open_bracket_loc 1)
              (sub64 (sub64 (find_char b']' line 0) open_bracket_loc) 1)
        module_name ← substr line 0 open_paren_loc
        offset ← substr line plus_loc (sub64 close_paren_loc plus_loc)
        ok (record {
          address = address;
          module_name = module_name;
          function = unmangle mangled_name;
          offset = offset;
        })

  -- `for (int i = 0; i < num_addresses; i++)` over the lines; the list is of the addresses left.
  unfoldable pub decode_lines : List ℕ → List (List ℕ) → Result (List ModuleFunctionOffset)
  unfolding decode_mangled_line
  decode_lines [] lines = ok []
  decode_lines (a ∷ as') [] = fault read_past_end
  decode_lines (a ∷ as') (line ∷ lines) = do
    symbol ← decode_mangled_line line
    symbols ← decode_lines as' lines
    ok (symbol ∷ symbols)

  abbrev decode_found : List ℕ → Option (List (List ℕ)) → Result (List ModuleFunctionOffset)
  decode_found addresses none = ok []
  decode_found addresses (some lines) = decode_lines addresses lines

  unfoldable pub symbols_for_addresses : List ℕ → Result (List ModuleFunctionOffset)
  unfolding leading_addresses decode_lines
  symbols_for_addresses addresses =
      decode_found (leading_addresses addresses)
        (services.backtrace_symbols (leading_addresses addresses))

  -- KnownLeaks::symbols
  unfoldable pub known_leak_symbols : List LeakAddressAndOffset → Result (List ModuleFunctionOffset)
  unfolding symbols_for_addresses known_leak_addresses
  known_leak_symbols known = symbols_for_addresses (known_leak_addresses known)

  -- AllocationRecord::stack_trace
  unfoldable pub stack_trace : AllocationRecord → Result (List ModuleFunctionOffset)
  unfolding tail_entries symbols_for_addresses
  stack_trace r = do addresses ← tail_entries 0 r.raw_stack_trace; symbols_for_addresses addresses
