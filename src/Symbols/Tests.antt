-- ===== src/Symbols/Tests.antt =====
-- Lines of backtrace_symbols and stack traces.
use Prim.Native.Char.{code}
use Prim.Native.String.{String}
use heap_watcher.Prelude.{
  ℕ, ◌≡◌, refl, none, some, List, [], ◌∷◌, map, arith, ok, fault, out_of_range, read_past_end,
}
use heap_watcher.Records.{allocation_record}
use heap_watcher.Prelude.{◌++◌}
use heap_watcher.Symbols.Printing.{print_symbols}
use heap_watcher.Symbols.Text.{find_char, substr}
use heap_watcher.Symbols.{
  SymbolServices, unmangle, decode_mangled_line, symbols_for_addresses, stack_trace,
}
use heap_watcher.Symbols.Decode.{IsLine, decode-backtrace_line, no_plus_throws}
use heap_watcher.Symbols.StackTrace.{stack_trace-stops, stack_trace-overruns}

abbrev codes : String → List ℕ
codes String.[] = []
codes (String.◌∷◌ c s) = code c ∷ codes s

-- Services that demangle nothing, and that give each address the same line.
abbrev plain : SymbolServices
plain = record {
  demangle = λ name. none;
  backtrace_symbols = λ addresses. some (map (λ a. codes "./tests(malloc+0x1c) [0x40]") addresses);
}

leak_text-IsLine : IsLine (codes "./tests") (codes "_Z7OneLeakv") (codes "0x1c") (codes "0x55d0")
leak_text-IsLine = record {
  short = omega arith;
  module_name = (omega arith, omega arith, omega arith);
  function = (omega arith, omega arith, omega arith, omega arith);
  offset = (omega arith, omega arith, omega arith);
  address = omega arith;
}

decode-backtrace_line_example :
    decode_mangled_line plain (codes "./tests(_Z7OneLeakv+0x1c) [0x55d0]")
    ≡ ok (record {
      address = codes "0x55d0";
      module_name = codes "./tests";
      function = codes "_Z7OneLeakv";
      offset = codes "+0x1c";
    })
unfolding unmangle
decode-backtrace_line_example =
    decode-backtrace_line plain (codes "./tests") (codes "_Z7OneLeakv") (codes "0x1c")
      (codes "0x55d0") leak_text-IsLine

no_plus_throws_example : decode_mangled_line plain (codes "[0x7ffd10]") ≡ fault out_of_range
unfolding find_char
no_plus_throws_example = no_plus_throws plain (codes "[0x7ffd10]") (omega arith) refl

-- A symbol with no name has an empty function.
unnamed :
    decode_mangled_line plain (codes "libc.so(+0x2a) [0x40]")
    ≡ ok (record {
      address = codes "0x40";
      module_name = codes "libc.so";
      function = [];
      offset = codes "+0x2a";
    })
unfolding decode_mangled_line find_char substr
unnamed = refl

short_stack_trace :
    stack_trace plain (allocation_record 8 100 1 (11 ∷ 12 ∷ 0 ∷ 0 ∷ []))
    ≡ symbols_for_addresses plain (11 ∷ 12 ∷ [])
short_stack_trace =
    stack_trace-stops plain (allocation_record 8 100 1 (11 ∷ 12 ∷ 0 ∷ 0 ∷ [])) (11 ∷ 12 ∷ [])
      (0 ∷ []) refl refl (omega arith)

stack_trace-overruns_example :
    stack_trace plain (allocation_record 8 100 1 (11 ∷ 12 ∷ 13 ∷ 14 ∷ [])) ≡ fault read_past_end
stack_trace-overruns_example =
    stack_trace-overruns plain (allocation_record 8 100 1 (11 ∷ 12 ∷ 13 ∷ 14 ∷ [])) refl
      (omega arith)

printed :
    print_symbols (
      record {
        address = codes "0x40";
        module_name = codes "libc.so";
        function = codes "f()";
        offset = codes "+0x2a";
      }
      ∷ [])
    ≡ codes "0x40    libc.so    f()    +0x2a" ++ 10 ∷ []
unfolding print_symbols
printed = refl
