-- ===== src/Watcher/Backtrace.antt =====
-- The array `stack_tail` of the instrumented functions: what `backtrace` writes into it, and what is
-- read from the pointer behind the frames of the wrappers.
use heap_watcher.Prelude.{
  ℕ, ◌+◌, ◌-◌, List, ◌++◌, length, take, drop, replicate, ltb, if◌then◌else◌, sub64, Result, ok,
  fault, read_past_end, write_past_end,
}
use heap_watcher.Records.{max_callstack_retained}

abbrev pub max_malloc_depth_in_call_stack : ℕ
max_malloc_depth_in_call_stack = 3

-- The size of `stack_tail`.
abbrev pub stack_tail_size : ℕ
stack_tail_size = max_callstack_retained + max_malloc_depth_in_call_stack

-- `stack_tail.fill(nullptr)`, then `backtrace(stack_tail.data(), MAX_CALLSTACK_RETAINED + depth)`.
-- `frames` are the return addresses of the thread, the innermost first.
unfoldable pub capture : ℕ → List ℕ → Result (List ℕ)
capture depth frames =
    let written = take (max_callstack_retained + depth) frames in
    if ltb stack_tail_size (length written)
    then fault write_past_end
    else ok (written ++ replicate (stack_tail_size - length written) 0)

-- The memory from `stack_tail.data() + depth` on.
abbrev pub from_pointer : ℕ → List ℕ → List ℕ
from_pointer depth stack_tail = drop depth stack_tail

-- `stack_tail.size() - malloc_depth_in_call_stack_`
abbrev pub tail_depth : ℕ → ℕ
tail_depth depth = sub64 stack_tail_size depth

-- The constructor of AllocationRecord copies MAX_CALLSTACK_RETAINED pointers from there.
unfoldable pub read_tail : ℕ → List ℕ → Result (List ℕ)
read_tail depth stack_tail =
    let memory = from_pointer depth stack_tail in
    if ltb (length memory) max_callstack_retained
    then fault read_past_end
    else ok (take max_callstack_retained memory)
