-- ===== src/Watcher/Frames.antt =====
-- Which frames of the stack a record keeps, and when the array `stack_tail` is large enough.
use heap_watcher.Prelude.{
  ℕ, zero, suc, ◌+◌, ◌-◌, ◌≤◌, ◌<◌, ◌≡◌, refl, ap, ◌∙◌, false, List, [], ◌∷◌, ◌++◌, length, take,
  drop, replicate, length-append, length-take, length-drop, length-replicate, arith, ltb, ok, fault,
  write_past_end,
}
use heap_watcher.Records.{max_callstack_retained}
use heap_watcher.Watcher.Backtrace.{
  capture, read_tail, from_pointer, tail_depth, max_malloc_depth_in_call_stack, stack_tail_size,
}

-- The frame at an index, or nullptr past the outermost.
abbrev pub frame : List ℕ → ℕ → ℕ
frame [] i = 0
frame (x ∷ xs) zero = x
frame (x ∷ xs) (suc i) = frame xs i

frame-take : (n : ℕ) (xs : List ℕ) (i : ℕ) → i < n → frame (take n xs) i ≡ frame xs i
frame-take zero xs i h = elim h [ ]
frame-take (suc n) [] i h = refl
frame-take (suc n) (x ∷ xs) zero h = refl
frame-take (suc n) (x ∷ xs) (suc i) h = frame-take n xs i (omega arith)

frame-replicate : (n i : ℕ) → frame (replicate n 0) i ≡ 0
frame-replicate zero i = refl
frame-replicate (suc n) zero = refl
frame-replicate (suc n) (suc i) = frame-replicate n i

frame-padded : (xs : List ℕ) (n i : ℕ) → frame (xs ++ replicate n 0) i ≡ frame xs i
frame-padded [] n i = frame-replicate n i
frame-padded (x ∷ xs) n zero = refl
frame-padded (x ∷ xs) n (suc i) = frame-padded xs n i

frame-drop : (d : ℕ) (xs : List ℕ) (i : ℕ) → frame (drop d xs) i ≡ frame xs (d + i)
frame-drop zero xs i = ground arith
frame-drop (suc d) [] i = refl
frame-drop (suc d) (x ∷ xs) i =
    let e : suc (d + i) ≡ suc d + i = omega arith in frame-drop d xs i ∙ ap (frame (x ∷ xs)) e

take_four :
    (xs : List ℕ)
    → 4 ≤ length xs
    → take 4 xs ≡ frame xs 0 ∷ frame xs 1 ∷ frame xs 2 ∷ frame xs 3 ∷ []
take_four (a ∷ b ∷ c ∷ d ∷ xs) h = refl
take_four (a ∷ b ∷ c ∷ []) h = absurd (omega arith)
take_four (a ∷ b ∷ []) h = absurd (omega arith)
take_four (a ∷ []) h = absurd (omega arith)
take_four [] h = absurd (omega arith)

-- The four frames behind `depth` wrappers.
abbrev pub four_frames : ℕ → List ℕ → List ℕ
four_frames depth frames =
    frame frames depth
    ∷ frame frames (depth + 1)
    ∷ frame frames (depth + 2)
    ∷ frame frames (depth + 3)
    ∷ []

-- The array that `capture` fills, if it has the room.
abbrev pub filled : ℕ → List ℕ → List ℕ
filled depth frames =
    let written = take (max_callstack_retained + depth) frames in
    written ++ replicate (stack_tail_size - length written) 0

module _ (depth : ℕ) (frames : List ℕ) (fits : depth ≤ max_malloc_depth_in_call_stack) where
  pub capture-filled : capture depth frames ≡ ok (filled depth frames)
  unfolding capture
  capture-filled = ground (arith, length-take (max_callstack_retained + depth) frames, fits)

  length-filled : length (filled depth frames) ≡ stack_tail_size
  length-filled = omega (
    arith,
    fits,
    length-append (take (max_callstack_retained + depth) frames)
        (replicate (stack_tail_size - length (take (max_callstack_retained + depth) frames)) 0),
    length-take (max_callstack_retained + depth) frames,
    length-replicate {A = ℕ}
        (stack_tail_size - length (take (max_callstack_retained + depth) frames)) 0,
  )

  frame-filled :
      (i : ℕ) → i < max_callstack_retained + depth → frame (filled depth frames) i ≡ frame frames i
  frame-filled i h =
      frame-padded (take (max_callstack_retained + depth) frames) _ i
      ∙ frame-take (max_callstack_retained + depth) frames i h

  length-pointer : length (from_pointer depth (filled depth frames)) ≡ stack_tail_size - depth
  length-pointer = length-drop depth (filled depth frames) ∙ ap (λ n. n - depth) length-filled

  pub tail_depth-pointer : tail_depth depth ≡ length (from_pointer depth (filled depth frames))
  tail_depth-pointer = omega (arith, fits, length-pointer)

  pointer-frame :
      (i : ℕ)
      → i < max_callstack_retained
      → frame (from_pointer depth (filled depth frames)) i ≡ frame frames (depth + i)
  pointer-frame i h =
      frame-drop depth (filled depth frames) i ∙ frame-filled (depth + i) (omega arith)

  pub read_tail-four_frames : read_tail depth (filled depth frames) ≡ ok (four_frames depth frames)
  unfolding read_tail
  read_tail-four_frames =
      let memory = from_pointer depth (filled depth frames) in
      let room : ltb (length memory) max_callstack_retained ≡ false =
        ground (arith, length-pointer, fits) in
      let start : depth + 0 ≡ depth = omega arith in
      rw (
        room,
        take_four memory (omega (arith, length-pointer, fits)),
        pointer-frame 0 (omega arith),
        pointer-frame 1 (omega arith),
        pointer-frame 2 (omega arith),
        pointer-frame 3 (omega arith),
        start,
      )

pub capture_overruns :
    (depth : ℕ) (frames : List ℕ)
    → max_malloc_depth_in_call_stack < depth
    → stack_tail_size < length frames
    → capture depth frames ≡ fault write_past_end
unfolding capture
capture_overruns depth frames deep long =
    ground (arith, length-take (max_callstack_retained + depth) frames, deep, long)
