-- ===== src/Watcher/Waiting.antt =====
-- A wait for a promise ends: the worker reaches the request within as many rounds as there are
-- requests before it, and has then handled these in their order.
use mathlib.Core.Path.{subst}
use heap_watcher.Prelude.{
  ℕ, ◌<◌, ◌≡◌, refl, sym, ap, ◌∙◌, ◌⊎◌, inl, inr, Option, none, some, List, [], ◌∷◌, ◌++◌, length,
  length-append, arith, ok, fault, Returns,
}
use heap_watcher.Requests.{WorkerRequest}
use heap_watcher.Queue.{RequestQueue}
use heap_watcher.Queue.Laws.{QueueLaws, bare, length-bare, OnlyFrom, dequeue-OnlyFrom}
use heap_watcher.Worker.{Books, Reply, handle_all}
use heap_watcher.Worker.Batches.{Outcome, resume, handle_all-append}
use heap_watcher.Watcher.{Watcher}
use heap_watcher.Watcher.Commands.{max_requests_to_dequeue, reply_to, worker_round, await}

-- A list with a known last element, cut in two: the cut is at the end or before it.
split_last :
    {A : Type 0} (xs ys rs : List A) (last : A)
    → xs ++ ys ≡ rs ++ last ∷ []
    → ((ys ≡ []) × (xs ≡ rs ++ last ∷ []))
      ⊎ ((ys' : List A) × (ys ≡ ys' ++ last ∷ []) × (xs ++ ys' ≡ rs))
split_last [] ys rs last e = inr (rs, e, refl)
split_last (x ∷ []) [] [] last e = inl (refl, e)
split_last (x ∷ []) (y ∷ ys) [] last e = absurd cc
split_last (x ∷ z ∷ xs) ys [] last e = absurd cc
split_last (x ∷ xs) ys (r ∷ rs) last e =
    let h : x ≡ r = cc in
    let t : xs ++ ys ≡ rs ++ last ∷ [] = cc in
    elim (split_last xs ys rs last t) [
      | inl (a, b) ↦ inl (a, cc)
      | inr (ys', a, b) ↦ inr (ys', a, cc)
    ]

reply_to-append :
    (p : ℕ) (xs ys : List Reply) → reply_to p xs ≡ none → reply_to p (xs ++ ys) ≡ reply_to p ys
unfolding reply_to
reply_to-append p [] ys e = refl
reply_to-append p (x ∷ xs) ys e = ground (arith, e, reply_to-append p xs ys)

reply_to-first : (p : ℕ) (xs ys : List Reply) → reply_to p (xs ++ ys) ≡ none → reply_to p xs ≡ none
unfolding reply_to
reply_to-first p [] ys e = refl
reply_to-first p (x ∷ xs) ys e = ground (arith, e, reply_to-first p xs ys)

-- A run of two parts: a run of the first and then of the second.
record Cut (xs ys : List WorkerRequest) (b b' : Books) (replies : List Reply) : Type 0 where
  between : Books
  first : List Reply
  second : List Reply
  runs_first : handle_all xs b ≡ ok (between, first)
  runs_second : handle_all ys between ≡ ok (b', second)
  joined : replies ≡ first ++ second

split-Cut :
    (xs ys : List WorkerRequest) (b b' : Books) (replies : List Reply)
    → handle_all (xs ++ ys) b ≡ ok (b', replies)
    → Cut xs ys b b' replies
split-Cut xs ys b b' replies e = go (handle_all xs b) refl (sym (handle_all-append xs ys b) ∙ e)
  where
    last :
        (b₁ : Books) (first : List Reply) (s : Outcome)
        → handle_all xs b ≡ ok (b₁, first)
        → handle_all ys b₁ ≡ s
        → resume (ok (b₁, first)) (λ _. s) ≡ ok (b', replies)
        → Cut xs ys b b' replies
    last b₁ first (fault f) h h' k = absurd cc
    last b₁ first (ok (b₂, second)) h h' k = record {
      between = b₁;
      first = first;
      second = second;
      runs_first = h;
      runs_second = cc;
      joined = cc;
    }

    go :
        (r : Outcome)
        → handle_all xs b ≡ r
        → resume r (handle_all ys) ≡ ok (b', replies)
        → Cut xs ys b b' replies
    go (fault f) h k = absurd cc
    go (ok (b₁, first)) h k = last b₁ first (handle_all ys b₁) h refl k

module _ {queue : RequestQueue} (laws : QueueLaws queue) where
  open queue use {Queue, wait_dequeue_bulk_timed}

  -- The wait has ended with an answer: the books are these, and the queue is empty.
  abbrev pub Answered : ℕ → Reply → Books → Watcher Queue → Option Reply × Watcher Queue → Type 0
  Answered thread answer b w out =
      (rest : Queue) × OnlyFrom laws thread [] rest
      × (out ≡ (some answer, record w { worker_request_queue = rest; books = b }))

  pub round-books :
      (turn : ℕ) (b : Books) (replies : List Reply) (w : Watcher Queue)
      → let got = wait_dequeue_bulk_timed turn max_requests_to_dequeue w.worker_request_queue in
        handle_all (bare got.0) w.books ≡ ok (b, replies)
        → worker_round queue turn w
          ≡ ok (record w { worker_request_queue = got.1; books = b }, replies)
  unfolding worker_round
  round-books turn b replies w e = rw e

  pub await_now :
      (p turn : ℕ) (turns : List ℕ) (answer : Reply) (w w' : Watcher Queue) (replies : List Reply)
      → worker_round queue turn w ≡ ok (w', replies)
      → reply_to p replies ≡ some answer
      → await queue p (turn ∷ turns) w ≡ ok (some answer, w')
  unfolding await
  await_now p turn turns answer w w' replies e f = ground (arith, e, f)

  await_later :
      (p turn : ℕ) (turns : List ℕ) (w w' : Watcher Queue) (replies : List Reply)
      → worker_round queue turn w ≡ ok (w', replies)
      → reply_to p replies ≡ none
      → await queue p (turn ∷ turns) w ≡ await queue p turns w'
  unfolding await
  await_later p turn turns w w' replies e f = ground (arith, e, f)

  -- One thread has requests in the queue, and no other thread has any. The last one sets a promise,
  -- and none before it does; the worker can handle them all. Then a wait for the promise ends within
  -- as many rounds of the worker as there are requests, however it cuts them into batches: with the
  -- answer to the last request, the books after all of them, and an empty queue.
  pub await-Answered :
      (thread p : ℕ) (turns : List ℕ) (rs : List WorkerRequest) (last : WorkerRequest)
      (answer : Reply) (b b' : Books) (replies : List Reply) (w : Watcher Queue)
      → length rs < length turns
      → OnlyFrom laws thread (rs ++ last ∷ []) w.worker_request_queue
      → handle_all rs w.books ≡ ok (b, replies)
      → reply_to p replies ≡ none
      → handle_all (last ∷ []) b ≡ ok (b', answer ∷ [])
      → reply_to p (answer ∷ []) ≡ some answer
      → Returns (Answered thread answer b' w) (await queue p turns w)
  await-Answered thread p [] rs last answer b b' replies w long only run quiet final replied =
      absurd (omega arith)
  await-Answered thread p (turn ∷ turns) rs last answer b b' replies w long only run quiet final
        replied =
      let got = wait_dequeue_bulk_timed turn max_requests_to_dequeue w.worker_request_queue in
      let (cut, left) =
        dequeue-OnlyFrom laws thread turn max_requests_to_dequeue (rs ++ last ∷ [])
          w.worker_request_queue only in
      elim (split_last (bare got.0) (laws.pending thread got.1) rs last cut) [
        | inl (none_left, all) ↦
            let whole : handle_all (bare got.0) w.books ≡ ok (b', replies ++ answer ∷ []) =
              rw (all, handle_all-append rs (last ∷ []) w.books, run, final) in
            let found = reply_to-append p replies (answer ∷ []) quiet ∙ replied in
            rw
              (await_now p turn turns answer w
                (record w { worker_request_queue = got.1; books = b' }) (replies ++ answer ∷ [])
                (round-books turn b' (replies ++ answer ∷ []) w whole) found)
              (got.1, subst (λ xs. OnlyFrom laws thread xs got.1) none_left left, refl)
        | inr (later, more, early) ↦
            let part =
              split-Cut (bare got.0) later w.books b replies
                (ap (λ xs. handle_all xs w.books) early ∙ run) in
            let shorter : length later < length turns = omega (
              arith,
              long,
              ap length early,
              length-append (bare got.0) later,
              length-bare got.0,
              only.no_more,
              length-append rs (last ∷ []),
              laws.batch_progress turn max_requests_to_dequeue w.worker_request_queue (omega arith)
                  (omega (arith, only.no_more, length-append rs (last ∷ []))),
            ) in
            let none_yet =
              reply_to-first p part.first part.second (sym (ap (reply_to p) part.joined) ∙ quiet) in
            let still =
              sym (reply_to-append p part.first part.second none_yet)
              ∙ sym (ap (reply_to p) part.joined)
              ∙ quiet in
            rw
              (await_later p turn turns w
                (record w { worker_request_queue = got.1; books = part.between }) part.first
                (round-books turn part.between part.first w part.runs_first) none_yet)
              (await-Answered thread p turns later last answer b b' part.second
                (record w { worker_request_queue = got.1; books = part.between }) shorter
                (subst (λ xs. OnlyFrom laws thread xs got.1) more left) part.runs_second still final
                replied)
      ]
