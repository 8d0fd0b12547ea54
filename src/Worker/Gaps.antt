-- ===== src/Worker/Gaps.antt =====
-- Where the worker's record of the heap falls short of what the program asked for.
use heap_watcher.Prelude.{
  ℕ, ◌≡◌, refl, none, List, [], ◌∷◌, ◌++◌, ok, fault, Returns, end_dereferenced,
}
use heap_watcher.Requests.{ReallocRecord, WorkerRequest, realloc_of, clear_of, statistics_of}
use heap_watcher.Worker.{
  Books, cleared, statistics_taken, on_realloc, realloc_found, on_clear, handle_all,
}
use heap_watcher.Worker.Ledger.{Ledger, no_blocks, History, Agrees}
use heap_watcher.Worker.Batches.{Outcome, resume, handle_all-append}
use heap_watcher.Worker.Reports.{session_Agrees}

resume_realloc :
    (q : ReallocRecord) (h : Ledger) (r : Outcome)
    → h q.original_address ≡ none
    → Returns (λ out. Agrees out.0 h) r
    → resume r (handle_all (realloc_of q ∷ [])) ≡ fault end_dereferenced
unfolding handle_all
resume_realloc q h (fault _) e g = elim g [ ]
resume_realloc q h (ok (b, replies)) e g =
    rw (g.at q.original_address, e, on_realloc, realloc_found)

-- After a clear and any proper history of the heap, a `realloc` of a block that is not open, such
-- as one from before the clear or a null pointer, makes the worker read past the end of its map.
pub realloc_untracked :
    (b : Books) (p : ℕ) (rs : List WorkerRequest) (h : Ledger) (q : ReallocRecord)
    → History no_blocks rs h
    → h q.original_address ≡ none
    → handle_all ((clear_of p ∷ rs) ++ realloc_of q ∷ []) b ≡ fault end_dereferenced
realloc_untracked b p rs h q hist e =
    rw (handle_all-append (clear_of p ∷ rs) (realloc_of q ∷ []) b)
      (resume_realloc q h (handle_all (clear_of p ∷ rs) b) e (session_Agrees b p rs h hist))

-- A clear resets every statistic but the number of known leaks, which it leaves as it was.
clear_statistics :
    (b : Books) (p q : ℕ)
    → handle_all (clear_of p ∷ statistics_of q ∷ []) b
      ≡ ok (
        on_clear b,
        cleared p
            ∷ statistics_taken q (record {
              number_of_mallocs = 0;
              number_of_reallocs = 0;
              number_of_frees = 0;
              number_of_known_leaks = b.number_of_known_leaks;
              bytes_allocated = 0;
              bytes_freed = 0;
            })
            ∷ [],
      )
unfolding handle_all
clear_statistics b p q = refl
