-- ===== src/Worker/Batches.antt =====
-- Runs of requests one after the other.
use mathlib.Core.List.{append-nil, append_assoc}
use mathlib.Core.Path.{fun_ext}
use heap_watcher.Prelude.{◌≡◌, refl, sym, ap, ◌∙◌, List, [], ◌∷◌, ◌++◌, Result, ok, fault, ◌>>=◌}
use heap_watcher.Requests.{WorkerRequest}
use heap_watcher.Worker.{Books, Reply, handle, handle_all}

abbrev pub Outcome : Type 0
Outcome = Result (Books × List Reply)

-- Go on from an outcome, with the replies put after those that are there.
abbrev pub resume : Outcome → (Books → Outcome) → Outcome
resume (ok (b, replies)) f = do (b', more) ← f b; ok (b', replies ++ more)
resume (fault e) f = fault e

resume_assoc :
    (r : Outcome) (f g : Books → Outcome) → resume (resume r f) g ≡ resume r (λ b. resume (f b) g)
resume_assoc (fault e) f g = refl
resume_assoc (ok (b, o)) f g = go (f b)
  where
    last :
        (o o' : List Reply) (s : Outcome)
        → resume (ok (b, o)) (λ _. resume (ok (b, o')) (λ _. s)) ≡ resume (ok (b, o ++ o')) (λ _. s)
    last o o' (fault e) = refl
    last o o' (ok (c, o'')) = rw append_assoc

    go :
        (s : Outcome)
        → resume (resume (ok (b, o)) (λ _. s)) g ≡ resume (ok (b, o)) (λ _. resume s g)
    go (fault e) = refl
    go (ok (c, o')) = sym (last o o' (g c))

resume_nil : (r : Outcome) → resume r (λ b. ok (b, [])) ≡ r
resume_nil (ok (b, o)) = rw append-nil
resume_nil (fault e) = refl

nil_resume : (b : Books) (f : Books → Outcome) → resume (ok (b, [])) f ≡ f b
nil_resume b f = go (f b)
  where
    go : (s : Outcome) → resume (ok (b, [])) (λ _. s) ≡ s
    go (ok (c, o)) = refl
    go (fault e) = refl

handle_all-cons :
    (r : WorkerRequest) (rs : List WorkerRequest) (b : Books)
    → handle_all (r ∷ rs) b ≡ resume (handle r b) (handle_all rs)
unfolding handle_all
handle_all-cons r rs b = go (handle r b)
  where
    go :
        (s : Outcome)
        → (do (b₁, replies₁) ← s; (b₂, replies₂) ← handle_all rs b₁; ok (b₂, replies₁ ++ replies₂))
          ≡ resume s (handle_all rs)
    go (ok (c, o)) = refl
    go (fault e) = refl

-- Two runs of requests in a row are one run of all of them, faults included.
pub handle_all-append :
    (rs ss : List WorkerRequest) (b : Books)
    → handle_all (rs ++ ss) b ≡ resume (handle_all rs b) (handle_all ss)
handle_all-append [] ss b = unfold handle_all in sym (nil_resume b (handle_all ss))
handle_all-append (r ∷ rs) ss b =
    handle_all-cons r (rs ++ ss) b
    ∙ ap (resume (handle r b)) (fun_ext (handle_all-append rs ss))
    ∙ sym (resume_assoc (handle r b) (handle_all rs) (handle_all ss))
    ∙ ap (λ o. resume o (handle_all ss)) (sym (handle_all-cons r rs b))
