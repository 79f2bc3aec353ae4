-- ===== src/Lifecycle/Overwritten.antt =====
-- A cancellation that comes between two transactions of the review task.
use aerp.Prelude.{
  ℕ, ◌≤◌, ◌≡◌, refl, ap, String, Bool, true, false, none, some, Result, ok, inl, inr, arith,
}
use aerp.Database.{PullRequest, failed}
use aerp.Encryption.{Fernet}
use aerp.Workflow.Nodes.{Services}
use aerp.Workflow.Run.{Engine, Outcome, completed, paused}
use aerp.Tasks.Store
use aerp.Tasks.Store.{find_review, update_review_complete, persist_findings}
use aerp.Tasks.Review
use aerp.Tasks.Review.{System, Task, TaskResult}
use aerp.Tasks.Laws
use aerp.Tasks.Laws.{IsStored, IsSettled, HasRun, change_review-find_review}
use aerp.Tasks.Phases.{
  Phase, waiting, refused, granted, working, ran, recorded, notifying, failing, over, advance,
  advance_by,
}
use aerp.Tasks.Uninterrupted
use aerp.Tasks.Uninterrupted.{ended}
use aerp.Reviews.{is_owned}
use aerp.Reviews.Cancel.{cancel_review}
use aerp.Reviews.Laws.{cancel_review-Ended}

-- The token is read, and the outcome is not written yet.
abbrev pub is_underway : Phase → Bool
is_underway waiting = false
is_underway refused = true
is_underway (granted token) = true
is_underway (working token) = true
is_underway (ran o) = true
is_underway (recorded o) = true
is_underway (notifying final) = false
is_underway (failing e) = true
is_underway (over r) = false

-- The execution has returned a result, and its review is settled.
abbrev pub HasEnded : {v : Services} → String → Phase × System v → Type 0
HasEnded id (p, s) = ((result : TaskResult) × (p ≡ over (ok result))) × IsSettled id s.db

module _ (v : Services) (engine : Engine) (fernet : Fernet) (uuid : ℕ → String) (now : ℕ) (t : Task)
    (retries : ℕ) where
  abbrev pub EndsFrom : Phase → System v → Type 0
  EndsFrom p s =
      (n : ℕ) × (n ≤ 5) × HasEnded t.review_id (advance_by v engine fernet uuid now n t retries p s)

  ends_by :
      (n : ℕ) (p : Phase) (s : System v) (out : Result TaskResult × System v)
      → n ≤ 5
      → advance_by v engine fernet uuid now n t retries p s ≡ ended out
      → HasRun v engine fernet uuid now t.review_id out
      → EndsFrom p s
  ends_by n p s out le e ((result, is_ok), h) = (n, le, rw e ((result, ap over is_ok), h))

  finish-HasRun :
      (o : Outcome) (s : System v)
      → IsStored t.review_id s.db
      → HasRun v engine fernet uuid now t.review_id (Review.finish v engine fernet uuid now t o s)
  finish-HasRun o s h =
      let (r, s') = Review.finish v engine fernet uuid now t o s in
      let handled =
        Laws.handle-HasRun v engine fernet uuid now t retries r s'
          (Laws.finish-IsSettled v engine fernet uuid now t o s h) in
      rw
        (Uninterrupted.handle-ok v engine fernet uuid now t retries r s'
          (Uninterrupted.finish-returns v engine fernet uuid now t retries o s))
        at handled

  recorded-EndsFrom :
      (o : Outcome) (s : System v) → IsStored t.review_id s.db → EndsFrom (recorded o) s
  unfolding advance_by advance update_review_complete Store.set_complete Review.set_status
      Store.update_review_status Store.set_status
  recorded-EndsFrom (paused final) s (pr, found) =
      let kept = change_review-find_review t.review_id _ s.db pr (λ x. refl) found in
      (2, omega arith, ((_, refl), (_, kept, inr (inl refl))))
  recorded-EndsFrom (completed final) s (pr, found) =
      let kept = change_review-find_review t.review_id _ s.db pr (λ x. refl) found in
      (1, omega arith, ((_, refl), (_, kept, inr (inr refl))))

  -- A write of `failed` ends the execution.
  fails :
      (p : Phase) (e : String) (result : TaskResult) (s : System v)
      → IsStored t.review_id s.db
      → advance v engine fernet uuid now t retries p s ≡ (
        over (ok result),
        (Review.set_status v engine fernet uuid now t.review_id failed (some e) none s).1,
      )
      → EndsFrom p s
  unfolding advance_by
  fails p e result s h is_that =
      let (pr, found, st) =
        Laws.set_status-find_review v engine fernet uuid now t.review_id failed (some e) none s h in
      (1, omega arith, rw is_that ((result, refl), (pr, found, inl st)))

  advance_by-EndsFrom :
      (p : Phase) (s : System v) → is_underway p ≡ true → IsStored t.review_id s.db → EndsFrom p s
  unfolding advance_by advance
  advance_by-EndsFrom waiting s under h = cc
  advance_by-EndsFrom refused s under h = fails refused _ _ s h refl
  advance_by-EndsFrom (granted token) s under h =
      ends_by 5 (granted token) s _ (omega arith)
        (Uninterrupted.granted-try_review v engine fernet uuid now t retries token s)
        (Laws.try_review-HasRun v engine fernet uuid now t retries (some token) s h)
  advance_by-EndsFrom (working token) s under h =
      let (r, s₁) = Review.run_langgraph v engine fernet uuid now t (some token) s in
      ends_by 4 (working token) s _ (omega arith)
        (Uninterrupted.returned-handle v engine fernet uuid now t retries r s₁)
        (Laws.handle-HasRun v engine fernet uuid now t retries _ _ (
          Laws.settle-Attempted v engine fernet uuid now t r s₁
            (Laws.run_langgraph-IsStored v engine fernet uuid now t (some token) s h)))
  advance_by-EndsFrom (ran o) s under h =
      ends_by 3 (ran o) s _ (omega arith)
        (Uninterrupted.ran-finish v engine fernet uuid now t retries o s) (finish-HasRun o s h)
  advance_by-EndsFrom (recorded o) s under h = recorded-EndsFrom o s h
  advance_by-EndsFrom (notifying final) s under h = cc
  advance_by-EndsFrom (failing e) s under h = fails (failing e) _ _ s h refl
  advance_by-EndsFrom (over r) s under h = cc

  -- When one's own stored review is cancelled while an execution of its task has read the token
  -- and not yet written the outcome, and the execution goes on, then at most five more
  -- transactions end it with a result and leave the review failed, paused for review or complete:
  -- the cancellation is overwritten.
  pub cancel_review-overwritten :
      (p : Phase) (s : System v) (cancelled_at : ℕ) (user_id : String) (pr : PullRequest)
      → find_review t.review_id s.db ≡ some pr
      → is_owned user_id pr.user_id ≡ true
      → is_underway p ≡ true
      → EndsFrom p (record s { db = (cancel_review cancelled_at t.review_id user_id s.db).1 })
  cancel_review-overwritten p s cancelled_at user_id pr found owned under =
      let (answered, (after, kept, is_over)) =
        cancel_review-Ended cancelled_at t.review_id user_id s.db pr found owned in
      advance_by-EndsFrom p _ under (after, kept)
