-- ===== src/Tasks/Uninterrupted.antt =====
-- The phases of the review task, one after the other, are `run_review_task`.
use aerp.Prelude.{
  ℕ, ◌≡◌, refl, String, is_truthy, Option, none, some, Result, ok, err, ◌>>=◌, Bool-cases, inl, inr,
  ◌∙◌, ap, sym,
}
use aerp.State.{ReviewState}
use aerp.Encryption.{Fernet}
use aerp.Database
use aerp.Workflow.Nodes.{Services}
use aerp.Workflow.Run.{Engine, Outcome, completed, paused}
use aerp.Tasks.Review
use aerp.Tasks.Review.{System, Task, TaskResult}
use aerp.Tasks.Phases.{
  Phase, waiting, granted, ran, over, with_token, returned, record_end, advance, advance_by,
}

-- An execution that is over, with its result.
abbrev pub ended : {v : Services} → Result TaskResult × System v → Phase × System v
ended (r, s) = (over r, s)

module _ (v : Services) (engine : Engine) (fernet : Fernet) (uuid : ℕ → String) (now : ℕ) (t : Task)
    (retries : ℕ) where
  abbrev pub on : ℕ → Phase × System v → Phase × System v
  on n (p, s) = advance_by v engine fernet uuid now n t retries p s

  record_end-finish_with :
      (final : ReviewState) (e : Option String) (s : System v)
      → on 2 (record_end v engine fernet uuid now t final e s)
        ≡ ended (Review.finish_with v engine fernet uuid now t final e s)
  unfolding advance_by advance record_end Review.finish_with
  record_end-finish_with final none s = refl
  record_end-finish_with final (some e) s = refl

  pub ran-finish :
      (o : Outcome) (s : System v)
      → on 3 (ran o, s) ≡ ended (Review.finish v engine fernet uuid now t o s)
  unfolding advance_by advance Review.finish Review.finish_paused Review.finish_completed
  ran-finish (paused final) s = refl
  ran-finish (completed final) s = record_end-finish_with final _ s

  finish_with-returns :
      (final : ReviewState) (e : Option String) (s : System v)
      → (result : TaskResult) × ((Review.finish_with v engine fernet uuid now t final e s).0
          ≡ ok result)
  unfolding Review.finish_with
  finish_with-returns final none s = (_, refl)
  finish_with-returns final (some e) s = (_, refl)

  pub finish-returns :
      (o : Outcome) (s : System v)
      → (result : TaskResult) × ((Review.finish v engine fernet uuid now t o s).0 ≡ ok result)
  unfolding Review.finish Review.finish_paused Review.finish_completed
  finish-returns (paused final) s = (_, refl)
  finish-returns (completed final) s = finish_with-returns final _ s

  -- The `except` block lets a result through.
  pub handle-ok :
      (r : Result TaskResult) (s : System v)
      → (result : TaskResult) × (r ≡ ok result)
      → Review.handle v engine fernet uuid now t retries r s ≡ (r, s)
  unfolding Review.handle
  handle-ok (ok result) s h = refl
  handle-ok (err e) s (result, h) = cc

  pub returned-handle :
      (r : Result Outcome) (s : System v)
      → (let (r', s') =
            ((λ (_ : System v). (r, s)) >>= λ outcome.
            Review.finish v engine fernet uuid now t outcome)
              s in
          on 3 (returned v engine fernet uuid now r s)
          ≡ ended (Review.handle v engine fernet uuid now t retries r' s'))
  unfolding advance_by advance Review.handle Review.recover
  returned-handle (err e) s = refl
  returned-handle (ok o) s =
      let (r, s') = Review.finish v engine fernet uuid now t o s in
      ran-finish o s ∙ ap ended (sym (handle-ok r s' (finish-returns o s)))

  pub granted-try_review :
      (token : String) (s : System v)
      → on 5 (granted token, s)
        ≡ ended (Review.try_review v engine fernet uuid now t retries (some token) s)
  unfolding advance_by advance Review.try_review Review.attempt_review
  granted-try_review token s =
      let s' =
        (Review.set_status v engine fernet uuid now t.review_id Database.collecting none none
          s).1 in
      let (r, s₂) = Review.run_langgraph v engine fernet uuid now t (some token) s' in
      returned-handle r s₂

  with_token-run_with_token :
      (r : Result (Option String)) (s : System v)
      → on 5 (with_token r, s)
        ≡ ended (
            ((λ (_ : System v). (r, s))
                >>= Review.run_with_token v engine fernet uuid now t retries)
              s)
  unfolding advance_by advance Review.run_with_token Review.refuse
  with_token-run_with_token (err e) s = refl
  with_token-run_with_token (ok none) s = refl
  with_token-run_with_token (ok (some token)) s = elim (Bool-cases (is_truthy token)) [
    | inl e ↦ rw e (granted-try_review token s)
    | inr e ↦ rw e refl
  ]

  -- Six transactions of an execution of the review task, with nothing between them, end it, with
  -- the result and the system of run_review_task.
  pub advance_by-run_review_task :
      (s : System v)
      → advance_by v engine fernet uuid now 6 t retries waiting s
        ≡ ended (Review.run_review_task v engine fernet uuid now t retries s)
  unfolding advance_by advance Review.run_review_task
  advance_by-run_review_task s =
      let (r, s') = Review.setup_env v engine fernet uuid now t.user_id s in
      with_token-run_with_token r s'
