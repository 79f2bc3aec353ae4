-- ===== src/Tasks/Laws.antt =====
-- What a run of the review task leaves in the database.
use aerp.Prelude.{
  ℕ, ◌≡◌, refl, ap, ◌⊎◌, inl, inr, String, is_truthy, str_eq, true, Option, none, some, Failure,
  Result, ok, err, ◌>>=◌,
}
use aerp.State.{ReviewState}
use aerp.Database.{ReviewStatus, Db, PullRequest, collecting, failed, paused_for_review, complete}
use aerp.Database.Tables.{find_first-update_self}
use aerp.Encryption.{Fernet}
use aerp.Workflow.Nodes.{Services}
use aerp.Workflow.Run.{Engine, Outcome, completed, paused}
use aerp.Tasks.Store
use aerp.Tasks.Store.{
  find_review, change_review, has_id, update_review_status, update_review_complete,
  persist_findings,
}
use aerp.Tasks.Review
use aerp.Tasks.Review.{Task, TaskResult, System, Checkpoint, stored_token, github_account}
use aerp.Agents.Base.{failure_text}

-- The review is stored.
abbrev pub IsStored : String → Db → Type 0
IsStored review_id db = (pr : PullRequest) × (find_review review_id db ≡ some pr)

-- The review is stored, and in a status in which a run of the task may leave it.
abbrev pub IsSettled : String → Db → Type 0
IsSettled review_id db =
    (pr : PullRequest) × (find_review review_id db ≡ some pr)
    × ((pr.status ≡ failed) ⊎ (pr.status ≡ paused_for_review) ⊎ (pr.status ≡ complete))

-- A write by id, which keeps the id, changes the review that is found by it.
pub change_review-find_review :
    (review_id : String) (f : PullRequest → PullRequest) (db : Db) (pr : PullRequest)
    → ((x : PullRequest) → (f x).id ≡ x.id)
    → find_review review_id db ≡ some pr
    → find_review review_id (change_review review_id f db) ≡ some (f pr)
change_review-find_review review_id f db pr keeps found =
    find_first-update_self (has_id review_id) f db.pull_requests pr
      (λ x. ap (λ (i : String). str_eq i review_id) (keeps x)) found

module _ (v : Services) (engine : Engine) (fernet : Fernet) (uuid : ℕ → String) (now : ℕ) where
  pub set_status-find_review :
      (id : String) (st : ReviewStatus) (e : Option String) (n : Option ℕ) (s : System v)
      → IsStored id s.db
      → (pr : PullRequest) × (find_review id
            (Review.set_status v engine fernet uuid now id st e n s).1.db
          ≡ some pr)
        × (pr.status ≡ st)
  unfolding Review.set_status update_review_status Store.set_status
  set_status-find_review id st e n s (pr, found) = (
    Store.set_status now st e n pr,
    change_review-find_review id _ s.db pr (λ x. refl) found,
    refl,
  )

  -- After the body of the `try` block: it is settled where the body returned, and still stored where
  -- it raised.
  abbrev pub Attempted : String → Result TaskResult × System v → Type 0
  Attempted id (ok r, s) = IsSettled id s.db
  Attempted id (err e, s) = IsStored id s.db

  finish_paused-IsSettled :
      (t : Task) (final : ReviewState) (s : System v)
      → IsStored t.review_id s.db
      → Attempted t.review_id (Review.finish_paused v engine fernet uuid now t final s)
  unfolding Review.finish_paused persist_findings Review.set_status update_review_status
      Store.set_status
  finish_paused-IsSettled t final s (pr, found) =
      (_, change_review-find_review t.review_id _ s.db pr (λ x. refl) found, inr (inl refl))

  finish_with-IsSettled :
      (t : Task) (final : ReviewState) (e : Option String) (s : System v)
      → IsStored t.review_id s.db
      → Attempted t.review_id (Review.finish_with v engine fernet uuid now t final e s)
  unfolding Review.finish_with persist_findings update_review_complete Store.set_complete
      Review.set_status update_review_status Store.set_status
  finish_with-IsSettled t final none s (pr, found) =
      (_, change_review-find_review t.review_id _ s.db pr (λ x. refl) found, inr (inr refl))
  finish_with-IsSettled t final (some e) s (pr, found) =
      (_, change_review-find_review t.review_id _ s.db pr (λ x. refl) found, inl refl)

  pub finish-IsSettled :
      (t : Task) (o : Outcome) (s : System v)
      → IsStored t.review_id s.db
      → Attempted t.review_id (Review.finish v engine fernet uuid now t o s)
  unfolding Review.finish Review.finish_completed
  finish-IsSettled t (paused final) s h = finish_paused-IsSettled t final s h
  finish-IsSettled t (completed final) s h = finish_with-IsSettled t final _ s h

  pub settle-Attempted :
      (t : Task) (r : Result Outcome) (s : System v)
      → IsStored t.review_id s.db
      → Attempted t.review_id (
          ((λ (_ : System v). (r, s)) >>= λ outcome.
          Review.finish v engine fernet uuid now t outcome)
            s)
  settle-Attempted t (ok outcome) s h = finish-IsSettled t outcome s h
  settle-Attempted t (err e) s h = h

  pub run_langgraph-IsStored :
      (t : Task) (token : Option String) (s : System v)
      → IsStored t.review_id s.db
      → IsStored t.review_id (Review.run_langgraph v engine fernet uuid now t token s).1.db
  unfolding Review.run_langgraph
  run_langgraph-IsStored t token s h = h

  attempt_review-Attempted :
      (t : Task) (token : Option String) (s : System v)
      → IsStored t.review_id s.db
      → Attempted t.review_id (Review.attempt_review v engine fernet uuid now t token s)
  unfolding Review.attempt_review
  attempt_review-Attempted t token s h =
      let (r, s') = Review.run_langgraph v engine fernet uuid now t token s in
      settle-Attempted t r s' (run_langgraph-IsStored t token s h)

  -- A task that has run: it returned a result, and its review is settled.
  abbrev pub HasRun : String → Result TaskResult × System v → Type 0
  HasRun id out = ((result : TaskResult) × (out.0 ≡ ok result)) × IsSettled id out.1.db

  pub handle-HasRun :
      (t : Task) (retries : ℕ) (r : Result TaskResult) (s : System v)
      → Attempted t.review_id (r, s)
      → HasRun t.review_id (Review.handle v engine fernet uuid now t retries r s)
  unfolding Review.handle Review.recover
  handle-HasRun t retries (ok result) s h = ((result, refl), h)
  handle-HasRun t retries (err e) s h =
      let (pr, found, st) =
        set_status-find_review t.review_id failed (some (failure_text e)) none s h in
      ((_, refl), (pr, found, inl st))

  pub try_review-HasRun :
      (t : Task) (retries : ℕ) (token : Option String) (s : System v)
      → IsStored t.review_id s.db
      → HasRun t.review_id (Review.try_review v engine fernet uuid now t retries token s)
  unfolding Review.try_review
  try_review-HasRun t retries token s h =
      let (pr, found, st) = set_status-find_review t.review_id collecting none none s h in
      let started =
        (Review.set_status v engine fernet uuid now t.review_id collecting none none s).1 in
      let (r, s₂) = Review.attempt_review v engine fernet uuid now t token started in
      handle-HasRun t retries r s₂ (attempt_review-Attempted t token started (pr, found))

  -- A stored token that cannot be decrypted raises out of the task with the database as it was:
  -- the review is not marked failed.
  pub run_review_task-undecryptable :
      (t : Task) (retries : ℕ) (user_id : String) (e : Failure) (s : System v)
      → t.user_id ≡ some user_id
      → is_truthy user_id ≡ true
      → stored_token fernet (github_account s.db user_id) ≡ err e
      → Review.run_review_task v engine fernet uuid now t retries s ≡ (err e, s)
  unfolding Review.run_review_task Review.setup_env
  run_review_task-undecryptable t retries user_id e s h truthy bad = rw (h, truthy, bad) refl
