-- ===== src/Reviews/Approving.antt =====
-- `approve_review` a transaction at a time: other requests and tasks may come between two of them.
-- The check that the run is paused and the rest of the run are one phase.
use aerp.Prelude.{
  ℕ, zero, suc, ◌≡◌, refl, String, Option, none, some, [], ◌∷◌, ◌++◌, http, Result, ok, err, ◌>>=◌,
  Bool-cases, inl, inr, if◌then◌else◌,
}
use aerp.State.{ReviewState}
use aerp.Database.{PullRequest, generate_artifacts}
use aerp.Encryption.{Fernet}
use aerp.Workflow.Nodes.{Services}
use aerp.Workflow.Run.{Engine, Outcome}
use aerp.Workflow.Standing.{Standing, at_end, before, final_state}
use aerp.Tasks.Store.{find_review, change_review}
use aerp.Tasks.Review.{System, last_checkpoint}
use aerp.Reviews.{is_owned}
use aerp.Reviews.Approve
use aerp.Reviews.Approve.{set_approved, as_http}

-- Where a request stands, with its local variables.
pub data Approval : Type 0 where
  asked : Approval
  marked : Approval  -- `resuming` is written
  authorised : Option String → Approval  -- the token is read
  resumed : ReviewState → Approval  -- the run is at its end
  closed : Approval  -- `complete` is written
  answered : Result String → Approval

abbrev pub with_token : Result (Option String) → Approval
with_token (err e) = answered (err e)
with_token (ok token) = authorised token

module _ (v : Services) (engine : Engine) (fernet : Fernet) (now : ℕ)
    (review_id user_id : String) where
  unfoldable pub mark : Option PullRequest → System v → Approval × System v
  mark none s = (answered (err (http 404 "Review not found")), s)
  mark (some pr) s =
      if is_owned user_id pr.user_id
      then (marked, (Approve.mark_resuming v engine fernet now review_id s).1)
      else (answered (err (http 404 "Review not found")), s)

  abbrev pub returned : Result Outcome → System v → Approval × System v
  returned (err e) s = (answered (err (as_http e)), s)
  returned (ok outcome) s = (resumed (final_state outcome), s)

  unfoldable pub resume : Option String → Option Standing → System v → Approval × System v
  resume token none s = (answered (err (http 400 "Workflow is not paused.")), s)
  resume token (some (at_end final)) s = (answered (err (http 400 "Workflow is not paused.")), s)
  resume token (some (before stage state)) s =
      let (r, s') = Approve.resume_run v engine fernet now review_id token stage state s in
      returned r s'

  -- The next transaction of a request.
  unfoldable pub advance : Approval → System v → Approval × System v
  unfolding mark resume
  advance asked s = mark (find_review review_id s.db) s
  advance marked s =
      let (r, s') = Approve.find_token v engine fernet now user_id s in (with_token r, s')
  advance (authorised token) s =
      resume token
        (Approve.standing_of v engine fernet now (last_checkpoint review_id s.checkpoints)) s
  advance (resumed final) s =
      (closed, record s { db = change_review review_id (set_approved now final) s.db })
  advance closed s = (
    answered (ok "Review resumed and completed successfully. Artifact generation started."),
    record s { db = record s.db { jobs = s.db.jobs ++ generate_artifacts review_id ∷ [] } },
  )
  advance (answered r) s = (answered r, s)

  unfoldable pub advance_by : ℕ → Approval → System v → Approval × System v
  advance_by zero a s = (a, s)
  advance_by (suc n) a s = let (a', s') = advance a s in advance_by n a' s'

  abbrev pub ended : Result String × System v → Approval × System v
  ended (r, s) = (answered r, s)

  abbrev on : ℕ → Approval × System v → Approval × System v
  on n (a, s) = advance_by n a s

  returned-settle :
      (r : Result Outcome) (s : System v)
      → on 2 (returned r s) ≡ ended (Approve.settle v engine fernet now review_id r s)
  unfolding advance_by advance Approve.settle Approve.close
  returned-settle (err e) s = refl
  returned-settle (ok outcome) s = refl

  resume-resume_from :
      (token : Option String) (o : Option Standing) (s : System v)
      → on 2 (resume token o s)
        ≡ ended (Approve.resume_from v engine fernet now review_id token o s)
  unfolding advance_by advance resume Approve.resume_from
  resume-resume_from token none s = refl
  resume-resume_from token (some (at_end final)) s = refl
  resume-resume_from token (some (before stage state)) s =
      let (r, s') = Approve.resume_run v engine fernet now review_id token stage state s in
      returned-settle r s'

  with_token-resume_review :
      (r : Result (Option String)) (s : System v)
      → on 3 (with_token r, s)
        ≡ ended
            (((λ (_ : System v). (r, s)) >>= Approve.resume_review v engine fernet now review_id) s)
  unfolding advance_by advance Approve.resume_review
  with_token-resume_review (err e) s = refl
  with_token-resume_review (ok token) s = resume-resume_from token _ s

  mark-approve_found :
      (o : Option PullRequest) (s : System v)
      → on 4 (mark o s) ≡ ended (Approve.approve_found v engine fernet now review_id user_id o s)
  unfolding advance_by advance mark Approve.approve_found Approve.approve_owned
  mark-approve_found none s = refl
  mark-approve_found (some pr) s = elim (Bool-cases (is_owned user_id pr.user_id)) [
    | inl e ↦
        rw e (with_token-resume_review _ (Approve.mark_resuming v engine fernet now review_id s).1)
    | inr e ↦ rw e refl
  ]

  -- Five transactions of an approval, with nothing between them, answer it, with the answer and
  -- the system of approve_review.
  pub advance_by-approve_review :
      (s : System v)
      → advance_by 5 asked s
        ≡ ended (Approve.approve_review v engine fernet now review_id user_id s)
  unfolding advance_by advance Approve.approve_review
  advance_by-approve_review s = mark-approve_found (find_review review_id s.db) s
