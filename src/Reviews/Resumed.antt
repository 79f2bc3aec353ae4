-- ===== src/Reviews/Resumed.antt =====
-- How the approval of a paused review ends.
use aerp.Prelude.{
  ℕ, ◌≡◌, refl, sym, ap, ◌∙◌, ◌⊎◌, inl, inr, String, true, arith, Option, some, Failure, Result, ok,
  err, pure, >>=-at-ok,
}
use aerp.State.{ReviewState, ConsensusResult}
use aerp.State.Merge.{merge, put}
use aerp.Database.{PullRequest, Db, complete, resuming}
use aerp.Encryption.{Fernet}
use aerp.Workflow.Nodes
use aerp.Workflow.Nodes.{Services, World}
use aerp.Workflow.Run
use aerp.Workflow.Run.{Engine, Outcome, completed}
use aerp.Workflow.Standing
use aerp.Workflow.Standing.{Stage, at_hitl, before, final_state}
use aerp.Tasks.Store.{find_review}
use aerp.Tasks.Review.{Checkpoint, System, stored_token, github_account, last_checkpoint}
use aerp.Tasks.Laws.{change_review-find_review}
use aerp.Reviews.{is_owned}
use aerp.Reviews.Approve
use aerp.Reviews.Approve.{final_score, final_recommendation, as_http, approve_review}

-- What an approval answers and stores, by the result of the resumed run: a run that ended completes
-- the review with the score and the recommendation of its final state, and one that raised leaves
-- the review resuming.
abbrev pub IsResumed : String → Result Outcome → Result String × Db → Type 0
IsResumed review_id r out =
    ((o : Outcome) × (r ≡ ok o)
      × ((message : String) × (out.0 ≡ ok message))
      × ((pr : PullRequest) × (find_review review_id out.1 ≡ some pr)
          × (pr.status ≡ complete)
          × (pr.risk_score ≡ some (final_score (final_state o).consensus_result))
          × (pr.recommendation ≡ some (final_recommendation (final_state o).consensus_result))))
    ⊎ ((e : Failure) × (r ≡ err e)
        × (out.0 ≡ err (as_http e))
        × ((pr : PullRequest) × (find_review review_id out.1 ≡ some pr) × (pr.status ≡ resuming)))

module _ (v : Services) (engine : Engine) (fernet : Fernet) (now : ℕ) where
  settle-IsResumed :
      (review_id : String) (r : Result Outcome) (s : System v) (pr : PullRequest)
      → find_review review_id s.db ≡ some pr
      → pr.status ≡ resuming
      → IsResumed review_id r (
        (Approve.settle v engine fernet now review_id r s).0,
        (Approve.settle v engine fernet now review_id r s).1.db,
      )
  unfolding Approve.settle Approve.close
  settle-IsResumed review_id (err e) s pr found is_resuming =
      inr (e, refl, refl, (pr, found, is_resuming))
  settle-IsResumed review_id (ok o) s pr found is_resuming = inl (
    o,
    refl,
    (_, refl),
    (
      _,
      change_review-find_review review_id (Approve.set_approved now (final_state o)) s.db pr
          (λ x. refl) found,
      refl,
      refl,
      refl,
    ),
  )

  pub approve_review-IsResumed :
      (review_id user_id : String) (s : System v) (pr : PullRequest) (token : Option String)
      (c : Checkpoint) (stage : Stage) (state : ReviewState)
      → find_review review_id s.db ≡ some pr
      → is_owned user_id pr.user_id ≡ true
      → stored_token fernet (github_account s.db user_id) ≡ ok token
      → last_checkpoint review_id s.checkpoints ≡ some c
      → c.standing ≡ before stage state
      → IsResumed review_id (Standing.go_on v engine token stage state s.world).0 (
        (approve_review v engine fernet now review_id user_id s).0,
        (approve_review v engine fernet now review_id user_id s).1.db,
      )
  unfolding approve_review Approve.approve_found Approve.approve_owned Approve.mark_resuming
      Approve.find_token Approve.resume_review Approve.resume_from Approve.resume_run
  approve_review-IsResumed review_id user_id s pr token c stage state found owned has_token saved
        is_paused =
      let marked =
        change_review-find_review review_id (Approve.set_resuming now) s.db pr (λ x. refl) found in
      rw (found, owned, has_token, saved, is_paused) (settle-IsResumed review_id _ _ _ marked refl)

  -- Past the gate a run with a consensus always ends, and keeps it.
  resume-returns :
      (token : Option String) (state : ReviewState) (c : ConsensusResult) (w : World v)
      → state.consensus_result ≡ some c
      → (final : ReviewState) × ((Run.resume v engine token state w).0 ≡ ok final)
        × (final.consensus_result ≡ some c)
  unfolding Run.resume Nodes.hitl_node Nodes.output_node Nodes.post_consensus merge put
  resume-returns token state c w h = (record state { hitl_required = true }, ground arith, h)

  go_on-returns :
      (token : Option String) (state : ReviewState) (c : ConsensusResult) (w : World v)
      → state.consensus_result ≡ some c
      → (final : ReviewState) × ((Standing.go_on v engine token at_hitl state w).0
          ≡ ok (completed final))
        × (final.consensus_result ≡ some c)
  unfolding Standing.go_on
  go_on-returns token state c w h =
      let (final, ended, kept) = resume-returns token state c w h in
      let step =
        >>=-at-ok (Run.resume v engine token state) (λ t. pure (completed t)) w final ended in
      (final, ap (λ (out : Result Outcome × World v). out.0) step, kept)

  -- Approving one's own review whose saved run is paused before the human gate with a consensus,
  -- with a token that can be read, always answers a message, whatever GitHub does, and leaves the
  -- review complete, with the score and the recommendation of that consensus.
  pub approve_review-complete :
      (review_id user_id : String) (s : System v) (pr : PullRequest) (token : Option String)
      (saved : Checkpoint) (state : ReviewState) (c : ConsensusResult)
      → find_review review_id s.db ≡ some pr
      → is_owned user_id pr.user_id ≡ true
      → stored_token fernet (github_account s.db user_id) ≡ ok token
      → last_checkpoint review_id s.checkpoints ≡ some saved
      → saved.standing ≡ before at_hitl state
      → state.consensus_result ≡ some c
      → ((message : String) × ((approve_review v engine fernet now review_id user_id s).0
            ≡ ok message))
        × ((after : PullRequest) × (find_review review_id
                (approve_review v engine fernet now review_id user_id s).1.db
              ≡ some after)
            × (after.status ≡ complete)
            × (after.risk_score ≡ some c.risk_score)
            × (after.recommendation ≡ some c.recommendation))
  approve_review-complete review_id user_id s pr token saved state c found owned has_token is_saved
        is_paused has_consensus =
      let (final, ended, kept) = go_on-returns token state c s.world has_consensus in
      elim (approve_review-IsResumed review_id user_id s pr token saved at_hitl state found owned
        has_token is_saved is_paused) [
          | inl (end, is_end, answered, (after, stored, st, score, advice)) ↦
              let same : ok end ≡ ok (completed final) = sym is_end ∙ ended in
              let is_final : end ≡ completed final = cc in
              let outcome : (final_state end).consensus_result ≡ some c =
                ap (λ (x : Outcome). (final_state x).consensus_result) is_final ∙ kept in
              (
                answered,
                (
                  after,
                  stored,
                  st,
                  score ∙ ap (λ o. some (final_score o)) outcome,
                  advice ∙ ap (λ o. some (final_recommendation o)) outcome,
                ),
              )
          | inr (e, raised, refused, rest) ↦
              let no : err e ≡ ok (completed final) = sym raised ∙ ended in absurd cc
        ]
