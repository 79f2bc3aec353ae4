-- ===== src/Tasks/Retried.antt =====
-- The artifacts of a review whose run is saved are never made: the documentation agent reads files with
-- a call that lacks an argument.
use aerp.Prelude.{
  ◌≡◌, refl, ◌⊎◌, String, List, [], ◌∷◌, Option, none, some, Failure, Result, ok, err, Bool-cases,
  inl, inr,
}
use aerp.State.{PrMetadata, JiraTicket, AgentFinding, ReviewState}
use aerp.Dict.{Dict}
use aerp.Encryption.{Fernet}
use aerp.Agents.Documentation
use aerp.Agents.Documentation.{DocServices, generate_documentation}
use aerp.Workflow.Nodes.{Services}
use aerp.Tasks.Store.{find_review}
use aerp.Workflow.Standing.{values}
use aerp.Tasks.Review.{Checkpoint, System, last_checkpoint}
use aerp.Tasks.Artifacts
use aerp.Tasks.Artifacts.{ArtifactServices, ArtifactsResult, retried, generate_artifacts_task}

abbrev Raises : {A : Type 0} → Result A → Type 0
Raises r = (e : Failure) × (r ≡ err e)

read_files-failure :
    (fetch : String → Result String) (paths : List String) (d : Dict String) (e : Failure)
    → ((path : String) → fetch path ≡ err e)
    → (Documentation.read_files fetch paths d ≡ err e)
      ⊎ ((d' : Dict String) × (Documentation.read_files fetch paths d ≡ ok d'))
unfolding Documentation.read_files
read_files-failure fetch [] d e h = inr (d, refl)
read_files-failure fetch (p ∷ paths) d e h = elim (Bool-cases (Documentation.is_code_file p)) [
  | inl c ↦ inl (rw (c, Documentation.read_files, h p) refl)
  | inr c ↦ rw (c, Documentation.read_files) (read_files-failure fetch paths d e h)
]

read_all-Raises :
    (fetch : String → Result String) (paths : List String) (e : Failure)
    → ((path : String) → fetch path ≡ err e)
    → Raises (Documentation.read_all fetch paths)
unfolding Documentation.read_all
read_all-Raises fetch paths e h = elim (read_files-failure fetch paths [] e h) [
  | inl r ↦ (e, rw (r, Documentation.read_all) refl)
  | inr (d, r) ↦ (e, rw (r, Documentation.read_all, h "README.md") refl)
]

generate_documentation-Raises :
    (v : DocServices) (pr : PrMetadata) (jira : Option JiraTicket) (findings : List AgentFinding)
    → Raises (generate_documentation v pr jira findings)
unfolding generate_documentation Documentation.document Documentation.call_get_file_content
generate_documentation-Raises v pr jira findings =
    let (e, r) =
      read_all-Raises
        (λ path. Documentation.call_get_file_content pr.repo_owner pr.repo_name path pr.branch)
        pr.changed_files _ (λ path. refl) in
    (e, rw r refl)

module _ (v : Services) (a : ArtifactServices) (fernet : Fernet) where
  generate_for-Raises :
      (review_id : String) (token : Option String) (state : ReviewState) (o : Option PrMetadata)
      (s : System v)
      → (e : Failure) × (Artifacts.generate_for v a fernet review_id token state o s ≡ (err e, s))
  unfolding Artifacts.generate_for
  generate_for-Raises review_id token state none s = (_, refl)
  generate_for-Raises review_id token state (some pr) s =
      let (e, r) = generate_documentation-Raises a.docs pr state.jira_ticket state.agent_findings in
      (e, rw r refl)

  run_agents-Raises :
      (review_id : String) (s : System v) (c : Checkpoint) (t : Result (Option String))
      → Artifacts.review_token fernet s.db (find_review review_id s.db) ≡ t
      → last_checkpoint review_id s.checkpoints ≡ some c
      → (e : Failure) × (Artifacts.run_agents v a fernet review_id s ≡ (err e, s))
  unfolding Artifacts.run_agents Artifacts.generate_from
  run_agents-Raises review_id s c (err e) got saved = (e, rw got refl)
  run_agents-Raises review_id s c (ok token) got saved =
      let state = values c.standing in
      let (e, r) = generate_for-Raises review_id token state state.pr_metadata s in
      (e, rw (got, saved) r)

  -- The task that generates the artifacts of a review whose run is saved asks for a retry every
  -- time, and leaves the system as it was: no pull request is made.
  pub generate_artifacts_task-retried :
      (review_id : String) (s : System v) (c : Checkpoint)
      → last_checkpoint review_id s.checkpoints ≡ some c
      → (e : Failure) × (generate_artifacts_task v a fernet review_id s ≡ (ok (retried e 180), s))
  unfolding generate_artifacts_task
  generate_artifacts_task-retried review_id s c saved =
      let (e, r) = run_agents-Raises review_id s c _ refl saved in (e, rw r refl)
