-- ===== src/Lifecycle/StaysCancelled.antt =====
-- A cancelled review in the interleaved system, as long as nothing of its own is in flight.
use aerp.Prelude.{ℕ, ◌≡◌, String, str_eq, false, [], ◌∷◌, All, All-append}
use aerp.Encryption.{Fernet}
use aerp.Config.{Settings}
use aerp.Workflow.Nodes.{Services}
use aerp.Tasks.Review.{System}
use aerp.Tasks.Phases.{waiting}
use aerp.Tasks.Uninterrupted.{advance_by-run_review_task}
use aerp.Reviews.Cancel
use aerp.Reviews.Post
use aerp.Reviews.Approving.{asked, advance_by-approve_review}
use package.aerp.Lifecycle.{
  Step, started, ran, was_cancelled, was_approved, posted, generated, connected, disconnected,
}
use package.aerp.Lifecycle.Invariant
use package.aerp.Lifecycle.Interleaved.{
  task, approval, Cluster, Move, requested, delivered, approved, moved, killed, Moves, stay, then,
}
use package.aerp.Lifecycle.Cancelled.{IsCancelled}
use package.aerp.Lifecycle.Aside
use package.aerp.Lifecycle.Aside.{IsAside}

module _ (v : Services) (fernet : Fernet) (uuid : ℕ → String) (settings : Settings)
    (id : String) where
  -- The request runs no task of the review, and does not approve it.
  abbrev pub IsAsideStep : (s t : System v) → Step v settings fernet uuid s t → Type 0
  IsAsideStep s _ (started now user_id request) = Unit
  IsAsideStep s _ (ran engine now t retries) = str_eq t.review_id id ≡ false
  IsAsideStep s _ (was_cancelled now review_id user_id) = Unit
  IsAsideStep s _ (was_approved engine now review_id user_id) = str_eq review_id id ≡ false
  IsAsideStep s _ (posted settings_token review_id finding_id user_id edited_message) = Unit
  IsAsideStep s _ (generated a review_id) = Unit
  IsAsideStep s _ (connected name access_token user_id) = Unit
  IsAsideStep s _ (disconnected name user_id) = Unit

  -- No task and no approval of the review begins.
  abbrev pub IsAsideMove : (c d : Cluster v) → Move v fernet uuid settings c d → Type 0
  IsAsideMove c _ (requested {s = s} step) = IsAsideStep c.system s step
  IsAsideMove c _ (delivered t retries) = str_eq t.review_id id ≡ false
  IsAsideMove c _ (approved review_id user_id) = str_eq review_id id ≡ false
  IsAsideMove c _ (moved engine now n) = Unit
  IsAsideMove c _ (killed n) = Unit

  abbrev pub AreAside : (c d : Cluster v) → Moves v fernet uuid settings c d → Type 0
  AreAside c _ stay = Unit
  AreAside c e (then {d = d} r m) = AreAside c d r × IsAsideMove d e m

  Step-IsCancelled :
      (s t : System v) (step : Step v settings fernet uuid s t)
      → IsAsideStep s t step
      → IsCancelled id s.db
      → IsCancelled id t.db
  unfolding Cancel.cancel_review Post.post_finding_to_pr
  Step-IsCancelled s _ (started now user_id request) aside h =
      Aside.start_review-IsCancelled settings uuid now id user_id request s.db h
  Step-IsCancelled s _ (ran engine now t retries) aside h =
      let after =
        Aside.advance_by-IsCancelled v fernet uuid id engine now 6 t retries waiting s aside h in
      rw (advance_by-run_review_task v engine fernet uuid now t retries s) at after
  Step-IsCancelled s _ (was_cancelled now review_id user_id) aside h =
      Aside.cancel_found-IsCancelled now review_id id user_id _ s.db h
  Step-IsCancelled s _ (was_approved engine now review_id user_id) aside h =
      let after =
        Aside.approve_by-IsCancelled v fernet uuid id engine now 5 review_id user_id asked s aside
          h in
      rw (advance_by-approve_review v engine fernet now review_id user_id s) at after
  Step-IsCancelled s _ (posted settings_token review_id finding_id user_id edited_message) aside h =
      rw
        (Invariant.post_for-reviews v fernet settings_token review_id finding_id user_id
          edited_message _ s)
        h
  Step-IsCancelled s _ (generated a review_id) aside h =
      rw (Invariant.generate_artifacts-reviews v a fernet review_id s) h
  Step-IsCancelled s _ (connected name access_token user_id) aside h =
      rw (Invariant.connect-reviews fernet name access_token user_id s.db) h
  Step-IsCancelled s _ (disconnected name user_id) aside h =
      rw (Invariant.disconnect-reviews name user_id s.db) h

  abbrev IsAtRest : Cluster v → Type 0
  IsAtRest c = IsCancelled id c.system.db × All (IsAside id) c.running

  Move-IsAtRest :
      (c d : Cluster v) (m : Move v fernet uuid settings c d)
      → IsAsideMove c d m
      → IsAtRest c
      → IsAtRest d
  Move-IsAtRest c _ (requested {s = s} step) aside h =
      (Step-IsCancelled c.system s step aside h.0, h.1)
  Move-IsAtRest c _ (delivered t retries) aside h =
      (h.0, All-append (IsAside id) c.running (task t retries waiting ∷ []) h.1 (aside, tt))
  Move-IsAtRest c _ (approved review_id user_id) aside h = (
    h.0,
    All-append (IsAside id) c.running (approval review_id user_id asked ∷ []) h.1 (aside, tt),
  )
  Move-IsAtRest c _ (moved engine now n) aside h =
      Aside.move-IsAside v fernet uuid id engine now n c.running c.system h.1 h.0
  Move-IsAtRest c _ (killed n) aside h = (h.0, Aside.remove-IsAside id n c.running h.1)

  Moves-IsAtRest :
      (c d : Cluster v) (r : Moves v fernet uuid settings c d)
      → AreAside c d r
      → IsAtRest c
      → IsAtRest d
  Moves-IsAtRest c _ stay aside h = h
  Moves-IsAtRest c e (then {d = d} r m) (aside, last) h =
      Move-IsAtRest d e m last (Moves-IsAtRest c d r aside h)

  -- A stored review that is cancelled stays cancelled in every interleaving in which no execution
  -- of its task and no approval of it is in flight or begins, whatever requests, tasks and
  -- approvals of other reviews come, go on or are killed.
  pub Moves-IsCancelled :
      (c d : Cluster v) (r : Moves v fernet uuid settings c d)
      → AreAside c d r
      → All (IsAside id) c.running
      → IsCancelled id c.system.db
      → IsCancelled id d.system.db
  Moves-IsCancelled c d r aside running h = (Moves-IsAtRest c d r aside (h, running)).0
