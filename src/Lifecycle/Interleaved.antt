-- ===== src/Lifecycle/Interleaved.antt =====
-- The system with executions of the review task and approvals in flight: a step is one transaction of
-- one of them, a request of another kind, a new task or approval, or the end of one that is killed.
use aerp.Prelude.{ℕ, zero, suc, String, List, [], ◌∷◌, ◌++◌}
use aerp.Encryption.{Fernet}
use aerp.Config.{Settings}
use aerp.Workflow.Nodes.{Services}
use aerp.Workflow.Run.{Engine}
use aerp.Tasks.Review.{System, Task}
use aerp.Tasks.Phases
use aerp.Tasks.Phases.{Phase, waiting}
use aerp.Reviews.Approving
use aerp.Reviews.Approving.{Approval, asked}
use package.aerp.Lifecycle.{Step}

-- A task with the number of its retries, or an approval of a review by a user, and where it stands.
pub data Activity : Type 0 where
  task : Task → ℕ → Phase → Activity
  approval : String → String → Approval → Activity

pub record Cluster (v : Services) : Type 0 where
  pub system : System v
  pub running : List Activity

-- A worker that is terminated leaves what its transactions have written.
unfoldable pub remove : ℕ → List Activity → List Activity
remove n [] = []
remove zero (a ∷ rest) = rest
remove (suc n) (a ∷ rest) = a ∷ remove n rest

module _ (v : Services) (fernet : Fernet) (uuid : ℕ → String) where
  module _ (engine : Engine) (now : ℕ) where
    unfoldable pub next : Activity → System v → Activity × System v
    next (task t retries p) s =
        let (p', s') = Phases.advance v engine fernet uuid now t retries p s in
        (task t retries p', s')
    next (approval review_id user_id a) s =
        let (a', s') = Approving.advance v engine fernet now review_id user_id a s in
        (approval review_id user_id a', s')

    -- The `n`th activity is the one that goes on.
    unfoldable pub move : ℕ → List Activity → System v → List Activity × System v
    unfolding next
    move n [] s = ([], s)
    move zero (a ∷ rest) s = let (a', s') = next a s in (a' ∷ rest, s')
    move (suc n) (a ∷ rest) s = let (rest', s') = move n rest s in (a ∷ rest', s')

    abbrev pub move_in : ℕ → Cluster v → Cluster v
    move_in n c = let (rest, s) = move n c.running c.system in record { system = s; running = rest }

  module _ (settings : Settings) where
    pub data Move (c : Cluster v) : Cluster v → Type 0 where
      requested :
          {s : System v} → Step v settings fernet uuid c.system s → Move c (record c { system = s })
      delivered :
          (t : Task) (retries : ℕ)
          → Move c (record c { running = c.running ++ task t retries waiting ∷ [] })
      approved :
          (review_id user_id : String)
          → Move c (record c { running = c.running ++ approval review_id user_id asked ∷ [] })
      moved : (engine : Engine) (now n : ℕ) → Move c (move_in engine now n c)
      killed : (n : ℕ) → Move c (record c { running = remove n c.running })

    pub data Moves (c : Cluster v) : Cluster v → Type 0 where
      stay : Moves c c
      then : {d e : Cluster v} → Moves c d → Move d e → Moves c e
