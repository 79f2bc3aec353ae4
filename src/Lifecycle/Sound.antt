-- ===== src/Lifecycle/Sound.antt =====
-- What the rows of the reviews hold in every state that the system reaches.
use aerp.Prelude.{
  ℕ, ◌<◌, ◌≡◌, String, Bool, some, List, [], ◌∷◌, All, Result, ok, err, Exec, ◌>>=◌, Bool-cases,
  inl, inr,
}
use aerp.Database.{
  PullRequest, Db, ReviewStatus, queued, collecting, paused_for_review, resuming, complete, failed,
  cancelled,
}
use aerp.Database.Tables.{update_where}
use aerp.Workflow.Nodes.{Services}
use aerp.Tasks.Store.{change_review, has_id}
use aerp.Tasks.Review.{System}

-- A paused review has a stored score above 40; a complete one has a score, a recommendation and the
-- time of its completion.
abbrev pub IsSoundAs : ReviewStatus → PullRequest → Type 0
IsSoundAs paused_for_review pr = (n : ℕ) × (pr.risk_score ≡ some n) × (40 < n)
IsSoundAs complete pr =
    ((n : ℕ) × (pr.risk_score ≡ some n))
    × ((r : String) × (pr.recommendation ≡ some r))
    × ((t : ℕ) × (pr.completed_at ≡ some t))
IsSoundAs queued pr = Unit
IsSoundAs collecting pr = Unit
IsSoundAs resuming pr = Unit
IsSoundAs failed pr = Unit
IsSoundAs cancelled pr = Unit

abbrev pub IsSound : PullRequest → Type 0
IsSound pr = IsSoundAs pr.status pr

abbrev pub AllSound : Db → Type 0
AllSound db = All IsSound db.pull_requests

pub All-update_where :
    (P : PullRequest → Type 0) (p : PullRequest → Bool) (f : PullRequest → PullRequest)
    (prs : List PullRequest)
    → ((pr : PullRequest) → P pr → P (f pr))
    → All P prs
    → All P (update_where p f prs)
All-update_where P p f [] keeps h = tt
All-update_where P p f (pr ∷ prs) keeps h = elim (Bool-cases (p pr)) [
  | inl e ↦ rw e (keeps pr h.0, All-update_where P p f prs keeps h.1)
  | inr e ↦ rw e (h.0, All-update_where P p f prs keeps h.1)
]

-- A write whose result is sound keeps all reviews sound.
pub change_review-AllSound :
    (review_id : String) (f : PullRequest → PullRequest) (db : Db)
    → ((pr : PullRequest) → IsSound pr → IsSound (f pr))
    → AllSound db
    → AllSound (change_review review_id f db)
change_review-AllSound review_id f db keeps h =
    All-update_where IsSound (has_id review_id) f db.pull_requests keeps h

module _ (v : Services) where
  -- What keeps all reviews sound.
  pub record KeepsSound {A : Type 0} (m : Exec (System v) A) : Type 0 where
    pub at : (s : System v) → AllSound s.db → AllSound (m s).1.db

  continue_sound :
      {A B : Type 0} (r : Result A) (f : A → Exec (System v) B) (s : System v)
      → ((a : A) → KeepsSound (f a))
      → AllSound s.db
      → AllSound (((λ (_ : System v). (r, s)) >>= f) s).1.db
  continue_sound (ok a) f s kf h = (kf a).at s h
  continue_sound (err e) f s kf h = h

  pub >>=-KeepsSound :
      {A B : Type 0} {m : Exec (System v) A} {f : A → Exec (System v) B}
      → KeepsSound m
      → ((a : A) → KeepsSound (f a))
      → KeepsSound (m >>= f)
  >>=-KeepsSound {m = m} {f = f} km kf = record {
    at = λ s h. continue_sound (m s).0 f (m s).1 kf (km.at s h);
  }
