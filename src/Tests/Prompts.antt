-- ===== src/Tests/Prompts.antt =====
-- The prompts at a concrete pull request.
use aerp.Prelude.{◌≡◌, refl, true, [], ◌∷◌}
use aerp.Prompts.BlastRadius.{classify_impact}
use aerp.Prompts.DatabasePrompt.{is_db_file}

impact-of :
    classify_impact ("api/Auth/Login.py" ∷ "tasks/celery_app.py" ∷ [])
    ≡ "🔐 Authentication code changed — all users potentially affected\n⚙\u{fe0f}  Background task code changed — async job impact"
unfolding classify_impact
impact-of = refl

named-db : is_db_file "src/Models/user.py" ≡ true
unfolding is_db_file
named-db = refl
