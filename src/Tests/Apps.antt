-- ===== src/Tests/Apps.antt =====
-- The wiring of the application at concrete settings.
use aerp.Prelude.{◌≡◌, refl, String, true, some, [], ◌∷◌, error, ok, err}
use aerp.App.{conn_string, engine_kwargs, null_pool, queue_pool, session_secret}
use aerp.App.Session.{get_db}
use aerp.App.Slack.{send_slack_notification}
use aerp.Tests.Accounts.{empty_db}
use aerp.Tests.Reviews.{settings}

without-driver : conn_string settings ≡ "postgresql://aerp@postgres/aerp_db"
unfolding conn_string
without-driver = refl

worker-pool :
    engine_kwargs settings ("/usr/bin/celery" ∷ "worker" ∷ [])
    ≡ ok (record { echo = true; pool_pre_ping = true; pool = null_pool })
unfolding engine_kwargs
worker-pool = refl

api-pool :
    engine_kwargs settings ("/usr/bin/uvicorn" ∷ "backend.main:app" ∷ [])
    ≡ ok (record { echo = true; pool_pre_ping = true; pool = queue_pool 10 20 })
unfolding engine_kwargs
api-pool = refl

default-secret : session_secret settings ≡ "super_secret_session_key"
unfolding session_secret
default-secret = refl

-- A write that was not committed is taken back.
write-undone :
    get_db {A = String}
      (λ s. (err (error "boom"), record s { working = record s.working { drawn = 7 } }))
      (record { committed = empty_db; working = empty_db })
    ≡ (err (error "boom"), record { committed = empty_db; working = empty_db })
unfolding get_db
write-undone = refl

slack-refused :
    send_slack_notification
      (λ url text. ok 500)
      (some "https://hooks.slack.com/x")
      (record { review_id = "r1"; pr_url = "url"; risk_score = 75 })
      []
    ≡ (ok tt, [])
unfolding send_slack_notification
slack-refused = refl
