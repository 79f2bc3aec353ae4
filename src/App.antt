-- ===== src/App.antt =====
-- backend/main.py, backend/db/session.py and backend/tasks/celery_app.py: what the application hands
-- to FastAPI, SQLAlchemy and Celery.
pub mod Session
pub mod Slack
use aerp.Prelude.{
  ℕ, zero, suc, String, str_eq, is_truthy, begins, drop_chars, count_chars, has_text, any_of, ◌<>◌,
  ◌-◌, Bool, true, false, ◌||◌, Option, none, some, List, [], ◌∷◌, Failure, error, Result, ok, err,
  if◌then◌else◌,
}
use aerp.Config.{Settings, is_development}

-- The rest of a text from `n` characters on, with `old` replaced by `new`.
unfoldable pub replace_from : ℕ → String → String → String → String
replace_from n old new String.[] = ""
replace_from (suc n) old new (String.◌∷◌ c s) = replace_from n old new s
replace_from zero old new (String.◌∷◌ c s) =
    let after = replace_from (count_chars old - 1) old new s in
    let next = replace_from 0 old new s in
    if begins (String.◌∷◌ c s) old then new <> after else String.◌∷◌ c next

-- `settings.database_url.replace("postgresql+asyncpg://", "postgresql://")`
unfoldable pub conn_string : Settings → String
unfolding replace_from
conn_string settings = replace_from 0 "postgresql+asyncpg://" "postgresql://" settings.database_url

-- Before the API serves requests, the database has to answer a query: an exception of it leaves
-- `lifespan`.
unfoldable pub lifespan : (String → Result (Unit {0})) → Settings → Result (Unit {0})
unfolding conn_string
lifespan connect settings = connect (conn_string settings)

unfoldable pub allow_origins : Settings → List String
allow_origins settings =
    if is_development settings then "http://localhost:3000" ∷ "http://localhost:5173" ∷ [] else []

unfoldable pub session_secret : Settings → String
session_secret settings =
    if is_truthy settings.secret_key then settings.secret_key else "super_secret_session_key"

pub data Pool : Type 0 where
  null_pool : Pool
  queue_pool : ℕ → ℕ → Pool  -- pool_size and max_overflow

pub record EngineKwargs : Type 0 where
  pub echo : Bool
  pub pool_pre_ping : Bool
  pub pool : Pool

-- `"celery" in sys.argv[0] or any("celery" in arg for arg in sys.argv)`
unfoldable pub is_celery : List String → Result Bool
is_celery [] = err (error "list index out of range")
is_celery (command ∷ args) =
    ok (
      has_text command "celery"
      || any_of (λ (arg : String). has_text arg "celery") (command ∷ args))

abbrev pool_of : Bool → Pool
pool_of true = null_pool
pool_of false = queue_pool 10 20

-- A worker keeps no connections, since each of its event loops needs its own.
unfoldable pub engine_kwargs : Settings → List String → Result EngineKwargs
unfolding is_celery
engine_kwargs settings argv = elim (is_celery argv) [
  | err e ↦ err e
  | ok celery ↦
      ok (record { echo = is_development settings; pool_pre_ping = true; pool = pool_of celery })
]

pub record CeleryConf : Type 0 where
  pub broker : String
  pub backend : String
  pub task_serializer : String
  pub result_serializer : String
  pub accept_content : List String
  pub task_acks_late : Bool
  pub task_reject_on_worker_lost : Bool
  pub result_expires : ℕ
  pub worker_prefetch_multiplier : ℕ
  pub timezone : String
  pub enable_utc : Bool

unfoldable pub celery_conf : Settings → CeleryConf
celery_conf settings = record {
  broker = settings.redis_url;
  backend = settings.redis_url;
  task_serializer = "json";
  result_serializer = "json";
  accept_content = "json" ∷ [];
  task_acks_late = true;
  task_reject_on_worker_lost = true;
  result_expires = 3600;
  worker_prefetch_multiplier = 1;
  timezone = "UTC";
  enable_utc = true;
}
