-- ===== src/Pubsub.antt =====
-- backend/utils/pubsub.py: progress messages, sent to the review's Redis channel and kept as rows of
-- `review_logs`. Either service may be down; a failure is logged and swallowed.
use aerp.Prelude.{ℕ, String, Bool, List, [], ◌∷◌, ◌++◌, Exec, modify, ◌>>◌, if◌then◌else◌, ◌<>◌}
use aerp.Database.{ReviewLog}

-- A message: the JSON payload, with the review whose channel it is sent to.
pub record AgentStatus : Type 0 where
  pub review_id : String
  pub agent : String
  pub status : String
  pub message : String

-- `now` is the clock of the database, which dates the rows.
pub record Feed : Type 0 where
  pub now : ℕ
  pub redis_up : Bool
  pub database_up : Bool
  pub channel : List (String × AgentStatus)
  pub review_logs : List ReviewLog

unfoldable pub publish_progress : String → AgentStatus → Exec Feed (Unit {0})
publish_progress review_id payload = modify (λ (f : Feed).
    if f.redis_up
    then record f { channel = f.channel ++ ("review:" <> review_id <> ":progress", payload) ∷ [] }
    else f)

abbrev to_row : ℕ → AgentStatus → ReviewLog
to_row now payload = record {
  pull_request_id = payload.review_id;
  agent_name = payload.agent;
  status = payload.status;
  message = payload.message;
  created_at = now;
}

insert_log : AgentStatus → Exec Feed (Unit {0})
insert_log payload = modify (λ (f : Feed).
    if f.database_up
    then record f { review_logs = f.review_logs ++ to_row f.now payload ∷ [] }
    else f)

unfoldable pub publish_agent_status : String → String → String → String → Exec Feed (Unit {0})
unfolding publish_progress insert_log
publish_agent_status review_id agent status message =
    let payload : AgentStatus = record {
      review_id = review_id;
      agent = agent;
      status = status;
      message = message;
    } in
    publish_progress review_id payload >> insert_log payload
