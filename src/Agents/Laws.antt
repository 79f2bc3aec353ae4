-- ===== src/Agents/Laws.antt =====
-- What the specialist agents and the orchestrator guarantee to the workflow, whatever the model answers.
use aerp.Prelude.{
  ℕ, ◌≡◌, refl, String, contains, eq_refl, true, none, List, [], ◌∷◌, ◌++◌, map, Result, ok, err,
  arith, All, Option-cases, Bool-cases, inl, inr, pure, >>=-eq-ok,
}
use aerp.Findings.{CodeFinding, AgentReport}
use aerp.State.{Agent, AgentResult, PrMetadata}
use aerp.Pubsub.{Feed}
use aerp.Agents.Attempts.{Message, Model, report, attempts, attempts_sound}
use aerp.Agents.Base
use aerp.Agents.Base.{Llm, agent_name, agent_update, to_state, failure_text}
use aerp.Agents.Orchestrator
use aerp.Agents.Orchestrator.{Selector, ensure_code_review}

-- A model that never gives a report, whatever it is sent.
abbrev pub IsSilent : {A : Type 0} → Model A → Type 0
IsSilent ask = (messages : List Message) → report (ask messages) ≡ none

pub attempts_silent :
    {A : Type 0} (ask : Model A) (n : ℕ) (messages : List Message)
    → IsSilent ask
    → attempts ask n messages ≡ none
attempts_silent ask n messages silent = elim (Option-cases (attempts ask n messages)) [
  | inl e ↦ e
  | inr (a, e) ↦ let (i, _, _, found) = attempts_sound ask n messages a e in cc (silent _)
]

-- The findings of a report carry the name of the agent.
map-to_state-agent :
    (name : String) (fs : List CodeFinding) → All (λ f. f.agent ≡ name) (map (to_state name) fs)
unfolding to_state
map-to_state-agent name [] = tt
map-to_state-agent name (f ∷ fs) = (refl, map-to_state-agent name fs)

recover-agent :
    (a : Agent) (r : Result AgentReport)
    → ((Base.recover a r).agent ≡ agent_name a)
      × All (λ f. f.agent ≡ agent_name a) (Base.recover a r).findings
unfolding Base.recover
recover-agent a (ok report) = (refl, map-to_state-agent (agent_name a) report.findings)
recover-agent a (err e) = (refl, tt)

-- A specialist agent returns whatever the model and the tools do: one result under its own name,
-- and findings that all carry its name.
pub run-returns :
    (llm : Llm) (review_id : String) (a : Agent) (system_prompt human_message : String)
    (feed : Feed)
    → (r : AgentResult) × ((Base.run llm review_id a system_prompt human_message feed).0
        ≡ ok (agent_update a r))
      × (r.agent ≡ agent_name a)
      × All (λ f. f.agent ≡ agent_name a) r.findings
unfolding Base.run
run-returns llm review_id a system_prompt human_message feed =
    let (r, _) = Base.attempt_run llm review_id a system_prompt human_message feed in
    (Base.recover a r, refl, (recover-agent a r).0, (recover-agent a r).1)

final_report_silent :
    (llm : Llm) (review_id : String) (a : Agent) (messages : List Message) (r : AgentReport)
    → IsSilent llm.agent_report
    → Base.final_report llm review_id a messages ≡ r
    → r ≡ Base.fallback_report a
unfolding Base.final_report
final_report_silent llm review_id a messages r silent h =
    cc (h, attempts_silent llm.agent_report 3 messages silent)

attempt_run_silent :
    (llm : Llm) (review_id : String) (a : Agent) (system_prompt human_message : String)
    (feed : Feed) (r : AgentReport)
    → IsSilent llm.agent_report
    → (Base.attempt_run llm review_id a system_prompt human_message feed).0 ≡ ok r
    → r ≡ Base.fallback_report a
unfolding Base.attempt_run
attempt_run_silent llm review_id a system_prompt human_message feed r silent h =
    let (messages, _, final) =
      >>=-eq-ok (Base.gather llm review_id a system_prompt human_message)
        (λ messages. pure (Base.final_report llm review_id a messages)) feed r h in
    final_report_silent llm review_id a messages r silent (cc final)

recover_silent :
    (a : Agent) (r : Result AgentReport)
    → ((report : AgentReport) → r ≡ ok report → report ≡ Base.fallback_report a)
    → ((Base.recover a r).findings ≡ [])
      × ((Base.recover a r).recommendation ≡ "approve_with_comments")
      × ((Base.recover a r).confidence ≡ 0)
unfolding Base.recover Base.fallback_report
recover_silent a (ok report) fallback = rw (fallback report refl) (refl, refl, refl)
recover_silent a (err e) fallback = (refl, refl, refl)

-- An agent whose model never gives a report has no findings, approves with comments, and has
-- confidence 0.
pub run_silent :
    (llm : Llm) (review_id : String) (a : Agent) (system_prompt human_message : String)
    (feed : Feed)
    → IsSilent llm.agent_report
    → (r : AgentResult) × ((Base.run llm review_id a system_prompt human_message feed).0
        ≡ ok (agent_update a r))
      × (r.findings ≡ [])
      × (r.recommendation ≡ "approve_with_comments")
      × (r.confidence ≡ 0)
unfolding Base.run
run_silent llm review_id a system_prompt human_message feed silent =
    let (r, _) = Base.attempt_run llm review_id a system_prompt human_message feed in
    let (no_findings, approved, unsure) = recover_silent a r (λ report e.
      attempt_run_silent llm review_id a system_prompt human_message feed report silent e) in
    (Base.recover a r, refl, no_findings, approved, unsure)

contains-append : (xs : List String) (k : String) → contains (xs ++ k ∷ []) k ≡ true
contains-append [] k = rw (eq_refl k) refl
contains-append (x ∷ xs) k = ground (arith, contains-append xs k)

ensure_code_review-contains :
    (selected : List String) → contains (ensure_code_review selected) "code_review" ≡ true
unfolding ensure_code_review
ensure_code_review-contains selected = elim (Bool-cases (contains selected "code_review")) [
  | inl e ↦ rw e e
  | inr e ↦ rw e (contains-append selected "code_review")
]

-- The orchestrator's selection contains code_review, whatever the model answers and also when it
-- fails.
pub choose-code_review :
    (llm : Selector) (system_prompt : String) (pr : PrMetadata)
    → contains (Orchestrator.choose llm system_prompt pr) "code_review" ≡ true
unfolding Orchestrator.choose
choose-code_review llm system_prompt pr = go (Orchestrator.decide llm system_prompt pr)
  where
    go :
        (r : Result (List String))
        → contains
            (elim r [ ok selected ↦ ensure_code_review selected | err e ↦ Orchestrator.all_agents ])
            "code_review"
          ≡ true
    go (ok selected) = ensure_code_review-contains selected
    go (err e) = refl
