-- ===== src/Tests/Engine.antt =====
-- An engine that starts the routed agents in the order of `AGENT_NODES`.
use aerp.Prelude.{
  ◌≡◌, refl, ap, ◌∙◌, ◌↔◌, inl, inr, contains, Bool, true, Bool-cases, keep, List, [], ◌∷◌, arith,
}
use aerp.State.{
  Agent, code_review, security, database, requirements, scalability, standards, architecture,
  blast_radius,
}
use aerp.Workflow.{node_name, every_agent}
use aerp.Workflow.Run.{Engine, Started, NoRepeat}

pub Started-keep :
    (p : Agent → Bool) (agents : List Agent) (a : Agent)
    → Started a (keep p agents) ↔ (Started a agents × (p a ≡ true))
Started-keep p [] a = (λ h. absurd h, λ h. absurd h.0)
Started-keep p (b ∷ agents) a =
    let ih = Started-keep p agents a in
    elim (Bool-cases (p b)) [
      | inl e ↦ rw e (
        (λ h. elim h [ inl q ↦ (inl q, ap p q ∙ e) | inr k ↦ (inr (ih.0 k).0, (ih.0 k).1) ]),
        (λ h. elim h.0 [ inl q ↦ inl q | inr k ↦ inr (ih.1 (k, h.1)) ]),
      )
      | inr e ↦ rw e (
        (λ h. (inr (ih.0 h).0, (ih.0 h).1)),
        (λ h. elim h.0 [ inl q ↦ absurd cc | inr k ↦ ih.1 (k, h.1) ]),
      )
    ]

pub NoRepeat-keep :
    (p : Agent → Bool) (agents : List Agent) → NoRepeat agents → NoRepeat (keep p agents)
NoRepeat-keep p [] h = tt
NoRepeat-keep p (b ∷ agents) h = elim (Bool-cases (p b)) [
  | inl e ↦ rw e ((λ x. h.0 ((Started-keep p agents b).0 x).0), NoRepeat-keep p agents h.1)
  | inr e ↦ rw e (NoRepeat-keep p agents h.1)
]

pub every_agent-Started : (a : Agent) → Started a every_agent
every_agent-Started code_review = inl refl
every_agent-Started security = inr (inl refl)
every_agent-Started database = inr (inr (inl refl))
every_agent-Started requirements = inr (inr (inr (inl refl)))
every_agent-Started scalability = inr (inr (inr (inr (inl refl))))
every_agent-Started standards = inr (inr (inr (inr (inr (inl refl)))))
every_agent-Started architecture = inr (inr (inr (inr (inr (inr (inl refl))))))
every_agent-Started blast_radius = inr (inr (inr (inr (inr (inr (inr (inl refl)))))))

pub every_agent-NoRepeat : NoRepeat every_agent
every_agent-NoRepeat = ground arith

abbrev pub in_order : Engine
in_order = record {
  dispatch = λ names. keep (λ a. contains names (node_name a)) every_agent;
  dispatch_once =
      λ names. NoRepeat-keep (λ a. contains names (node_name a)) every_agent every_agent-NoRepeat;
  dispatch_routed = λ names a.
      let routed = Started-keep (λ b. contains names (node_name b)) every_agent a in
      ((λ h. (routed.0 h).1), (λ h. routed.1 (every_agent-Started a, h)));
}
