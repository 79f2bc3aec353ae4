-- ===== src/Agents/Attempts.antt =====
-- The retry loop `for attempt in range(3)` of `BaseAgent.run` and `ConsensusAgent.run`: a failed
-- answer adds a correction to the conversation, and the model is asked again.
use aerp.Prelude.{
  ℕ, zero, suc, ◌<◌, ◌≡◌, inl, inr, String, ◌<>◌, Option, none, some, List, [], ◌∷◌, ◌++◌, arith,
  Option-cases,
}

pub data Message : Type 0 where
  system human : String → Message

pub data Reply (A : Type 0) : Type 0 where
  returned : A → Reply A
  nothing : Reply A
  raised : String → Reply A

abbrev pub Model : Type 0 → Type 0
Model A = List Message → Reply A

abbrev not_json : String
not_json =
    "You failed to output valid JSON matching the schema. Please output strictly valid JSON matching the exact schema with NO preamble text."

-- What the loop appends after an answer that was no report.
unfoldable pub correction : {A : Type 0} → Reply A → List Message
correction (returned a) = []
correction nothing = human not_json ∷ []
correction (raised e) =
    human (
      "Your JSON output had a validation error: " <> e
      <> ". Please fix the syntax and output strictly valid JSON.")
    ∷ []

-- `report`, which stays `None` after a failed attempt.
abbrev pub report : {A : Type 0} → Reply A → Option A
report (returned a) = some a
report nothing = none
report (raised e) = none

module _ {A : Type 0} (ask : Model A) where
  unfoldable pub attempts : ℕ → List Message → Option A
  unfolding correction
  attempts zero messages = none
  attempts (suc n) messages = elim (report (ask messages)) [
    | some a ↦ some a
    | none ↦ attempts n (messages ++ correction (ask messages))
  ]

  -- The conversation at the attempt of index `i`, when all before it failed.
  unfoldable pub conversation : ℕ → List Message → List Message
  unfolding correction
  conversation zero messages = messages
  conversation (suc i) messages = conversation i (messages ++ correction (ask messages))

  -- No attempt before the one of index `i` gave a report.
  abbrev pub FailsBefore : ℕ → List Message → Type 0
  FailsBefore zero messages = Unit
  FailsBefore (suc i) messages =
      (report (ask messages) ≡ none) × FailsBefore i (messages ++ correction (ask messages))

  -- A report that the retry loop returns is the answer of one of its attempts, made after
  -- corrections for all the attempts before it, which gave none.
  pub attempts_sound :
      (n : ℕ) (messages : List Message) (a : A)
      → attempts n messages ≡ some a
      → (i : ℕ) × (i < n)
        × FailsBefore i messages
        × (report (ask (conversation i messages)) ≡ some a)
  unfolding attempts conversation
  attempts_sound zero messages a h = cc
  attempts_sound (suc n) messages a h = elim (Option-cases (report (ask messages))) [
    | inr (b, e) ↦ (0, omega arith, tt, ground arith)
    | inl e ↦
        let (i, below, before, found) =
          attempts_sound n (messages ++ correction (ask messages)) a (rw (e, attempts) at h) in
        (suc i, omega arith, (e, before), found)
  ]

  -- A report that an attempt within the bound gives, when those before it gave none, is what the
  -- retry loop returns.
  pub attempts_complete :
      (n i : ℕ) (messages : List Message) (a : A)
      → i < n
      → FailsBefore i messages
      → report (ask (conversation i messages)) ≡ some a
      → attempts n messages ≡ some a
  unfolding attempts conversation
  attempts_complete zero i messages a below before found = absurd (omega arith)
  attempts_complete (suc n) zero messages a below before found = ground arith
  attempts_complete (suc n) (suc i) messages a below before found =
      rw (before.0, attempts)
        (attempts_complete n i (messages ++ correction (ask messages)) a (omega arith) before.1
          found)
