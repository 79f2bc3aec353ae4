-- ===== src/Config/Recorded.antt =====
-- A review records the model that it is made with.
use aerp.Prelude.{ℕ, ◌≡◌, refl, String, Bool-cases, inl, inr, some}
use aerp.Reviews.Start.{StartReviewRequest, choose_model, new_review}
use package.aerp.Config.{
  Settings, ChatModel, chat_openai, chat_anthropic, chat_ollama, chat_gemini, get_llm, is_provider,
}

-- The provider and the model of a client.
abbrev pub described : ChatModel → String × String
described (chat_openai model key temperature) = ("openai", model)
described (chat_anthropic model key temperature) = ("anthropic", model)
described (chat_ollama model base_url temperature) = ("ollama", model)
described (chat_gemini model key temperature) = ("gemini", model)

described-get_llm :
    (settings : Settings) (temperature : ℕ)
    → described (get_llm settings temperature) ≡ choose_model settings
unfolding get_llm choose_model
described-get_llm settings temperature = elim (Bool-cases (is_provider settings "openai")) [
  | inl o ↦ rw o refl
  | inr o ↦ elim (Bool-cases (is_provider settings "anthropic")) [
    | inl a ↦ rw (o, a) refl
    | inr a ↦ elim (Bool-cases (is_provider settings "ollama")) [
      | inl l ↦ rw (o, a, l) refl
      | inr l ↦ rw (o, a, l) refl
    ]
  ]
]

-- The provider and the model that a new review records are those of the chat model that the same
-- settings select for the agents, at any temperature.
pub new_review-get_llm :
    (settings : Settings) (temperature now : ℕ) (review_id user_id : String)
    (request : StartReviewRequest)
    → ((new_review settings now review_id user_id request).llm_provider
        ≡ some (described (get_llm settings temperature)).0)
      × ((new_review settings now review_id user_id request).llm_model
          ≡ some (described (get_llm settings temperature)).1)
unfolding new_review
new_review-get_llm settings temperature now review_id user_id request =
    rw (described-get_llm settings temperature) (refl, refl)
