-- ===== src/Config.antt =====
-- backend/config/settings.py, as far as the code reads it, and backend/utils/llm_factory.py: which
-- client of LangChain's a setting selects. The clients themselves are third-party. The API and the
-- workers run in one environment.
pub mod Recorded
use aerp.Prelude.{
  ℕ, String, str_eq, codes, lower, same, is_truthy, List, Bool, Option, none, some, if◌then◌else◌,
}

-- The variables of the process environment that `os.getenv` reads.
pub record Environ : Type 0 where
  pub ollama_model : Option String
  pub ollama_base_url : Option String
  pub ollama_embedding_model : Option String

pub record Settings : Type 0 where
  pub llm_provider : String
  pub google_api_key : String
  pub gemini_model : String
  pub gemini_embedding_model : String
  pub openai_api_key : String
  pub openai_model : String
  pub anthropic_api_key : String
  pub anthropic_model : String
  pub database_url : String
  pub redis_url : String
  pub secret_key : String
  pub app_env : String
  pub environ : Environ

abbrev pub is_development : Settings → Bool
is_development settings = str_eq settings.app_env "development"

-- `os.getenv(name, default)`
abbrev getenv : Option String → String → String
getenv none default = default
getenv (some value) default = value

abbrev pub ollama_model : Settings → String
ollama_model settings = getenv settings.environ.ollama_model "llama3.1"

abbrev ollama_base_url : Settings → String
ollama_base_url settings =
    getenv settings.environ.ollama_base_url "http://host.docker.internal:11434"

-- `settings.llm_provider.lower() == name`
abbrev pub is_provider : Settings → String → Bool
is_provider settings name = same (lower (codes settings.llm_provider)) (codes name)

-- A chat model, with its key or address and its temperature, in tenths.
pub data ChatModel : Type 0 where
  chat_openai chat_anthropic chat_ollama chat_gemini : String → String → ℕ → ChatModel

unfoldable pub get_llm : Settings → ℕ → ChatModel
get_llm settings temperature =
    if is_provider settings "openai"
    then chat_openai settings.openai_model settings.openai_api_key temperature
    else if is_provider settings "anthropic"
    then chat_anthropic settings.anthropic_model settings.anthropic_api_key temperature
    else if is_provider settings "ollama"
    then chat_ollama (ollama_model settings) (ollama_base_url settings) temperature
    else chat_gemini settings.gemini_model settings.google_api_key temperature

-- An embedding model, with its key or address.
pub data EmbeddingModel : Type 0 where
  openai_embeddings ollama_embeddings gemini_embeddings : String → String → EmbeddingModel

-- Anthropic has no embeddings: OpenAI's stand in where there is a key for them, and else Gemini's.
unfoldable pub get_embedder : Settings → EmbeddingModel
get_embedder settings =
    let openai = openai_embeddings "text-embedding-3-small" settings.openai_api_key in
    let gemini = gemini_embeddings settings.gemini_embedding_model settings.google_api_key in
    if is_provider settings "openai"
    then openai
    else if is_provider settings "anthropic"
    then (if is_truthy settings.openai_api_key then openai else gemini)
    else if is_provider settings "ollama"
    then ollama_embeddings (getenv settings.environ.ollama_embedding_model "nomic-embed-text")
        (ollama_base_url settings)
    else gemini
