-- ===== src/Schema/Seed.antt =====
-- The rows that the first migration puts into `third_party_integrations`, and what they are for: the
-- connectors of the API.
use aerp.Prelude.{
  Bool-cases, inl, inr, All, All-append, find_first, find_first-found, ℕ, ◌≡◌, refl, String, str_eq,
  is_truthy, any_of, Bool, true, false, ◌||◌, none, some, List, [], ◌∷◌, ◌++◌, ok, if◌then◌else◌,
}
use aerp.Database.{Db, ThirdPartyIntegration}
use aerp.Encryption.{Fernet}
use aerp.Tasks.Review.{stored_token, github_account}
use aerp.Integrations.{has_name, connect_integration_pat}
use aerp.Integrations.Laws.{connect_integration_pat-stored_token}

abbrev pub seed_row : String → String → String → String → ThirdPartyIntegration
seed_row id name display_name description = record {
  id = id;
  name = name;
  display_name = display_name;
  description = some description;
  logo_url = none;
  is_enabled = true;
}

-- The columns `id` and `name` are unique.
abbrev pub conflicts : ThirdPartyIntegration → List ThirdPartyIntegration → Bool
conflicts row rows =
    any_of (λ (i : ThirdPartyIntegration). str_eq i.id row.id || str_eq i.name row.name) rows

-- ON CONFLICT DO NOTHING
unfoldable pub insert_rows :
    List ThirdPartyIntegration → List ThirdPartyIntegration → List ThirdPartyIntegration
insert_rows [] rows = rows
insert_rows (row ∷ more) rows =
    insert_rows more (if conflicts row rows then rows else rows ++ row ∷ [])

-- `uuid_generate_v4` gives the ids.
abbrev pub seed_rows : (ℕ → String) → List ThirdPartyIntegration
seed_rows uuid_generate_v4 =
    seed_row (uuid_generate_v4 0) "github" "GitHub"
      "Connect your GitHub account to review Pull Requests."
    ∷ seed_row (uuid_generate_v4 1) "jira" "Jira Cloud"
        "Connect Jira to pull ticket context into reviews."
    ∷ seed_row (uuid_generate_v4 2) "google" "Google Workspace"
        "Connect Google to read design docs and feature specs."
    ∷ []

unfoldable pub seed_integrations : (ℕ → String) → Db → Db
unfolding insert_rows
seed_integrations uuid_generate_v4 db = record db {
  integrations = insert_rows (seed_rows uuid_generate_v4) db.integrations;
}

abbrev Named : String → ThirdPartyIntegration → List ThirdPartyIntegration → Type 0
Named name i rows =
    (find_first (has_name name) rows ≡ some i)
    × All (λ (j : ThirdPartyIntegration). str_eq j.name name ≡ true → j.id ≡ i.id) rows

-- A row of another name is put in, or not, behind those that are there.
append-Named :
    (name : String) (i row : ThirdPartyIntegration) (rows : List ThirdPartyIntegration)
    → str_eq row.name name ≡ false
    → Named name i rows
    → Named name i (rows ++ row ∷ [])
append-Named name i row rows other (found, only) = (
  find_first-found (has_name name) rows (row ∷ []) i found,
  All-append (λ (j : ThirdPartyIntegration). str_eq j.name name ≡ true → j.id ≡ i.id) rows
      (row ∷ []) only ((λ (h : str_eq row.name name ≡ true). cc), tt),
)

insert_rows-Named :
    (name : String) (i : ThirdPartyIntegration) (more rows : List ThirdPartyIntegration)
    → All (λ (row : ThirdPartyIntegration). str_eq row.name name ≡ false) more
    → Named name i rows
    → Named name i (insert_rows more rows)
unfolding insert_rows
insert_rows-Named name i [] rows others h = h
insert_rows-Named name i (row ∷ more) rows (other, others) h =
    elim (Bool-cases (conflicts row rows)) [
      | inl e ↦ rw e (insert_rows-Named name i more rows others h)
      | inr e ↦ rw e (
          insert_rows-Named name i more (rows ++ row ∷ []) others
            (append-Named name i row rows other h))
    ]

-- Where the table of the integrations was empty before the first migration filled it, connecting a
-- GitHub token that is not empty succeeds and makes it the token that the review task reads for
-- that user, whatever ids the database gave the rows.
pub seed_integrations-connects :
    (fernet : Fernet) (uuid_generate_v4 : ℕ → String) (token user_id : String) (db : Db)
    → db.integrations ≡ []
    → is_truthy token ≡ true
    → (connected : Db) × (connect_integration_pat fernet "github" token user_id
          (seed_integrations uuid_generate_v4 db)
        ≡ (ok "Successfully connected to GitHub", connected))
      × (stored_token fernet (github_account connected user_id) ≡ ok (some token))
unfolding seed_integrations insert_rows
seed_integrations-connects fernet uuid_generate_v4 token user_id db empty h =
    let github =
      seed_row (uuid_generate_v4 0) "github" "GitHub"
        "Connect your GitHub account to review Pull Requests." in
    let named : Named "github" github (seed_integrations uuid_generate_v4 db).integrations =
      rw empty (
        insert_rows-Named "github" github
          (seed_row (uuid_generate_v4 1) "jira" "Jira Cloud"
              "Connect Jira to pull ticket context into reviews."
            ∷ seed_row (uuid_generate_v4 2) "google" "Google Workspace"
                "Connect Google to read design docs and feature specs."
            ∷ [])
          (github ∷ []) (refl, (refl, tt)) (refl, ((λ (e : true ≡ true). refl), tt))) in
    let (connected, disconnected, answer, stored, gone, forgotten) =
      connect_integration_pat-stored_token fernet token user_id
        (seed_integrations uuid_generate_v4 db) github named.0 named.1 h in
    (connected, answer, stored)
