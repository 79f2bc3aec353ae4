-- ===== src/Integrations/Laws.antt =====
-- The token that a user connects is the one that the review task runs with.
use aerp.Prelude.{
  ◌≡◌, refl, sym, ◌∙◌, ◌<>◌, String, str_eq, eq_refl, ap, Bool-cases, inl, inr, is_truthy, is_some,
  find_first, Bool, true, false, Option, none, some, List, [], ◌∷◌, All, ok, arith,
}
use aerp.Database.{Db, ThirdPartyIntegration, ThirdPartyUserAccount}
use aerp.Database.Tables.{
  delete_where, find_first-append, find_first-update_self, find_first-delete_self,
}
use aerp.Encryption.{Fernet, encrypt_token, decrypt_token-encrypt_token, encrypt_token_truthy}
use aerp.Tasks.Review.{stored_token, github_account, is_named, is_github_account}
use package.aerp.Integrations
use package.aerp.Integrations.{
  find_integration, find_account, is_account, has_name, connect_integration_pat,
  disconnect_integration,
}

-- `name` is a unique column: no other integration has the name.
abbrev pub IsOnlyNamed : String → ThirdPartyIntegration → Db → Type 0
IsOnlyNamed name i db =
    All (λ (j : ThirdPartyIntegration). str_eq j.name name ≡ true → j.id ≡ i.id) db.integrations

find_first_same {ℓ} :
    {A : Type ℓ} (p q : A → Bool) (xs : List A)
    → ((x : A) → p x ≡ q x)
    → find_first p xs ≡ find_first q xs
find_first_same p q [] h = refl
find_first_same p q (x ∷ xs) h = ground (arith, h x, find_first_same p q xs h)

is_named-none :
    (name id : String) (i : ThirdPartyIntegration) (xs : List ThirdPartyIntegration)
    → All (λ (j : ThirdPartyIntegration). str_eq j.name name ≡ true → j.id ≡ i.id) xs
    → str_eq i.id id ≡ false
    → is_some (find_first (is_named name id) xs) ≡ false
is_named-none name id i [] only h = refl
is_named-none name id i (j ∷ xs) only h =
    let rest = is_named-none name id i xs only.1 h in
    let same = λ (e : str_eq j.name name ≡ true). ap (λ (x : String). str_eq x id) (only.0 e) in
    elim (Bool-cases (str_eq j.name name)) [
      | inl e ↦ let j_other = same e ∙ h in rw (e, j_other) rest
      | inr e ↦ ground arith
    ]

is_named-some :
    (name id : String) (i : ThirdPartyIntegration) (xs : List ThirdPartyIntegration)
    → find_first (has_name name) xs ≡ some i
    → str_eq i.id id ≡ true
    → is_some (find_first (is_named name id) xs) ≡ true
is_named-some name id i [] found h = cc
is_named-some name id i (j ∷ xs) found h = ground (arith, is_named-some name id i xs)

-- The accounts that the review task looks for are those of the integration.
is_github_account-is_account :
    (i : ThirdPartyIntegration) (db : Db) (user_id : String) (a : ThirdPartyUserAccount)
    → find_integration "github" db ≡ some i
    → IsOnlyNamed "github" i db
    → is_account user_id i.id a ≡ is_github_account db user_id a
is_github_account-is_account i db user_id a found only =
    elim (Bool-cases (str_eq i.id a.integration_id)) [
      | inl e ↦
          let there = is_named-some "github" a.integration_id i db.integrations found e in
          rw (e, there) refl
      | inr e ↦
          let none_there = is_named-none "github" a.integration_id i db.integrations only e in
          rw (e, none_there) refl
    ]

-- The account after a token was stored.
store_token-find_account :
    (user_id integration_id encrypted : String) (db : Db) (o : Option ThirdPartyUserAccount)
    → find_account user_id integration_id db ≡ o
    → (a : ThirdPartyUserAccount) × (find_account user_id integration_id
          (Integrations.store_token user_id integration_id encrypted o db)
        ≡ some a)
      × (a.access_token_encrypted ≡ encrypted)
unfolding Integrations.store_token
store_token-find_account user_id integration_id encrypted db none absent = (
  Integrations.new_account user_id integration_id encrypted,
  find_first-append (is_account user_id integration_id) db.accounts _ absent
      (rw (eq_refl user_id, eq_refl integration_id) refl),
  refl,
)
store_token-find_account user_id integration_id encrypted db (some a) found = (
  Integrations.set_token encrypted a,
  find_first-update_self (is_account user_id integration_id) (Integrations.set_token encrypted)
      db.accounts a (λ x. refl) found,
  refl,
)

no_account : (fernet : Fernet) → stored_token fernet none ≡ ok none
unfolding stored_token
no_account fernet = refl

stored_token-encrypt_token :
    (fernet : Fernet) (token : String) (a : ThirdPartyUserAccount)
    → is_truthy token ≡ true
    → a.access_token_encrypted ≡ encrypt_token fernet token
    → stored_token fernet (some a) ≡ ok (some token)
unfolding stored_token
stored_token-encrypt_token fernet token a h e =
    rw (e, encrypt_token_truthy fernet token h, decrypt_token-encrypt_token fernet token) refl

store_token-integrations :
    (user_id integration_id encrypted : String) (o : Option ThirdPartyUserAccount) (db : Db)
    → (Integrations.store_token user_id integration_id encrypted o db).integrations
      ≡ db.integrations
unfolding Integrations.store_token
store_token-integrations user_id integration_id encrypted none db = refl
store_token-integrations user_id integration_id encrypted (some a) db = refl

github_account-find_account :
    (i : ThirdPartyIntegration) (db : Db) (user_id : String)
    → find_integration "github" db ≡ some i
    → IsOnlyNamed "github" i db
    → github_account db user_id ≡ find_account user_id i.id db
github_account-find_account i db user_id found only = sym (
    find_first_same (is_account user_id i.id) (is_github_account db user_id) db.accounts
      (λ a. is_github_account-is_account i db user_id a found only))

-- Where one integration has the name github, connecting a token that is not empty succeeds and
-- makes it the token that the review task reads for that user, whether or not an account was
-- connected before, and disconnecting then succeeds and leaves the task without a token.
pub connect_integration_pat-stored_token :
    (fernet : Fernet) (token user_id : String) (db : Db) (i : ThirdPartyIntegration)
    → find_integration "github" db ≡ some i
    → IsOnlyNamed "github" i db
    → is_truthy token ≡ true
    → (connected disconnected : Db) × (connect_integration_pat fernet "github" token user_id db
        ≡ (ok ("Successfully connected to " <> i.display_name), connected))
      × (stored_token fernet (github_account connected user_id) ≡ ok (some token))
      × (disconnect_integration "github" user_id connected
          ≡ (ok ("Successfully disconnected from " <> i.display_name), disconnected))
      × (stored_token fernet (github_account disconnected user_id) ≡ ok none)
unfolding connect_integration_pat Integrations.connect_to disconnect_integration
    Integrations.disconnect_from
connect_integration_pat-stored_token fernet token user_id db i found only h =
    let encrypted = encrypt_token fernet token in
    let o = find_account user_id i.id db in
    let after = Integrations.store_token user_id i.id encrypted o db in
    let kept = store_token-integrations user_id i.id encrypted o db in
    let named : find_integration "github" after ≡ some i =
      ap (find_first (has_name "github")) kept ∙ found in
    let only' : IsOnlyNamed "github" i after = rw kept only in
    let (a, there, e) = store_token-find_account user_id i.id encrypted db o refl in
    let gone = record after { accounts = delete_where (is_account user_id i.id) after.accounts } in
    let absent = find_first-delete_self (is_account user_id i.id) after.accounts in
    (
      after,
      gone,
      rw found refl,
      ap (stored_token fernet) (github_account-find_account i after user_id named only' ∙ there)
          ∙ stored_token-encrypt_token fernet token a h e,
      rw named refl,
      ap (stored_token fernet) (github_account-find_account i gone user_id named only' ∙ absent)
          ∙ no_account fernet,
    )
