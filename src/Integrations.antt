-- ===== src/Integrations.antt =====
-- backend/api/routes/integrations.py: a user's accounts at other services. Of a stored account the
-- columns `credentials` and `refresh_token_encrypted` are not modelled: no code reads them.
pub mod Laws
use aerp.Prelude.{
  String, ◌<>◌, str_eq, contains, find_first, keep, Bool, true, false, ◌&&◌, Option, none, some,
  List, [], ◌∷◌, ◌++◌, map, http, Exec, pure, raise, modify, gets, ◌>>◌,
}
use aerp.Database.{Db, ThirdPartyIntegration, ThirdPartyUserAccount}
use aerp.Database.Tables.{update_where, delete_where}
use aerp.Encryption.{Fernet, encrypt_token}

pub record IntegrationResponse : Type 0 where
  pub name : String
  pub display_name : String
  pub description : Option String
  pub logo_url : Option String
  pub is_connected : Bool

-- The user's accounts that are active.
abbrev is_active_of : String → ThirdPartyUserAccount → Bool
is_active_of user_id a = str_eq a.user_id user_id && a.is_active

unfoldable pub connected_ids : String → Db → List String
connected_ids user_id db =
    map (λ (a : ThirdPartyUserAccount). a.integration_id) (keep (is_active_of user_id) db.accounts)

unfoldable pub to_response : List String → ThirdPartyIntegration → IntegrationResponse
to_response ids i = record {
  name = i.name;
  display_name = i.display_name;
  description = i.description;
  logo_url = i.logo_url;
  is_connected = contains ids i.id;
}

unfoldable pub list_integrations : String → Db → List IntegrationResponse
unfolding connected_ids to_response
list_integrations user_id db =
    map (to_response (connected_ids user_id db))
      (keep (λ (i : ThirdPartyIntegration). i.is_enabled) db.integrations)

abbrev pub has_name : String → ThirdPartyIntegration → Bool
has_name name i = str_eq i.name name

abbrev pub find_integration : String → Db → Option ThirdPartyIntegration
find_integration name db = find_first (has_name name) db.integrations

-- `user_id == current_user.id` and `integration_id == integration.id`
abbrev pub is_account : String → String → ThirdPartyUserAccount → Bool
is_account user_id integration_id a =
    str_eq a.user_id user_id && str_eq integration_id a.integration_id

abbrev pub find_account : String → String → Db → Option ThirdPartyUserAccount
find_account user_id integration_id db = find_first (is_account user_id integration_id) db.accounts

abbrev pub set_token : String → ThirdPartyUserAccount → ThirdPartyUserAccount
set_token encrypted a = record a { access_token_encrypted = encrypted; is_active = true }

abbrev pub new_account : String → String → String → ThirdPartyUserAccount
new_account user_id integration_id encrypted = record {
  user_id = user_id;
  integration_id = integration_id;
  access_token_encrypted = encrypted;
  is_active = true;
}

-- The account is changed where there is one, and inserted where there is none.
unfoldable pub store_token : String → String → String → Option ThirdPartyUserAccount → Db → Db
store_token user_id integration_id encrypted none db = record db {
  accounts = db.accounts ++ new_account user_id integration_id encrypted ∷ [];
}
store_token user_id integration_id encrypted (some a) db = record db {
  accounts = update_where (is_account user_id integration_id) (set_token encrypted) db.accounts;
}

unfoldable pub connect_to : Fernet → String → String → Option ThirdPartyIntegration → Exec Db String
unfolding store_token
connect_to fernet user_id access_token none = raise (http 404 "Integration not found")
connect_to fernet user_id access_token (some i) = do
  modify (λ (db : Db).
      store_token user_id i.id (encrypt_token fernet access_token) (find_account user_id i.id db)
        db)
  pure ("Successfully connected to " <> i.display_name)

unfoldable pub connect_integration_pat : Fernet → String → String → String → Exec Db String
unfolding connect_to
connect_integration_pat fernet name access_token user_id db =
    connect_to fernet user_id access_token (find_integration name db) db

unfoldable pub disconnect_from : String → Option ThirdPartyIntegration → Exec Db String
disconnect_from user_id none = raise (http 404 "Integration not found")
disconnect_from user_id (some i) = do
  modify (λ (db : Db). record db { accounts = delete_where (is_account user_id i.id) db.accounts })
  pure ("Successfully disconnected from " <> i.display_name)

unfoldable pub disconnect_integration : String → String → Exec Db String
unfolding disconnect_from
disconnect_integration name user_id db = disconnect_from user_id (find_integration name db) db
