-- ===== src/Auth/Routes.antt =====
-- backend/api/routes/auth.py: the routes. SHA-256 and the drawing of ids are parameters, `salt` is
-- what `bcrypt.gensalt` draws. The user that a route takes is the row that `get_current_user` read.
use aerp.Prelude.{
  ℕ, ◌+◌, String, is_truthy, is_some, take_chars, count_chars, str_eq, ltb, find_first, Bool, false,
  ◌&&◌, not, ◌==◌, Option, none, some, [], ◌∷◌, ◌++◌, http, err, Exec, pure, raise, modify, ◌>>=◌,
  ◌>>◌, if◌then◌else◌,
}
use aerp.Database.{Db, User, RefreshToken}
use aerp.Database.Tables.{update_where, delete_where}
use aerp.Auth.Passwords.{Bcrypt, verify_password, get_password_hash}
use aerp.Auth.Tokens.{
  Jwt, Claims, create_access_token, add_token_to_blocklist, uuid4, has_user_id,
  refresh_token_expire,
}

pub record UserCreate : Type 0 where
  pub email : String
  pub password : String
  pub first_name : Option String
  pub last_name : Option String

pub record UserUpdate : Type 0 where
  pub first_name : Option String
  pub last_name : Option String

pub record TokenResponse : Type 0 where
  pub access_token : String
  pub refresh_token : String

abbrev pub has_email : String → User → Bool
has_email email u = str_eq u.email email

abbrev pub has_hash : String → RefreshToken → Bool
has_hash token_hash t = str_eq t.token_hash token_hash

-- A user without a password hash: `verify_password` raises inside its `try` and answers False.
abbrev pub is_password_of : Bcrypt → String → Option String → Bool
is_password_of bcrypt password none = false
is_password_of bcrypt password (some hashed) =
    verify_password bcrypt (take_chars 72 password) hashed

abbrev or_keep : Option String → Option String → Option String
or_keep none old = old
or_keep (some s) old = some s

-- The names of a user that a request gives replace those that are stored.
unfoldable pub set_names : UserUpdate → User → User
set_names user_in u = record u {
  first_name = or_keep user_in.first_name u.first_name;
  last_name = or_keep user_in.last_name u.last_name;
}

module _ (bcrypt : Bcrypt) (jwt : Jwt) (sha256 : String → String) (uuid : ℕ → String)
    (now : ℕ) where
  unfoldable pub insert_user : ℕ → UserCreate → Exec Db User
  insert_user salt user_in = do
    id ← uuid4 uuid
    let user : User = record {
      id = id;
      email = user_in.email;
      password_hash = some (get_password_hash bcrypt salt (take_chars 72 user_in.password));
      first_name = user_in.first_name;
      last_name = user_in.last_name;
    }
    modify (λ (db : Db). record db { users = db.users ++ user ∷ [] })
    pure user

  unfoldable pub register : ℕ → UserCreate → Exec Db User
  register salt user_in db =
      if is_some (find_first (has_email user_in.email) db.users)
      then (err (http 400 "User with this email already exists."), db)
      else insert_user salt user_in db

  -- FastAPI validates the body by `UserCreate` before the route runs: `EmailStr` puts the address in
  -- its normal form, and the password has eight characters at least. `validate_email` is
  -- email-validator, which is third-party.
  abbrev with_email : UserCreate → Option String → Option UserCreate
  with_email sent none = none
  with_email sent (some email) = some (record sent { email = email })

  abbrev pub validated : (String → Option String) → UserCreate → Option UserCreate
  validated validate_email sent =
      if ltb (count_chars sent.password) 8
      then none
      else with_email sent (validate_email sent.email)

  unfoldable pub register_valid : ℕ → Option UserCreate → Exec Db User
  unfolding register
  register_valid salt none = raise (http 422 "Unprocessable Entity")
  register_valid salt (some user_in) = register salt user_in

  -- `POST /register`; pydantic's account of what is wrong is left out.
  unfoldable pub post_register : (String → Option String) → ℕ → UserCreate → Exec Db User
  unfolding register_valid
  post_register validate_email salt sent = register_valid salt (validated validate_email sent)

  -- An access token, and a refresh token whose hash alone is stored.
  unfoldable pub issue_tokens : String → Exec Db TokenResponse
  unfolding create_access_token
  issue_tokens user_id = do
    access_token ← create_access_token jwt uuid now user_id
    raw_refresh_token ← uuid4 uuid
    let row : RefreshToken = record {
      token_hash = sha256 raw_refresh_token;
      user_id = user_id;
      expires_at = now + refresh_token_expire;
      revoked_at = none;
    }
    modify (λ (db : Db). record db { refresh_tokens = db.refresh_tokens ++ row ∷ [] })
    pure (record { access_token = access_token; refresh_token = raw_refresh_token })

  unfoldable pub login_as : String → Option User → Exec Db TokenResponse
  login_as password none = raise (http 401 "Incorrect email or password")
  login_as password (some user) =
      if is_password_of bcrypt password user.password_hash
      then issue_tokens user.id
      else raise (http 401 "Incorrect email or password")

  unfoldable pub login : String → String → Exec Db TokenResponse
  login username password db = login_as password (find_first (has_email username) db.users) db

  -- `await db.delete(token_obj)`: the hash is unique.
  unfoldable pub delete_token : String → Exec Db (Unit {0})
  delete_token token_hash = modify (λ (db : Db). record db {
    refresh_tokens = delete_where (has_hash token_hash) db.refresh_tokens;
  })

  -- A refresh token is used once: its row is deleted, and new tokens are issued.
  unfoldable pub rotate : Option RefreshToken → Exec Db TokenResponse
  unfolding delete_token
  rotate none = raise (http 401 "Invalid or revoked refresh token")
  rotate (some token_obj) =
      if is_some token_obj.revoked_at
      then raise (http 401 "Invalid or revoked refresh token")
      else if ltb token_obj.expires_at now
      then raise (http 401 "Refresh token expired")
      else delete_token token_obj.token_hash >> issue_tokens token_obj.user_id

  unfoldable pub refresh_token : String → Exec Db TokenResponse
  refresh_token raw db = rotate (find_first (has_hash (sha256 raw)) db.refresh_tokens) db

  -- `if jti and exp`
  unfoldable pub block_jti : ℕ → Option String → Exec Db (Unit {0})
  unfolding add_token_to_blocklist
  block_jti exp none = pure tt
  block_jti exp (some jti) =
      if is_truthy jti && not (exp == 0) then add_token_to_blocklist now jti exp else pure tt

  unfoldable pub block_claims : Option Claims → Exec Db (Unit {0})
  unfolding block_jti
  block_claims none = pure tt
  block_claims (some payload) = block_jti payload.exp payload.jti

  unfoldable pub logout : String → String → Exec Db String
  unfolding block_claims delete_token
  logout raw token = do
    delete_token (sha256 raw)
    block_claims (jwt.decode now token)
    pure "Successfully logged out"

  unfoldable pub update_profile : UserUpdate → User → Exec Db User
  update_profile user_in current_user = do
    modify (λ (db : Db). record db {
      users = update_where (has_user_id current_user.id) (set_names user_in) db.users;
    })
    pure (set_names user_in current_user)

  unfoldable pub set_password : ℕ → String → User → User
  set_password salt password u = record u {
    password_hash = some (get_password_hash bcrypt salt (take_chars 72 password));
  }

  unfoldable pub change_password : ℕ → String → String → User → Exec Db String
  change_password salt old_password new_password current_user =
      if is_password_of bcrypt old_password current_user.password_hash
      then modify (λ (db : Db). record db {
        users =
            update_where (has_user_id current_user.id) (set_password salt new_password) db.users;
      })
        >> pure "Password updated successfully"
      else raise (http 400 "Incorrect old password")
