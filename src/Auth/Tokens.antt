-- ===== src/Auth/Tokens.antt =====
-- backend/utils/security.py and backend/api/deps.py: access tokens, the blocklist in Redis and the
-- user that a token stands for. `now` is the clock, in seconds.
use aerp.Prelude.{
  ℕ, suc, ◌+◌, ◌*◌, String, ◌<>◌, is_truthy, str_eq, ltb, any_of, find_first, Bool, false, ◌&&◌,
  Option, none, some, ◌∷◌, Failure, http, Result, ok, err, Exec, pure, modify, ◌>>=◌, if◌then◌else◌,
}
use aerp.Database.{Db, User}

-- The payload of a token.
pub record Claims : Type 0 where
  pub exp : ℕ
  pub sub : Option String
  pub jti : Option String

-- jose: `decode` gives nothing where it raises a `JWTError`, on an expired token too.
pub record Jwt : Type 0 where
  pub encode : Claims → String
  pub decode : ℕ → String → Option Claims

-- `settings.access_token_expire_minutes` and `refresh_token_expire_days`, in seconds.
abbrev pub access_token_expire : ℕ
access_token_expire = 30 * 60

abbrev pub refresh_token_expire : ℕ
refresh_token_expire = 7 * 86400

-- `uuid.uuid4()`: the next id.
abbrev pub uuid4 : (ℕ → String) → Exec Db String
uuid4 uuid db = (ok (uuid db.drawn), record db { drawn = suc db.drawn })

unfoldable pub create_access_token : Jwt → (ℕ → String) → ℕ → String → Exec Db String
create_access_token jwt uuid now subject = do
  jti ← uuid4 uuid
  pure (jwt.encode (record { exp = now + access_token_expire; sub = some subject; jti = some jti }))

-- A key of Redis with the second at which it ends. `setex` sets a key with a time to live.
unfoldable pub add_token_to_blocklist : ℕ → String → ℕ → Exec Db (Unit {0})
add_token_to_blocklist now jti exp =
    if ltb now exp
    then modify (λ (db : Db). record db { blocklist = ("blocklist:" <> jti, exp) ∷ db.blocklist })
    else pure tt

abbrev pub is_live : ℕ → String → String × ℕ → Bool
is_live now key (k, until) = str_eq k key && ltb now until

unfoldable pub is_token_blocked : ℕ → String → Db → Bool
is_token_blocked now jti db =
    if is_truthy jti then any_of (is_live now ("blocklist:" <> jti)) db.blocklist else false

abbrev pub has_user_id : String → User → Bool
has_user_id id u = str_eq u.id id

abbrev pub credentials_exception : Failure
credentials_exception = http 401 "Could not validate credentials"

unfoldable pub find_user : String → Db → Result User
find_user user_id db = elim (find_first (has_user_id user_id) db.users) [
  | none ↦ err credentials_exception
  | some user ↦ ok user
]

-- `jti and await is_token_blocked(jti)`
unfoldable pub is_revoked : ℕ → Option String → Db → Bool
is_revoked now none db = false
is_revoked now (some jti) db = is_token_blocked now jti db

unfoldable pub user_of_subject : ℕ → Option String → Option String → Db → Result User
user_of_subject now none jti db = err credentials_exception
user_of_subject now (some user_id) jti db =
    if is_revoked now jti db then err (http 401 "Token has been revoked") else find_user user_id db

unfoldable pub user_of_claims : ℕ → Option Claims → Db → Result User
unfolding user_of_subject
user_of_claims now none db = err credentials_exception
user_of_claims now (some payload) db = user_of_subject now payload.sub payload.jti db

unfoldable pub get_current_user : Jwt → ℕ → String → Db → Result User
get_current_user jwt now token db = user_of_claims now (jwt.decode now token) db
