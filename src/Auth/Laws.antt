-- ===== src/Auth/Laws.antt =====
-- What the authentication routes promise together.
use aerp.Prelude.{
  ℕ, ◌≤◌, ◌<◌, ◌≡◌, refl, String, is_truthy, is_some, take_chars, count_chars, str_eq, eq_refl, ltb,
  find_first, true, false, ◌==◌, Option, none, some, List, ◌∷◌, http, ok, err, arith, Bool-cases,
  inl, inr, ◌<>◌,
}
use aerp.Database.{Db, User, RefreshToken}
use aerp.Database.Tables.{
  delete_where, find_first-append, find_first-append_other, find_first-delete_self,
}
use aerp.Auth.Passwords.{Bcrypt, verify_password-get_password_hash}
use aerp.Auth.Tokens
use aerp.Auth.Tokens.{
  Jwt, Claims, get_current_user, user_of_claims, add_token_to_blocklist, create_access_token,
  is_revoked, is_token_blocked,
}
use aerp.Auth.Routes
use aerp.Auth.Routes.{UserCreate, TokenResponse, has_email, has_hash}

module _ (bcrypt : Bcrypt) (jwt : Jwt) (sha256 : String → String) (uuid : ℕ → String)
    (now : ℕ) where
  issue_tokens-ok :
      (user_id : String) (db : Db)
      → (t : TokenResponse) × ((Routes.issue_tokens bcrypt jwt sha256 uuid now user_id db).0 ≡ ok t)
  unfolding Routes.issue_tokens create_access_token
  issue_tokens-ok user_id db = (_, refl)

  login_as-ok :
      (password : String) (o : Option User) (user : User) (db : Db)
      → o ≡ some user
      → Routes.is_password_of bcrypt password user.password_hash ≡ true
      → (t : TokenResponse) × ((Routes.login_as bcrypt jwt sha256 uuid now password o db).0 ≡ ok t)
  unfolding Routes.login_as
  login_as-ok password none user db e h = cc
  login_as-ok password (some u) user db e h =
      let here : Routes.is_password_of bcrypt password u.password_hash ≡ true = cc in
      rw here (issue_tokens-ok u.id db)

  login_as-absent :
      (password : String) (o : Option User) (db : Db)
      → o ≡ none
      → (Routes.login_as bcrypt jwt sha256 uuid now password o db).0
        ≡ err (http 401 "Incorrect email or password")
  unfolding Routes.login_as
  login_as-absent password o db h = rw h refl

  -- Where email-validator takes the address that is sent, the password has eight characters at
  -- least, and the normal form of the address is free, a login after the registration with the
  -- normal form and the password returns tokens.
  pub register-login :
      (validate_email : String → Option String) (salt : ℕ) (sent : UserCreate) (email : String)
      (db : Db)
      → validate_email sent.email ≡ some email
      → 8 ≤ count_chars sent.password
      → find_first (has_email email) db.users ≡ none
      → (t : TokenResponse) × ((Routes.login bcrypt jwt sha256 uuid now email sent.password
            (Routes.post_register bcrypt jwt sha256 uuid now validate_email salt sent db).1).0
          ≡ ok t)
  unfolding Routes.login Routes.post_register Routes.register_valid Routes.register
      Routes.insert_user
  register-login validate_email salt sent email db valid long free =
      let long_enough : ltb (count_chars sent.password) 8 ≡ false = ground arith in
      rw (long_enough, valid, free)
        (login_as-ok sent.password _ _ _
          (find_first-append (has_email email) db.users _ free (eq_refl email))
          (verify_password-get_password_hash bcrypt salt (take_chars 72 sent.password)))

  -- Where the normal form of an address is another text than the address that is sent, and no user
  -- is stored with the latter, a login after the registration with the address as it was sent and
  -- the same password is refused with 401: the registration normalises the address and the login
  -- does not.
  pub register-login_as_sent :
      (validate_email : String → Option String) (salt : ℕ) (sent : UserCreate) (email : String)
      (db : Db)
      → validate_email sent.email ≡ some email
      → str_eq email sent.email ≡ false
      → find_first (has_email sent.email) db.users ≡ none
      → (Routes.login bcrypt jwt sha256 uuid now sent.email sent.password
          (Routes.post_register bcrypt jwt sha256 uuid now validate_email salt sent db).1).0
        ≡ err (http 401 "Incorrect email or password")
  unfolding Routes.login Routes.post_register Routes.register_valid Routes.register
      Routes.insert_user
  register-login_as_sent validate_email salt sent email db valid changed free =
      elim (Bool-cases (ltb (count_chars sent.password) 8)) [
        | inl short ↦ rw short (login_as-absent sent.password _ _ free)
        | inr long ↦ elim (Bool-cases (is_some (find_first (has_email email) db.users))) [
          | inl taken ↦ rw (long, valid, taken) (login_as-absent sent.password _ _ free)
          | inr new ↦
              rw (long, valid, new)
                (login_as-absent sent.password _ _
                  (find_first-append_other (has_email sent.email) db.users _ free changed))
        ]
      ]

  block_jti-blocks :
      (exp : ℕ) (jti : String) (db : Db)
      → is_truthy jti ≡ true
      → now < exp
      → Routes.block_jti bcrypt jwt sha256 uuid now exp (some jti) db
        ≡ (ok tt, record db { blocklist = ("blocklist:" <> jti, exp) ∷ db.blocklist })
  unfolding Routes.block_jti add_token_to_blocklist
  block_jti-blocks exp jti db truthy live =
      let nonzero : (exp == 0) ≡ false = ground arith in
      let live_now : ltb now exp ≡ true = ground arith in rw (truthy, nonzero, live_now) refl

  is_revoked-blocked :
      (later exp : ℕ) (jti : String) (db : Db) (rest : List (String × ℕ))
      → is_truthy jti ≡ true
      → later < exp
      → db.blocklist ≡ ("blocklist:" <> jti, exp) ∷ rest
      → is_revoked later (some jti) db ≡ true
  unfolding is_revoked is_token_blocked
  is_revoked-blocked later exp jti db rest truthy live first =
      let live_later : ltb later exp ≡ true = ground arith in
      rw (truthy, first, eq_refl ("blocklist:" <> jti), live_later) refl

  -- After a logout the refresh token is not stored, and the access token, which still decodes, is
  -- refused as revoked until the second at which it expires.
  pub logout-revokes :
      (raw token user_id jti : String) (exp later : ℕ) (db : Db)
      → is_truthy jti ≡ true
      → now ≤ later
      → later < exp
      → jwt.decode now token ≡ some (record { exp = exp; sub = some user_id; jti = some jti })
      → jwt.decode later token ≡ some (record { exp = exp; sub = some user_id; jti = some jti })
      → (let after = (Routes.logout bcrypt jwt sha256 uuid now raw token db).1 in
          (get_current_user jwt later token after ≡ err (http 401 "Token has been revoked"))
          × (find_first (has_hash (sha256 raw)) after.refresh_tokens ≡ none))
  unfolding get_current_user user_of_claims Tokens.user_of_subject Routes.logout Routes.block_claims
      Routes.delete_token
  logout-revokes raw token user_id jti exp later db truthy after live read_now read_later =
      let gone : List RefreshToken = delete_where (has_hash (sha256 raw)) db.refresh_tokens in
      let blocked =
        block_jti-blocks exp jti (record db { refresh_tokens = gone }) truthy (omega arith) in
      let revoked =
        is_revoked-blocked later exp jti
          (record db {
            refresh_tokens = gone;
            blocklist = ("blocklist:" <> jti, exp) ∷ db.blocklist;
          })
          db.blocklist truthy live refl in
      rw (read_now, read_later, blocked)
        (rw revoked refl, find_first-delete_self (has_hash (sha256 raw)) db.refresh_tokens)
