-- ===== src/Auth/Once.antt =====
-- A refresh token is used once, whatever the authentication routes are asked afterwards.
use aerp.Prelude.{
  ℕ, ◌≡◌, refl, ap, String, is_some, str_eq, eq_iff, find_first_sound, ltb, find_first, false,
  Option, none, some, [], ◌∷◌, ◌++◌, http, Result, ok, err, Bool-cases, inl, inr, arith, pure, ◌>>◌,
}
use mathlib.Core.Path.{subst}
use aerp.Database.{Db, User, RefreshToken}
use aerp.Database.Tables.{
  delete_where, find_first-delete_self, find_first-append_other, find_first-delete,
}
use aerp.Auth.Passwords.{Bcrypt}
use aerp.Auth.Tokens.{Jwt, Claims, create_access_token, add_token_to_blocklist}
use aerp.Auth.Routes
use aerp.Auth.Routes.{UserCreate, UserUpdate, TokenResponse, has_hash}

-- No refresh token of this hash is stored.
abbrev pub IsGone : String → Db → Type 0
IsGone key db = find_first (has_hash key) db.refresh_tokens ≡ none

-- The refresh token that is answered, if one is, has another hash.
abbrev pub IsOther : (String → String) → String → Result TokenResponse → Type 0
IsOther sha256 key (ok t) = str_eq (sha256 t.refresh_token) key ≡ false
IsOther sha256 key (err e) = Unit

module _ (bcrypt : Bcrypt) (jwt : Jwt) (sha256 : String → String) (uuid : ℕ → String) where
  -- A request to an authentication route that writes, at any time.
  pub data Request (key : String) (db : Db) : Db → Type 0 where
    registers :
        (now : ℕ) (validate_email : String → Option String) (salt : ℕ) (sent : UserCreate)
        → Request key db
            (Routes.post_register bcrypt jwt sha256 uuid now validate_email salt sent db).1
    logs_in :
        (now : ℕ) (username password : String)
        → IsOther sha256 key (Routes.login bcrypt jwt sha256 uuid now username password db).0
        → Request key db (Routes.login bcrypt jwt sha256 uuid now username password db).1
    refreshes :
        (now : ℕ) (raw : String)
        → IsOther sha256 key (Routes.refresh_token bcrypt jwt sha256 uuid now raw db).0
        → Request key db (Routes.refresh_token bcrypt jwt sha256 uuid now raw db).1
    logs_out :
        (now : ℕ) (raw token : String)
        → Request key db (Routes.logout bcrypt jwt sha256 uuid now raw token db).1
    updates_profile :
        (now : ℕ) (user_in : UserUpdate) (current_user : User)
        → Request key db
            (Routes.update_profile bcrypt jwt sha256 uuid now user_in current_user db).1
    changes_password :
        (now salt : ℕ) (old_password new_password : String) (current_user : User)
        → Request key db
            (Routes.change_password bcrypt jwt sha256 uuid now salt old_password new_password
              current_user db).1

  pub data Requests (key : String) (db : Db) : Db → Type 0 where
    no_more : Requests key db db
    more : {d e : Db} → Requests key db d → Request key d e → Requests key db e

  module _ (now : ℕ) where
    issue_tokens-tokens :
        (user_id : String) (db : Db) (t : TokenResponse)
        → (Routes.issue_tokens bcrypt jwt sha256 uuid now user_id db).0 ≡ ok t
        → (row : RefreshToken) × (row.token_hash ≡ sha256 t.refresh_token)
          × ((Routes.issue_tokens bcrypt jwt sha256 uuid now user_id db).1.refresh_tokens
              ≡ db.refresh_tokens ++ row ∷ [])
    unfolding Routes.issue_tokens create_access_token
    issue_tokens-tokens user_id db t h = (_, ap sha256 cc, refl)

    rotate-once :
        (o : Option RefreshToken) (key : String) (db : Db) (t : TokenResponse)
        → find_first (has_hash key) db.refresh_tokens ≡ o
        → (Routes.rotate bcrypt jwt sha256 uuid now o db).0 ≡ ok t
        → str_eq (sha256 t.refresh_token) key ≡ false
        → find_first (has_hash key) (Routes.rotate bcrypt jwt sha256 uuid now o db).1.refresh_tokens
          ≡ none
    unfolding Routes.rotate Routes.delete_token
    rotate-once none key db t found h fresh = cc
    rotate-once (some row) key db t found h fresh = elim (Bool-cases (is_some row.revoked_at)) [
      | inl e ↦ let h₁ = rw e at h in cc
      | inr e ↦ elim (Bool-cases (ltb row.expires_at now)) [
        | inl e₂ ↦ let h₁ = rw (e, e₂) at h in cc
        | inr e₂ ↦
            let h₁ = rw (e, e₂) at h in
            let left = delete_where (has_hash row.token_hash) db.refresh_tokens in
            let (new, is_new, stored) =
              issue_tokens-tokens row.user_id (record db { refresh_tokens = left }) t h₁ in
            let same =
              (eq_iff row.token_hash key).0
                (find_first_sound (has_hash key) db.refresh_tokens row found) in
            let absent : find_first (has_hash key) left ≡ none =
              subst (λ k. find_first (has_hash k) left ≡ none) same
                (find_first-delete_self (has_hash row.token_hash) db.refresh_tokens) in
            rw (e, e₂, stored)
              (find_first-append_other (has_hash key) left new absent (rw is_new fresh))
      ]
    ]

    issue_tokens-IsGone :
        (user_id key : String) (db : Db)
        → IsGone key db
        → IsOther sha256 key (Routes.issue_tokens bcrypt jwt sha256 uuid now user_id db).0
        → IsGone key (Routes.issue_tokens bcrypt jwt sha256 uuid now user_id db).1
    unfolding Routes.issue_tokens create_access_token
    issue_tokens-IsGone user_id key db gone other =
        find_first-append_other (has_hash key) db.refresh_tokens _ gone other

    login_as-IsGone :
        (password key : String) (o : Option User) (db : Db)
        → IsGone key db
        → IsOther sha256 key (Routes.login_as bcrypt jwt sha256 uuid now password o db).0
        → IsGone key (Routes.login_as bcrypt jwt sha256 uuid now password o db).1
    unfolding Routes.login_as
    login_as-IsGone password key none db gone other = gone
    login_as-IsGone password key (some u) db gone other =
        elim (Bool-cases (Routes.is_password_of bcrypt password u.password_hash)) [
          | inl e ↦ let h = rw e at other in rw e (issue_tokens-IsGone u.id key db gone h)
          | inr e ↦ rw e gone
        ]

    rotate-IsGone :
        (key : String) (o : Option RefreshToken) (db : Db)
        → IsGone key db
        → IsOther sha256 key (Routes.rotate bcrypt jwt sha256 uuid now o db).0
        → IsGone key (Routes.rotate bcrypt jwt sha256 uuid now o db).1
    unfolding Routes.rotate Routes.delete_token
    rotate-IsGone key none db gone other = gone
    rotate-IsGone key (some row) db gone other = elim (Bool-cases (is_some row.revoked_at)) [
      | inl e ↦ rw e gone
      | inr e ↦ elim (Bool-cases (ltb row.expires_at now)) [
        | inl e₂ ↦ rw (e, e₂) gone
        | inr e₂ ↦
            let h = rw (e, e₂) at other in
            rw (e, e₂)
              (issue_tokens-IsGone row.user_id key _
                (find_first-delete (has_hash row.token_hash) (has_hash key) db.refresh_tokens gone)
                h)
      ]
    ]

  block_claims-tokens :
      (now : ℕ) (c : Option Claims) (db : Db)
      → ((Routes.block_claims bcrypt jwt sha256 uuid now c
            >> pure {A = String} "Successfully logged out")
          db).1.refresh_tokens
        ≡ db.refresh_tokens
  unfolding Routes.block_claims Routes.block_jti add_token_to_blocklist
  block_claims-tokens now none db = refl
  block_claims-tokens now (some c) db = ground arith

  logout-IsGone :
      (key : String) (now : ℕ) (raw token : String) (db : Db)
      → IsGone key db
      → IsGone key (Routes.logout bcrypt jwt sha256 uuid now raw token db).1
  unfolding Routes.logout Routes.delete_token
  logout-IsGone key now raw token db gone =
      rw (block_claims-tokens now (jwt.decode now token) _)
        (find_first-delete (has_hash (sha256 raw)) (has_hash key) db.refresh_tokens gone)

  register_valid-tokens :
      (now salt : ℕ) (o : Option UserCreate) (db : Db)
      → (Routes.register_valid bcrypt jwt sha256 uuid now salt o db).1.refresh_tokens
        ≡ db.refresh_tokens
  unfolding Routes.register_valid Routes.register Routes.insert_user
  register_valid-tokens now salt none db = refl
  register_valid-tokens now salt (some u) db = ground arith

  change_password-tokens :
      (now salt : ℕ) (old_password new_password : String) (user : User) (db : Db)
      → (Routes.change_password bcrypt jwt sha256 uuid now salt old_password new_password user
          db).1.refresh_tokens
        ≡ db.refresh_tokens
  unfolding Routes.change_password
  change_password-tokens now salt old_password new_password user db = ground arith

  Request-IsGone : {key : String} {db e : Db} → Request key db e → IsGone key db → IsGone key e
  unfolding Routes.post_register Routes.login Routes.refresh_token Routes.update_profile
  Request-IsGone (registers now validate_email salt sent) gone =
      rw (register_valid-tokens now salt _ _) gone
  Request-IsGone (logs_in now username password other) gone =
      login_as-IsGone now password _ _ _ gone other
  Request-IsGone (refreshes now raw other) gone = rotate-IsGone now _ _ _ gone other
  Request-IsGone (logs_out now raw token) gone = logout-IsGone _ now raw token _ gone
  Request-IsGone (updates_profile now user_in user) gone = gone
  Request-IsGone (changes_password now salt old_password new_password user) gone =
      rw (change_password-tokens now salt old_password new_password user _) gone

  Requests-IsGone : {key : String} {db e : Db} → Requests key db e → IsGone key db → IsGone key e
  Requests-IsGone no_more gone = gone
  Requests-IsGone (more before r) gone = Request-IsGone r (Requests-IsGone before gone)

  -- A refresh token that was answered is refused with 401 at any later time, after any requests to
  -- register, log in, refresh, log out, change the profile or the password, by anyone and at any
  -- times, and the refusal changes nothing, as long as no refresh token that is answered meanwhile
  -- has the hash of the old one.
  pub refresh_token-once :
      (now later : ℕ) (raw : String) (db after : Db) (t : TokenResponse)
      → (Routes.refresh_token bcrypt jwt sha256 uuid now raw db).0 ≡ ok t
      → str_eq (sha256 t.refresh_token) (sha256 raw) ≡ false
      → Requests (sha256 raw) (Routes.refresh_token bcrypt jwt sha256 uuid now raw db).1 after
      → Routes.refresh_token bcrypt jwt sha256 uuid later raw after
        ≡ (err (http 401 "Invalid or revoked refresh token"), after)
  unfolding Routes.refresh_token Routes.rotate
  refresh_token-once now later raw db after t h fresh requests =
      let gone =
        rotate-once now (find_first (has_hash (sha256 raw)) db.refresh_tokens) (sha256 raw) db t
          refl h fresh in
      let still : IsGone (sha256 raw) after = Requests-IsGone requests gone in rw still refl
