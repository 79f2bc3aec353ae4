-- ===== src/Tests/Accounts.antt =====
-- Ciphers, hashes and tokens that compute, and rows of the database.
use aerp.Prelude.{
  ℕ, zero, suc, ◌≡◌, refl, String, ◌<>◌, ◌==◌, if◌then◌else◌, str_eq, eq_refl, eq_iff, is_truthy,
  ap, Bool-cases, inl, inr, Bool, true, false, none, some, List, [], ◌∷◌, error, Result, ok, err,
}
use Prim.Native.Char.{code}
use aerp.Auth.Passwords.{Bcrypt}
use aerp.Auth.Tokens.{Jwt, Claims}
use aerp.Encryption.{Fernet}
use aerp.Database.{Db, PullRequest, queued}

-- A text of as many letters as the sum of the bytes.
abbrev letters : ℕ → String
letters zero = ""
letters (suc n) = "x" <> letters n

abbrev digest : List ℕ → String
digest [] = ""
digest (b ∷ bytes) = letters b <> digest bytes

abbrev pub bcrypt : Bcrypt
bcrypt = record {
  hashpw = λ bytes salt. digest bytes;
  checkpw = λ bytes hashed. ok (str_eq (digest bytes) hashed);
  checkpw-hashpw = λ bytes salt. rw (eq_refl (digest bytes)) refl;
}

abbrev pub claims : Claims
claims = record { exp = 2000; sub = some "u1"; jti = some "j1" }

-- Every token decodes to the same payload.
abbrev pub jwt : Jwt
jwt = record { encode = λ c. "token"; decode = λ now token. some claims }

abbrev uncover : String → Result String
uncover String.[] = err (error "InvalidToken")
uncover (String.◌∷◌ c s) = if code c == b'g' then ok s else err (error "InvalidToken")

abbrev is_cons : String → Bool
is_cons String.[] = false
is_cons (String.◌∷◌ c s) = true

pub cover_truthy : (s : String) → is_truthy (String.◌∷◌ "g" s) ≡ true
cover_truthy s = elim (Bool-cases (str_eq (String.◌∷◌ "g" s) "")) [
  | inl e ↦ let q : true ≡ false = ap is_cons ((eq_iff (String.◌∷◌ "g" s) "").0 e) in absurd cc
  | inr e ↦ rw e refl
]

abbrev pub fernet : Fernet
fernet = record {
  encrypt = λ s. String.◌∷◌ "g" s;
  decrypt = uncover;
  decrypt-encrypt = λ s. refl;
  encrypt_truthy = cover_truthy;
}

abbrev pub uuid : ℕ → String
uuid n = letters n <> "-id"

abbrev pub sha256 : String → String
sha256 s = "h" <> s

abbrev pub queued_review : PullRequest
queued_review = record {
  id = "r1";
  user_id = some "u1";
  pr_url = "https://github.com/fake/repo/pull/1";
  jira_url = none;
  doc_url = none;
  status = queued;
  risk_score = none;
  recommendation = none;
  llm_provider = none;
  llm_model = none;
  task_id = none;
  error = none;
  completed_at = none;
  created_at = 1000;
  updated_at = 1000;
}

abbrev pub empty_db : Db
empty_db = record {
  pull_requests = [];
  comments = [];
  review_logs = [];
  users = [];
  refresh_tokens = [];
  integrations = [];
  accounts = [];
  jobs = [];
  blocklist = [];
  progress = [];
  drawn = 0;
}
