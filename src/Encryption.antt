-- ===== src/Encryption.antt =====
-- backend/utils/encryption.py: tokens are stored encrypted. Fernet is a third-party cipher, keyed by
-- the hash of the application's secret key.
use aerp.Prelude.{
  String, is_truthy, ◌≡◌, refl, Result, ok, true, Bool-cases, inl, inr, if◌then◌else◌,
}

-- A Fernet instance. `decrypt` raises on what it did not encrypt; the documented law is that it
-- undoes `encrypt`, and a token of Fernet's is never empty.
pub record Fernet : Type 0 where
  pub encrypt : String → String
  pub decrypt : String → Result String
  pub decrypt-encrypt : (s : String) → decrypt (encrypt s) ≡ ok s
  pub encrypt_truthy : (s : String) → is_truthy (encrypt s) ≡ true

unfoldable pub encrypt_token : Fernet → String → String
encrypt_token f token = if is_truthy token then f.encrypt token else token

unfoldable pub decrypt_token : Fernet → String → Result String
decrypt_token f encrypted = if is_truthy encrypted then f.decrypt encrypted else ok encrypted

-- A token is read back as it was stored, the empty token too.
pub decrypt_token-encrypt_token :
    (f : Fernet) (token : String) → decrypt_token f (encrypt_token f token) ≡ ok token
unfolding decrypt_token encrypt_token
decrypt_token-encrypt_token f token = elim (Bool-cases (is_truthy token)) [
  | inl e ↦ rw (e, f.encrypt_truthy token) (f.decrypt-encrypt token)
  | inr e ↦ rw (e, e) refl
]

pub encrypt_token_truthy :
    (f : Fernet) (token : String)
    → is_truthy token ≡ true
    → is_truthy (encrypt_token f token) ≡ true
unfolding encrypt_token
encrypt_token_truthy f token h = rw h (f.encrypt_truthy token)
