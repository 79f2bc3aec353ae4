-- ===== src/Auth/Passwords.antt =====
-- backend/utils/security.py: passwords. bcrypt is third-party; it reads at most 72 bytes, which the
-- code cuts off itself.
use aerp.Prelude.{
  ℕ, zero, suc, ◌+◌, ◌/◌, ◌≤◌, ◌≡◌, refl, ap, String, take, take_chars, ltb, Bool, true, false,
  List, [], ◌∷◌, ◌++◌, Result, ok, err, arith, if◌then◌else◌, Bool-cases, inl, inr,
}
use Prim.Native.Nat.{◌%◌}
use Prim.Native.Char.{code}

-- A character in UTF-8.
unfoldable pub encode_char : ℕ → List ℕ
encode_char n =
    if ltb n 128
    then n ∷ []
    else if ltb n 2048
    then (192 + n / 64) ∷ (128 + n % 64) ∷ []
    else if ltb n 65536
    then (224 + n / 4096) ∷ (128 + n / 64 % 64) ∷ (128 + n % 64) ∷ []
    else (240 + n / 262144) ∷ (128 + n / 4096 % 64) ∷ (128 + n / 64 % 64) ∷ (128 + n % 64) ∷ []

-- `password.encode("utf-8")`
unfoldable pub encode : String → List ℕ
encode String.[] = []
encode (String.◌∷◌ c s) = encode_char (code c) ++ encode s

-- bcrypt: `checkpw` may raise. What it is asked is that it accepts the hash that `hashpw` made.
pub record Bcrypt : Type 0 where
  pub hashpw : List ℕ → ℕ → String
  pub checkpw : List ℕ → String → Result Bool
  pub checkpw-hashpw : (bytes : List ℕ) (salt : ℕ) → checkpw bytes (hashpw bytes salt) ≡ ok true

unfoldable pub verify_password : Bcrypt → String → String → Bool
unfolding encode
verify_password bcrypt plain_password hashed_password =
    elim (bcrypt.checkpw (take 72 (encode plain_password)) hashed_password) [
      | ok same ↦ same
      | err e ↦ false
    ]

unfoldable pub get_password_hash : Bcrypt → ℕ → String → String
unfolding encode
get_password_hash bcrypt salt password = bcrypt.hashpw (take 72 (encode password)) salt

-- A password is accepted against its own hash.
pub verify_password-get_password_hash :
    (bcrypt : Bcrypt) (salt : ℕ) (password : String)
    → verify_password bcrypt password (get_password_hash bcrypt salt password) ≡ true
unfolding verify_password get_password_hash
verify_password-get_password_hash bcrypt salt password =
    rw (verify_password, get_password_hash, bcrypt.checkpw-hashpw (take 72 (encode password)) salt)
      refl

-- Two texts of bytes that are the same as far as `k` bytes.
abbrev AgreeTo : ℕ → List ℕ → List ℕ → Type 0
AgreeTo k ys zs = (j : ℕ) → j ≤ k → take j ys ≡ take j zs

AgreeTo-append : (k : ℕ) (xs ys zs : List ℕ) → AgreeTo k ys zs → AgreeTo k (xs ++ ys) (xs ++ zs)
AgreeTo-append k [] ys zs h j le = h j le
AgreeTo-append k (x ∷ xs) ys zs h zero le = refl
AgreeTo-append k (x ∷ xs) ys zs h (suc j) le =
    ap (λ (l : List ℕ). x ∷ l) (AgreeTo-append k xs ys zs h j (omega arith))

AgreeTo-cons :
    (k x : ℕ) (xs ys zs : List ℕ)
    → AgreeTo k ys zs
    → AgreeTo (suc k) ((x ∷ xs) ++ ys) ((x ∷ xs) ++ zs)
AgreeTo-cons k x xs ys zs h zero le = refl
AgreeTo-cons k x xs ys zs h (suc j) le =
    ap (λ (l : List ℕ). x ∷ l) (AgreeTo-append k xs ys zs h j (omega arith))

-- A character takes at least one byte.
encode_char-cons : (n : ℕ) → (x : ℕ) × (xs : List ℕ) × (encode_char n ≡ x ∷ xs)
unfolding encode_char
encode_char-cons n = elim (Bool-cases (ltb n 128)) [
  | inl e ↦ rw e (_, _, refl)
  | inr e ↦ elim (Bool-cases (ltb n 2048)) [
    | inl e₂ ↦ rw (e, e₂) (_, _, refl)
    | inr e₂ ↦ elim (Bool-cases (ltb n 65536)) [
      | inl e₃ ↦ rw (e, e₂, e₃) (_, _, refl)
      | inr e₃ ↦ rw (e, e₂, e₃) (_, _, refl)
    ]
  ]
]

encode-AgreeTo : (k : ℕ) (s : String) → AgreeTo k (encode (take_chars k s)) (encode s)
unfolding encode
encode-AgreeTo zero s zero le = refl
encode-AgreeTo zero s (suc j) le = absurd (omega arith)
encode-AgreeTo (suc k) String.[] j le = refl
encode-AgreeTo (suc k) (String.◌∷◌ c s) j le =
    let (x, xs, e) = encode_char-cons (code c) in
    rw e (AgreeTo-cons k x xs (encode (take_chars k s)) (encode s) (encode-AgreeTo k s) j le)

-- Cutting a password to 72 characters before it is hashed or checked changes neither, since both
-- read the first 72 bytes.
pub get_password_hash-take_chars :
    (bcrypt : Bcrypt) (salt : ℕ) (password hashed : String)
    → (get_password_hash bcrypt salt (take_chars 72 password)
        ≡ get_password_hash bcrypt salt password)
      × (verify_password bcrypt (take_chars 72 password) hashed
          ≡ verify_password bcrypt password hashed)
unfolding get_password_hash verify_password
get_password_hash-take_chars bcrypt salt password hashed =
    let e = encode-AgreeTo 72 password 72 (omega arith) in
    rw (get_password_hash, verify_password, e) (refl, refl)
