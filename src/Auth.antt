-- ===== src/Auth.antt =====
-- backend/utils/security.py, backend/api/deps.py and backend/api/routes/auth.py: users and tokens.
pub mod Passwords
pub mod Tokens
pub mod Routes
pub mod Laws
pub mod Once
