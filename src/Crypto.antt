-- ===== src/Crypto.antt =====
-- services/identity/src/infrastructure/crypto: keys, tokens and password hashes.
pub mod Keys
pub mod Tokens
pub mod Passwords
