-- ===== src/Security.antt =====
-- knowledge-hub/app/security.py: API keys, signed tokens and the check of a request, with the guards
-- of knowledge-hub/app/main.py that use it. SHA-256, HMAC, base64 and JSON are Python's: parameters.
pub mod Keys
pub mod Tokens
pub mod Guards
pub mod Revocation
pub mod RoundTrip
pub mod Granted
pub mod Closed
