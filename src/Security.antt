-- ===== src/Security.antt =====
-- src/security: tokens, signatures, keys and permissions.
pub mod Tokens
pub mod Headers
pub mod Signatures
pub mod ApiKeys
