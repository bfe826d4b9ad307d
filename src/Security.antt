-- ===== src/Security.antt =====
-- src/mp_commons/security: credentials and keys.
pub mod ApiKeys
pub mod Rotation
