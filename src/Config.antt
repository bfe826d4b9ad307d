-- ===== src/Config.antt =====
-- src/mp_commons/config: what the services are configured with.
pub mod Flags
pub mod Dynamic
