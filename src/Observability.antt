-- ===== src/Observability.antt =====
-- src/mp_commons/observability: what is seen of a running service.
pub mod Health
pub mod Events
