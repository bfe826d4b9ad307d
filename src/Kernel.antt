-- ===== src/Kernel.antt =====
-- src/mp_commons/kernel: the building blocks that depend on no other part of the library.
pub mod Rbac
pub mod Specification
pub mod Policies
pub mod Outbox
