-- ===== src/Adapters.antt =====
-- src/mp_commons/adapters: what the library does around third-party clients and servers.
pub mod Fastapi
pub mod Websocket
pub mod Dispatch
