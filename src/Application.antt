-- ===== src/Application.antt =====
-- src/mp_commons/application: the application services.
pub mod LruCache
pub mod RateLimit
pub mod Saga
pub mod EventSourcing
pub mod Inbox
pub mod Workflow
pub mod Pagination
pub mod TaggedCache
pub mod Pipeline
pub mod Cqrs
pub mod Webhooks
pub mod Gdpr
pub mod I18n
