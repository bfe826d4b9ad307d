-- ===== src/Lib.antt =====
-- mp-commons (src/mp_commons): a platform library for Python services, modelled component by
-- component.
--
-- The library has a kernel (domain building blocks, messaging and security ports), an application
-- layer (buses, caches, sagas, event sourcing, the inbox), resilience policies around calls of a
-- dependency, and adapters of third-party clients. The files of this development follow that tree:
-- Kernel, Application, Resilience, Config, Security, Observability and Adapters have a module for
-- each component, with the state as a record and a function for each method, and child modules for
-- what is proved.
--
-- Conventions. A coroutine is a function on the state that it reads and writes, and returns the new
-- state with its result. What happens between two awaits that other coroutines may use is a step of
-- its own where interleaving matters: a step relation for CacheAside, lists of commands for
-- CircuitBreaker, Bulkhead and RedisBreaker, all in Resilience. An awaited callable is represented
-- by how it ends, an `Outcome`: it returns, it raises an `Exception`, or it is cancelled, which
-- `except Exception` does not catch. Clock readings are arguments, natural numbers of ticks. Python
-- ints that count are natural numbers; a negative threshold or size is not represented. Floats are
-- natural numbers in a unit in which the values are whole. A dict is an association list in
-- insertion order (Dict), over keys with an equality test (Base).
--
-- Files and sources, all of the latter under src/mp_commons:
-- - Base, Dict and Outcome are shared: tests on numbers, lists, equality as an interface, dicts,
--   and how an awaited callable ends.
-- - Kernel/Specification and Kernel/Policies: kernel/ddd/specification.py and policies.py. A
--   subclass is its predicate; composites are trees, and Meaning gives what they mean.
-- - Kernel/Rbac: kernel/security/rbac.py. Matching is the wildcard rule, Roles the policy and the
--   decorator, Assignments the role store.
-- - Application/LruCache and Application/TaggedCache: application/cache/lru.py and tags.py.
--   Application/RateLimit: application/rate_limit/local.py. Application/Pagination:
--   application/pagination.
-- - Application/Saga: application/saga, the orchestrator over a store that is an argument, and the
--   in-memory store. What the steps' callables do is a function on the context, and the calls made
--   are a trace.
-- - Application/EventSourcing: application/event_sourcing, with the event list of
--   kernel/ddd/aggregate.py. Saving is about the store, Repository about loading.
-- - Application/Inbox: application/inbox. Application/Workflow: application/workflow, whose
--   in-memory store shares the instances with the engine, so that a change is in the store at once.
-- - Application/Pipeline: application/pipeline, a middleware being a function on handlers that
--   change a world. Chain is the composition; Idempotency, with kernel/messaging/idempotency.py and
--   the store of testing/fakes/idempotency.py; Guards, Transactions and Observers are the other
--   middlewares. Application/Cqrs: application/cqrs, the buses and the registries.
-- - Application/Webhooks: application/webhooks, over what each request ends with. Application/Gdpr:
--   application/gdpr/erasure.py.
-- - Resilience/Bulkhead: resilience/bulkhead/limiters.py; a coroutine that was handed a slot is
--   taken to run on. Resilience/Backpressure: resilience/backpressure.py without acquire().
--   Resilience/CacheAside: resilience/cache/aside.py, the calls of one key. Resilience/DeadLetters:
--   resilience/dead_letter_scheduler.py. Resilience/Shutdown: resilience/graceful_shutdown.py.
-- - Resilience/RedisBreaker: resilience/circuit_breaker/redis_breaker.py. Redis is an argument, the
--   operations on each key, with the laws that it documents as a hypothesis; a script is one step.
-- - Security/ApiKeys: security/apikeys; what argon2 documents is a hypothesis.
-- - Adapters/Fastapi: adapters/fastapi/middleware.py, over an ASGI application as a function:
--   Contexts are the middlewares that fill context variables or add headers, Limits the metrics and
--   the rate limit, Signatures the incoming webhooks. A header's value is its text, or nothing when
--   its bytes are not UTF-8. Adapters/Websocket: adapters/websocket/hub.py.
-- - Kernel/Outbox and Adapters/Dispatch: the outbox. Outbox is kernel/messaging/outbox.py, with the
--   repository as an interface whose laws the one of testing/fakes/outbox.py keeps; Dispatch are the
--   dispatchers of adapters/kafka, adapters/redis and adapters/pulsar, over that interface and a
--   broker that is an argument. At most 100 records are fetched at a time, the default of the port.
-- - Application/I18n: application/i18n/translator.py, texts being lists of code points. Locale is
--   the regular expression as a matcher, Negotiation the Accept-Language header, whose qualities are
--   any ordered type, and Catalogues the translator over Babel as an argument.
-- - Security/Rotation: security/rotation/rotator.py, the rotator.
-- - Observability/Events: observability/events/emitter.py. Config/Dynamic:
--   config/dynamic/source.py, the registry.
-- - Config/Flags: config/flags/provider.py and its client. Observability/Health:
--   observability/health/registry.py.
-- - Resilience/CircuitBreaker, Resilience/TokenBucket, Resilience/Retry and Resilience/Fallback:
--   resilience/circuit_breaker, resilience/throttle, resilience/retry and resilience/fallback.
--
-- Nothing runs on fuel: the loops of the source go over lists or count attempts, and are structural
-- recursion here. Left out is whatever only calls third-party clients,
-- logging, tracing and metrics, the retrying middlewares that wrap tenacity, the background tasks
-- that repeat a cycle, and the texts of exceptions. The shuffling of delays by random.uniform,
-- clocks, serialisers and callbacks are arguments. Not modelled are also the deadlines, the hedge,
-- masking, the scheduler, the value types of the kernel and the repositories of the adapters.

pub mod Base
pub mod Dict
pub mod Outcome
pub mod Kernel
pub mod Resilience
pub mod Application
pub mod Config
pub mod Observability
pub mod Security
pub mod Adapters
