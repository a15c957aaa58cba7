-- ===== src/Lib.antt =====
-- A model of the TypeScript packages of this repository that carry its behaviour, and the theorems
-- that hold of them.
--
-- The program is a set of packages that a product composes. Every provider call of a product goes
-- through packages/ai-router, which asks the privacy enforcer of packages/privacy about each
-- candidate before it calls anything of it; packages/events carries the domain events between
-- components; packages/persistence holds the entities behind a repository and a unit of work; and a
-- client of packages/sdk walks the pages that such a repository gives out. packages/core has the
-- errors, results and ids that all of them use.
--
-- Base holds what the modules share: tests on numbers, lists measured by native numbers, equality of
-- texts, and a `Map` with string keys as the list of its entries.
-- Core/Value is a JavaScript value, Core/Errors, Result, Ids and Lifecycle are packages/core/src.
-- Privacy/Modes, Context, Policy, Telemetry, Enforcer and Minimization are the files of the same
-- names under packages/privacy/src.
-- Router/Providers, Registry and Capabilities are the files of the same names under
-- packages/ai-router/src; Router/Attempt is `attemptCandidates` of router.ts, and Router/Routes the
-- `route…` functions over it.
-- Events/Envelope and Events/Bus are envelope.ts, delivery.ts and in-memory-bus.ts of
-- packages/events/src.
-- Persistence/Repository is repository.ts and in-memory.ts of packages/persistence/src, its child
-- UnitOfWork the `InMemoryUnitOfWork`.
-- Providers/RateLimit, Auth, Authorization and Search are rate-limit.ts, auth.ts, authorization.ts and
-- search.ts of packages/providers/src, and Providers/Adapters its audit, e-mail, push, billing and
-- storage adapters. Observability/Health, Logger and Tracing are the files of those names under
-- packages/observability/src.
-- Notifications/Preferences, Service, Local and Reminders are types.ts and preferences.ts, service.ts,
-- local.ts and workflows.ts of packages/notifications/src, Media/Assets and Local assets.ts,
-- uploads.ts and local.ts of packages/media/src.
-- Realtime/Rooms, Calls, Presence and PubSub are the files of those names under
-- packages/realtime/src and packages/realtime/src/local, and Realtime/Webhooks webhook-delivery.ts.
-- Sdk/Pagination and Errors are the files of those names under packages/sdk/src, Sdk/Urls and Client
-- its client.ts.
-- Server is examples/minimal-server/src: Server/World is store.ts, Server/Wire is wire.ts, and the
-- others are server.ts: Paging the pages and helpers of the handlers, Handlers the handlers, Routes
-- the table of the routes, Http authentication and the answers. Its platform is made of the models of
-- Persistence/Repository and Notifications, and its client is Sdk/Client.
-- The modules below these hold the proofs; Tests applies the theorems to concrete inputs.
--
-- State and effects. An object with private state is a record that each method takes and gives back.
-- Code that calls handlers, providers or fetchers takes them as functions on a world `W`, which the
-- theorems leave open: a theorem that says that the world is unchanged says that nothing was called.
-- A handler of the bus acts on the bus too, so that it may publish and subscribe. A `throw` is the
-- `err` of a `Result`. A promise of a provider fulfils or rejects after a number of milliseconds or
-- stays pending; a route that waits for ever is `none`. Promises are awaited one after another in
-- the modelled code, so that no interleaving is lost; calls that overlap are not modelled.
-- Texts are native strings, and lists of code points (Base/Codes) where code takes them apart: ids,
-- permissions, search texts, URLs and paths; timestamps are texts, or numbers in
-- their order where code compares them; numbers are naturals, and a `limit` of a page an integer.
--
-- A key `__proto__`, whose assignment sets a prototype, and the place of keys that look like array
-- indices are left out.
--
-- Fuel. `paginateAll` is an endless loop: `paginate_from` takes fuel, one unit for a page. A page of
-- a positive limit that another one follows holds an entity, so that one unit more than there are
-- entities is enough. The attempts of a delivery and of a route are structural. A client that follows
-- the offsets of the notifications takes one unit for a page, and one more than there are items is
-- enough.
--
-- Not modelled: the ids' random bytes, the clock and SHA-256 are arguments; packages/contracts
-- holds types and the guards of their values; packages/api-contracts is a document and its schemas;
-- the Node server, its sockets and the labels of its metrics, and the metrics of
-- packages/observability, hold no state that a property is about; documents, code generation, scripts
-- and continuous integration hold no state of the program.
mod Base
pub mod Core
pub mod Privacy
pub mod Providers
pub mod Router
pub mod Events
pub mod Media
pub mod Notifications
pub mod Observability
pub mod Persistence
pub mod Sdk
pub mod Tests
pub mod Realtime
pub mod Server
