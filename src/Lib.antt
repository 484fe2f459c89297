-- ===== src/Lib.antt =====
-- A model of the SwiftChain backend, a delivery platform with escrowed payments.
--
-- The program. The HTTP API and the sockets call services, the services keep their documents in a
-- database and tell a user's connected clients of changes through a queue of socket messages. A
-- delivery moves from creation to completion under the delivery service, which reads the escrow
-- that secures it and raises a milestone for every change. The escrow service records what the
-- contract's events say, a poller brings those in and a log keeps them, and a merchant's endpoints
-- hear of changes by webhooks. Bulk imports come in as CSV files.
--
-- Which file models what:
--   Common, Common/*: texts as lists of UTF-16 code units, `Map`s with string keys as association
--     lists in insertion order, Boolean tests and list lemmas on the native numbers, `trim`.
--   Database: the document collection behind the mongoose models, as an interface with the laws of
--     `findById` and of `findOneAndUpdate`, which is atomic, and an implementation in memory.
--     Database/Query adds creation and queries, and Database/Keyed is a
--     collection with a unique index on two fields.
--   MessageQueue, MessageQueue/Delivery: src/sockets/messageQueue.ts, class `MessageQueueService`.
--     `Service` is its maps, each public method is a function of the state, and
--     `handle_ack_timeout` is the timer's handler. MessageQueue/Run has any sequence of calls and
--     timeouts; the other children prove what the queue guarantees.
--   Csv: src/utils/csvParser.ts, `tokenize` with its local variables as the state `Lexer`, and
--     `parseCsv`.
--   Delivery, Delivery/Service: `DeliveryStatus`, `ALLOWED_TRANSITIONS`, `updateStatus`,
--     `assignDriver`, `archive`, `restore` and the access check of `listMilestones` of
--     src/services/delivery.service.ts, with the model methods of src/models/Delivery.ts and
--     `transitionStatus` of src/repositories/DeliveryRepository.ts.
--   Idempotency, Idempotency/Middleware: src/services/idempotency.service.ts over Redis, in
--     Idempotency/Backends, and a collection, and `requireIdempotencyKey` of
--     src/middlewares/idempotency.ts as `require_key`, which admits a request, and `persist`, which stores its response.
--   RpcRetry: src/utils/rpcRetry.ts, `with_timeout` of a call that settles after some time or never,
--     `compute_backoff_delay` on exact fractions, and `with_retry`, whose loop is `rounds`.
--   EventLog, EventLog/Retry, EventLog/Poller: src/models/EventLog.ts, src/utils/eventLogBackoff.ts,
--     the claims, attempts and sweeps of src/services/eventLogRetryService.ts, and the poll cycle of
--     src/services/eventPoller.ts. `World` is the log and the calls on the dead-letter queue,
--     `Indexer` the log, the checkpoint and the handlers' calls.
--   Webhooks, Webhooks/Service: src/models/WebhookDeliveryAttempt.ts, src/models/WebhookSubscription.ts
--     and class `WebhookService` of src/services/webhookService.ts, from the dispatch of a delivery's
--     event to `retryDueAttempts`. `World` is the stored attempts, the map `pendingBatches` and the
--     POSTs made; Webhooks/Steps has any sequence of calls, one after the other.
--     Webhooks/Registry is the registry of endpoints, from `registerWebhook` to `rotateSecret`.
--   Escrow, Escrow/Service, Escrow/Funding, Escrow/Release, Escrow/Expiry, Escrow/Lapsed: the model
--     of src/models/Escrow.ts, and of src/services/escrow.service.ts `resolveEscrow`,
--     `retryExpiredEscrow` and `applyDeliveryStatus`, then `recordEscrowFunded`, `releaseEscrow`,
--     `scanForExpiredEscrows` and `scanLapsedFundingWindows` with what they call, over the escrows'
--     and the deliveries' collections together, the `World`. Currency is
--     src/services/currencyService.ts, `validateAsset` and the two checks on it. Database/Marks is
--     about passes of conditional updates.
--
-- Conventions. An object identity (an emitter, a socket, an owner) is a text, `Date.now()` and
-- `randomUUID()` are arguments. Where an operation awaits, `others n` is what the rest of the system
-- does to the collection at its n-th wait: a theorem for any `others` is one for every interleaving.
-- Errors are values with the HTTP status of the `AppError`. A mongoose `save()` gives back the document
-- in memory, as it was read and then changed, and makes the same change to the document as it is
-- stored by then; a field that is set to the value it was read with is written as well, which the
-- source does not. The setters `trim` and `uppercase` of an escrow's schema are part of what is
-- stored and of the queries by contract. What Redis and MongoDB give back of a response's body, by
-- way of JSON and BSON, are parameters.
--
-- Fuel. The eviction loop of `enqueue` gets one unit more than the messages in the queue: each round
-- shifts one message out, so it ends earlier if the bound on the queue is positive, which the
-- configuration requires. With the bound 0 the loop of the source does not end, and `no_end` is the
-- model's result for every fuel. `fetch_events` has fuel for the pages that a node may answer with;
-- nothing is said of how many there are, and `no_end` leaves the checkpoint where it was. No other
-- loop needs fuel.
--
-- Not modelled: logging, metrics and the audit log; the lifetime of idempotency records, whose
-- end is a step of others; sleeping between retries, and the rounding of doubles in their delays;
-- the tables of `toLowerCase`, a parameter of the CSV reader; the prototype and key order of the
-- object `values` of a CSV row, a list of pairs here, so the columns `__proto__` and those that
-- look like array indices are special in the source only; the consumers of a milestone
-- (notification, webhook, socket), which change no delivery and are not called from there; the list
-- of a merchant's endpoints, and the webhook service's errors from the database; the look-ups and
-- the list of flagged escrows, the contract indexer, pricing and the controllers.
pub mod Common
pub mod MessageQueue
pub mod Csv
pub mod Database
pub mod Escrow
pub mod Delivery
pub mod Idempotency
pub mod RpcRetry
pub mod Webhooks
pub mod Currency
pub mod EventLog
