-- ===== src/Lib.antt =====
-- SurgePay, a payment platform of services that talk over HTTP and Kafka. A merchant's request passes
-- the gateway, which asks the idempotency service whether it has seen it. The payment service stores a
-- payment with an outbox event; the outbox relay publishes the event; consumers with an inbox table
-- handle it. This library models what the gateway does with a request before and after its handler, the
-- creation of a payment through the payment, order and fraud services, and the delivery of events from
-- the outbox to the handlers.
--
-- Common: lists over the native numbers, and tables as lists of rows (`update_where` is an UPDATE).
-- Messaging.Json, Messaging.Serializer: packages/common/src/messaging/serializer.ts. A buffer is the
-- JSON value that parsing finds in it, or malformed text. The upgrade loop runs on fuel, one
-- for each version between the two (Messaging.Serializer.Upgrades).
-- Messaging.Inbox: packages/common/src/messaging/inbox.repository.ts, one function per operation.
-- Messaging.Consumer: packages/common/src/messaging/consumer.ts, `eachMessage` as a machine that
-- stops at every `await`; a reply says that the call took effect, was refused, or took effect and
-- was reported as failed. Exclusion is about any number of workers, interleaved and crashing.
-- Messaging.Producer, Messaging.Topics: packages/common/src/messaging/producer.ts and topics.ts. The
-- broker is a function from what it is handed to its answer. Messaging.Replayer:
-- dead-letter.replayer.ts.
-- Outbox.Repository: apps/outbox-relay/src/repositories/outbox.repository.ts.
-- Outbox.Publisher: apps/outbox-relay/src/publisher.ts. Outbox.Relay: relay.service.ts, whose
-- `processBatch` is cut at its awaits; `Step` is any interleaving of the cycle's polls, the batches in
-- flight and the inserts of the payment service. Outbox.Scheduler: scheduler.ts, as signals.
-- Idempotency: apps/idempotency-service/src, over the commands of Redis as an interface
-- (Idempotency.Redis) that the tests fill with a concrete store.
-- Idempotency.Slots is what it promises of one key. Idempotency.RequestHash: the hash of a body.
-- Gateway.Auth, Gateway.RateLimit, Gateway.Interceptor: apps/gateway/src/auth, rate-limit and
-- idempotency; Gateway.Interceptor.Cached says separately what of a reply is kept. The rate limiter's script runs on an interface of sorted sets (Gateway.SortedSets); the
-- interceptor is put on top of Idempotency, and the authentication on top of Merchant.
-- Gateway.Payments: the proxy and the controllers on both sides of the call of the payment service.
-- Merchant: apps/merchant-service/src, the validation of API keys.
-- Order: apps/order-service/src, the validation and the states of an order.
-- Fraud: apps/fraud-service/src, the rules and the screening.
-- Payment: apps/payment-service/src, `createPayment` with the replies of the two services as
-- arguments; Payment.Checkout puts the models of the services in their place; Payment.Machine is
-- payment-state-machine.ts.
-- Http: packages/common/http/src/retry/retry.policy.ts. Its loop runs on fuel `max_attempts + 1`,
-- one for each call. Http.Client: the request around it, and the exceptions of failed calls.
-- Errors: packages/common/src/errors and response, with the exceptions in Errors.Domain.
-- Errors.Filter: packages/common/src/logger/exception-logging.filter.ts. Payment.Services puts the
-- filter and the HTTP client between the services of Payment.Checkout; Gateway.Replies is about what
-- comes back through the gateway, Gateway.Refusals about what it refuses itself. Payment.Events: the
-- outbox row of a payment's event, on its way to a consumer. Payment.Status: stored payments.
-- Context: the request context of packages/common/src/logger and the headers of outgoing calls.
-- Health: packages/common/src/health.
-- Config: packages/config/src, the schemas (Config.Validation) beside the sections that the services
-- read (Config.Settings), of one environment; the tests of zod are an interface with its laws.
-- Config.Drain is the relay with these numbers, over one whole cycle of polls (Outbox.Relay.Cycles),
-- Config.Clients the clients of the internal services.
-- Database: packages/database/src, the registry of the clients of a process.
--
-- Database transactions and Redis scripts are single steps. `Date.parse`, the registered upgrades of
-- event versions, Redis, hash functions, the tests of class-validator and the identifiers that libraries
-- draw are parameters. Logging, tracing and metrics are left out. Not modelled: the
-- files of the environment, the set-up of the Kafka clients, the console publisher of the relay, and operations
-- that nothing calls, `publish` of the Kafka publisher among them.
pub mod Common
pub mod Config
pub mod Context
pub mod Database
pub mod Errors
pub mod Fraud
pub mod Gateway
pub mod Health
pub mod Http
pub mod Idempotency
pub mod Merchant
pub mod Messaging
pub mod Order
pub mod Outbox
pub mod Payment
