-- ===== src/Lib.antt =====
-- QueueForge takes the results of AI tasks and delivers each of them to its destinations, with
-- retries, a dead letter queue and the protection of slow or broken destinations. This library
-- models the parts that decide: what a delivery is and how its status moves, what a failure means,
-- how long to wait, and how many calls a destination gets.
--
-- The parts, with the code they stand for:
--   Delivery (src/domain): Status, Failure, Attempt and Strategy are the value objects
--     (value-objects/delivery-status.vo.ts, delivery-error.vo.ts, retry-attempt.vo.ts,
--     retry-strategy.vo.ts); Entity is entities/delivery.entity.ts with types/aggregates.types.ts.
--     A method of the entity is a function from the time and the entity to the entity it leaves
--     behind and the error it throws.
--   Application (src/application/services): HandleFailure is handle-failure.service.ts and
--     ScheduleRetry is schedule-retry.service.ts, both over the entity; Ingest is
--     ingest-result.service.ts with the cache of src/infrastructure/cache/idempotency-cache.ts,
--     ProcessDelivery is process-delivery.service.ts and RecoverStale is
--     recover-stale-jobs.service.ts. What a service hands to a repository, the queue or the
--     publisher is part of its result.
--   Destination (src/domain): Types is value-objects/destination-type.vo.ts and Entity is
--     entities/destination.entity.ts.
--   Worker (src/worker): Transitions is state-machine/state-transitions.ts, the table of status
--     changes; Machine is state-machine/delivery-state-machine.ts over it; Classifier is
--     error-classifier.ts, the worker's view of errors; Recorder is attempt-recorder.ts;
--     Executor is delivery-executor.ts, which composes these with Breaker.Registry and
--     Bulkhead.Manager; Processor is job-processor.ts around it. Heartbeat is
--     recovery/heartbeat.ts.
--   Daemon (src/daemon): Election and Election.Commands are coordinator/leader-election.ts; Delayed, StateSync and
--     Reconstruction are recovery/delayed-queue-processor.ts with both stale-job detectors,
--     recovery/state-sync.ts and recovery/queue-reconstructor.ts; DeadLetters is
--     recovery/dlq-monitor.ts.
--   Queue (src/infrastructure/queue): Serializer is job-serializer.ts, and Manager is
--     queue-manager.ts over it.
--   Repository (src/infrastructure/repositories): Deliveries is delivery-repository.ts, and
--     Deliveries.Requests is what it makes of the requests of Worker.Machine; IdempotencyCache is
--     idempotency-cache-repository.ts, and Destinations is destination-repository.ts.
--   Breaker (src/resilience/circuit-breaker): State, Metrics and Circuit are one breaker; Rate is
--     state-machine.ts, a breaker that opens on a failure rate; Registry is the manager with a
--     breaker for each destination.
--   Bulkhead (src/resilience/bulkhead): Pool is resource-pool.ts, Barrier is bulkhead.ts cut at its
--     awaits, Manager is bulkhead-manager.ts over Barrier and Pool, Slots is pool-manager.ts.
--   Retry (src/resilience/retry): Backoff, Policy, Executor and Metrics are the retries within one
--     call.
--   Resilience (src/resilience): Timeouts is timeout/timeout-manager.ts, Alarms is
--     backpressure/alarm-system.ts, and Shedding is backpressure/shedding-strategy.ts with the
--     decisions of queue-monitor.ts and backpressure-monitor.ts beside it.
--   Security (src/security): Tokens is auth/token-manager.ts over auth/jwt-strategy.ts, Signatures
--     is hmac/verifier.ts with what signer.ts and header-builder.ts do for it, Headers is how it
--     takes a header apart, and ApiKeys is auth/api-key-strategy.ts.
--   RateLimit (src/security/rate-limiting): TokenBucket, SlidingWindow, and Limiter
--     (rate-limiter.ts) over it.
--   Redis is the interface of the commands that Tokens, Signatures and Heartbeat use, with a store
--     in memory.
--   Base holds the shared names: tests, texts, lists, maps with text keys, signs and fractions.
--   Examples applies the theorems at concrete inputs.
--
-- Times and delays are whole milliseconds, and counters are natural numbers without a bound, as
-- the code's stay far below 2^53. What Math.random returns and a jitter factor are fractions;
-- the rounding of floats is not modelled. Texts are lists of code points, with the case of the
-- ASCII letters. The clock, drawn numbers and fresh ids are arguments. An await is a cut between
-- two steps where the calls of one component may overlap: in Bulkhead.Barrier, in the statistics of
-- Worker.Processor, after the question to the cache in Application.Ingest, between the question to
-- the store and the command after it in Security.Signatures, at the wait for a slot in
-- Worker.Executor, and between all commands in Daemon.Election.Commands. Elsewhere, in
-- Daemon.Election itself too, a call is one step, and calls follow each other. The only fuel is that
-- of Retry.Executor: one more than the policy's attempts, which is enough for every run.
--
-- Worker.Executor takes a repository that carries out what the state machine asks of it, but whether
-- it buries a delivery or throws is an argument; what the repository of the code does with those
-- requests stands in Repository.Deliveries.Requests: it throws.
-- Redis is an interface with the laws that its documentation gives for one key, and a store with
-- expiry is an instance of it. The signing of tokens, HMAC and hashes, the ways of dates and the
-- cache of API keys are interfaces or arguments too. Whether a queue takes a job, what a
-- connector or an HTTP client answers, and whether a save succeeds are arguments.
--
-- Not modelled: PostgreSQL, Redis, BullMQ and HTTP themselves, which are I/O of other libraries;
-- logging, metrics export and tracing; the HTTP API, the configuration and the browser client,
-- which wire or show the parts above; float arithmetic, and with it the adaptive limiter; and,
-- so far, the task result entity, the permissions of roles, the storage of secrets, the shutdown of
-- the job processor and the other repositories.
pub mod Base
pub mod Delivery
pub mod Destination
pub mod Repository
pub mod Worker
pub mod Application
pub mod Daemon
pub mod Breaker
pub mod Bulkhead
pub mod Redis
pub mod Queue
pub mod RateLimit
pub mod Security
pub mod Retry
pub mod Resilience
mod Examples
