-- ===== src/Lib.antt =====
-- RouteMQ, an MQTT application framework with routing, middleware and background jobs.
--
-- The parts that are modelled, and where:
-- * Retry (routemq/retry.py): `backoff_config` and `retry_config` are the checks of
--   `BackoffConfig` and `RetryConfig`, `bounded_exponential_backoff` and `retry_sync` the functions
--   of these names. A delay, a jitter and a random number are exact: a jitter and a random number
--   count millionths, and a delay that is returned is multiplied by a million twice. The configured
--   numbers are floats, as they are declared, so that their product with a power of two that is no
--   float is an OverflowError (`max_exponent`). The operation
--   and the random numbers are functions of the attempt. The loop has fuel for one round more than
--   the attempts allowed, which is enough since each round is an attempt.
-- * DatabaseQueue (routemq/queue/database_queue.py, routemq/queue/models.py): the methods of
--   `DatabaseQueue` over the tables queue_jobs and queue_failed_jobs. The tables are parameters, with
--   the documented effect of SQL's statements as laws (Sql). Each method takes the state of the
--   backend during its session: switched off, no session, a failure that rolls back, a failure of
--   the refresh after the commit, or none. Times are microseconds, and each reading of the clock is an
--   argument. The rows that other sessions hold locked are an argument of `pop`. What a payload's
--   JSON says of `max_tries` is a parameter.
-- * Router (routemq/router.py): a topic is a list of code points. Router.Pattern has the topic's
--   parameters in braces as `re.sub` finds them (`tokens`), the subscription (`subscription_topic`),
--   and the match of the pattern (`match_tokens`), with the backtracking of a regular expression.
--   Router.Pattern.Subscription states MQTT's rules for a topic filter without `#` (`delivers`), as a
--   specification that the subscription is compared with.
--   `compiles` says which patterns are modelled: literal characters that stand for themselves and
--   dots, and parameters that differ and have ASCII identifiers for names. Router.Dispatch has
--   `Router.on`, `RouterGroup.on` and `Router.dispatch`; handlers and middleware are any functions
--   of the request and of a state, an observability context and the log of lifecycle records.
-- * RateLimit (app/middleware/rate_limit.py): the strategies in memory, `_sliding_window_memory`,
--   `_fixed_window_memory` and `_token_bucket_memory`, `_cleanup_memory_cache` and
--   `_check_rate_limit_memory`, by their names without the first underscore; RateLimit.Handling has
--   `handle`, `_check_rate_limit` and `_is_whitelisted`, with what Redis answers as an argument.
--   Times are exact, in microseconds, and tokens are counted in parts, so that a refill is exact as
--   well, where the code has floating-point numbers; a clock that goes back takes tokens away. The configured numbers are not negative, and a
--   remaining number that the code would give as -1 is 0.
-- * RedisQueue (routemq/queue/redis_queue.py): the methods of `RedisQueue` over the keys of one
--   queue. The server is a parameter, with the documented effect of each command as laws (Redis). A
--   job stands for its JSON text. Each command is answered, or its request is lost, or its answer;
--   the faults are any function of the number of commands sent. A pipeline is one transaction, as
--   redis-py makes it, and no other client changes the keys between two commands of an operation.
--   RedisQueue.Ids reads the queue's name from the id of a failed job.
-- * QueueWorker (routemq/queue/queue_worker.py): `process_job` is `QueueWorker._process_job`, with
--   `fail_job`, `_fail_job`, and `run_job`, `_run_job_with_shutdown_grace` under its timeout. The
--   driver and the jobs are interfaces (`Driver`, `Tasks`): functions of an outside world that may
--   raise at each call. The race of a job with the shutdown, the grace period and the timeout is
--   given by its outcome (`Ending`), and the heartbeats by how their task has ended. The log has the
--   lifecycle records and the calls of the driver. QueueWorker.Loop has `work`, a list of rounds of
--   the loop of `QueueWorker.work`, which may end before they do, with `_should_stop` and
--   `_run_reaper_if_due`; a request to stop takes effect at the end of a round.
-- * Telemetry (routemq/telemetry/runtime.py, routemq/telemetry/adapter.py): the manager's queue and
--   its batches. The adapter is a parameter, a function of an outside world, and what it does in time
--   is an answer or an exception. `write_pending` is the loop of `_write_with_retries`, by recursion on
--   the attempts that are left. A call runs as one step, but for a put that waits for room, where the
--   call is blocked and goes on later (`write_from`). The loops that flush have the length of the
--   queue as fuel, which is enough where batches have a size (Telemetry.Emptied), as the settings
--   make sure of.
-- * Metrics (routemq/metrics/registry.py, routemq/metrics/exposition.py): `observe` and `collect` are
--   `Histogram`'s methods, Metrics.Registry has the registration of families, and
--   Metrics.Exposition the text of a sample's labels, with a reader of the text format. Numbers are
--   exact and not negative, and the texts of bucket bounds are a parameter.
-- * Job (routemq/job.py): `get_retry_delay` is `Job.get_retry_delay`, in the numbers of Retry.
--   Job.Payload has `serialize` and `unserialize`. A text is given by its JSON object (`dumps`,
--   `loads`); what JSON makes of a value is a parameter, and so are the classes of the application,
--   with what their constructors set.
-- Examples holds tables and Redis keys in memory, which meet the laws, tests, and the
-- theorems at concrete inputs.
--
-- Not modelled: cancellation from outside, with the flush task that Telemetry's `close` cancels; log
-- messages, tracing spans and the metrics that record them; a failure to close a session; negative
-- delays, which the code treats as no delay; Redis itself, the heartbeat records of worker
-- processes, and other clients between two commands. Settings, the queue manager, the MQTT helpers,
-- the time series drivers, the worker processes, the command line and the wiring of the application
-- have no model.
mod Prelude
mod Text
mod Sql
mod Redis
pub mod Retry
pub mod DatabaseQueue
pub mod Router
pub mod RateLimit
pub mod RedisQueue
pub mod QueueWorker
pub mod Telemetry
pub mod Metrics
pub mod Job
mod Examples
