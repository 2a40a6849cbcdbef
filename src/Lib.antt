-- ===== src/Lib.antt =====
-- A verification library for the GPU telemetry pipeline: streamers read GPU metrics from a CSV file
-- and publish them to a queue service, collectors fetch them and store them, and a gateway answers
-- requests for what is stored.
--
-- Parts, and where they stand (paths are those of the repository):
-- - Domain: internal/domain (TelemetryPoint, GPU, errors, keys). Domain/Codec is a codec of points
--   that stands in for encoding/json where a concrete one is needed.
-- - Message, MessageQueue: internal/mq/message.go, internal/mq/queue.go.
-- - InMemoryQueue: internal/mq/inmemory_queue.go: one event for each call and for each turn of the
--   dispatcher; a handler ends in steps, in the order of its deferred function; Stop and Close are an
--   event for their beginning and one for their return.
-- - Redis, RedisQueue: internal/queueservice/redis_queue.go. Redis is the commands that the queue
--   calls, RedisQueue has one definition for each method: publish, pop_message, add_to_pel,
--   fetch_batch, ack, nack, requeue_message, check_expired_messages. RedisQueue/Calls runs any
--   sequence of calls; Held says where a message is, and Expiry what the visibility check does to an
--   entry. Redis/Memory is a store in memory that meets what is assumed of Redis.
-- - HttpServer: internal/queueservice/http_server.go: a handler for each route. HttpServer/Mux is the
--   server over the whole service (serve), HttpServer/Logging the middleware around it (loggingMiddleware,
--   responseWriter) with what a stream writes.
-- - ConsumerGroups: the consumer groups of internal/queueservice/redis_queue.go (register_consumer,
--   unregister_consumer, deliver_to_consumer) and the stream of handleSubscribe; Deliveries has
--   deliverMessagesToGroup and the events of the groups in any order, Stats has GetStats.
-- - QueueService: requests to the server, ticks of the visibility check, turns of the delivery goroutines,
--   and turns and ends of streams, as events in any order over the whole service. QueueService/Lifecycle is
--   connecting (new_redis_queue), the goroutines pass by pass with the wait group, and Close, after which
--   nothing is served.
-- - HttpClient: internal/mq/http_queue_client.go: requests (publish, ack, nack, poll). Its children:
--   Subscriptions has the subscriptions with their loops, the shutdown (await_closed with a deadline) and
--   the two halves of Subscribe, Stream the
--   stream of events that the server writes and the client reads, with the limit on the length of a line. Served and Settled join it to
--   HttpServer and RedisQueue.
-- - Parser: internal/parser/csv_parser.go; Parser/Reader is its StreamReader.
-- - Streamer, BatchLock: internal/streamer/streamer.go (stream_file, process_record) and
--   internal/streamer/batch_lock.go (acquire_lock, release_lock, extend_lock). Streamer/Loop is the loop of
--   Start, in rounds.
-- - Collector: internal/collector/collector.go. An event is a message handed to handleMessage, which
--   the channel takes (enqueued), the timer beats (timed_out) or the context ends (cancelled), a worker
--   that takes a message (takes), or the next step of one that has one (works), so that the workers' calls
--   of the database interleave. Collector/Lifecycle has its start and its end.
--   Pipeline joins the streamer's messages to the collector's work.
-- - Storage: internal/storage/repository.go, as an interface over any database.
-- - Mongo, MongoRepository: internal/storage/mongodb. Mongo is the driver, MongoRepository has the
--   operations of both repositories, which fill Storage (mongo_storage); Mongo/Memory is a database in
--   memory that meets what is assumed of MongoDB. Storage/Mock has the repositories of
--   internal/api/handlers/handler_test_helpers.go.
-- - Api: internal/api/handlers and internal/api/dto.
-- - Router: internal/api/router.go and internal/api/middleware: the routes, the middleware around the
--   handlers, and the gateway's answer to a request (serve): a handler's, a redirection or 404.
-- - Config: internal/config/config.go. Environment: internal/config/env.go and defaults.go.
-- - Commands: cmd/collector, cmd/streamer, cmd/api-gateway and cmd/queueservice (main.go of each), with
--   their settings (internal/collector/config.go, internal/streamer/config.go): what a process opens,
--   defers and closes, and how it ends.
-- Base holds what they share: texts, dictionaries, lists over the native numbers, Boolean tests.
--
-- How the code is modelled. A method of the Redis queue is a function from the queue to what it
-- returns and the queue after it: a value, an error or a panic. A handler gives a response and the
-- queue after it. Times are nanoseconds since Go's zero time, and the clock is an argument. Counters
-- are the 64-bit words that they are stored in, written out as a remainder.
--
-- What is taken as given, as parameters with their documented behaviour as hypotheses: Redis commands
-- act at one go, a command that fails has changed nothing, LPUSH and RPUSH add at the two ends and
-- BRPOP takes at the tail (RedisLaws); IsHealthy adds that every command is answered. encoding/json
-- reads back what it wrote (IsFaithful, RedisLaws). MongoDB finds the documents that meet a filter,
-- sorts them, and changes or adds one document in an update (MongoLaws); a date is kept in
-- milliseconds. A POST reaches the server and is answered, or its answer is lost, or it does not get
-- there (Connection). Splitting a CSV file (encoding/csv), time.Parse,
-- strconv.Atoi, fmt.Sscanf, uuid.New and the clock are arguments. A queue that takes every message is
-- TakesAll. How gin compares a path with a pattern, and where it redirects a path that no route has, are
-- arguments, and its Recovery gives back what a
-- handler did, or answers 500 for one that panics (Recovers). The writer that net/http gives a handler is
-- Writer, what the command line gives is Flags, and what a command's calls come to is World.
--
-- Fuel. read_all runs on one unit more than the lines that are left: each pass reads a line, and the
-- last one finds the end of the file. A delivery goroutine takes at most 50 messages before it reads
-- its group again, as deliver_messages_to_group does. The other loops are recursions on what they run over.
--
-- Not modelled: what is logged; the conversions of times in pkg/utils; the Swagger pages, which are generated.
-- The lines of a CSV file are finite, so a read error that comes back at every read is not expressible.
-- main shuts the server down before it closes the queue, so a request after Close is not modelled.
pub mod Base
pub mod Domain
pub mod Message
pub mod Redis
pub mod RedisQueue
pub mod Parser
pub mod Storage
pub mod Collector
pub mod MessageQueue
pub mod Streamer
pub mod Pipeline
pub mod HttpServer
pub mod Api
pub mod BatchLock
pub mod InMemoryQueue
pub mod Config
pub mod Mongo
pub mod MongoRepository
pub mod HttpClient
pub mod ConsumerGroups
pub mod Environment
pub mod Commands
pub mod Router
pub mod QueueService
