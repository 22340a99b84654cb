-- ===== src/Lib.antt =====
-- blind-llm-eyes: a reverse proxy that turns the images of a request into text descriptions before a
-- text-only model sees it. Each file opens with the code that it is about; this is the map of them.
--
-- The parts and their files:
-- Proxy/Handler: proxy/handler.go, handleMessages and handleCountTokens, from the request to the
--   answer. JSON, the upstream and the goroutines' order stand in the record World.
-- Proxy/Images: the goroutine of one image in handleMessages (lookup, vision call under singleflight,
--   replacement, counters) and the group of them, over a cache as an interface (Base/Caches).
-- Proxy/Headers, Proxy/Hosts: the headers that are forwarded, and the guard against forwarding to the
--   proxy itself, over the parsers of net and net/url as a record.
-- Proxy/Passthrough: proxy/passthrough.go, the loop that copies the body of the answer.
-- Proxy/Format: formatInt, which writes the counters of the result header.
-- Proxy/Adaptive: proxy/adaptive.go, the controller of the concurrency limit, over an interface for
--   float64 (Base/Floats) whose laws are facts of IEEE 754 arithmetic.
-- Messages: messages/, the request with its nested blocks. A pointer of FindImageBlocks is a path, and
--   a write through it an update at the path. Validate, NormalizeSystemMessages and
--   ExtractConversationContext. Messages/Wire: MarshalJSON of a block, over the raw JSON that it
--   came in as, and UnmarshalJSON of blocks and content.
-- Modelutil: modelutil/modelutil.go, the bracket group behind a model name.
-- Cache/Lru: cache/lru.go, which the handler can take as its cache.
-- Vision/Breaker: vision/circuit_breaker.go, the circuit breaker as a record and its methods as
--   functions of the time. A history of calls is a list.
-- Vision/Pool: vision/pool.go, NewPool (checks and stable sort) and the loop over the providers with
--   the breakers of the file above, its counters and what it reports to the metrics. A provider is a
--   record of functions.
-- Vision/Clients: vision/client.go (Mimo), vision/openai_client.go (Openai) and vision/provider.go (Build):
--   the two clients from the checks to the description, in the stages of the source, and the pool of
--   them. The image libraries, HTTP and JSON stand in the record Web.
-- Config: config/loader.go, Load in its stages (Load, Whole), and ReloadableConfig (Reload). The file,
--   the YAML parser and the environment stand in the record Outside.
-- Cache/Sqlite: cache/sqlite.go, the table as a list of rows and each statement as a function on it, with
--   the counter of the rows. Which statements fail is told by the record Moment of each call.
--   Sqlite/Open: OpenSQLite, with the rebuild of a corrupt file.
-- Cache/TwoTier: cache/twotier.go, the LRU in front of the SQLite cache. Get has two parts, between which
--   other goroutines may run.
-- Server: main.go and admin/admin.go, the routes, the handlers for administration and the loop of the
--   events; Server/Guards: internal/pprofsec/middleware.go and withMetricsAuth; Server/Start: runServer of
--   main.go up to the handler, with the database opened by Cache/Sqlite/Open, where NewHandler of
--   proxy/handler.go is Proxy/NewHandler.
-- Cli/Settings: cli/settings.go, connect and disconnect on a disk of three files whose system calls may
--   fail (the record Faults); Cli/Commands: cli/cli.go and cli/connect.go; Cli/CcSwitch: cli/ccswitch.go;
--   Cli/Pidfile: cli/pidfile.go, cli/status.go, cli/stop.go and cli/reload.go.
-- Cli/Probes, Cli/Doctor: cli/doctor.go and cli/ping_upstream.go, the checks and the exit code, over the
--   answers of the services and the steps of the database (the record Surroundings).
-- Cli/Cache: cli/cache.go, the subcommand cache over the rows of Cache/Sqlite, with what it meets in the
--   record Terminal.
-- Cli/Setup: cli/setup.go, the dialogue over the lines that are typed.
-- Vision/Clients/Ping: vision/ping.go.
-- Proxy/Stream: countWriter of proxy/handler.go, which counts bytes and events of a stream.
-- Logging: logging/logging.go, the asynchronous log as a step relation: each Write, writeLoop and Close
--   take their steps in any order.
-- Base: what the modules share. Tests: the theorems at concrete inputs.
--
-- Times are natural numbers, in nanoseconds, handed to each call; counters (Go's int and int64) are
-- taken not to overflow, but the limit of the controller wraps around. Loops are recursions on lists. The eviction of the LRU takes the length of
-- its list as fuel, since each round takes an entry away, and the digits of a number take the number; the
-- loop of stop takes 51 rounds, since each lasts 200 ms or more of its 10 s. The goroutines of a request
-- run one after the other here, in any order; a goroutine that waits for the vision call of another gets
-- its answer. Methods that hold a mutex are steps.
--
-- Not modelled: the text of log lines, HTTP traces and the helpers that cut texts for them, on which no
-- answer depends; metrics/metrics.go, which registers counters with the client library of Prometheus; the
-- text of JSON and YAML, the hash of an image (cache/hash.go) and the waiting for the requests at the end,
-- which are calls of libraries.
pub mod Base
pub mod Server
pub mod Vision
pub mod Cache
pub mod Cli
pub mod Config
pub mod Proxy
pub mod Messages
pub mod Modelutil
pub mod Logging
mod Tests
