-- ===== src/Lib.antt =====
-- The Go filter `llm-proxy`, an Envoy HTTP filter that routes LLM requests to inference endpoints.
--
-- The parts, and how they interact. A request reaches the stream filter (pkg/filter/filter.go). It
-- parses the body with a transcoder (pkg/transcoder), which selects a routing rule of the
-- configuration (pkg/config); hashes the prompt (pkg/hash); asks the load balancer
-- (pkg/loadbalancer) for a host, which reads the load and the cache locations from the metadata
-- center; and reports the request to the metadata center through a client with a task queue
-- (pkg/metadata). On the response the filter reports the first token, the end and the cache.
--
-- The files:
-- - Common and below: shared names, lists over native numbers, results with panics, maps as
--   association lists, integers, and `sort.Slice` as an interface with an implementation.
-- - Hash: pkg/hash/hash.go. `prompt_to_hash` is `PromptToHash`. Its loop runs on fuel, one round
--   more than the prompt has bytes, which is enough since every round moves on by at least one.
-- - Config: pkg/config/config.go. Rules are shared by pointers, so they live in a store; reading
--   through a nil pointer is a panic. `parse` and `validate_rules` write default backends into the
--   store. The headers and the subsets of a rule, `[]*HeaderValue` and `[]*Subset`, are lists of
--   options. Config/Init has `Init` and `SortTuples`, Config/Route has `GetCandidateRule`, and
--   Config/Panics is about the nil pointers that `Parse` meets.
-- - Types: pkg/types, the data that the parts exchange; Types/Context the context's values,
--   Types/Float the operations on doubles as an interface, Types/Request the data of a request,
--   Types/Response the error responses, which are kept as the value that is marshalled.
-- - LoadBalancer: pkg/loadbalancer/inference_lb.go and manager.go; the scores are in
--   LoadBalancer/Score, the choice in LoadBalancer/Choose. Random numbers are a function argument.
--   LoadBalancer/Live puts the client of pkg/metadata behind the queries, as `GetClientOrNoop` does.
-- - Metadata: the writing operations of pkg/metadata/client.go; Metadata/Queue is
--   pkg/metadata/async_queue.go, as a state of buffer and workers with events for sends and
--   receives, so that each interleaving is a list of events; Metadata/Queue/Workers has the workers
--   one by one, with `processTask` and `Close`, as a step relation.
--   Metadata/Client is the exchange and the two queries, over a record for net/http, and the start
--   of the client; Metadata/Client/Singleton is `GetClient` called by goroutines that interleave;
--   Metadata/Environment reads the settings from variables, and Metadata/Settings has those that a
--   `sync.Once` guards, in an environment that may change.
-- - Filter: pkg/filter/filter.go as explicit state passing. Filter/Request is the request path,
--   Filter/Response the response path, Filter/Prompt what is reported to the metadata center;
--   Filter/Lifecycle is the step relation of all calls on one filter, in any order;
--   Filter/Ledger is an abstract ledger of what a request may have the metadata center told;
--   Filter/Race is `deletePromptLength` access by access, called by the timer and by a handler at once.
-- - FilterConfig: pkg/filter/config.go, from the bytes of Envoy to a configuration and a filter.
-- - OpenAi: pkg/transcoder/openai/transcoder.go as an instance `open_ai` of the filter's transcoder
--   interface; OpenAi/Json is what sonic decodes into an interface value, OpenAi/Prompt is
--   `extractPromptContext`, OpenAi/Options is `buildLbOptions`; OpenAi/Total and
--   OpenAi/Routing are about `GetRequestData` as a whole. OpenAi/InFilter puts the filter, the
--   transcoder and an accepted configuration together, and OpenAi/Nulls a configuration with nulls.
--
-- Integers: Go's int is a whole number without bounds here. The sizes that occur (lengths, loads,
-- percentages) stay far below the machine's bounds. Durations, which are products with a large factor,
-- wrap around as an int64 does. Byte strings are lists of numbers.
--
-- Parameters: the murmur3 hasher, the doubles, the sort, the random numbers, the queries of the
-- metadata center as the load balancer reads them, the JSON decoder, the HTTP transport, the size of
-- the largest channel that the runtime makes, `time.ParseDuration`, fresh ids and the time; the
-- filter takes any transcoder. The laws asked of them are documented behaviour, and the test modules
-- give concrete instances.
--
-- Not modelled: the JSON text of requests and responses, the logs, the settings of the dialer, the
-- registry of transcoders (which holds one), helpers and types that nothing uses, and the registration
-- with Envoy in cmd/main.go. Concurrency inside one filter (the timer against the handlers, which
-- share no lock) is modelled as an interleaving of whole calls, but for `deletePromptLength`, which
-- Filter/Race takes access by access; a single access is taken to be atomic.
pub mod Common
pub mod Hash
pub mod Config
pub mod Types
pub mod LoadBalancer
pub mod Metadata
pub mod Filter
pub mod FilterConfig
pub mod OpenAi
