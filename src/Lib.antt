-- ===== src/Lib.antt =====
-- The confidential model router: a proxy that chooses, for each inference request, an enclave that
-- serves the model, and rewrites the request on its way. This library models the decisions of the
-- router and proves what they promise.
--
-- The parts and their files. A request's credential is resolved to a route context with a quota
-- decision and a priority (route_context.go), which is cached (route_context_cache.go):
-- RouteContext.antt and RouteContext/Cache.antt. Its body gets a cache salt that isolates tenants
-- (cache_salt.go, cachesalt/cachesalt.go): CacheSalt.antt, on parsed bodies as Json.antt has them.
-- The salted body gives a routing key (cacheroute/cacheroute.go): CacheRoute.antt; the key ranks
-- the replicas and, within a load cap, orders them (cacheroute/hrw.go, `Decide` of
-- cacheroute/shadow.go): Hrw.antt; where requests landed is recorded in the table of
-- cacheroute/shadow.go: Shadow.antt. The caller's organization limits the hosts (reservations,
-- manager/manager.go): Reservations.antt, and the pool of replicas that is ranked is Pools.antt.
-- The enclave is selected by tiers, pools and that order (manager/routing_tiers.go): Tier.antt and
-- Selection.antt. The tiers come from overload policies (config/config.go) in Overload.antt and
-- from polled load samples (manager/metrics.go) in Metrics.antt; enclaves that fail are cut off by
-- a circuit breaker (manager/circuitbreaker.go) in Breaker.antt.
--
-- Before that, the limits that a request's headers set replace those of its body
-- (max_output_tokens.go, completion_count.go): Limits.antt, on numerals as Decimal.antt has them; and
-- a request for the model "auto" gets a model and an effort (autoroute/autoroute.go):
-- Autoroute.antt with Autoroute/Ranking.antt and Autoroute/Effort.antt. A request that uses the
-- router's tools opens a session for each tool profile (toolruntime/session_registry.go,
-- router_tool_names.go, profile.go): Sessions.antt and Sessions/Detect.antt. The stream of the model
-- is read frame by frame (toolruntime/sse_reader.go): Sse.antt; links in its text become annotations
-- (toolruntime/citations/state.go, stream.go): Citations.antt and Citations/Stream.antt.
--
-- How state and operations correspond. A struct is a record, a method is a function from the state
-- to the state and its results. A function that holds a lock is one step; the circuit breaker,
-- which has no lock, is modelled a second time in Breaker/Threads.antt with one step for each
-- atomic access. A pointer that may be nil is an Option; a nil dereference is `none`. A Go map is a
-- list of entries, and where the program ranges over one, the order is a parameter; so are random
-- draws and the clock. Strings are lists of bytes, in Citations lists of runes. Signed integers are
-- ℤ, without overflow;
-- counters of bytes and times are numbers, without overflow; the probe generation wraps at 2^64. A
-- float64 that holds a count is a number. Loops are structural recursion on the list that they run
-- over, so no fuel is needed; the loop that makes room in the cache runs over the entries it
-- evicts. Two loops have fuel: the emitter's drain, a round more than there are runes held, since
-- every round but the last sends a rune, and the printing of a numeral, one more than the number,
-- which has fewer digits. What reads a stream of events to its end needs a call of `next` for each
-- line and one more. The sorting of a ranking is an insertion sort.
--
-- Parameters: SHA-256 with its encoding, the xxhash score, the decoding of a JWT's subject, the
-- canonical form of a URL, the reading of a JSON number as a float64, and the answers of the MCP
-- client. Nothing is assumed of them. Not modelled: HTTP, attestation and JSON parsing, which are
-- libraries; the metrics other than the overload gauge and its counters; the tool loop and its streams, the
-- formatting of tool output, billing and the reverse proxy.
pub mod Common
pub mod Breaker
pub mod Overload
pub mod Reservations
pub mod Metrics
pub mod Tier
pub mod Selection
pub mod RouteContext
pub mod Json
pub mod CacheSalt
pub mod CacheRoute
pub mod Hrw
pub mod Shadow
pub mod Pools
pub mod Sse
pub mod Decimal
pub mod Limits
pub mod Citations
pub mod Sessions
pub mod Autoroute
