-- ===== src/Lib.antt =====
-- Verification of auto_squid, a forward proxy that races several upstream proxies for each request,
-- remembers the winners and takes failing ones out of the race.
--
-- The program's parts and where they are modelled. The router (auto_squid/router.py) asks the
-- selector (auto_squid/selector.py) for an order of the proxies, races or sends alone, and reports
-- every attempt back; before a race it consults the stickiness table (auto_squid/sticky.py), the
-- dead-target gate and, for GET, the response cache (auto_squid/http_cache.py).
--   * Circuit: the circuit breaker of ProxySelector: charge_failure (the charging part of
--     record_failure), record_success, is_circuit_open with _rearm_slow_start, _in_slow_start,
--     reset_circuits and _failure_penalty_mult.
--   * Concurrency: the adaptive limits, _conc_state, _at_concurrency_limit, _conc_observe_success and
--     _conc_observe_failure. InFlight: _inflight_start and _inflight_finish.
--   * Metrics: the buckets per proxy and per domain, _metrics_for, _ensure_metrics, and what
--     record_ttfb, record_origin_first_byte, record_complete, record_failure, record_http_error and
--     record_protocol write into them.
--   * Selector: the parts together: _is_target_level_failure, _prune_domain_fail, record_failure,
--     _apply_ewma, last_domain_success_ts and record_ttfb.
--   * HttpCache: HttpCache of auto_squid/http_cache.py with domain_key_from_url.
--   * Sticky: StickyCache of auto_squid/sticky.py.
--   * DeadTarget: _dead_target_active, _note_target_race_failure, _clear_dead_target,
--     _degrade_send_proxy, _prune_immediate_degraded and _is_send_degraded of the router.
--   * DomainCache: the router's cache of winners, _get_fresh_proxy, _domain_ttl,
--     _damping_allows_switch, _worse_than_best and _record_win_meta.
--   * Degrade: _single_send_degraded of the router.
--   * Tuner: AutoTuner of auto_squid/tuner.py, which perturbs the cost weights one at a time and keeps
--     what made the first bytes come sooner.
--   * Pools: ConnectionPools of auto_squid/pools.py: Peeking takes connections out and closes idle
--     ones, Filling opens them, Activity decides whether to pause, Tasks interleaves all of these.
--   * Cluster: ClusterGraph of auto_squid/cluster.py: learning and eviction, with Predicting for
--     maybe_predict and Observing for observe, prune and reset.
--   * Race: the loops of _race and _race_staggered of the router, round by round.
--   * Order: the candidates of the selector and their order: _filtered_candidates, the ranks,
--     ordered_proxies, ordered_for_domain and best_proxy; Order.Costs holds _cost_raw_inputs and
--     _cost_scores.
--   * Policies: the routing policies of the router, _prep_http and _prep_connect, which choose the
--     places of a staggered race, and _build_racing_tasks_http and _build_racing_tasks_connect, which
--     choose those of the others. Chunks: _read_chunked_body.
--   * Requests: _handle_one_client_request up to the call that handles the request, with
--     _is_upgrade_request and _normalize_connect_target; it uses Auth and Chunks.
--   * Failures: _classify_error and _is_stale_conn_error. Attempts: _try_http; Attempts.Tunnels:
--     _try_tunnel. They write to the Selector and the InFlight counters.
--   * Streaming: _stream_upstream_response, with what is written to the client and what is kept for
--     the cache. Forwarding: _forward_single on top of it, with _observe_single_send,
--     _observe_single_send_failure and _observe_win.
--   * Digest: TDigest of auto_squid/digest.py, its add and _compress.
--   * ProxyStore: ProxyStore of auto_squid/proxy_store.py; ProxyStore.Endpoints holds the index of
--     their endpoints that the router keeps by the version of the table.
--   * Auth: check_auth of auto_squid/auth.py.
--   * Base holds numbers, equality tests, lists and texts; Dict the insertion-ordered tables, with
--     Dict/Shrink for tables that are cut to a limit. Tests applies the theorems at concrete inputs.
--
-- How the code is modelled. A method becomes a function that takes and returns the state of its
-- object. Times and durations are whole microseconds, and a method that reads a clock takes the
-- time as an argument, read once for each call. Factors that are fractions are written as a
-- numerator and a denominator, and averages are rounded down. A Python dict is an association list
-- in insertion order, a set a list without repetitions. Log lines are left out. What the stickiness
-- table learns from the router and selector during a call is the record Sticky.Router of their
-- answers, and for the domain cache the record DomainCache.Peers; nothing is assumed of them.
-- `urlparse(url).hostname` is a parameter that may answer anything, and so are the age that
-- datetime.fromisoformat gives, the random index of the tuner's reservoir, the state of a socket and
-- the power function in the decay of the graph's histograms, that of the load in the weights, the
-- order that random.shuffle makes, what asyncio.wait reports, compiled
-- regular expressions, the decoding of base64 and UTF-8, the parsing and printing
-- of numbers, what the digest computes in floating point, and the quoting and splitting of URLs. A refill of the pools waits while it
-- opens a connection; it is split there into two steps, and Pools.Tasks.step lets any other step come
-- in between.
--
-- Fuel. evict_loop, the eviction loop of _http_cache_set, gets the number of cached entries as fuel,
-- and enforce, the loop of _enforce_cap, the number of edges; each round of either removes one. The
-- rotation of _next_trial runs six turns, as in the code. decode, the loop of _read_chunked_body, gets
-- the number of bytes that are left, and each round reads at least a line. trim, the loop of
-- _compress, gets the number of centroids. read_head gets 101 lines,
-- since the 101st is refused.
--
-- Not modelled: sockets, TLS, the event loop and the database; the choice between the cache, a single
-- send and a race (_dispatch_single, _handle_http_request, _handle_connect), and the relaying of
-- tunnels and WebSockets, since these wait in many places and mostly move bytes between sockets; the
-- pruning and the views of the metrics; the quantiles of the digest; and the management interface and
-- the command line, which only read settings and render tables.
pub mod Base
pub mod Dict
pub mod Circuit
pub mod InFlight
pub mod Concurrency
pub mod HttpCache
pub mod Metrics
pub mod Sticky
pub mod DeadTarget
pub mod Selector
mod Tests
pub mod DomainCache
pub mod Degrade
pub mod Tuner
pub mod Pools
pub mod Cluster
pub mod Race
pub mod Order
pub mod Auth
pub mod Failures
pub mod Attempts
pub mod Requests
pub mod ProxyStore
pub mod Policies
pub mod Chunks
pub mod Streaming
pub mod Forwarding
pub mod Digest
