-- ===== src/Lib.antt =====
-- Meridian (cmd/meridian, Go) is a panel and reverse proxy for media servers. An instance proxies
-- sites, each with one or more upstream lines; it counts and limits their traffic, and it follows
-- the media back ends that their responses point to. This library models the state that requests
-- share, as the code under cmd/meridian keeps it behind mutexes. A call under a mutex is one step,
-- and interleavings are lists of calls or paths of a step relation. Instants are numbers of
-- nanoseconds, 0 the zero Time; an int64 is an integer in its range, with its wrap-around written
-- out where sums can reach it. Maps are association lists; a loop over a map takes its entries in
-- the order of the list, and the theorems are about every list.
--
-- Traffic: how bytes are counted, billed and limited.
--   Traffic/Billing      traffic_accounting.go: trafficBillableBytes, legacyTrafficDirections
--   Traffic/Quota        traffic_quota.go: trafficQuotaState.reserve and settle; the settings and
--                        the usage that the database reports are the record Cycle
--   Traffic/Meter        request_traffic_meter.go: the life of a requestTrafficMeter
--   Traffic/Transfer     proxy_io.go: meteredWriter.Write and meteredReader.Read over a stream that
--                        is a parameter; they use the quota and the meter
-- Failover: which upstream line answers a request.
--   Failover             upstream_failover.go: upstreamFailoverState
--   Failover/Attempts    upstream_failover.go: the loop of failoverTransport.RoundTrip; the
--                        transport below and the cloning of a request are parameters
--   Failover/Targets     upstream_failover.go: parseFailoverTargets
--   Failover/Lines       failover_lines.go: the lines of a site as they are stored
-- Runtime: what the discovery of back ends keeps for the process (dynamicRuntime) and for each
-- site (dynamicSiteState).
--   Runtime/Authority    dynamic_authority.go: reserveAuthority, finishLocked, commit, rollback.
--                        Pointers are numbers; the reservations that are not finished stand in a
--                        list, which plays the part of their sync.Once
--   Runtime/Capability   dynamic_runtime_state.go: the cache of capabilities, with all its calls
--                        (Calls) and the pruning of all sites; it uses Runtime/Authority
--   Runtime/Slots        acquireStream and acquireParse with their releases
-- Access: who may come in.
--   Access/LoginLimiter  app_http.go: loginRateLimiter
--   Access/LimitListener limit_listener.go: connectionLimitListener
--   Access/TrustedProxy  trusted_proxy.go: client addresses and forwarding headers
-- Policy: profiles and rules of discovery.
--   Policy/Profiles      dynamic_policy.go: dynamicProfilesCatalog and its limits
--   Policy/Sources       dynamic_policy.go: names of profiles and sources
--   Policy/Target        dynamic_runtime_state.go: dynamicRedirectPolicy.validateTarget
-- Progress: parts of legacy_progress.go.
--   Progress/Global      progressGlobalRuntime
--   Progress/Capture     progressCaptureWriter
--   Progress/Coalescer   progressCoalescer: Entry and Leaving are the queue of a key, Calls and
--                        Completion the calls, one step each; History puts them in any order;
--                        Handler is ServeHTTP, in the steps of one request
-- Cache: what is kept of upstream answers.
--   Cache/Ping           legacy_ping_cache.go: pingCache with its flights; Bodies is
--                        prepareResponse, with what headers say as facts
-- Prelude has the shared names, tests, integers, lists and maps. A module Examples below a part has
-- concrete inputs for its theorems.
--
-- Every loop is structural recursion on the list or map that the code ranges over, so no definition
-- takes fuel. Counters of the runtime are numbers without a bound, as they stay far below 2^63 by
-- the limits that are proved of them; the counters of a meter do wrap around.
--
-- Not modelled: the parts of the Go library that the code calls (net, net/url, net/http, strings on
-- Unicode, sha256) are parameters, with what the code relies on as hypotheses; a nil receiver and
-- the closing of a site state are left out; so are address validation, the requests that the
-- progress coalescer sends, the issue of capabilities, HLS and DASH rewriting, site routing, the
-- caches of images and assets, and everything that is SQL, cryptography or HTTP glue.
pub mod Prelude
pub mod Traffic
pub mod Failover
pub mod Runtime
pub mod Access
pub mod Cache
pub mod Policy
pub mod Progress
