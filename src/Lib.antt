-- ===== src/Lib.antt =====
-- A model of Ciallo, a reverse proxy for Minecraft servers written in Go, with its theorems.
--
-- A client opens a connection to the proxy with a handshake that names a host. The proxy looks up
-- the backend of that host and either relays a login or answers a status request, from its cache,
-- from the backend, or with a fallback while the backend is down. The parts and their files:
--
-- * Mcproto, for internal/mcproto: variable-length integers (VarInt), packets (Packet), strings
--   (Strings), the handshake (Handshake), the normal form of a host (Host), the login and status
--   packets (Login, Status). An int32 is its bit pattern, a number below 2 ^ 32.
-- * Cache, for internal/cache/status_cache.go. `GetFresh` and `GetFallbackWithOptions` take the lock
--   twice; each critical section is a function of its own and Cache.Race runs them in any order.
-- * Fail2ban, for internal/fail2ban/guard.go: failures are counted by route, kind and value, and
--   enough of them in one window ban the key.
-- * Pool, for internal/pool/pool.go: idle connections to backends.
-- * Health, for internal/health/checker.go: the entries of the backends, their thresholds and their
--   circuits, the targets that `BuildTargets` makes of the routes (Targets), a round of checks
--   (Round), the rounds at each tick (Run) and the view of all entries (Snapshot).
-- * Metrics, for internal/metrics/metrics.go: the counters that the server's calls raise, their
--   sorted snapshot (Snapshot), labels (Labels) and the text of `WritePrometheus` (Prometheus).
-- * Proxy, for internal/proxy: Types and Router (types.go, router.go), Pipe (`copyWithIdle` of
--   pipe.go, and in its child Both `ProxyBidirectional`), Dialer (dialer.go, over Pool), and
--   Server with its children Login, Status and Conn (`handleLogin`, `handleStatus` and
--   `handleConn` of server.go) and Lifecycle (its listener, from `ListenAndServe` to `Shutdown`,
--   as steps of the loop among those of clients). A handler is a chain of functions, one for each
--   point where the code can return, and takes the server's state to the state, the result, the
--   error and what the two connections were sent.
-- * Config, for internal/config: the settings and their defaults (Defaults), the checks (Validate,
--   with Names, Laws, Settings and Valid for what they accept), the routes and backends made of
--   them (Backends, Routing), and `LoadFile` (Load).
-- * Management, for internal/management/server.go: the handlers of the HTTP endpoints.
-- * Probe, for internal/probe/probe.go: the client of a status exchange, which is also the check of
--   Health. Logging, for internal/logging/logging.go.
-- * Main, for cmd/mcproxy/main.go: the parts that the program makes of its settings, and
--   how it ends (Signals).
-- * Go, for what the program uses of Go's language and standard library: errors as values
--   (Errors), `io.Reader` and `io.Writer` (Reader, Writer), strings, UTF-8, `net.SplitHostPort`,
--   times. Common has the shared lists, integers, maps and bits.
--
-- State is passed on explicitly. A method that holds its mutex throughout is one step. Times that
-- the code reads from its clock are arguments, named after the step that reads them. A connection
-- is read as the bytes that it still delivers and the error that ends them, and written as what it
-- has sent and the way its next writes end, so short reads, time-outs and failing writes are inputs.
-- A dial is an input too. A collaborator that may be nil is an option.
--
-- Loops are structural recursion on the input, or, where a number shrinks (`EncodeVarInt`, decimal
-- digits), recursion on the accessibility of the order, so no definition runs on fuel. Counters
-- that Go holds in an int are natural numbers: they count events and stay far below 2 ^ 63.
--
-- Parameters stand for what is not in the repository: encoding/json (`Json`, and a decoder and a
-- printer in Probe), the YAML decoder, the file system, and the table of `unicode.ToLower` beyond
-- ASCII. The order of a Go map is left open: what is sorted is compared as a multiset. Not modelled
-- are log lines, the HTTP server around the handlers of Management, the flags and the start of the
-- goroutines of `main`, and the command ciallo-probe, which is flags and printing.
pub mod Common
pub mod Config
pub mod Logging
pub mod Main
pub mod Probe
pub mod Management
pub mod Go
pub mod Mcproto
pub mod Cache
pub mod Fail2ban
pub mod Pool
pub mod Proxy
pub mod Health
pub mod Metrics
