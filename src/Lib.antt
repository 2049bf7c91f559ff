-- ===== src/Lib.antt =====
-- The Go server of the looking glass, as far as it keeps state of its own or decides something.
--
-- Requests pass a rate limiter; checks run on registered nodes, of which only the live ones are
-- offered; a finished check is kept in the ephemeral cache under a random identifier and can be
-- promoted to a report on disk; BGP queries are answered from a table that is reloaded from a file.
--
-- internal/ratelimit/limit.go is RateLimit.antt: `Limiter.Allow` is allow, one tick of `cleanup` is
-- cleanup, `New` and `NewPerHour` are new and new_per_hour. A float64 of tokens is an exact count of
-- units, 60 * 10^9 or 3600 * 10^9 to the token; the rounding of floats is not modelled. RateLimit/
-- Window, Cleanup and Burst hold the proofs.
--
-- internal/report/id.go is Report/Id.antt: `NewID` is new_id and `ValidID` valid_id.
--
-- internal/report/ephemeral.go is Report/Ephemeral.antt: `Put`, `Get` and a tick of `sweepLoop` are
-- put, get and sweep. The order of the association list is the order in which Go walks the map, so
-- what holds for every list holds for every walk.
--
-- internal/report/store.go is Report/Store.antt: `Promote`, `Get`, `countActive`, `NewStore` and a
-- tick of `sweepLoop` are promote, get, count_active, new_store and sweep. The directory is a list
-- of names and contents. The JSON library (Codec), the random source, the clock and the outcomes of
-- the system calls (World) are arguments. Report/Store/Slots has the counter under interleavings.
--
-- internal/nodes/nodes.go and internal/nodes/liveness.go are Nodes.antt: a round of `checkAll` is
-- the list of the results in the order in which they are recorded.
--
-- internal/bgp/trie.go is Radix.antt, which has the loops over the bits, and Bgp/Trie.antt;
-- Bgp/Table relates a trie to the list of what was inserted. internal/bgp/store.go is Bgp/Store.antt:
-- `load`, a tick of `Start`, `LookupIP`, `LookupPrefix`, `LookupASN` and `Stats` are load, tick,
-- store_lookup_ip, store_lookup_prefix, lookup_asn and stats. `net.ParseIP` and `net.ParseCIDR` are
-- the record Parsers; what opening and decoding the file comes to is the type Opened. Ip.antt has
-- the addresses. A panic is none: in
-- `Insert` and `LookupExactPrefix`, where a prefix has more bits than `rootFor` leaves of its address
-- (in_range), and so in `load`, `NewStore` and a tick, where it ends the program, and in
-- `LookupPrefix`, where net/http drops the request (the answer aborted).
--
-- internal/geoip/geoip.go is Geoip.antt: `Open`, `loadFile`, `insert`, `lookupIP`, `Lookup`,
-- `LookupASN` and `CountryFlag` are open_db, load_file, insert, lookup_ip, db_lookup, db_lookup_asn
-- and country_flag, on the tries of Radix.antt; `csvLineReader` is Geoip/Csv.antt. What the library
-- `net/netip` does is the record Netip, and what opening the file and `encoding/csv` give is Source.
--
-- internal/validator/valid.go is Validator.antt, a function for each of its functions; the parsers
-- of addresses and URLs, the tests of addresses and the resolver are the record Network.
--
-- internal/handler/handler.go is Handler.antt and modules below it. Handler.antt has `clientIP`,
-- `acquireIP`, `releaseIP` and `cleanupIPSem` as client_ip, acquire_ip, release_ip and
-- cleanup_ip_sem, each as one step; Handler/Running.antt has the accesses of overlapping requests to the
-- semaphore and to the slots as a relation, with `acquireIP` as three steps and a deletion of the
-- cleanup as one. It leaves out a deletion of an entry that a request of the client holds, which the
-- code does not rule out. Handler/State.antt is the struct `Handler` with `New` (new_handler);
-- Handler/Sse.antt has the bytes of an event stream; Handler/Capture.antt has `beginCapture`, `add`,
-- `finishCapture` and `captureJSON`. Handler/Gate.antt has the guards that handlers share, as actions:
-- functions from the state to an outcome (go on, or an answer) and a state; with_semaphore and
-- with_ip take a place or a slot and give it back as the `defer` does. On these stand Handler/
-- Probe.antt (`Ping` and `Traceroute`, as one handler of a Tool), Dig.antt (`Dig`), Routes.antt (`BGP`),
-- IpInfo.antt (`IPInfo`), Certificates.antt (`SSLCheck`) and Pages.antt (`Index`, `MyIP`, `Info`). What a command
-- or a TLS connection comes to is a function of its arguments in the records World, Resolving and
-- Tls; the texts of addresses and numbers and the JSON of results are in Env and Keeping.
--
-- internal/handler/proxy.go is Handler/Agents.antt (`Nodes`, the lookup and the liveness of a node),
-- Proxy.antt (`Proxy`), Relay.antt (`streamProxyWithCapture`: relay is its loop), PortCheck.antt
-- (`PortCheck`), FanOut.antt (`PingAll`: fan_out has the goroutines, which write in any order) and
-- FanOut/HttpChecks.antt (`HTTPCheckAll`). What an agent answers is a function of the URL. A handler
-- reads the liveness of the nodes as it is at the request.
--
-- internal/handler/report.go is Handler/Reports.antt, on the cache, the store and the limiters:
-- `Promote` and `ReportRead` are promote_report and read_report.
--
-- main.go is Server.antt: start is what `main` sets up from the environment, with the check of the
-- secret in internal/nodes/nodes.go.
--
-- Strings.antt has the functions of the Go libraries strings and strconv that the code calls, on
-- texts as lists of bytes; white space and case are those of ASCII. The modules named Sample have data
-- for the tests.
--
-- Common.antt passes library names on and has texts, lists and association lists. Nothing runs on
-- fuel: every loop is over a list or the bits of an address, of which there are 32 or 128.
--
-- Not modelled: the routes of the mux, listening and shutdown;
-- response headers, timeouts and log lines; the cancelling of commands but for what a request whose
-- client is gone still does; the rounding of floats; integers are unbounded where the source counts
-- with int or int64, and AS numbers and times are natural numbers. A handler that no other overlaps is
-- one function; that handlers overlap is modelled for the semaphore and the slots (Handler/Running),
-- the counter of the store (Report/Store/Slots) and the results of a fan-out (Handler/FanOut).
pub mod Common
pub mod RateLimit
pub mod Report
pub mod Nodes
pub mod Radix
pub mod Strings
pub mod Ip
pub mod Geoip
pub mod Bgp
pub mod Validator
pub mod Handler
pub mod Server
