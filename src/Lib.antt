-- ===== src/Lib.antt =====
-- NimoOS-Gateway: the HTTP gateway of NimoOS, which takes every request from outside, chooses a
-- downstream service by the longest registered prefix of the path, and forwards it. Services
-- register their routes through a management server; the port and the SSL settings can be changed
-- while the gateway runs, and hooks write the configuration and restart the servers.
--
-- Which file models which part of the repository:
--   State        service/state.go: the settings, the two stacks of hooks and the setters; also
--                `SetSSLConfig` of service/management.go. A hook acts on a world `W` and sees the
--                settings of the moment it runs. The panic of a hook is an outcome of its own.
--   Paths        `path.Clean`, `filepath.Join`, `url.PathUnescape` as the program uses them.
--   Internal     `isInternalPath` of route/gateway_route.go. `strings.ToLower` is a parameter with
--                the laws of `Lowers`.
--   Gateway      the handler of `GetRoute` and `rewriteRequestSourceIP` of route/gateway_route.go.
--                A path without a proxy, a refused path and an answer of its own are values of
--                `Served`; an index out of range is `panicked`.
--   Management   service/management.go: `NewManagementService`, `CreateRoute`, `GetRoutes`,
--                `GetProxy`, `getSortedKeys`, the file of routes; `resolveTarget` of
--                service/components.go. A Go map is an association list in which each key stands
--                once; the order of its keys is no part of any result. Management.Concurrent: calls
--                of `CreateRoute` that run at the same time, as steps in any order.
--   Addresses    `net.JoinHostPort` and `net.SplitHostPort`.
--   Probes       main.go: `checkURL`, `checkHTTPSURL` and their retry loops.
--   Gateways     main.go: `reloadGateways`, `reloadHTTPGateway`, `reloadHTTPSGateway`; `GetCertDates`
--                of service/management.go.
--   Startup      main.go: the hooks of `init` and the search for a free port.
--                Startup.Config: `LoadConfig` of common/config.go and pkg/port.go; Startup.Init: `init`;
--                Startup.Run: the three hooks of `run` with the routes that they register, and the
--                files of the runtime path; Startup.Ready: the two channels over which the goroutine
--                of `main` waits before it tells systemd, as a step relation. Startup.Live: the hooks
--                of the running program over a world that holds the servers beside the file. Startup.Main:
--                `main` with its deferred functions.
--   Lan          service/lan_discovery.go: `isVirtualInterface`, `subnetHosts`,
--                `enumerateScanTargets`.
--                Lan.Peers: `probePeer`, `scanHosts`, `ipLess`, `ScanLAN`.
--   Api          route/management_route.go: the access rule and the handlers that read or change the
--                routes, the port and the SSL settings; Api.Upload: the upload of a certificate;
--                Api.Server: the endpoints that read, and the server of all endpoints.
--   Authority    service/management.go: `GenerateSelfSignedCert`.
--   Components   service/components.go: `GetComponents` and its probes.
--   Static       route/static_route.go: the file system with its own times, the expression for index
--                pages and the header that forbids to keep them.
--   Migration    cmd/migration-tool: `main`, the logger and the tool that is shipped.
--   Base         lists, texts, maps, results and Boolean tests that the parts share.
--
-- How the parts interact: `serve` (Gateway) takes the table's `get_proxy` (Management) as an
-- argument and calls `is_internal_path` (Internal). The hooks of Startup fill the stacks of State;
-- the reload hook is an argument there, which Startup.Live fills with the reload of Gateways. Api acts on the table
-- and the state, behind the gateway: `passed_on` is the request as the gateway's proxy sends it. Its
-- endpoints call `get_components`, `scan_lan` and `get_cert_dates`. Startup.Run registers the routes
-- of Management by which the gateway reaches the management server and the static files, and
-- Startup.Ready runs these hooks.
-- Concurrent probes are lists of the probes in the order in which they end. Gateways runs the checks
-- of Probes through the fetch function of its `Host`.
--
-- Parameters: the operating system, the network, Viper, echo, JSON, `url.Parse`, PEM and X.509 are
-- fields of the records `Surroundings`, `Host`, `Viper`, `Loader`, `Machine`, `Echo`, `Files`, `Sights`,
-- `Base`, `Signer`, `Network` and `Moment`, with the documented behaviour that a theorem needs as further fields or as hypotheses.
--
-- Bounds and fuel: an IPv4 address is a number below 2 ^ 32, and sums wrap there; the counter of
-- the retry loops is a 64-bit unsigned number, and its decrement wraps. Only those loops need fuel,
-- one unit for each round; a run that has used up its fuel is `running`, and one unit more than
-- the failed rounds is enough for a run that ends.
--
-- Not modelled: logging of the gateway, time-outs, the goroutines that serve, the redirects of
-- `http.ServeMux`, CORS and gzip of echo, its handler of static files behind `CustomFS`, the library
-- fx beyond the order of the hooks, the goroutine that waits for a signal, the panic of a write to the
-- nil map that a routes.json of null leaves, and the fatal error of the Go runtime for writes to a map
-- at the same time.
pub mod Base
pub mod State
pub mod Paths
pub mod Internal
pub mod Gateway
pub mod Management
pub mod Addresses
pub mod Probes
pub mod Gateways
pub mod Startup
pub mod Lan
pub mod Api
pub mod Components
pub mod Authority
pub mod Static
pub mod Migration
