-- ===== src/Api/Server.antt =====
-- route/management_route.go: the whole server of the management API. The endpoints that only read,
-- the table in which every endpoint is registered with its access rule, and the choice of one.
-- Response headers and compression are left to echo, as is the answer to a request that no
-- endpoint takes.
pub mod Cases
use nimo_os_gateway.Base.{
  ℕ, Bool, ◌&&◌, Option, none, some, List, [], ◌∷◌, Text, codes, same, Error, Result, ok, err,
  if◌then◌else◌,
}
use nimo_os_gateway.Paths.{join_path}
use nimo_os_gateway.Management.{Surroundings}
use nimo_os_gateway.Gateway.{Request}
use nimo_os_gateway.Gateways.{Host, get_cert_dates}
use nimo_os_gateway.Components.{Moment, get_components, version}
use nimo_os_gateway.Lan.{Interface}
use nimo_os_gateway.Lan.Peers.{Network, scan_lan}
use nimo_os_gateway.Api.{
  Echo, Binder, SslConfigResponse, Process, Reply, Handler, reply, message, result, client_error,
  device_result, component_list, lan_result, ssl_result, attachment, guarded, list_routes, get_port,
}
use nimo_os_gateway.Api.Upload.{Files}
use nimo_os_gateway.Api.Endpoints.{
  Change, route_change, port_change, ssl_change, upload_change, change_handler,
}

-- What the endpoints that read see of the world: the name of the machine, the state of the network
-- and of the files, and the order in which the probes end.
pub record Sights (W : Type 0) : Type 1 where
  pub hostname : W → Text
  pub moment : W → Moment
  pub order : W → List ℕ
  pub network : W → Network
  pub alive : W → Text → Bool
  pub interfaces : W → Result (List Interface)
  pub host : Host
  pub sys : W → host.Sys
  pub stat : Text → W → Option Error
  pub is_not_exist : Error → Bool

pub data Endpoint : Type 0 where
  ping routes components device_info lan_discovery port ssl ca : Endpoint
  change : Change → Endpoint

abbrev pub get : Text
get = codes "GET"

-- The endpoints with their methods and paths, in the order of the source.
unfoldable pub endpoints : List (Text × Text × Endpoint)
endpoints =
    (get, codes "/ping", ping)
    ∷ (get, codes "/v1/gateway/routes", routes)
    ∷ (codes "POST", codes "/v1/gateway/routes", change route_change)
    ∷ (get, codes "/v1/gateway/components", components)
    ∷ (get, codes "/v1/gateway/device-info", device_info)
    ∷ (get, codes "/v1/gateway/lan-discovery", lan_discovery)
    ∷ (get, codes "/v1/gateway/port", port)
    ∷ (codes "PUT", codes "/v1/gateway/port", change port_change)
    ∷ (get, codes "/v1/gateway/ssl", ssl)
    ∷ (get, codes "/v1/gateway/ssl/ca", ca)
    ∷ (codes "PUT", codes "/v1/gateway/ssl", change ssl_change)
    ∷ (codes "POST", codes "/v1/gateway/ssl/upload", change upload_change)
    ∷ []

unfoldable pub find_endpoint :
    (method path : Text) → List (Text × Text × Endpoint) → Option Endpoint
find_endpoint method path [] = none
find_endpoint method path ((m, p, e) ∷ es) =
    if same m method && same p path then some e else find_endpoint method path es

unfoldable pub endpoint_of : Request → Option Endpoint
unfolding find_endpoint endpoints
endpoint_of r = find_endpoint r.method r.path endpoints

module _ {env : Surroundings} {W : Type 0} where
  -- `GET /ping`
  unfoldable pub answer_ping : Handler (Process env W)
  answer_ping r p = (reply 200 (message (codes "pong from management service")), p)

abbrev dates_or_zero : Result (ℕ × ℕ) → Option ℕ × Option ℕ
dates_or_zero (ok (not_before, not_after)) = (some not_before, some not_after)
dates_or_zero (err e) = (none, none)

-- The dates of the certificate in use, if its file is there and can be read.
abbrev shown_dates : Option Error → Result (ℕ × ℕ) → Option ℕ × Option ℕ
shown_dates (some e) dates = (none, none)
shown_dates none dates = dates_or_zero dates

abbrev ca_missing : Reply
ca_missing = reply 404 (result client_error (codes "CA certificate not found"))

abbrev ca_attached : Text → Reply
ca_attached path = reply 200 (attachment path (codes "nimoos-ca.crt"))

abbrev send_ca : (Error → Bool) → Text → Option Error → Reply
send_ca is_not_exist path none = ca_attached path
send_ca is_not_exist path (some e) = if is_not_exist e then ca_missing else ca_attached path

module _ {W : Type 0} (sights : Sights W) where
  open sights use {
    hostname, moment, order, network, alive, interfaces, host, sys, stat, is_not_exist,
  }

  abbrev api_certs_dir : Text
  api_certs_dir = join_path host.config_path (codes "certs")

  unfoldable pub current_dates : W → Option ℕ × Option ℕ
  unfolding join_path get_cert_dates
  current_dates w =
      let path = join_path api_certs_dir (codes "gateway.crt") in
      shown_dates (stat path w) (get_cert_dates host path (sys w))

  module _ {env : Surroundings} where
    -- `GET /v1/gateway/device-info`
    unfoldable pub get_device_info : Handler (Process env W)
    get_device_info r p = (
      reply 200 (
          device_result
            (record { os = codes "nimoos"; hostname = hostname p.world; version = version })),
      p,
    )

    -- `GET /v1/gateway/components`
    unfoldable pub list_components : Handler (Process env W)
    unfolding get_components
    list_components r p = (
      reply 200 (
          component_list
            (get_components (moment p.world) p.table p.state.settings (order p.world))),
      p,
    )

    -- `GET /v1/gateway/lan-discovery`
    unfoldable pub discover_lan : Handler (Process env W)
    unfolding scan_lan
    discover_lan r p = (
      reply 200 (lan_result (scan_lan (network p.world) (alive p.world) (interfaces p.world))),
      p,
    )

    abbrev ssl_response : Process env W → Option ℕ × Option ℕ → SslConfigResponse
    ssl_response p (effective, expiration) = record {
      enabled = p.state.settings.ssl_enabled;
      port = p.state.settings.ssl_port;
      domain = p.state.settings.ssl_domain;
      cert_type = p.state.settings.ssl_cert_type;
      effective_time = effective;
      expiration_time = expiration;
    }

    -- `GET /v1/gateway/ssl`
    unfoldable pub get_ssl : Handler (Process env W)
    unfolding current_dates
    get_ssl r p = (reply 200 (ssl_result (ssl_response p (current_dates p.world))), p)

    -- `GET /v1/gateway/ssl/ca`; `ctx.Attachment` opens the file itself
    unfoldable pub get_ca : Handler (Process env W)
    unfolding join_path
    get_ca r p =
        let path = join_path api_certs_dir (codes "ca.crt") in
        (send_ca is_not_exist path (stat path p.world), p)

module _ {env : Surroundings} {W : Type 0} (bind : Binder) (files : Files W)
    (sights : Sights W) where
  -- the handler of an endpoint, without its access rule
  unfoldable pub handler : Endpoint → Handler (Process env W)
  unfolding change_handler answer_ping list_routes list_components get_device_info discover_lan
      get_port get_ssl get_ca
  handler ping = answer_ping
  handler routes = list_routes
  handler components = list_components sights
  handler device_info = get_device_info sights
  handler lan_discovery = discover_lan sights
  handler port = get_port
  handler ssl = get_ssl sights
  handler ca = get_ca sights
  handler (change c) = change_handler bind files c

  module _ (echo : Echo) (validate : Text → Option ℕ) where
    -- each endpoint as it is registered
    unfoldable pub registered_endpoint : Endpoint → Handler (Process env W)
    unfolding handler guarded
    registered_endpoint components = guarded echo validate (handler components)
    registered_endpoint lan_discovery = guarded echo validate (handler lan_discovery)
    registered_endpoint (change c) = guarded echo validate (handler (change c))
    registered_endpoint e = handler e

    abbrev run_endpoint : (Request → Reply) → Option Endpoint → Handler (Process env W)
    run_endpoint unmatched none r p = (unmatched r, p)
    run_endpoint unmatched (some e) r p = registered_endpoint e r p

    -- the handler of `GetRoute`; `unmatched` is the answer of echo and its CORS middleware to a
    -- request that no endpoint takes
    unfoldable pub manage : (Request → Reply) → Handler (Process env W)
    unfolding registered_endpoint endpoint_of
    manage unmatched r p = run_endpoint unmatched (endpoint_of r) r p
