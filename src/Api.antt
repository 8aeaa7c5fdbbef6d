-- ===== src/Api.antt =====
-- route/management_route.go: the handlers of the management API and the access rule in front of
-- those that change something or probe. The framework echo, its JWT middleware and the check of a
-- token are parameters; a handler acts on the whole process.
pub mod Endpoints
pub mod Access
pub mod Reach
pub mod Server
pub mod Safety
pub mod Effects
pub mod Upload
mod Tests
use nimo_os_gateway.Base.{
  ℕ, ◌≡◌, ◌≢◌, Bool, true, false, not, ◌&&◌, ◌||◌, Option, none, some, List, [], ◌∷◌, ◌++◌, Text,
  codes, same, lookup, IsFree, Error, Result, ok, err, Act, decimal, if◌then◌else◌,
}
use nimo_os_gateway.Paths.{join_path, trim_prefix}
use nimo_os_gateway.Addresses.{split_host_port}
use nimo_os_gateway.State.{
  Settings, State, hook_panic, hook_waits, set_gateway_port, set_ssl_config,
}
use nimo_os_gateway.Management.{Surroundings, Route, Management, get_routes, create_route}
use nimo_os_gateway.Gateway.{
  Headers, Request, values, get_header, set_header, x_forwarded_for, ipv4_loopback, ipv6_loopback,
}
use nimo_os_gateway.Components.{ComponentStatus}
use nimo_os_gateway.Lan.Peers.{DeviceInfo, LanDiscoveryResult}

-- `common_err` of the shared library
pub data Code : Type 0 where
  success client_error service_error : Code

-- `model.SSLConfigResponse`; a time in seconds, or none for the zero time
pub record SslConfigResponse : Type 0 where
  pub enabled : Bool
  pub port : Text
  pub domain : Text
  pub cert_type : Text
  pub effective_time : Option ℕ
  pub expiration_time : Option ℕ

pub data Body : Type 0 where
  no_content unauthorized_body : Body
  message : Text → Body
  result : Code → (message : Text) → Body
  done_result : Code → Body
  route_list : List Route → Body
  port_result : Text → Body
  device_result : DeviceInfo → Body
  component_list : List ComponentStatus → Body
  lan_result : LanDiscoveryResult → Body
  ssl_result : SslConfigResponse → Body
  attachment : (path name : Text) → Body

-- A handler answers, or it panics.
pub data Reply : Type 0 where
  reply : (status : ℕ) → Body → Reply
  crashed : Reply

abbrev pub Handler : Type 0 → Type 0
Handler S = Request → S → Reply × S

abbrev pub unauthorized : Reply
unauthorized = reply 401 unauthorized_body

abbrev pub failed : Error → Reply
failed e = reply 500 (result service_error e)

-- A handler whose hook panics, or never returns, gives no answer.
abbrev pub reply_to : Error → Reply
reply_to e = if same e hook_panic || same e hook_waits then crashed else failed e

abbrev pub refused : Error → Reply
refused e = reply 400 (result client_error e)

abbrev pub finished : Reply
finished = reply 200 (done_result success)

-- What the program relies on of echo. A request with one forwarded address comes from there; the
-- middleware skips its check, refuses a token that does not parse, or runs the handler.
pub record Echo : Type 1 where
  pub real_ip : Request → Text
  pub query_param : Text → Request → Text
  pub jwt :
      {S : Type 0}
      → (Request → Bool)
      → (Request → List Text)
      → (Text → Request → Option Request)
      → Handler S
      → Handler S
  pub one_forwarded :
      (r : Request) (v : Text)
      → lookup x_forwarded_for r.headers ≡ some (v ∷ [])
      → v ≢ []
      → IsFree b',' v
      → real_ip r ≡ v
  pub jwt-skipped :
      {S : Type 0} (skipper : Request → Bool) (tokens : Request → List Text)
      (parse : Text → Request → Option Request) (next : Handler S) (r : Request) (s : S)
      → skipper r ≡ true
      → jwt skipper tokens parse next r s ≡ next r s
  pub jwt-refused :
      {S : Type 0} (skipper : Request → Bool) (tokens : Request → List Text)
      (parse : Text → Request → Option Request) (next : Handler S) (r : Request) (s : S)
      (token : Text)
      → skipper r ≡ false
      → tokens r ≡ token ∷ []
      → parse token r ≡ none
      → jwt skipper tokens parse next r s ≡ (unauthorized, s)
  pub jwt-parsed :
      {S : Type 0} (skipper : Request → Bool) (tokens : Request → List Text)
      (parse : Text → Request → Option Request) (next : Handler S) (r q : Request) (s : S)
      (token : Text)
      → skipper r ≡ false
      → tokens r ≡ token ∷ []
      → parse token r ≡ some q
      → jwt skipper tokens parse next r s ≡ next q s

abbrev pub authorization : Text
authorization = codes "Authorization"

abbrev pub user_id : Text
user_id = codes "User_id"

-- The addresses of a header value, as `httputil.ReverseProxy` joins them.
join_values : List Text → Text → Text
join_values [] ip = ip
join_values (v ∷ vs) ip = v ++ codes ", " ++ join_values vs ip

abbrev add_client : Request → Result (Text × Text) → Headers
add_client r (err e) = r.headers
add_client r (ok (ip, port)) =
    set_header x_forwarded_for (join_values (values (lookup x_forwarded_for r.headers)) ip)
      r.headers

-- A request as `proxy.ServeHTTP` passes it on to a server of this machine: the address of the
-- client goes to the end of `X-Forwarded-For`, and the peer is the gateway.
unfoldable pub passed_on : Text → Request → Request
unfolding join_values set_header split_host_port
passed_on gateway_addr r = record r {
  remote_addr = gateway_addr;
  headers = add_client r (split_host_port r.remote_addr);
}

module _ (echo : Echo) (validate : Text → Option ℕ) where
  -- the `Skipper` of each guarded endpoint
  unfoldable pub skipper : Request → Bool
  skipper r = same (echo.real_ip r) ipv6_loopback || same (echo.real_ip r) ipv4_loopback

  -- the function of `TokenLookupFuncs`
  unfoldable pub lookup_token : Request → List Text
  unfolding get_header trim_prefix
  lookup_token r =
      if not (same (get_header authorization r.headers) [])
      then trim_prefix (get_header authorization r.headers) (codes "Bearer ") ∷ []
      else echo.query_param (codes "token") r ∷ []

  -- `ParseTokenFunc`; `validate` stands for `jwt.Validate` with the public key of the user service
  abbrev with_user : Request → Option ℕ → Option Request
  with_user r none = none
  with_user r (some id) = some (record r { headers = set_header user_id (decimal id) r.headers })

  unfoldable pub parse_token : Text → Request → Option Request
  unfolding set_header
  parse_token token r = with_user r (validate token)

  unfoldable pub guarded : {S : Type 0} → Handler S → Handler S
  unfolding skipper lookup_token parse_token
  guarded next = echo.jwt skipper lookup_token parse_token next

pub record SslConfigRequest : Type 0 where
  pub enabled : Bool
  pub port : Text
  pub domain : Text
  pub cert_type : Text

-- `ctx.Bind` of each request type; a pointer stays nil when there is nothing to bind.
pub record Binder : Type 0 where
  pub bind_route : Request → Result (Option Route)
  pub bind_port : Request → Result (Option Text)
  pub bind_ssl : Request → Result SslConfigRequest

module _ (env : Surroundings) (W : Type 0) where
  -- What the API acts on: the table with its file system, the settings with the world of the hooks.
  pub record Process : Type 0 where
    pub table : Management env.Url
    pub disk : env.Sys
    pub state : State W
    pub world : W

module _ {env : Surroundings} {W : Type 0} where
  -- `GET /v1/gateway/routes`
  unfoldable pub list_routes : Handler (Process env W)
  unfolding get_routes
  list_routes r p = (reply 200 (route_list (get_routes p.table)), p)

  abbrev created :
      Process env W → Option Error × Management env.Url × env.Sys → Reply × Process env W
  created p (none, g, s) = (reply 201 no_content, record p { table = g; disk = s })
  created p (some e, g, s) = (failed e, record p { table = g; disk = s })

  abbrev create_bound : Process env W → Result (Option Route) → Reply × Process env W
  create_bound p (err e) = (refused e, p)
  create_bound p (ok none) = (crashed, p)
  create_bound p (ok (some route)) =
      created p (create_route env p.state.settings.runtime_path route p.table p.disk)

  -- `GET /v1/gateway/port`
  unfoldable pub get_port : Handler (Process env W)
  get_port r p = (reply 200 (port_result p.state.settings.gateway_port), p)

  abbrev pub settled : Process env W → Option Error × State W × W → Reply × Process env W
  settled p (none, c, w) = (finished, record p { state = c; world = w })
  settled p (some e, c, w) = (reply_to e, record p { state = c; world = w })

  abbrev change_port : Process env W → Result (Option Text) → Reply × Process env W
  change_port p (err e) = (refused e, p)
  change_port p (ok none) = (crashed, p)
  change_port p (ok (some port)) = settled p (set_gateway_port port p.state p.world)

  abbrev change_ssl : Process env W → Result SslConfigRequest → Reply × Process env W
  change_ssl p (err e) = (refused e, p)
  change_ssl p (ok q) =
      settled p (set_ssl_config q.enabled q.port q.domain q.cert_type p.state p.world)

module _ {env : Surroundings} {W : Type 0} (bind : Binder) where
  -- `POST /v1/gateway/routes`
  unfoldable pub post_route : Handler (Process env W)
  unfolding create_route
  post_route r p = create_bound p (bind.bind_route r)

  -- `PUT /v1/gateway/port`
  unfoldable pub put_port : Handler (Process env W)
  unfolding set_gateway_port
  put_port r p = change_port p (bind.bind_port r)

  -- `PUT /v1/gateway/ssl`
  unfoldable pub put_ssl : Handler (Process env W)
  unfolding set_ssl_config
  put_ssl r p = change_ssl p (bind.bind_ssl r)
