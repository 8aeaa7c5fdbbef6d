-- ===== src/Gateway.antt =====
-- route/gateway_route.go: the handler of every request to the gateway, and the rewriting of the
-- headers that name the source of a request. Headers are a Go map from a canonical name to the
-- values of that name.
mod Tests
pub mod SourceIp
pub mod Serving
use mathlib.Core.Option
use nimo_os_gateway.Base.{
  ℕ, Bool, true, false, not, ◌&&◌, ◌||◌, Option, none, some, List, [], ◌∷◌, ◌++◌, Text, codes, same,
  has_suffix, split, last_index, take, lookup, insert, remove, Dict, if◌then◌else◌,
}
use nimo_os_gateway.Internal.{is_internal_path}

abbrev pub Headers : Type 0
Headers = Dict (List Text)

abbrev pub values : Option (List Text) → List Text
values none = []
values (some vs) = vs

abbrev pub first_value : List Text → Text
first_value [] = []
first_value (v ∷ vs) = v

-- `Header.Get`, `Header.Set`, `Header.Add`
unfoldable pub get_header : Text → Headers → Text
get_header name h = first_value (values (lookup name h))

unfoldable pub set_header : Text → Text → Headers → Headers
set_header name v h = insert name (v ∷ []) h

unfoldable pub add_header : Text → Text → Headers → Headers
add_header name v h = insert name (values (lookup name h) ++ v ∷ []) h

abbrev pub x_forwarded_for : Text
x_forwarded_for = codes "X-Forwarded-For"

-- the canonical form of `X-Real-IP`, which `Header.Del` looks for
abbrev pub x_real_ip : Text
x_real_ip = codes "X-Real-Ip"

pub record Request : Type 0 where
  pub method : Text
  pub path : Text
  pub remote_addr : Text
  pub headers : Headers

abbrev pub ipv4_loopback : Text
ipv4_loopback = codes "127.0.0.1"

abbrev pub ipv6_loopback : Text
ipv6_loopback = codes "::1"

-- `if len(ipList) == 1 && ipList[0] == ""`
abbrev drop_blank : List Text → List Text
drop_blank ([] ∷ []) = []
drop_blank ips = ips

-- the list of the addresses in `X-Forwarded-For`
unfoldable pub ip_list : Headers → List Text
unfolding get_header
ip_list h =
    if not (same (get_header x_forwarded_for h) [])
    then drop_blank (split b',' (get_header x_forwarded_for h))
    else []

-- `ipList[len(ipList)-1]`
unfoldable pub last : Text → List Text → Text
last d [] = d
last d (x ∷ xs) = last x xs

-- `r.RemoteAddr[:strings.LastIndex(r.RemoteAddr, ":")]`; `none` is the panic on the index -1
unfoldable pub remote_ip : Text → Option Text
remote_ip addr = Option.map (λ i. take i addr) (last_index b':' addr)

abbrev pub is_loopback : Text → Bool
is_loopback ip = same ip ipv4_loopback || same ip ipv6_loopback

-- What `X-Forwarded-For` becomes, after both headers are deleted.
abbrev restore : List Text → Text → Headers → Headers
restore [] ip h = h
restore (x ∷ xs) ip h = if is_loopback ip then add_header x_forwarded_for (last x xs) h else h

abbrev pub rewritten : Request → Text → Request
rewritten r ip = record r {
  headers = restore (ip_list r.headers) ip (remove x_real_ip (remove x_forwarded_for r.headers));
}

-- `rewriteRequestSourceIP`; `none` is a panic
unfoldable pub rewrite_request_source_ip : Request → Option Request
unfolding ip_list last remote_ip add_header
rewrite_request_source_ip r = Option.map (rewritten r) (remote_ip r.remote_addr)

-- The headers that every response carries.
unfoldable pub cors_headers : Headers
unfolding set_header
cors_headers =
    set_header (codes "Access-Control-Expose-Headers")
      (codes
        "Location, Upload-Offset, Upload-Length, Tus-Resumable, Tus-Version, Tus-Extension, Tus-Max-Size, Upload-Metadata, Upload-Concat, Upload-Defer-Length")
      (set_header (codes "Access-Control-Allow-Headers")
        (codes
          "Content-Type, Authorization, X-Requested-With, Tus-Resumable, Upload-Length, Upload-Offset, Upload-Metadata, Upload-Concat, Upload-Defer-Length, X-HTTP-Method-Override")
        (set_header (codes "Access-Control-Allow-Methods")
          (codes "GET, POST, PUT, DELETE, OPTIONS, PATCH, HEAD")
          (set_header (codes "Access-Control-Allow-Origin") (codes "*")
            (set_header (codes "Access-Control-Allow-Private-Network") (codes "true") []))))

abbrev pub options_method : Text
options_method = codes "OPTIONS"

abbrev pub ping_path : Text
ping_path = codes "/ping"

abbrev pub pong : Text
pong = codes "pong from gateway service"

abbrev pub version_suffix : Text
version_suffix = codes "/version"

abbrev pub public_version_path : Text
public_version_path = codes "/v1/sys/version"

-- A service's version endpoint, but for the one that the UI reads.
unfoldable pub is_hidden_version : Text → Bool
is_hidden_version path = has_suffix path version_suffix && not (same path public_version_path)

-- What the handler does with a request: it answers, hands the request to a proxy, or panics.
pub data Served (P : Type 0) : Type 0 where
  replied : (status : ℕ) → Headers → (body : Text) → Served P
  proxied : P → Headers → Request → Served P
  panicked : Served P

module _ {P : Type 0} where
  -- `proxy.ServeHTTP(w, r)` on the rewritten request
  abbrev hand_over : P → Option Request → Served P
  hand_over proxy none = panicked
  hand_over proxy (some r) = proxied proxy cors_headers r

  abbrev forward : Request → Option P → Served P
  forward r none = replied 404 cors_headers []
  forward r (some proxy) = hand_over proxy (rewrite_request_source_ip r)

  -- the handler of `GetRoute`
  unfoldable pub serve : (Text → Text) → (Text → Option P) → Request → Served P
  serve to_lower get_proxy r =
      if same r.method options_method
      then replied 200 cors_headers []
      else if same r.path ping_path
      then replied 200 cors_headers pong
      else if is_internal_path to_lower r.path
      then replied 404 cors_headers []
      else if is_hidden_version r.path
      then replied 404 cors_headers []
      else forward r (get_proxy r.path)
