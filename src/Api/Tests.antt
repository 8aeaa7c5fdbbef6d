-- ===== src/Api/Tests.antt =====
-- Calls of the management API through the gateway, with a framework that reads the first forwarded
-- address and one valid token.
use nimo_os_gateway.Base.{
  true, false, ℕ, ◌≡◌, refl, Bool, Option, none, some, List, [], ◌∷◌, Text, codes, same, lookup,
  All, insert, remove, split, has_suffix, has_prefix, last_index, ok, err, arith, if◌then◌else◌,
}
use nimo_os_gateway.Paths.{clean, resolve, trim_prefix, path_unescape}
use nimo_os_gateway.Internal.{is_internal_path}
use nimo_os_gateway.Addresses.{split_host_port, contains}
use nimo_os_gateway.State.Tests.{noting}
use nimo_os_gateway.Management.{create_route, put_route, save_path_target_map}
use nimo_os_gateway.Management.Tests.{one_file, start, ai_route}
use nimo_os_gateway.Gateway.{
  Headers, Request, x_forwarded_for, get_header, first_value, values, serve, proxied, cors_headers,
  rewritten, is_hidden_version, rewrite_request_source_ip, ip_list, set_header,
}
use nimo_os_gateway.Api.{
  Echo, Binder, SslConfigRequest, Process, Reply, Handler, reply, no_content, unauthorized, guarded,
  skipper, lookup_token, passed_on, post_route,
}
use nimo_os_gateway.Api.Upload.{Files}
use nimo_os_gateway.Api.Endpoints.{route_change, change_handler}
use nimo_os_gateway.Api.Server.{
  Sights, change, endpoint_of, handler, registered_endpoint, manage, find_endpoint, endpoints,
}
use nimo_os_gateway.Api.Safety.{manage-refused, manage-outside}
use nimo_os_gateway.Components.Tests.{moment}
use nimo_os_gateway.Gateways.Tests.{small_host}
use nimo_os_gateway.Lan.Peers.Tests.{both_answer}
use nimo_os_gateway.State.{}

abbrev first_forwarded : Request → Text
first_forwarded r = first_value (values (lookup x_forwarded_for r.headers))

abbrev run_parsed : {S : Type 0} → Handler S → Option Request → S → Reply × S
run_parsed next none s = (unauthorized, s)
run_parsed next (some q) s = next q s

abbrev first_token : List Text → Text
first_token [] = []
first_token (t ∷ ts) = t

abbrev check_token :
    {S : Type 0}
    → (Request → Bool)
    → (Request → List Text)
    → (Text → Request → Option Request)
    → Handler S
    → Handler S
check_token skips tokens parse next r s =
    if skips r then next r s else run_parsed next (parse (first_token (tokens r)) r) s

abbrev small_echo : Echo
small_echo = record {
  real_ip = first_forwarded;
  query_param = λ name r. [];
  jwt = check_token;
  one_forwarded = λ r v h ne free. rw h refl;
  jwt-skipped = λ skips tokens parse next r s yes. rw yes refl;
  jwt-refused = λ skips tokens parse next r s token no one bad. rw (no, one, bad) refl;
  jwt-parsed = λ skips tokens parse next r q s token no one good. rw (no, one, good) refl;
}

abbrev one_user : Text → Option ℕ
one_user token = if same token (codes "secret") then some 1 else none

abbrev small_binder : Binder
small_binder = record {
  bind_route = λ r. ok (some ai_route);
  bind_port = λ r. ok none;
  bind_ssl = λ r. err (codes "bad json");
}

-- A form without files.
abbrev no_files : Files (List Text)
no_files = record {
  Upload = Text;
  form_file = λ name r. err (codes "no such file");
  read_upload = λ u. ok u;
  mkdir_all = λ dir w. (none, w);
  create = λ path w. (none, w);
  copy = λ path content w. (none, w);
  load_key_pair = λ crt key w. none;
  remove = λ path w. (none, w);
  config_path = codes "/etc/nimoos";
}

abbrev process : Process one_file (List Text)
process = record { table = start; disk = codes "[]"; state = noting; world = [] }

abbrev api_request : Text → Headers → Request
api_request remote_addr headers = record {
  method = codes "POST";
  path = codes "/v1/gateway/routes";
  remote_addr = remote_addr;
  headers = headers;
}

abbrev gateway_addr : Text
gateway_addr = codes "127.0.0.1:40000"

-- A forged request from another machine.
abbrev forged : Request
forged = api_request (codes "10.0.0.9:5000") ((x_forwarded_for, codes "127.0.0.1" ∷ []) ∷ [])

abbrev small_sights : Sights (List Text)
small_sights = record {
  hostname = λ w. codes "nas";
  moment = λ w. moment;
  order = λ w. [];
  network = λ w. both_answer;
  alive = λ w h. false;
  interfaces = λ w. err (codes "no interfaces");
  host = small_host;
  sys = λ w. 0;
  stat = λ path w. some (codes "no such file");
  is_not_exist = λ e. true;
}

abbrev not_found : Request → Reply
not_found r = reply 404 no_content

abbrev run_manage : Request → Process one_file (List Text) → Reply × Process one_file (List Text)
run_manage r p = manage small_binder no_files small_sights small_echo one_user not_found r p

abbrev forged_passed : Request
forged_passed = passed_on gateway_addr (rewritten forged (codes "10.0.0.9"))

-- From this machine the route is registered with no token.
local_status :
    (run_manage (passed_on gateway_addr (api_request (codes "127.0.0.1:5000") [])) process).0
    ≡ reply 201 no_content
unfolding manage registered_endpoint guarded skipper passed_on split_host_port contains last_index
    set_header insert lookup same handler change_handler post_route create_route put_route
    save_path_target_map find_endpoint endpoints
local_status = refl

abbrev to_seven : Text → Option ℕ
to_seven path = some 7

forged_served :
    serve (λ s. s) to_seven forged ≡ proxied 7 cors_headers (rewritten forged (codes "10.0.0.9"))
unfolding serve is_internal_path split trim_prefix clean resolve same path_unescape
    is_hidden_version has_suffix has_prefix rewrite_request_source_ip last_index
forged_served = refl

no_token : All (λ token. one_user token ≡ none) (lookup_token small_echo one_user forged_passed)
unfolding lookup_token get_header lookup passed_on insert remove ip_list split same split_host_port
    contains set_header
no_token = (refl, tt)

forged_endpoint : endpoint_of forged_passed ≡ some (change route_change)
unfolding endpoint_of same passed_on
forged_endpoint = refl

manage-refused_example : run_manage forged_passed process ≡ (unauthorized, process)
unfolding same split_host_port contains
manage-refused_example =
    manage-refused small_binder no_files small_sights small_echo one_user not_found (λ s. s)
      to_seven forged (rewritten forged (codes "10.0.0.9")) 7 cors_headers (codes "10.0.0.9")
      (codes "5000") (codes "10.0.0.9") gateway_addr process forged_served refl (omega arith) refl
      refl (cc) (omega arith) refl no_token (change route_change) forged_endpoint refl

manage-outside_example : (run_manage forged_passed process).1 ≡ process
unfolding same split_host_port contains
manage-outside_example =
    manage-outside small_binder no_files small_sights small_echo one_user not_found (λ s. s)
      to_seven forged (rewritten forged (codes "10.0.0.9")) 7 cors_headers (codes "10.0.0.9")
      (codes "5000") (codes "10.0.0.9") gateway_addr process forged_served refl (omega arith) refl
      refl (cc) (omega arith) refl no_token

abbrev status_request : Request
status_request = record {
  method = codes "GET";
  path = codes "/v1/gateway/components";
  remote_addr = codes "10.0.0.9:5000";
  headers = [];
}

abbrev run_once : Process one_file (List Text)
run_once = (run_manage (passed_on gateway_addr (api_request (codes "127.0.0.1:5000") [])) process).1

abbrev new_ssl : SslConfigRequest
new_ssl = record {
  enabled = true;
  port = codes "8443";
  domain = codes "nas";
  cert_type = codes "custom";
}

abbrev ssl_binder : Binder
ssl_binder = record small_binder { bind_ssl = λ r. ok new_ssl }
