-- ===== src/Startup/Run/Tests.antt =====
-- A start on a machine where everything works.
use nimo_os_gateway.Base.{
  ◌≡◌, refl, true, none, some, List, [], ◌∷◌, Text, codes, ok, All, same, split, has_prefix,
  has_suffix, last_index,
}
use nimo_os_gateway.Paths.{clean, resolve, trim_prefix, path_unescape}
use nimo_os_gateway.Addresses.{join_host_port}
use nimo_os_gateway.Internal.{is_internal_path}
use nimo_os_gateway.State.{no_settings, ConfigHook, set_gateway_port, notify_port, notify_config}
use nimo_os_gateway.State.Tests.{noting}
use nimo_os_gateway.Management.{
  ReverseProxy, new_proxy, get_proxy, create_route, put_route, save_path_target_map,
}
use nimo_os_gateway.Management.Tests.{one_file, start}
use nimo_os_gateway.Gateway.{
  Request, serve, proxied, cors_headers, rewritten, is_hidden_version, rewrite_request_source_ip,
}
use nimo_os_gateway.Api.{Process}
use nimo_os_gateway.Startup.{pick_port}
use nimo_os_gateway.Startup.Run.{
  Machine, localhost, http_url, management_paths, write_address_file, register, register_all,
  start_management, publish_static, choose_port, start_gateway, start_all,
}
use nimo_os_gateway.Startup.Run.Served.{start_all-own, start_all-serves}

abbrev good_machine : Machine (List Text)
good_machine = record {
  listen = λ addr w. (ok (codes "127.0.0.1:4000"), w);
  is_free = λ w p. true;
  getpid = λ w. 7;
  mkdir_all = λ path w. (none, w);
  write_file = λ path content w. (none, content ∷ w);
  remove = λ path w. (none, w);
  serve_static = λ w. (some (codes "closed"), w);
  management_url_filename = codes "management.url";
  static_url_filename = codes "static.url";
}

abbrev reload_noted : ConfigHook (List Text)
reload_noted c w = (none, codes "reload" ∷ w)

abbrev at_boot : Process one_file (List Text)
at_boot = record {
  table = start;
  disk = codes "[]";
  state = record noting { settings = no_settings };
  world = [];
}

starts : (start_all good_machine reload_noted at_boot).0 ≡ none
unfolding start_all start_management publish_static start_gateway choose_port write_address_file
    register register_all management_paths create_route put_route save_path_target_map same
    pick_port set_gateway_port notify_port notify_config
starts = refl

abbrev photo : Request
photo = record {
  method = codes "GET";
  path = codes "/photo.jpg";
  remote_addr = codes "10.0.0.9:5000";
  headers = [];
}

abbrev started : Process one_file (List Text)
started = (start_all good_machine reload_noted at_boot).1

start_all-serves_example :
    (proxy : ReverseProxy Text) × (serve (λ s. s) (get_proxy started.table) photo
      ≡ proxied proxy cors_headers (rewritten photo (codes "10.0.0.9")))
unfolding has_prefix same is_internal_path split trim_prefix clean resolve path_unescape
    is_hidden_version has_suffix rewrite_request_source_ip last_index
start_all-serves_example =
    start_all-serves good_machine reload_noted at_boot (λ s. s) photo
      (rewritten photo (codes "10.0.0.9")) starts refl refl refl refl refl refl

start_all-own_example :
    (addr : Text) × (url : Text) × ((good_machine.listen
        (join_host_port localhost (codes "0"))
        []).0
      ≡ ok addr)
    × (one_file.parse (http_url addr) ≡ ok url)
    × All (λ path. get_proxy started.table path ≡ some (new_proxy url)) management_paths
start_all-own_example = start_all-own good_machine reload_noted at_boot starts

abbrev managed : Process one_file (List Text)
managed = (start_management good_machine at_boot).1
