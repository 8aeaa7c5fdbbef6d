-- ===== src/Startup/Live/Tests.antt =====
-- The program on a host with two free ports, while its server runs on 8080.
use nimo_os_gateway.Base.{
  ◌≡◌, refl, true, false, none, some, [], codes, ok, same, arith, last_index,
}
use nimo_os_gateway.Addresses.{contains, split_host_port, join_host_port}
use nimo_os_gateway.State.{
  set_gateway_port, set_ssl_config, set_ssl_enabled, set_ssl_port, set_ssl_domain,
  set_ssl_cert_type, notify_port, notify_config, Settings, no_settings,
}
use nimo_os_gateway.State.Setters.{with_port, with_ssl}
use nimo_os_gateway.Gateways.{runs_on, reload_gateways}
use nimo_os_gateway.Gateways.Tests.{
  small_host, small_host-Binds, http_wanted-IsPort, ssl_wanted-IsPort, generate_nothing, on_8080,
}
use nimo_os_gateway.Startup.{World, serving, save_port, save_config}
use nimo_os_gateway.Startup.Tests.{listed_viper}
use nimo_os_gateway.Startup.Live.{live_viper, reload_hook}
use nimo_os_gateway.Startup.Live.Change.{ServesAll}
use nimo_os_gateway.Startup.Live.Requests.{
  with_hooks, servers_of, put_port-unmoved, put_ssl-ServesAll,
}
use nimo_os_gateway.Gateway.{Request}
use nimo_os_gateway.Management.Tests.{one_file, start}
use nimo_os_gateway.Api.{
  Binder, SslConfigRequest, Process, reply, finished, port_result, get_port, put_port, put_ssl,
}

abbrev world_8080 : World (live_viper listed_viper small_host)
world_8080 = record {
  config = [];
  file = [];
  sys = record { files = tt; gateways = on_8080; net = 200 };
}

abbrev settings_8080 : Settings
settings_8080 = with_port (codes "8080") no_settings

abbrev put_request : Request
put_request = record {
  method = codes "PUT";
  path = codes "/v1/gateway/port";
  remote_addr = codes "127.0.0.1:5000";
  headers = [];
}

abbrev ssl_on : SslConfigRequest
ssl_on = record {
  enabled = true;
  port = codes "8443";
  domain = codes "nas";
  cert_type = codes "custom";
}

abbrev change_binder : Binder
change_binder = record {
  bind_route = λ r. ok none;
  bind_port = λ r. ok (some (codes "8443"));
  bind_ssl = λ r. ok ssl_on;
}

abbrev process_8080 : Process one_file (World (live_viper listed_viper small_host))
process_8080 =
    with_hooks listed_viper small_host generate_nothing 1 one_file start (codes "[]") settings_8080
      world_8080

port_finished : (put_port change_binder put_request process_8080).0 ≡ finished
unfolding put_port set_gateway_port notify_port notify_config serving save_port save_config
    reload_hook reload_gateways runs_on split_host_port contains last_index same
port_finished = refl

ssl_finished : (put_ssl change_binder put_request process_8080).0 ≡ finished
unfolding put_ssl set_ssl_config set_ssl_enabled set_ssl_port set_ssl_domain set_ssl_cert_type
    notify_config serving save_config reload_hook reload_gateways runs_on split_host_port contains
    last_index same join_host_port
ssl_finished = refl

abbrev put_done : Process one_file (World (live_viper listed_viper small_host))
put_done = (put_port change_binder put_request process_8080).1

-- Port 8443 is free.
put_port-unmoved_example :
    ((get_port put_request put_done).0 ≡ reply 200 (port_result (codes "8443")))
    × ((servers_of listed_viper small_host generate_nothing 1 one_file put_done).gateway
        ≡ some (codes ":8080"))
    × (runs_on
          (servers_of listed_viper small_host generate_nothing 1 one_file put_done).gateway
          (codes "8443")
        ≡ false)
unfolding runs_on split_host_port contains last_index same
put_port-unmoved_example =
    put_port-unmoved listed_viper small_host generate_nothing 1 one_file change_binder put_request
      put_request start (codes "[]") settings_8080 world_8080 (codes "8443") refl (ground arith)
      refl port_finished

-- The HTTPS server is turned on; afterwards both run.
put_ssl-ServesAll_example :
    ServesAll listed_viper small_host generate_nothing 1
      (with_ssl true (codes "8443") (codes "nas") (codes "custom") settings_8080)
      (servers_of listed_viper small_host generate_nothing 1 one_file
        (put_ssl change_binder put_request process_8080).1)
put_ssl-ServesAll_example =
    put_ssl-ServesAll listed_viper small_host generate_nothing 1 one_file change_binder put_request
      put_request start (codes "[]") settings_8080 world_8080 small_host-Binds ssl_on
      (λ on. http_wanted-IsPort, λ on. ssl_wanted-IsPort) refl ssl_finished
