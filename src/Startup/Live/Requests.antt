-- ===== src/Startup/Live/Requests.antt =====
-- What a client of the management server is told of a change, and what the servers do.
use nimo_os_gateway.Base.{◌≡◌, ◌≢◌, refl, false, Option, none, some, Text, Act, Error, ok, ℕ}
use nimo_os_gateway.State.{Settings, State, set_gateway_port, set_ssl_config}
use nimo_os_gateway.State.Setters.{with_ssl}
use nimo_os_gateway.Gateway.{Request}
use nimo_os_gateway.Gateways.{Host, Gateways, runs_on}
use nimo_os_gateway.Gateways.Servers.{Binds}
use nimo_os_gateway.Gateways.Reload.{Serves, HasPorts, wants_http}
use nimo_os_gateway.Management.{Surroundings, Management}
use nimo_os_gateway.Api.{
  Binder, SslConfigRequest, Process, reply, finished, port_result, get_port, put_port, put_ssl,
  settled,
}
use nimo_os_gateway.Api.Effects.{put_port-get_port, settled-finished}
use nimo_os_gateway.Startup.{Viper, World}
use nimo_os_gateway.Startup.Live.{live_viper}
use nimo_os_gateway.Startup.Live.Change.{
  live_state, gateways_of, ServesAll, set_gateway_port-unmoved, set_ssl_config-ServesAll,
}

settled-world :
    {env : Surroundings} {W : Type 0} (p : Process env W) (r : Option Error × State W × W)
    → (settled p r).1.world ≡ r.2
settled-world p (none, c, w) = refl
settled-world p (some e, c, w) = refl

module _ (v : Viper) (host : Host) (generate : Text → Text → Text → Act host.Sys) (fuel : ℕ) where
  -- The running program with these routes, settings and servers.
  abbrev pub with_hooks :
      (env : Surroundings)
      → Management env.Url
      → env.Sys
      → Settings
      → World (live_viper v host)
      → Process env (World (live_viper v host))
  with_hooks env table disk c w = record {
    table = table;
    disk = disk;
    state = live_state v host generate fuel c;
    world = w;
  }

  abbrev pub servers_of : (env : Surroundings) → Process env (World (live_viper v host)) → Gateways
  servers_of env p = gateways_of v host generate fuel p.world

  module _ (env : Surroundings) (bind : Binder) (r q : Request) (table : Management env.Url)
      (disk : env.Sys) (c : Settings) (w : World (live_viper v host)) where
    -- While the HTTP server is as the settings ask, a PUT of another port that was answered as done
    -- makes the API report the new port, but the server is still the one that ran before, and does
    -- not run on the new port.
    pub put_port-unmoved :
        (port : Text)
        → Serves (wants_http c) c.gateway_port (gateways_of v host generate fuel w).gateway
        → port ≢ c.gateway_port
        → bind.bind_port r ≡ ok (some port)
        → (put_port bind r (with_hooks env table disk c w)).0 ≡ finished
        → let next = (put_port bind r (with_hooks env table disk c w)).1 in
          ((get_port q next).0 ≡ reply 200 (port_result port))
          × ((servers_of env next).gateway ≡ (gateways_of v host generate fuel w).gateway)
          × (runs_on (servers_of env next).gateway port ≡ false)
    unfolding put_port
    put_port-unmoved port http ne bound done =
        let p = with_hooks env table disk c w in
        let run = set_gateway_port port p.state w in
        let (quiet, _) = settled-finished p run (rw bound at done) in
        let (_, kept, other) =
          set_gateway_port-unmoved v host generate fuel port c w http ne quiet in
        (
          put_port-get_port bind r q p port bound done,
          rw (bound, settled-world p run) kept,
          rw (bound, settled-world p run) other,
        )

    -- If listeners get the port number that they ask for, and the wanted ports are such numbers,
    -- then after a PUT of the SSL settings that was answered as done both servers run as the settings
    -- with the new ones ask, whatever ran before.
    pub put_ssl-ServesAll :
        Binds host
        → (new : SslConfigRequest)
        → HasPorts (with_ssl new.enabled new.port new.domain new.cert_type c)
        → bind.bind_ssl r ≡ ok new
        → (put_ssl bind r (with_hooks env table disk c w)).0 ≡ finished
        → ServesAll v host generate fuel
            (with_ssl new.enabled new.port new.domain new.cert_type c)
            (servers_of env (put_ssl bind r (with_hooks env table disk c w)).1)
    unfolding put_ssl
    put_ssl-ServesAll binds new ports bound done =
        let p = with_hooks env table disk c w in
        let run = set_ssl_config new.enabled new.port new.domain new.cert_type p.state w in
        let (quiet, _) = settled-finished p run (rw bound at done) in
        rw (bound, settled-world p run)
          (set_ssl_config-ServesAll v host generate fuel binds new.enabled new.port new.domain
            new.cert_type c w ports quiet)
