-- ===== src/Startup/Live/Change.antt =====
-- What a change of the settings does to the servers of the running program.
use nimo_os_gateway.Base.{
  ℕ, ◌≡◌, ◌≢◌, refl, sym, ap, ◌∙◌, Bool, false, Option, none, some, Text, Act, Error, and_then,
  and_then-ok,
}
use nimo_os_gateway.Probes.{Ended, returned, panicked, running}
use nimo_os_gateway.State.{
  Settings, State, notify_port, notify_config, set_gateway_port, set_ssl_config,
}
use nimo_os_gateway.State.Setters.{
  with_ssl, before_last, set_ssl_config-last, set_gateway_port-ok, set_gateway_port-verdict,
}
use nimo_os_gateway.Gateways.{Host, Gateways, runs_on}
use nimo_os_gateway.Gateways.Servers.{Binds}
use nimo_os_gateway.Gateways.Reload.{
  Serves, HasPorts, wants_http, wants_https, reload_gateways-Serves, reload_gateways-gateway,
  Serves-other,
}
use nimo_os_gateway.Startup.{Viper, World, save_config, save_port, serving}
use nimo_os_gateway.Startup.Hooks.{running_state, notify_config-running, notify_port-running}
use nimo_os_gateway.Startup.Live.{live_viper, hook_error, reload_hook}

module _ (v : Viper) (host : Host) (generate : Text → Text → Text → Act host.Sys) (fuel : ℕ) where
  abbrev live : Viper
  live = live_viper v host

  -- The state of the running program, for its settings.
  abbrev pub live_state : Settings → State (World live)
  live_state = running_state live (reload_hook v host generate fuel)

  abbrev pub gateways_of : World live → Gateways
  gateways_of w = w.sys.gateways

  -- Writing the file does nothing to the servers.
  save_config-gateways :
      (c : Settings) (w : World live) → gateways_of (save_config live c w).1 ≡ gateways_of w
  unfolding save_config
  save_config-gateways c w = refl

  save_port-gateways :
      (port : Text) (c : Settings) (w : World live)
      → gateways_of (save_port live port c w).1 ≡ gateways_of w
  unfolding save_port
  save_port-gateways port c w = refl

  -- What serves after the hooks ran on settings is what the reload left, if that returned nil.
  and_save-gateways :
      (c : Settings) (r : Option Error × World live)
      → gateways_of (and_then r (save_config live c)).1 ≡ gateways_of r.1
  and_save-gateways c (none, w) = save_config-gateways c w
  and_save-gateways c (some e, w) = refl

  notify_config-gateways :
      (c : Settings) (w : World live)
      → gateways_of (notify_config (live_state c) w).1
        ≡ gateways_of (reload_hook v host generate fuel c w).1
  notify_config-gateways c w =
      rw (notify_config-running live (reload_hook v host generate fuel) c w)
        (and_save-gateways c (reload_hook v host generate fuel c w))

  reload_hook-gateway :
      (c : Settings) (w : World live)
      → Serves (wants_http c) c.gateway_port (gateways_of w).gateway
      → (gateways_of (reload_hook v host generate fuel c w).1).gateway ≡ (gateways_of w).gateway
  unfolding reload_hook
  reload_hook-gateway c w http =
      reload_gateways-gateway host generate fuel c w.sys.gateways w.sys.net http

  hook_error-none : (e : Ended) → hook_error v host e ≡ none → e ≡ returned none
  hook_error-none (returned e) h = ap returned h
  hook_error-none panicked h = absurd (cc)
  hook_error-none running h = absurd (cc)

  -- Each server runs on its port if the settings want it, and is unset otherwise.
  abbrev pub ServesAll : Settings → Gateways → Type 0
  ServesAll c g =
      Serves (wants_http c) c.gateway_port g.gateway
      × Serves (wants_https c) c.ssl_port g.ssl_gateway

  reload_hook-ServesAll :
      Binds host
      → (c : Settings) (w : World live) → HasPorts c
      → (reload_hook v host generate fuel c w).0 ≡ none
      → ServesAll c (gateways_of (reload_hook v host generate fuel c w).1)
  unfolding reload_hook
  reload_hook-ServesAll binds c w ports h =
      reload_gateways-Serves host generate binds fuel c w.sys.gateways w.sys.net ports
        (hook_error-none _ h)

  notify_config-ServesAll :
      Binds host
      → (c : Settings) (w : World live) → HasPorts c
      → (notify_config (live_state c) w).0 ≡ none
      → ServesAll c (gateways_of (notify_config (live_state c) w).1)
  notify_config-ServesAll binds c w ports h =
      let eq = notify_config-running live (reload_hook v host generate fuel) c w in
      let (quiet, _) =
        and_then-ok (reload_hook v host generate fuel c w) (save_config live c) (rw eq at h) in
      rw (notify_config-gateways c w) (reload_hook-ServesAll binds c w ports quiet)

  -- After a change to another port that returned nil, the state has the new port, but the HTTP
  -- server is still the one that ran before, and does not run on the new port.
  pub set_gateway_port-unmoved :
      (port : Text) (c : Settings) (w : World live)
      → Serves (wants_http c) c.gateway_port (gateways_of w).gateway
      → port ≢ c.gateway_port
      → (set_gateway_port port (live_state c) w).0 ≡ none
      → let (e, next, w') = set_gateway_port port (live_state c) w in
        (next.settings.gateway_port ≡ port)
        × ((gateways_of w').gateway ≡ (gateways_of w).gateway)
        × (runs_on (gateways_of w').gateway port ≡ false)
  set_gateway_port-unmoved port c w http ne quiet =
      let state = live_state c in
      let verdict = sym (set_gateway_port-verdict port state w) ∙ quiet in
      let (_, after) = and_then-ok (notify_port port state w) (notify_config state) verdict in
      let saved = notify_port port state w in
      let first : gateways_of saved.1 ≡ gateways_of w =
        rw (notify_port-running live (reload_hook v host generate fuel) port c w)
          (save_port-gateways port c w) in
      let there : Serves (wants_http c) c.gateway_port (gateways_of saved.1).gateway =
        rw first http in
      let kept =
        ap (λ (g : Gateways). g.gateway) (notify_config-gateways c saved.1)
        ∙ reload_hook-gateway c saved.1 there
        ∙ ap (λ (g : Gateways). g.gateway) first in
      rw (set_gateway_port-ok port state w verdict, after, kept)
        (refl, refl, Serves-other _ c.gateway_port port _ http ne)

  -- If listeners get the port number that they ask for, and the wanted ports are such numbers, then
  -- after a change of the SSL settings that returned nil both servers run as the new settings ask, whatever ran before.
  pub set_ssl_config-ServesAll :
      Binds host
      → (enabled : Bool) (port domain cert_type : Text) (c : Settings) (w : World live)
      → HasPorts (with_ssl enabled port domain cert_type c)
      → (set_ssl_config enabled port domain cert_type (live_state c) w).0 ≡ none
      → ServesAll
          (with_ssl enabled port domain cert_type c)
          (gateways_of (set_ssl_config enabled port domain cert_type (live_state c) w).2)
  unfolding serving
  set_ssl_config-ServesAll binds enabled port domain cert_type c w ports quiet =
      let changed = with_ssl enabled port domain cert_type c in
      let before = before_last enabled port domain (live_state c) w in
      let last = set_ssl_config-last enabled port domain cert_type (live_state c) w quiet in
      rw (ap (λ (r : Option Error × World live). gateways_of r.1) last) at (
        notify_config-ServesAll binds changed before ports
          (ap (λ (r : Option Error × World live). r.0) last))
