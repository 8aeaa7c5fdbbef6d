-- ===== src/Startup/Live.antt =====
-- main.go: the hooks of the running program together with the servers that they reload. The world
-- of the hooks holds the configuration and its file, the servers, and their host.
pub mod Change
pub mod Requests
mod Tests
use nimo_os_gateway.Base.{ℕ, ◌≡◌, refl, sym, ap, ◌∙◌, Option, none, some, Text, Error, Act}
use nimo_os_gateway.Probes.{Ended, returned, panicked, running}
use nimo_os_gateway.State.{ConfigHook, hook_panic, hook_waits}
use nimo_os_gateway.Gateways.{Host, Gateways, reload_gateways}
use nimo_os_gateway.Startup.{Viper, World}

module _ (v : Viper) (host : Host) where
  -- What surrounds the configuration: the rest of Viper's system, the servers, and their host.
  pub record Around : Type 0 where
    pub files : v.Sys
    pub gateways : Gateways
    pub net : host.Sys

  abbrev pub written_to :
      Gateways → host.Sys → Option Error × v.Config × v.Sys → Option Error × v.Config × Around
  written_to g s (e, file, f) = (e, file, record { files = f; gateways = g; net = s })

  -- `config.WriteConfig()` does nothing to the servers.
  abbrev pub write_beside : v.Config → v.Config → Around → Option Error × v.Config × Around
  write_beside c old a = written_to a.gateways a.net (v.write c old a.files)

  pub written_to-file :
      (c old : v.Config) (f : v.Sys) (r : Option Error × v.Config × v.Sys) (g : Gateways)
      (s : host.Sys) (new : v.Config) (a : Around)
      → v.write c old f ≡ r
      → written_to g s r ≡ (none, new, a)
      → new ≡ c
  written_to-file c old f (none, file, f') g s new a e h =
      sym (ap (λ (r : Option Error × v.Config × Around). r.1) h) ∙ v.written c old file f f' e
  written_to-file c old f (some x, file, f') g s new a e h = absurd (cc)

  abbrev pub live_viper : Viper
  live_viper = record {
    Config = v.Config;
    Sys = Around;
    set = v.set;
    get = v.get;
    write = write_beside;
    get-set_self = v.get-set_self;
    get-set_ne = v.get-set_ne;
    written = λ c old new a a' h.
        written_to-file c old a.files (v.write c old a.files) a.gateways a.net new a' refl h;
  }

  -- How a hook ends.
  abbrev pub hook_error : Ended → Option Error
  hook_error (returned e) = e
  hook_error panicked = some hook_panic
  hook_error running = some hook_waits

  abbrev pub with_servers :
      World live_viper → Ended × Gateways × host.Sys → Option Error × World live_viper
  with_servers w (e, g, s) =
      (hook_error e, record w { sys = record (w.sys) { gateways = g; net = s } })

  module _ (generate : Text → Text → Text → Act host.Sys) (fuel : ℕ) where
    -- `func() error { return reloadGateways(_state, route) }`
    unfoldable pub reload_hook : ConfigHook (World live_viper)
    unfolding reload_gateways
    reload_hook c w = with_servers w (reload_gateways host generate fuel c w.sys.gateways w.sys.net)
