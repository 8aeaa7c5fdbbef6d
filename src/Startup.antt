-- ===== src/Startup.antt =====
-- main.go: the hooks that `init` registers, and the search for a free port.
-- Viper, which keeps the configuration and writes its file, is a parameter.
pub mod Config
pub mod Init
pub mod Loading
pub mod Run
pub mod Ready
pub mod Live
pub mod Main
pub mod Hooks
pub mod Ports
pub mod Tests
use nimo_os_gateway.Base.{
  ℕ, zero, suc, ◌+◌, ◌≡◌, ◌≢◌, Bool, true, false, Option, none, some, List, [], ◌∷◌, ◌++◌, Text,
  codes, Error, Act, decimal, if◌then◌else◌,
}
use nimo_os_gateway.State.{Settings, State, PortHook, ConfigHook, add_port_hook, add_config_hook}

pub data Value : Type 0 where
  text : Text → Value
  flag : Bool → Value

-- common/config.go: the keys of the configuration
pub data ConfigKey : Type 0 where
  key_log_path key_log_save_name key_log_file_ext key_port key_runtime_path : ConfigKey
  key_ssl_enabled key_ssl_port key_ssl_domain key_ssl_cert_type : ConfigKey
  key_qdrant_url key_ollama_url key_docker_socket key_photos_ml_url : ConfigKey

unfoldable pub key_name : ConfigKey → Text
key_name key_log_path = codes "gateway.LogPath"
key_name key_log_save_name = codes "gateway.LogSaveName"
key_name key_log_file_ext = codes "gateway.LogFileExt"
key_name key_port = codes "gateway.Port"
key_name key_runtime_path = codes "common.RuntimePath"
key_name key_ssl_enabled = codes "gateway.SSLEnabled"
key_name key_ssl_port = codes "gateway.SSLPort"
key_name key_ssl_domain = codes "gateway.SSLDomain"
key_name key_ssl_cert_type = codes "gateway.SSLCertType"
key_name key_qdrant_url = codes "components.QdrantURL"
key_name key_ollama_url = codes "components.OllamaURL"
key_name key_docker_socket = codes "components.DockerSocket"
key_name key_photos_ml_url = codes "components.PhotosMLURL"

-- What the program relies on: of its keys, each holds what was set last, and a write that returns
-- no error leaves the configuration in the file. Viper is called with the names of the keys; the
-- names differ in more than their case, which Viper ignores.
pub record Viper : Type 1 where
  pub Config : Type 0
  pub Sys : Type 0
  pub set : ConfigKey → Value → Config → Config
  pub get : ConfigKey → Config → Option Value
  pub write : Config → Config → Sys → Option Error × Config × Sys
  pub get-set_self : (k : ConfigKey) (v : Value) (c : Config) → get k (set k v c) ≡ some v
  pub get-set_ne : (k j : ConfigKey) (v : Value) (c : Config) → j ≢ k → get j (set k v c) ≡ get j c
  pub written : (c old new : Config) (s s' : Sys) → write c old s ≡ (none, new, s') → new ≡ c

module _ (v : Viper) where
  open v use {Config, Sys, set, write}

  -- The configuration in memory, its file, and the rest of the system.
  pub record World : Type 0 where
    pub config : Config
    pub file : Config
    pub sys : Sys

  abbrev after_write : Config → Option Error × Config × Sys → Option Error × World
  after_write c (e, file, s) = (e, record { config = c; file = file; sys = s })

  -- `config.WriteConfig()` on the configuration `c`
  abbrev write_config : Config → World → Option Error × World
  write_config c w = after_write c (write c w.file w.sys)

  -- the hook of `OnGatewayPortChange`
  unfoldable pub save_port : PortHook World
  save_port port c w = write_config (set key_port (text port) w.config) w

  abbrev pub all_keys : Settings → Config → Config
  all_keys c config = set key_ssl_cert_type (text c.ssl_cert_type) (
      set key_ssl_domain (text c.ssl_domain) (
        set key_ssl_port (text c.ssl_port)
          (set key_ssl_enabled (flag c.ssl_enabled) (set key_port (text c.gateway_port) config))))

  -- the hook of `OnGatewayConfigChange`
  unfoldable pub save_config : ConfigHook World
  save_config c w = write_config (all_keys c w.config) w

  -- The state as `init` leaves it, and once the gateway service has registered its own hook.
  unfoldable pub registered : State World → State World
  unfolding save_port save_config add_port_hook add_config_hook
  registered c = add_config_hook save_config (add_port_hook save_port c)

  unfoldable pub serving : ConfigHook World → State World → State World
  unfolding registered
  serving reload c = add_config_hook reload (registered c)

abbrev pub ports_from : ℕ → ℕ → List ℕ
ports_from zero first = []
ports_from (suc n) first = first ∷ ports_from n (first + 1)

abbrev pub ports_to_check : List ℕ
ports_to_check = ports_from 10 80 ++ ports_from 10 8080

-- The loop over the ports: `free` tells whether a listener could be opened and closed.
probe_ports : (ℕ → Bool) → Text → List ℕ → Text
probe_ports free port [] = port
probe_ports free port (p ∷ ps) =
    let rest = probe_ports free (decimal p) ps in if free p then decimal p else rest

unfoldable pub pick_port : (ℕ → Bool) → Text
unfolding probe_ports decimal
pick_port free = probe_ports free [] ports_to_check
