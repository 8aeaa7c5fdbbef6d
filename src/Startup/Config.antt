-- ===== src/Startup/Config.antt =====
-- common/config.go: loading the configuration; pkg/port.go: the port as other programs read it.
pub mod Defaults
use nimo_os_gateway.Base.{
  ◌≡◌, ◌≢◌, Bool, false, Option, none, some, List, [], ◌∷◌, ◌++◌, Text, codes, Error, Result, ok,
  err,
}
use nimo_os_gateway.Paths.{join_path}
use nimo_os_gateway.Startup.{
  Viper, Value, text, flag, World, ConfigKey, key_log_path, key_log_save_name, key_log_file_ext,
  key_port, key_runtime_path, key_ssl_enabled, key_ssl_port, key_ssl_domain, key_ssl_cert_type,
  key_qdrant_url, key_ollama_url, key_docker_socket, key_photos_ml_url,
}

abbrev gateway_name : Text
gateway_name = codes "gateway"

abbrev gateway_config_type : Text
gateway_config_type = codes "ini"

-- What the program relies on of Viper and of its surroundings when it reads the configuration: the
-- file's value of a key comes first, then the default. The INI format gives an `IsPlain` text back;
-- the file that is found is the one that a later write replaces.
pub record Loader (v : Viper) : Type 1 where
  pub new : v.Config
  pub set_default : ConfigKey → Value → v.Config → v.Config
  pub getwd : World v → Result Text
  pub lookup_env : Text → World v → Option Text
  pub read_in : (paths : List Text) → (name kind : Text) → v.Config → World v → Result v.Config
  pub get_string : ConfigKey → v.Config → Text
  pub get_bool : ConfigKey → v.Config → Bool
  pub Int : Type 0
  pub get_int : ConfigKey → v.Config → Int
  pub default_log_path : Text
  pub default_runtime_path : Text
  pub default_config_path : Text
  pub IsPlain : Text → Type 0
  pub default_self :
      (k : ConfigKey) (x : Value) (c : v.Config)
      → v.get k c ≡ none
      → v.get k (set_default k x c) ≡ some x
  pub default_ne :
      (k j : ConfigKey) (x : Value) (c : v.Config) → j ≢ k → v.get j (set_default k x c) ≡ v.get j c
  pub get-new : (k : ConfigKey) → v.get k new ≡ none
  pub read_text :
      (paths : List Text) (name kind : Text) (d c : v.Config) (w : World v) (k : ConfigKey)
      (t : Text)
      → read_in paths name kind d w ≡ ok c
      → v.get k w.file ≡ some (text t)
      → IsPlain t
      → get_string k c ≡ t
  pub read_flag :
      (paths : List Text) (name kind : Text) (d c : v.Config) (w : World v) (k : ConfigKey)
      (b : Bool)
      → read_in paths name kind d w ≡ ok c
      → v.get k w.file ≡ some (flag b)
      → get_bool k c ≡ b
  pub read_default_text :
      (paths : List Text) (name kind : Text) (d c : v.Config) (w : World v) (k : ConfigKey)
      (t : Text)
      → read_in paths name kind d w ≡ ok c
      → v.get k w.file ≡ none
      → v.get k d ≡ some (text t)
      → get_string k c ≡ t
  pub read_default_flag :
      (paths : List Text) (name kind : Text) (d c : v.Config) (w : World v) (k : ConfigKey)
      (b : Bool)
      → read_in paths name kind d w ≡ ok c
      → v.get k w.file ≡ none
      → v.get k d ≡ some (flag b)
      → get_bool k c ≡ b

module _ {v : Viper} (loader : Loader v) where
  open loader use {
    new, set_default, getwd, lookup_env, read_in, Int, get_int, default_log_path,
    default_runtime_path, default_config_path,
  }

  -- the calls of `SetDefault`, in their order
  abbrev pub default_values : List (ConfigKey × Value)
  default_values =
      (key_log_path, text default_log_path)
      ∷ (key_log_save_name, text gateway_name)
      ∷ (key_log_file_ext, text (codes "log"))
      ∷ (key_runtime_path, text default_runtime_path)
      ∷ (key_ssl_enabled, flag false)
      ∷ (key_ssl_port, text (codes "443"))
      ∷ (key_ssl_domain, text (codes "nimoos.local"))
      ∷ (key_ssl_cert_type, text (codes "auto"))
      ∷ (key_qdrant_url, text (codes "http://127.0.0.1:6333"))
      ∷ (key_ollama_url, text (codes "http://127.0.0.1:11434"))
      ∷ (key_docker_socket, text (codes "/var/run/docker.sock"))
      ∷ (key_photos_ml_url, text (codes "http://127.0.0.1:3003"))
      ∷ []

  set_all : List (ConfigKey × Value) → v.Config → v.Config
  set_all [] c = c
  set_all ((k, x) ∷ ds) c = set_all ds (set_default k x c)

  unfoldable pub defaults : v.Config
  unfolding set_all
  defaults = set_all default_values new

  -- The paths that are searched, in their order.
  abbrev local_paths : Result Text → List Text
  local_paths (err e) = []
  local_paths (ok dir) = dir ∷ join_path dir (codes "conf") ∷ []

  abbrev env_paths : Option Text → List Text
  env_paths none = []
  env_paths (some path) = path ∷ []

  unfoldable pub config_paths : World v → List Text
  unfolding join_path
  config_paths w =
      local_paths (getwd w)
      ++ env_paths (lookup_env (codes "NIMOOS_CONFIG_PATH") w)
      ++ default_config_path ∷ []

  -- `LoadConfig`
  unfoldable pub load_config : World v → Result v.Config
  unfolding defaults config_paths
  load_config w = read_in (config_paths w) gateway_name gateway_config_type defaults w

  -- `pkg.GetGatewayPort`; a nil error comes with a configuration
  abbrev port_of : Result v.Config → Result Int
  port_of (err e) = err e
  port_of (ok c) = ok (get_int key_port c)

  unfoldable pub get_gateway_port : World v → Result Int
  unfolding load_config
  get_gateway_port w = port_of (load_config w)
