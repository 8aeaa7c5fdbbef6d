-- ===== src/Startup/Init.antt =====
-- main.go, `init`: the state that the program starts with. A panic is an error that ends the start.
-- The flag for the version and the logger are left out.
use nimo_os_gateway.Base.{
  Bool, Option, none, some, Text, codes, ◌++◌, Error, Act, ◌>>◌, Result, ok, err, if◌then◌else◌,
}
use nimo_os_gateway.Paths.{join_path}
use nimo_os_gateway.State.{
  State, Outcome, new_state, and_set, set_gateway_port, set_ssl_enabled, set_ssl_port,
  set_ssl_domain, set_ssl_cert_type, set_runtime_path, set_www_path, set_qdrant_url, set_ollama_url,
  set_docker_socket, set_photos_ml_url,
}
use nimo_os_gateway.Startup.{
  Viper, World, registered, key_port, key_runtime_path, key_ssl_enabled, key_ssl_port,
  key_ssl_domain, key_ssl_cert_type, key_qdrant_url, key_ollama_url, key_docker_socket,
  key_photos_ml_url,
}
use nimo_os_gateway.Startup.Config.{Loader, load_config}

-- The file operations of the start.
pub record Files (v : Viper) : Type 0 where
  pub is_missing : Text → World v → Bool
  pub create : Text → Act (World v)
  pub write_string : (path content : Text) → Act (World v)
  pub mkdir_all : Text → Act (World v)

-- build/sysroot/etc/nimoos/gateway.ini.sample, which is embedded
abbrev conf_sample : Text
conf_sample = codes "[common]\nruntimepath=/var/run/nimoos\n\n[gateway]\nport=\n"

module _ {W : Type 0} where
  -- A setter whose error is not looked at.
  abbrev pub and_ignore : Outcome W → (State W → W → Outcome W) → Outcome W
  and_ignore (e, c, w) k = k c w

module _ {v : Viper} (loader : Loader v) (files : Files v) where
  open loader use {get_string, get_bool, default_config_path}
  open files use {is_missing, create, write_string, mkdir_all}

  abbrev pub config_file_path : Text
  config_file_path = join_path default_config_path (codes "gateway.ini")

  -- the default file, if there is none
  unfoldable pub create_config_file : Act (World v)
  unfolding join_path
  create_config_file w =
      if is_missing config_file_path w
      then (create config_file_path >> write_string config_file_path conf_sample) w
      else (none, w)

  -- `checkPrequisites`
  abbrev or_denied : Text → Option Error × World v → Option Error × World v
  or_denied path (none, w) = (none, w)
  or_denied path (some e, w) = (
    some (
        codes "please ensure the owner of this service has write permission to that path " ++ path),
    w,
  )

  unfoldable pub check_prequisites : State (World v) → Act (World v)
  check_prequisites c w = or_denied c.settings.runtime_path (mkdir_all c.settings.runtime_path w)

  abbrev store_urls : v.Config → Text → State (World v) → State (World v)
  store_urls config www c = set_photos_ml_url (get_string key_photos_ml_url config) (
      set_docker_socket (get_string key_docker_socket config) (
        set_ollama_url (get_string key_ollama_url config)
          (set_qdrant_url (get_string key_qdrant_url config) (set_www_path www c))))

  -- The settings of the configuration go to the state, in the order of the source.
  unfoldable pub load_settings : v.Config → Text → State (World v) → World v → Outcome (World v)
  unfolding set_gateway_port set_ssl_enabled set_ssl_port set_ssl_domain set_ssl_cert_type
      set_runtime_path set_www_path set_qdrant_url set_ollama_url set_docker_socket
      set_photos_ml_url
  load_settings config www c w =
      and_set
        (set_gateway_port (get_string key_port config)
          (set_runtime_path (get_string key_runtime_path config) c) w)
        λ c w. and_ignore (set_ssl_enabled (get_bool key_ssl_enabled config) c w) λ c w.
          and_ignore (set_ssl_port (get_string key_ssl_port config) c w) λ c w.
            and_ignore (set_ssl_domain (get_string key_ssl_domain config) c w) λ c w.
              and_ignore (set_ssl_cert_type (get_string key_ssl_cert_type config) c w)
                λ c w. (none, store_urls config www c, w)

  abbrev checked : State (World v) → Option Error × World v → Outcome (World v)
  checked c (none, w) = (none, registered v c, w)
  checked c (some e, w) = (some e, c, w)

  abbrev pub keep_config : v.Config → World v → World v
  keep_config config w = record w { config = config }

  abbrev with_config : Text → Result v.Config → World v → Outcome (World v)
  with_config www (err e) w = (some e, new_state, w)
  with_config www (ok config) w =
      and_set (load_settings config www new_state (keep_config config w))
        λ c w. checked c (check_prequisites c w)

  abbrev when_created : Text → Option Error × World v → Outcome (World v)
  when_created www (some e, w) = (some e, new_state, w)
  when_created www (none, w) = with_config www (load_config loader w) w

  -- `init`, with the value of the flag `-w`
  unfoldable pub init : Text → World v → Outcome (World v)
  unfolding create_config_file load_config load_settings check_prequisites new_state registered
  init www w = when_created www (create_config_file w)
