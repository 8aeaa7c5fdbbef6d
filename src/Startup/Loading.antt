-- ===== src/Startup/Loading.antt =====
-- The settings after a start, and after a restart that follows a change.
mod Tests
use nimo_os_gateway.Base.{
  ◌≡◌, ◌≢◌, refl, sym, ap, ◌∙◌, Bool, true, false, Option, none, some, [], Text, codes, ok, Error,
}
use nimo_os_gateway.State.{
  Settings, State, ConfigHook, new_state, set_gateway_port, set_ssl_config, set_ssl_enabled,
  set_ssl_port, set_ssl_domain, set_ssl_cert_type, set_runtime_path, set_www_path, set_qdrant_url,
  set_ollama_url, set_docker_socket, set_photos_ml_url, notify_port, notify_config,
}
use nimo_os_gateway.State.Setters.{with_ssl}
use nimo_os_gateway.Startup.{
  Viper, Value, text, flag, World, ConfigKey, registered, key_port, key_runtime_path,
  key_ssl_enabled, key_ssl_port, key_ssl_domain, key_ssl_cert_type, key_qdrant_url, key_ollama_url,
  key_docker_socket, key_photos_ml_url,
}
use nimo_os_gateway.Startup.Config.{Loader, defaults, load_config}
use nimo_os_gateway.Startup.Init.{
  Files, config_file_path, create_config_file, load_settings, check_prequisites, keep_config, init,
}
use nimo_os_gateway.Startup.Hooks.{
  Saved, running_state, set_ssl_config-Saved, set_gateway_port-stale,
}

-- The settings that a configuration file keeps are the same.
pub record Kept (c d : Settings) : Type 0 where
  pub port : d.gateway_port ≡ c.gateway_port
  pub enabled : d.ssl_enabled ≡ c.ssl_enabled
  pub ssl_port : d.ssl_port ≡ c.ssl_port
  pub domain : d.ssl_domain ≡ c.ssl_domain
  pub cert_type : d.ssl_cert_type ≡ c.ssl_cert_type

module _ {v : Viper} (loader : Loader v) where
  open loader use {get_string, get_bool, IsPlain}

  abbrev pub settings_from : v.Config → Text → Settings
  settings_from config www = record {
    gateway_port = get_string key_port config;
    ssl_enabled = get_bool key_ssl_enabled config;
    ssl_port = get_string key_ssl_port config;
    ssl_domain = get_string key_ssl_domain config;
    ssl_cert_type = get_string key_ssl_cert_type config;
    runtime_path = get_string key_runtime_path config;
    www_path = www;
    qdrant_url = get_string key_qdrant_url config;
    ollama_url = get_string key_ollama_url config;
    docker_socket = get_string key_docker_socket config;
    photos_ml_url = get_string key_photos_ml_url config;
  }

  -- The texts among the settings that the file gives back.
  pub record IsPlainSettings (c : Settings) : Type 0 where
    pub port : IsPlain c.gateway_port
    pub ssl_port : IsPlain c.ssl_port
    pub domain : IsPlain c.ssl_domain
    pub cert_type : IsPlain c.ssl_cert_type

  abbrev loaded_state : v.Config → Text → State (World v)
  loaded_state config www = record {
    settings = settings_from config www;
    on_gateway_port_change = [];
    on_gateway_config_change = [];
  }

  load_config-Kept :
      (c : Settings) (w : World v) (config : v.Config) (www : Text)
      → load_config loader w ≡ ok config
      → Saved v c w.file
      → IsPlainSettings c
      → Kept c (settings_from config www)
  unfolding load_config
  load_config-Kept c w config www read saved plain = record {
    port = loader.read_text _ _ _ _ config w key_port c.gateway_port read saved.port plain.port;
    enabled = loader.read_flag _ _ _ _ config w key_ssl_enabled c.ssl_enabled read saved.enabled;
    ssl_port =
        loader.read_text _ _ _ _ config w key_ssl_port c.ssl_port read saved.ssl_port
          plain.ssl_port;
    domain =
        loader.read_text _ _ _ _ config w key_ssl_domain c.ssl_domain read saved.domain
          plain.domain;
    cert_type =
        loader.read_text _ _ _ _ config w key_ssl_cert_type c.ssl_cert_type read saved.cert_type
          plain.cert_type;
  }

  module _ (files : Files v) where
    open files use {is_missing, mkdir_all}

    load_settings_lem :
        (config : v.Config) (www : Text) (w : World v)
        → load_settings loader files config www new_state w ≡ (none, loaded_state config www, w)
    unfolding load_settings new_state notify_port notify_config
    load_settings_lem config www w = refl

    -- What a start needs: the configuration can be read, and the runtime path can be made.
    pub record CanStart (w : World v) (config : v.Config) : Type 0 where
      pub present : is_missing (config_file_path loader files) w ≡ false
      pub read : load_config loader w ≡ ok config
      pub made :
          (mkdir_all (get_string key_runtime_path config) (keep_config loader files config w)).0
          ≡ none

    init-ok :
        (www : Text) (w : World v) (config : v.Config)
        → CanStart w config
        → ((init loader files www w).0 ≡ none)
          × ((init loader files www w).1 ≡ registered v (loaded_state config www))
    unfolding init create_config_file check_prequisites
    init-ok www w config h =
        rw
          (
            h.present,
            h.read,
            load_settings_lem config www (keep_config loader files config w),
            h.made,
          )
          (refl, refl)

    registered-settings : (c : State (World v)) → (registered v c).settings ≡ c.settings
    unfolding registered
    registered-settings c = refl

    -- The state of a program that starts with the configuration that it finds.
    restarted :
        (www : Text) (c : Settings) (w : World v) (config : v.Config)
        → CanStart w config
        → Saved v c w.file
        → IsPlainSettings c
        → ((init loader files www w).0 ≡ none) × Kept c (init loader files www w).1.settings
    restarted www c w config start saved plain =
        let (quiet, state) = init-ok www w config start in
        (
          quiet,
          rw (state, registered-settings (loaded_state config www))
              (load_config-Kept c w config www start.read saved plain),
        )

    module _ (reload : ConfigHook (World v)) (c : Settings) (w : World v) (www : Text)
        (config : v.Config) where
      -- After a change of the SSL settings that returned nil, a program that can start anew starts
      -- with the new SSL settings and the port that was in use, if the texts among them come back
      -- from the file.
      pub set_ssl_config-restart :
          (enabled : Bool) (port domain cert_type : Text)
          → (set_ssl_config enabled port domain cert_type (running_state v reload c) w).0 ≡ none
          → CanStart
              (set_ssl_config enabled port domain cert_type (running_state v reload c) w).2
              config
          → IsPlainSettings (with_ssl enabled port domain cert_type c)
          → let next =
              init loader files www
                (set_ssl_config enabled port domain cert_type (running_state v reload c) w).2 in
            (next.0 ≡ none) × Kept (with_ssl enabled port domain cert_type c) next.1.settings
      set_ssl_config-restart enabled port domain cert_type quiet start plain =
          restarted www (with_ssl enabled port domain cert_type c)
            (set_ssl_config enabled port domain cert_type (running_state v reload c) w).2 config
            start (set_ssl_config-Saved v reload enabled port domain cert_type c w quiet) plain

      -- After a change of the port that returned nil, the running program has the new port, but a
      -- program that can start anew starts with the port from before the change, if the texts among
      -- the settings come back from the file.
      pub set_gateway_port-restart :
          (port : Text)
          → (set_gateway_port port (running_state v reload c) w).0 ≡ none
          → CanStart (set_gateway_port port (running_state v reload c) w).2 config
          → IsPlainSettings c
          → let next =
              init loader files www (set_gateway_port port (running_state v reload c) w).2 in
            ((set_gateway_port port (running_state v reload c) w).1.settings.gateway_port ≡ port)
            × (next.0 ≡ none)
            × Kept c next.1.settings
      set_gateway_port-restart port quiet start plain =
          let (changed, stale) = set_gateway_port-stale v reload port c w quiet in
          let (again, kept) =
            restarted www c (set_gateway_port port (running_state v reload c) w).2 config start
              stale plain in
          (changed, again, kept)
