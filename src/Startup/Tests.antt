-- ===== src/Startup/Tests.antt =====
-- The hooks of the program on a configuration that is a list of keys with their values.

use nimo_os_gateway.Base.{
  ℕ, ◌≡◌, ◌≢◌, refl, sym, ap, ◌∙◌, ◌∷◌, some-injective, false, Option, none, some, [], codes, Error,
  Dict, lookup, insert, lookup-insert, same, same_refl, same-false_iff, decimal, ◌==◌,
}
use nimo_os_gateway.State.{
  Settings, ConfigHook, no_settings, set_gateway_port, notify_port, notify_config,
}
use nimo_os_gateway.State.Setters.{with_port}
use nimo_os_gateway.Startup.{
  Viper, Value, text, World, save_port, save_config, serving, pick_port, ports_to_check, ConfigKey,
  key_name, key_log_path, key_log_save_name, key_log_file_ext, key_port, key_runtime_path,
  key_ssl_enabled, key_ssl_port, key_ssl_domain, key_ssl_cert_type, key_qdrant_url, key_ollama_url,
  key_docker_socket, key_photos_ml_url,
}
use nimo_os_gateway.Startup.Hooks.{running_state}
use nimo_os_gateway.Startup.Ports.{IsChoice, pick_port-IsChoice}

-- The names lead back to the keys.
abbrev key_table : Dict ConfigKey
key_table =
    (codes "gateway.LogPath", key_log_path)
    ∷ (codes "gateway.LogSaveName", key_log_save_name)
    ∷ (codes "gateway.LogFileExt", key_log_file_ext)
    ∷ (codes "gateway.Port", key_port)
    ∷ (codes "common.RuntimePath", key_runtime_path)
    ∷ (codes "gateway.SSLEnabled", key_ssl_enabled)
    ∷ (codes "gateway.SSLPort", key_ssl_port)
    ∷ (codes "gateway.SSLDomain", key_ssl_domain)
    ∷ (codes "gateway.SSLCertType", key_ssl_cert_type)
    ∷ (codes "components.QdrantURL", key_qdrant_url)
    ∷ (codes "components.OllamaURL", key_ollama_url)
    ∷ (codes "components.DockerSocket", key_docker_socket)
    ∷ (codes "components.PhotosMLURL", key_photos_ml_url)
    ∷ []

named : (k : ConfigKey) → lookup (key_name k) key_table ≡ some k
unfolding lookup same key_name
named key_log_path = refl
named key_log_save_name = refl
named key_log_file_ext = refl
named key_port = refl
named key_runtime_path = refl
named key_ssl_enabled = refl
named key_ssl_port = refl
named key_ssl_domain = refl
named key_ssl_cert_type = refl
named key_qdrant_url = refl
named key_ollama_url = refl
named key_docker_socket = refl
named key_photos_ml_url = refl

pub key_name-ne : (j k : ConfigKey) → j ≢ k → same (key_name k) (key_name j) ≡ false
key_name-ne j k ne =
    (same-false_iff (key_name k) (key_name j)).1
      λ e. ne (some-injective (sym (named j) ∙ ap (λ n. lookup n key_table) (sym e) ∙ named k))

-- A disk that is never full.
abbrev pub write_all : Dict Value → Dict Value → Unit {0} → Option Error × Dict Value × Unit {0}
write_all c old s = (none, c, s)

pub write_all-written :
    (c old new : Dict Value) (s s' : Unit {0}) → write_all c old s ≡ (none, new, s') → new ≡ c
write_all-written c old new s s' e = sym (ap (λ (r : Option Error × Dict Value × Unit {0}). r.1) e)

abbrev pub listed_viper : Viper
listed_viper = record {
  Config = Dict Value;
  Sys = Unit {0};
  set = λ k. insert (key_name k);
  get = λ k. lookup (key_name k);
  write = write_all;
  get-set_self = λ k v c. rw (lookup-insert (key_name k) (key_name k) v c, same_refl);
  get-set_ne = λ k j v c ne. rw (lookup-insert (key_name k) (key_name j) v c, key_name-ne j k ne);
  written = write_all-written;
}

abbrev pub empty_world : World listed_viper
empty_world = record { config = []; file = []; sys = tt }

abbrev pub reload_nothing : ConfigHook (World listed_viper)
reload_nothing c w = (none, w)

abbrev pub on_80 : Settings
on_80 = with_port (codes "80") no_settings

-- The change to port 81 leaves 80 in the file.
stale_run :
    lookup
      (key_name key_port)
      (set_gateway_port
        (codes "81")
        (running_state listed_viper reload_nothing on_80)
        empty_world).2.file
    ≡ some (text (codes "80"))
unfolding set_gateway_port notify_port notify_config serving save_port save_config insert lookup
    same key_name
stale_run = refl

second_port : pick_port (λ p. p == 8081) ≡ codes "8081"
unfolding pick_port decimal
second_port = refl

none_free : pick_port (λ p. false) ≡ codes "8089"
unfolding pick_port decimal
none_free = refl

pick_port-IsChoice_example :
    (p : ℕ) × (pick_port (λ p. p == 8081) ≡ decimal p)
    × IsChoice (λ p. p == 8081) ports_to_check 8089 p
    × (pick_port (λ p. p == 8081) ≢ [])
pick_port-IsChoice_example = pick_port-IsChoice (λ p. p == 8081)
