-- ===== src/Startup/Loading/Tests.antt =====
-- Starts with a configuration file that is a list of keys with their values.
use nimo_os_gateway.Base.{
  ◌≡◌, refl, ◌∙◌, Bool, true, false, Option, none, some, [], ◌∷◌, ◌++◌, Text, Dict, lookup, insert,
  lookup-insert, same, same_refl, codes, ok, err, arith,
}
use nimo_os_gateway.State.{
  set_gateway_port, set_ssl_config, set_ssl_enabled, set_ssl_port, set_ssl_domain,
  set_ssl_cert_type, notify_port, notify_config,
}
use nimo_os_gateway.State.Setters.{with_ssl}
use nimo_os_gateway.Startup.{
  Value, text, flag, World, key_name, save_port, save_config, serving, key_ssl_port,
}
use nimo_os_gateway.Startup.Tests.{listed_viper, key_name-ne, empty_world, reload_nothing, on_80}
use nimo_os_gateway.Startup.Hooks.{running_state}
use nimo_os_gateway.Startup.Config.{Loader, load_config, defaults, config_paths}
use nimo_os_gateway.Startup.Config.Defaults.{load_config-default}
use nimo_os_gateway.Startup.Init.{Files, init}
use nimo_os_gateway.Startup.Loading.{Kept, set_ssl_config-restart, set_gateway_port-restart}

abbrev text_of : Option Value → Text
text_of (some (text t)) = t
text_of (some (flag b)) = []
text_of none = []

abbrev flag_of : Option Value → Bool
flag_of (some (flag b)) = b
flag_of (some (text t)) = false
flag_of none = false

abbrev or_insert : Option Value → Text → Value → Dict Value → Dict Value
or_insert (some y) k x c = c
or_insert none k x c = insert k x c

lookup-or_insert_ne :
    (o : Option Value) (k j : Text) (x : Value) (c : Dict Value)
    → same k j ≡ false
    → lookup j (or_insert o k x c) ≡ lookup j c
lookup-or_insert_ne (some y) k j x c ne = refl
lookup-or_insert_ne none k j x c ne = rw (lookup-insert k j x c, ne) refl

lookup-append_some :
    (k : Text) (m n : Dict Value) (x : Value) → lookup k m ≡ some x → lookup k (m ++ n) ≡ some x
unfolding lookup
lookup-append_some k [] n x h = absurd (cc)
lookup-append_some k ((j, y) ∷ m) n x h = ground (arith, lookup-append_some k m n x)

lookup-append_none :
    (k : Text) (m n : Dict Value) → lookup k m ≡ none → lookup k (m ++ n) ≡ lookup k n
unfolding lookup
lookup-append_none k [] n h = refl
lookup-append_none k ((j, y) ∷ m) n h = ground (arith, lookup-append_none k m n)

lookup-nil : (k : Text) → lookup {V = Value} k [] ≡ none
unfolding lookup
lookup-nil k = refl

lookup-read_some :
    (k : Text) (m d c : Dict Value) (x : Value)
    → ok (m ++ d) ≡ ok c
    → lookup k m ≡ some x
    → lookup k c ≡ some x
lookup-read_some k m d c x read h =
    let same : m ++ d ≡ c = cc in rw (← same) (lookup-append_some k m d x h)

lookup-read_none :
    (k : Text) (m d c : Dict Value) (x : Value)
    → ok (m ++ d) ≡ ok c
    → lookup k m ≡ none
    → lookup k d ≡ some x
    → lookup k c ≡ some x
lookup-read_none k m d c x read h there =
    let same : m ++ d ≡ c = cc in rw (← same) (lookup-append_none k m d h ∙ there)

abbrev listed_loader : Loader listed_viper
listed_loader = record {
  new = [];
  set_default = λ k x c. or_insert (lookup (key_name k) c) (key_name k) x c;
  getwd = λ w. err (codes "no directory");
  lookup_env = λ name w. none;
  read_in = λ paths name kind d w. ok (w.file ++ d);
  get_string = λ k c. text_of (lookup (key_name k) c);
  get_bool = λ k c. flag_of (lookup (key_name k) c);
  Int = Unit {0};
  get_int = λ k c. tt;
  default_log_path = codes "/var/log/nimoos";
  default_runtime_path = codes "/var/run/nimoos";
  default_config_path = codes "/etc/nimoos";
  IsPlain = λ t. Unit {0};
  default_self = λ k x c unset. rw (unset, lookup-insert (key_name k) (key_name k) x c, same_refl);
  default_ne = λ k j x c ne.
      lookup-or_insert_ne (lookup (key_name k) c) (key_name k) (key_name j) x c
        (key_name-ne j k ne);
  get-new = λ k. lookup-nil (key_name k);
  read_text = λ paths name kind d c w k t read h plain.
      rw (lookup-read_some (key_name k) w.file d c (text t) read h) refl;
  read_flag = λ paths name kind d c w k b read h.
      rw (lookup-read_some (key_name k) w.file d c (flag b) read h) refl;
  read_default_text = λ paths name kind d c w k t read h there.
      rw (lookup-read_none (key_name k) w.file d c (text t) read h there) refl;
  read_default_flag = λ paths name kind d c w k b read h there.
      rw (lookup-read_none (key_name k) w.file d c (flag b) read h there) refl;
}

abbrev listed_files : Files listed_viper
listed_files = record {
  is_missing = λ path w. false;
  create = λ path w. (none, w);
  write_string = λ path content w. (none, w);
  mkdir_all = λ path w. (none, w);
}

-- The file says nothing of the port for HTTPS.
load_config-default_example :
    listed_loader.get_string key_ssl_port (defaults listed_loader) ≡ codes "443"
unfolding load_config config_paths
load_config-default_example =
    load_config-default listed_loader empty_world (defaults listed_loader) key_ssl_port
      (codes "443") refl (lookup-nil (key_name key_ssl_port)) (ground arith)

abbrev changed_port : World listed_viper
changed_port =
    (set_gateway_port (codes "81") (running_state listed_viper reload_nothing on_80) empty_world).2

set_gateway_port-restart_example :
    let next = init listed_loader listed_files (codes "/www") changed_port in
    ((set_gateway_port
        (codes "81")
        (running_state listed_viper reload_nothing on_80)
        empty_world).1.settings.gateway_port
      ≡ codes "81")
    × (next.0 ≡ none)
    × Kept on_80 next.1.settings
unfolding load_config config_paths set_gateway_port notify_port notify_config serving save_port
    save_config
set_gateway_port-restart_example =
    set_gateway_port-restart listed_loader listed_files reload_nothing on_80 empty_world
      (codes "/www") (changed_port.file ++ defaults listed_loader) (codes "81") refl
      (record { present = refl; read = refl; made = refl })
      (record { port = tt; ssl_port = tt; domain = tt; cert_type = tt })

abbrev changed_ssl : World listed_viper
changed_ssl =
    (set_ssl_config true (codes "8443") (codes "nas") (codes "custom")
      (running_state listed_viper reload_nothing on_80) empty_world).2

set_ssl_config-restart_example :
    let next = init listed_loader listed_files (codes "/www") changed_ssl in
    (next.0 ≡ none)
    × Kept (with_ssl true (codes "8443") (codes "nas") (codes "custom") on_80) next.1.settings
unfolding load_config config_paths set_ssl_config set_ssl_enabled set_ssl_port set_ssl_domain
    set_ssl_cert_type notify_config serving save_config
set_ssl_config-restart_example =
    set_ssl_config-restart listed_loader listed_files reload_nothing on_80 empty_world
      (codes "/www") (changed_ssl.file ++ defaults listed_loader) true (codes "8443") (codes "nas")
      (codes "custom") refl (record { present = refl; read = refl; made = refl })
      (record { port = tt; ssl_port = tt; domain = tt; cert_type = tt })
