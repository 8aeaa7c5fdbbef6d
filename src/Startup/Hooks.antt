-- ===== src/Startup/Hooks.antt =====
-- What the configuration file holds after the settings were changed.
use nimo_os_gateway.Base.{
  ◌≡◌, refl, sym, ap, ◌∙◌, Bool, Option, none, some, [], Text, Error, done, and_then, and_then-ok,
  fun_ext,
}
use nimo_os_gateway.State.{
  Settings, State, ConfigHook, notify_port, notify_config, set_gateway_port, set_ssl_config,
}
use nimo_os_gateway.State.Setters.{
  with_ssl, before_last, set_ssl_config-last, set_gateway_port-ok, set_gateway_port-verdict,
}
use nimo_os_gateway.Startup.{
  Viper, text, flag, World, all_keys, save_port, save_config, serving, key_port, key_ssl_enabled,
  key_ssl_port, key_ssl_domain, key_ssl_cert_type,
}

and_then-done : {S : Type 0} (r : Option Error × S) → and_then r done ≡ r
and_then-done (none, s) = refl
and_then-done (some e, s) = refl

module _ (v : Viper) where
  open v use {Config, Sys, set, get, write}

  -- The file holds these settings.
  pub record Saved (c : Settings) (file : Config) : Type 0 where
    pub port : get key_port file ≡ some (text c.gateway_port)
    pub enabled : get key_ssl_enabled file ≡ some (flag c.ssl_enabled)
    pub ssl_port : get key_ssl_port file ≡ some (text c.ssl_port)
    pub domain : get key_ssl_domain file ≡ some (text c.ssl_domain)
    pub cert_type : get key_ssl_cert_type file ≡ some (text c.ssl_cert_type)

  all_keys-Saved : (c : Settings) (config : Config) → Saved c (all_keys v c config)
  all_keys-Saved c config = record {
    port =
        v.get-set_ne key_ssl_cert_type key_port _ _ (cc)
        ∙ v.get-set_ne key_ssl_domain key_port _ _ (cc)
        ∙ v.get-set_ne key_ssl_port key_port _ _ (cc)
        ∙ v.get-set_ne key_ssl_enabled key_port _ _ (cc)
        ∙ v.get-set_self key_port _ config;
    enabled =
        v.get-set_ne key_ssl_cert_type key_ssl_enabled _ _ (cc)
        ∙ v.get-set_ne key_ssl_domain key_ssl_enabled _ _ (cc)
        ∙ v.get-set_ne key_ssl_port key_ssl_enabled _ _ (cc)
        ∙ v.get-set_self key_ssl_enabled _ _;
    ssl_port =
        v.get-set_ne key_ssl_cert_type key_ssl_port _ _ (cc)
        ∙ v.get-set_ne key_ssl_domain key_ssl_port _ _ (cc)
        ∙ v.get-set_self key_ssl_port _ _;
    domain =
        v.get-set_ne key_ssl_cert_type key_ssl_domain _ _ (cc) ∙ v.get-set_self key_ssl_domain _ _;
    cert_type = v.get-set_self key_ssl_cert_type _ _;
  }

  save_config-Saved :
      (c : Settings) (w : World v)
      → (save_config v c w).0 ≡ none
      → Saved c (save_config v c w).1.file
  unfolding save_config
  save_config-Saved c w h =
      let r = write (all_keys v c w.config) w.file w.sys in
      let whole : r ≡ (none, r.1, r.2) = λ i. (h i, r.1, r.2) in
      rw (v.written _ _ _ _ _ whole) (all_keys-Saved c w.config)

  module _ (reload : ConfigHook (World v)) where
    -- The state of the running program, for its settings.
    abbrev pub running_state : Settings → State (World v)
    running_state c =
        serving v reload
          (record { settings = c; on_gateway_port_change = []; on_gateway_config_change = [] })

    -- The reload runs first, and the file is written after it.
    pub notify_config-running :
        (c : Settings) (w : World v)
        → notify_config (running_state c) w ≡ and_then (reload c w) (save_config v c)
    unfolding notify_config serving
    notify_config-running c w =
        ap (and_then (reload c w)) (fun_ext λ u. and_then-done (save_config v c u))

    pub notify_port-running :
        (port : Text) (c : Settings) (w : World v)
        → notify_port port (running_state c) w ≡ save_port v port c w
    unfolding notify_port serving
    notify_port-running port c w = and_then-done (save_port v port c w)

    notify_config-Saved :
        (c : Settings) (w : World v)
        → (notify_config (running_state c) w).0 ≡ none
        → Saved c (notify_config (running_state c) w).1.file
    notify_config-Saved c w h =
        let eq = notify_config-running c w in
        let (_, after) = and_then-ok (reload c w) (save_config v c) (rw eq at h) in
        rw (eq, after) (save_config-Saved c (reload c w).1 (rw after at (rw eq at h)))

    -- After a change of the SSL settings that returned nil, the file holds the new ones.
    pub set_ssl_config-Saved :
        (enabled : Bool) (port domain cert_type : Text) (c : Settings) (w : World v)
        → (set_ssl_config enabled port domain cert_type (running_state c) w).0 ≡ none
        → Saved
            (with_ssl enabled port domain cert_type c)
            (set_ssl_config enabled port domain cert_type (running_state c) w).2.file
    unfolding serving
    set_ssl_config-Saved enabled port domain cert_type c w h =
        let before = before_last enabled port domain (running_state c) w in
        let last = set_ssl_config-last enabled port domain cert_type (running_state c) w h in
        rw (ap (λ (r : Option Error × World v). r.1.file) last) at (
          notify_config-Saved (with_ssl enabled port domain cert_type c) before
            (ap (λ (r : Option Error × World v). r.0) last))

    -- After a change of the port that returned nil, the program has the new port, but the file holds
    -- the settings from before the change, with the old port.
    pub set_gateway_port-stale :
        (port : Text) (c : Settings) (w : World v)
        → (set_gateway_port port (running_state c) w).0 ≡ none
        → ((set_gateway_port port (running_state c) w).1.settings.gateway_port ≡ port)
          × Saved c (set_gateway_port port (running_state c) w).2.file
    set_gateway_port-stale port c w h =
        let state = running_state c in
        let quiet = sym (set_gateway_port-verdict port state w) ∙ h in
        let (_, after) = and_then-ok (notify_port port state w) (notify_config state) quiet in
        rw (set_gateway_port-ok port state w quiet, after)
          (
            refl,
            notify_config-Saved c (notify_port port state w).1
                (ap (λ (r : Option Error × World v). r.0) (sym after) ∙ quiet),
          )
