-- ===== src/State/Setters.antt =====
-- What each setter leaves behind, with an error and without.
use nimo_os_gateway.Base.{
  ◌≡◌, refl, Bool, Option, none, some, Text, Error, ◌>>◌, arith, In, List, [], ◌∷◌, false, same,
}
use nimo_os_gateway.State.{
  Settings, State, Outcome, hook_panic, notify_port, notify_config, store_port, set_gateway_port,
  and_set, set_ssl_enabled, set_ssl_port, set_ssl_domain, set_ssl_cert_type, set_ssl_config,
}

abbrev pub with_port : Text → Settings → Settings
with_port port s = record s { gateway_port = port }

abbrev pub with_ssl : Bool → Text → Text → Text → Settings → Settings
with_ssl enabled port domain cert_type s = record s {
  ssl_enabled = enabled;
  ssl_port = port;
  ssl_domain = domain;
  ssl_cert_type = cert_type;
}

-- The four states in which `SetSSLConfig` can stop: each setter has stored its field by the time
-- its hooks can fail.
abbrev pub ssl_stages : Bool → Text → Text → Text → Settings → List Settings
ssl_stages enabled port domain cert_type s =
    with_ssl enabled s.ssl_port s.ssl_domain s.ssl_cert_type s
    ∷ with_ssl enabled port s.ssl_domain s.ssl_cert_type s
    ∷ with_ssl enabled port domain s.ssl_cert_type s
    ∷ with_ssl enabled port domain cert_type s
    ∷ []

module _ {W : Type 0} where
  -- The error that the hooks answer with, run on the state as it was before the call.
  abbrev pub port_verdict : Text → State W → W → Option Error
  port_verdict port c w = ((notify_port port c >> notify_config c) w).0

  store_port-ok :
      (port : Text) (c : State W) (r : Option Error × W)
      → r.0 ≡ none
      → store_port port c r ≡ (none, record c { settings = with_port port c.settings }, r.1)
  store_port-ok port c (none, w) h = refl
  store_port-ok port c (some e, w) h = cc

  store_port-err :
      (port : Text) (c : State W) (e : Error) (r : Option Error × W)
      → r.0 ≡ some e
      → same e hook_panic ≡ false
      → store_port port c r ≡ (some e, c, r.1)
  store_port-err port c e (none, w) h calm = cc
  store_port-err port c e (some f, w) h calm = ground arith

  -- `SetGatewayPort` stores the port when no hook fails.
  pub set_gateway_port-ok :
      (port : Text) (c : State W) (w : W)
      → port_verdict port c w ≡ none
      → set_gateway_port port c w ≡ (
        none,
        record c { settings = with_port port c.settings },
        ((notify_port port c >> notify_config c) w).1,
      )
  unfolding set_gateway_port
  set_gateway_port-ok port c w h = store_port-ok port c _ h

  -- It leaves the state alone when one fails, unless this is a panic.
  pub set_gateway_port-err :
      (port : Text) (c : State W) (e : Error) (w : W)
      → port_verdict port c w ≡ some e
      → same e hook_panic ≡ false
      → set_gateway_port port c w ≡ (some e, c, ((notify_port port c >> notify_config c) w).1)
  unfolding set_gateway_port
  set_gateway_port-err port c e w h calm = store_port-err port c e _ h calm

  store_port-panic :
      (port : Text) (c : State W) (r : Option Error × W)
      → r.0 ≡ some hook_panic
      → (store_port port c r).1.settings.gateway_port ≡ port
  unfolding same
  store_port-panic port c (none, w) h = cc
  store_port-panic port c (some f, w) h = ground arith

  -- A hook that panics leaves the new port in the state, although the hooks have not all run.
  set_gateway_port-panic :
      (port : Text) (c : State W) (w : W)
      → port_verdict port c w ≡ some hook_panic
      → (set_gateway_port port c w).1.settings.gateway_port ≡ port
  unfolding set_gateway_port
  set_gateway_port-panic port c w h = store_port-panic port c _ h

  pub set_gateway_port-runtime_path :
      (port : Text) (c : State W) (w : W)
      → (set_gateway_port port c w).1.settings.runtime_path ≡ c.settings.runtime_path
  unfolding set_gateway_port
  set_gateway_port-runtime_path port c w = ground arith

  pub set_gateway_port-verdict :
      (port : Text) (c : State W) (w : W) → (set_gateway_port port c w).0 ≡ port_verdict port c w
  unfolding set_gateway_port
  set_gateway_port-verdict port c w = ground arith

  and_set-ok :
      (r : Outcome W) (k : State W → W → Outcome W)
      → (and_set r k).0 ≡ none
      → (r.0 ≡ none) × (and_set r k ≡ k r.1 r.2)
  and_set-ok (none, c, w) k h = (refl, refl)
  and_set-ok (some e, c, w) k h = cc

  -- However `SetSSLConfig` ends, its settings are those of one of the four stages: it never undoes
  -- what it has stored.
  pub set_ssl_config-stages :
      (enabled : Bool) (port domain cert_type : Text) (c : State W) (w : W)
      → In
          (set_ssl_config enabled port domain cert_type c w).1.settings
          (ssl_stages enabled port domain cert_type c.settings)
  unfolding set_ssl_config set_ssl_enabled set_ssl_port set_ssl_domain set_ssl_cert_type
  set_ssl_config-stages enabled port domain cert_type c w = ground arith

  -- When it returns nil, all four settings are stored and the hooks are the same.
  pub set_ssl_config-ok :
      (enabled : Bool) (port domain cert_type : Text) (c : State W) (w : W)
      → (set_ssl_config enabled port domain cert_type c w).0 ≡ none
      → (set_ssl_config enabled port domain cert_type c w).1
        ≡ record c { settings = with_ssl enabled port domain cert_type c.settings }
  unfolding set_ssl_config set_ssl_enabled set_ssl_port set_ssl_domain set_ssl_cert_type
  set_ssl_config-ok enabled port domain cert_type c w h = ground arith

  abbrev store_ssl : Bool → Text → Text → Text → State W → State W
  store_ssl enabled port domain cert_type c = record c {
    settings = with_ssl enabled port domain cert_type c.settings;
  }

  -- The world before the last setter's hooks run, when none of the earlier ones failed.
  abbrev pub before_last : Bool → Text → Text → State W → W → W
  before_last enabled port domain c w =
      let s = c.settings in
      let w1 = (notify_config (store_ssl enabled s.ssl_port s.ssl_domain s.ssl_cert_type c) w).1 in
      let w2 = (notify_config (store_ssl enabled port s.ssl_domain s.ssl_cert_type c) w1).1 in
      (notify_config (store_ssl enabled port domain s.ssl_cert_type c) w2).1

  -- The hooks ran last on the new settings, and did not fail.
  pub set_ssl_config-last :
      (enabled : Bool) (port domain cert_type : Text) (c : State W) (w : W)
      → (set_ssl_config enabled port domain cert_type c w).0 ≡ none
      → (notify_config
            (record c { settings = with_ssl enabled port domain cert_type c.settings })
            (before_last enabled port domain c w)
          ≡ (none, (set_ssl_config enabled port domain cert_type c w).2))
  unfolding set_ssl_config set_ssl_enabled set_ssl_port set_ssl_domain set_ssl_cert_type
  set_ssl_config-last enabled port domain cert_type c w h = ground arith
