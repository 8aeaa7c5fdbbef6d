-- ===== src/State.antt =====
-- service/state.go: the settings of the gateway and the hooks that are told of a change.
-- A hook is a Go closure: it reads the state through its getters, acts on the world `W`, and
-- answers with an error or nil. The closures that main.go registers change no setting.
pub mod Notify
pub mod Setters
pub mod Tests
use nimo_os_gateway.Base.{
  ℕ, zero, suc, Bool, true, false, Option, none, some, List, [], ◌∷◌, ◌++◌, Text, Error, Act, done,
  ◌>>◌, length, get_elem?, same, if◌then◌else◌,
}

-- The fields of `State` that are plain values.
pub record Settings : Type 0 where
  pub gateway_port : Text
  pub ssl_enabled : Bool
  pub ssl_port : Text
  pub ssl_domain : Text
  pub ssl_cert_type : Text
  pub runtime_path : Text
  pub www_path : Text
  pub qdrant_url : Text
  pub ollama_url : Text
  pub docker_socket : Text
  pub photos_ml_url : Text

-- What stands for the panic of a hook, and for a hook that never returns: no Go string has such
-- texts, since these numbers are no bytes. Nothing runs after either of them.
abbrev pub hook_panic : Error
hook_panic = 256 ∷ []

abbrev pub hook_waits : Error
hook_waits = 257 ∷ []

module _ (W : Type 0) where
  -- `func() error`, closed over the state
  abbrev pub ConfigHook : Type 0
  ConfigHook = Settings → Act W

  -- `func(string) error`, closed over the state
  abbrev pub PortHook : Type 0
  PortHook = Text → Settings → Act W

  pub record State : Type 0 where
    pub settings : Settings
    pub open settings use *
    pub on_gateway_port_change : List PortHook
    pub on_gateway_config_change : List ConfigHook

  -- What a setter gives back: its error, the state and the world.
  abbrev pub Outcome : Type 0
  Outcome = Option Error × State × W

abbrev pub no_settings : Settings
no_settings = record {
  gateway_port = [];
  ssl_enabled = false;
  ssl_port = [];
  ssl_domain = [];
  ssl_cert_type = [];
  runtime_path = [];
  www_path = [];
  qdrant_url = [];
  ollama_url = [];
  docker_socket = [];
  photos_ml_url = [];
}

module _ {W : Type 0} where
  -- `for i := len(hooks) - 1; i >= 0; i--`, with `n` rounds left; an index out of range, which the
  -- loop never reaches, ends it.
  abbrev call_at : {H : Type 0} → (H → Act W) → Option H → Act W → Act W
  call_at call none rest = done
  call_at call (some h) rest = call h >> rest

  notify_down : {H : Type 0} → (H → Act W) → ℕ → List H → Act W
  notify_down call zero hooks = done
  notify_down call (suc i) hooks = call_at call (get_elem? hooks i) (notify_down call i hooks)

  unfoldable pub new_state : State W
  new_state = record {
    settings = no_settings;
    on_gateway_port_change = [];
    on_gateway_config_change = [];
  }

  -- `OnGatewayPortChange` and `OnGatewayConfigChange`
  unfoldable pub add_port_hook : PortHook W → State W → State W
  add_port_hook f c = record c { on_gateway_port_change = c.on_gateway_port_change ++ f ∷ [] }

  unfoldable pub add_config_hook : ConfigHook W → State W → State W
  add_config_hook f c = record c { on_gateway_config_change = c.on_gateway_config_change ++ f ∷ [] }

  unfoldable pub notify_port : Text → State W → Act W
  unfolding notify_down
  notify_port port c =
      notify_down (λ h. h port c.settings) (length c.on_gateway_port_change)
        c.on_gateway_port_change

  unfoldable pub notify_config : State W → Act W
  unfolding notify_down
  notify_config c =
      notify_down (λ h. h c.settings) (length c.on_gateway_config_change) c.on_gateway_config_change

  abbrev with_state : State W → Option Error × W → Outcome W
  with_state c (e, w) = (e, c, w)

  -- The deferred function stores the port when the result is nil, and also during a panic, when no
  -- result has been set.
  abbrev store_port : Text → State W → Option Error × W → Outcome W
  store_port port c (none, w) =
      (none, record c { settings = record (c.settings) { gateway_port = port } }, w)
  store_port port c (some e, w) = (
    some e,
    if same e hook_panic
        then record c { settings = record (c.settings) { gateway_port = port } }
        else c,
    w,
  )

  unfoldable pub set_gateway_port : Text → State W → W → Outcome W
  set_gateway_port port c w = store_port port c ((notify_port port c >> notify_config c) w)

  -- Store first, then notify.
  abbrev store_then_notify : State W → W → Outcome W
  store_then_notify c w = with_state c (notify_config c w)

  unfoldable pub set_ssl_enabled : Bool → State W → W → Outcome W
  set_ssl_enabled v c =
      store_then_notify (record c { settings = record (c.settings) { ssl_enabled = v } })

  unfoldable pub set_ssl_port : Text → State W → W → Outcome W
  set_ssl_port v c =
      store_then_notify (record c { settings = record (c.settings) { ssl_port = v } })

  unfoldable pub set_ssl_domain : Text → State W → W → Outcome W
  set_ssl_domain v c =
      store_then_notify (record c { settings = record (c.settings) { ssl_domain = v } })

  unfoldable pub set_ssl_cert_type : Text → State W → W → Outcome W
  set_ssl_cert_type v c =
      store_then_notify (record c { settings = record (c.settings) { ssl_cert_type = v } })

  -- The setters that only store; the two that return an error return nil.
  unfoldable pub set_runtime_path : Text → State W → State W
  set_runtime_path v c = record c { settings = record (c.settings) { runtime_path = v } }

  unfoldable pub set_www_path : Text → State W → State W
  set_www_path v c = record c { settings = record (c.settings) { www_path = v } }

  unfoldable pub set_qdrant_url : Text → State W → State W
  set_qdrant_url v c = record c { settings = record (c.settings) { qdrant_url = v } }

  unfoldable pub set_ollama_url : Text → State W → State W
  set_ollama_url v c = record c { settings = record (c.settings) { ollama_url = v } }

  unfoldable pub set_docker_socket : Text → State W → State W
  set_docker_socket v c = record c { settings = record (c.settings) { docker_socket = v } }

  unfoldable pub set_photos_ml_url : Text → State W → State W
  set_photos_ml_url v c = record c { settings = record (c.settings) { photos_ml_url = v } }

  -- `if err := m; err != nil { return err }; return k()` over the state
  abbrev pub and_set : Outcome W → (State W → W → Outcome W) → Outcome W
  and_set (none, c, w) k = k c w
  and_set (some e, c, w) k = (some e, c, w)

  -- `Management.SetSSLConfig`
  unfoldable pub set_ssl_config : Bool → Text → Text → Text → State W → W → Outcome W
  set_ssl_config enabled port domain cert_type c w = and_set (set_ssl_enabled enabled c w) λ c w.
      and_set (set_ssl_port port c w)
        λ c w. and_set (set_ssl_domain domain c w) (set_ssl_cert_type cert_type)
