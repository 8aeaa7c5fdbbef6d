-- ===== src/State/Tests.antt =====
-- Changes of the settings with hooks that note what they are told, and with one that fails.
use nimo_os_gateway.Base.{◌≡◌, refl, none, some, List, [], ◌∷◌, Text, codes}
use nimo_os_gateway.State.{
  State, PortHook, ConfigHook, new_state, no_settings, add_config_hook, notify_config,
}
use nimo_os_gateway.State.Setters.{with_port}

abbrev pub note_port : ConfigHook (List Text)
note_port c w = (none, c.gateway_port ∷ w)

abbrev pub note_domain : ConfigHook (List Text)
note_domain c w = (none, c.ssl_domain ∷ w)

abbrev refuse : PortHook (List Text)
refuse port c w = (some (codes "in use"), port ∷ w)

abbrev pub noting : State (List Text)
noting = record {
  settings = with_port (codes "80") no_settings;
  on_gateway_port_change = [];
  on_gateway_config_change = note_port ∷ note_domain ∷ [];
}

abbrev refusing : State (List Text)
refusing = record noting { on_gateway_port_change = refuse ∷ [] }

-- The hook that was registered last runs first.
reverse_order : notify_config noting [] ≡ (none, codes "80" ∷ [] ∷ [])
unfolding notify_config
reverse_order = refl

registered_hook :
    add_config_hook note_domain (add_config_hook note_port new_state)
    ≡ record noting { settings = no_settings }
unfolding add_config_hook new_state
registered_hook = refl
