-- ===== src/Startup/Config/Defaults.antt =====
-- The defaults of the configuration, for the keys that its file leaves out.
use nimo_os_gateway.Base.{
  ◌≡◌, ◌≢◌, refl, sym, ◌∙◌, inl, inr, ap, Bool, none, some, List, [], ◌∷◌, Text, All, All-In, In,
  ok, arith,
}
use nimo_os_gateway.Startup.{Viper, Value, text, flag, World, ConfigKey}
use nimo_os_gateway.Startup.Config.{Loader, default_values, set_all, defaults, load_config}

-- Each key stands once.
abbrev IsUnique : List (ConfigKey × Value) → Type 0
IsUnique [] = Unit
IsUnique ((k, x) ∷ ds) = All (λ (d : ConfigKey × Value). k ≢ d.0) ds × IsUnique ds

module _ {v : Viper} (loader : Loader v) where
  open loader use {get_string, get_bool}

  get-set_all_ne :
      (k : ConfigKey) (ds : List (ConfigKey × Value)) (c : v.Config)
      → All (λ (d : ConfigKey × Value). k ≢ d.0) ds
      → v.get k (set_all loader ds c) ≡ v.get k c
  unfolding set_all
  get-set_all_ne k [] c h = refl
  get-set_all_ne k ((j, x) ∷ ds) c (ne, h) =
      get-set_all_ne k ds (loader.set_default j x c) h ∙ loader.default_ne j k x c ne

  get-set_all :
      (k : ConfigKey) (x : Value) (ds : List (ConfigKey × Value)) (c : v.Config)
      → IsUnique ds
      → In (k, x) ds
      → v.get k c ≡ none
      → v.get k (set_all loader ds c) ≡ some x
  unfolding set_all
  get-set_all k x [] c u m unset = absurd m
  get-set_all k x ((j, y) ∷ ds) c (first, u) (inl e) unset =
      let key : k ≡ j = ap (λ (d : ConfigKey × Value). d.0) e in
      let value : x ≡ y = ap (λ (d : ConfigKey × Value). d.1) e in
      rw (key, value)
        (get-set_all_ne j ds (loader.set_default j y c) first
          ∙ loader.default_self j y c (rw key at unset))
  get-set_all k x ((j, y) ∷ ds) c (first, u) (inr m) unset =
      let ne = All-In (λ (d : ConfigKey × Value). j ≢ d.0) ds first (k, x) m in
      get-set_all k x ds (loader.set_default j y c) u m
        (loader.default_ne j k y c (λ e. ne (sym e)) ∙ unset)

  default_values-IsUnique : IsUnique (default_values loader)
  default_values-IsUnique = ground arith

  get-defaults :
      (k : ConfigKey) (x : Value)
      → In (k, x) (default_values loader)
      → v.get k (defaults loader) ≡ some x
  unfolding defaults
  get-defaults k x m =
      get-set_all k x (default_values loader) loader.new default_values-IsUnique m
        (loader.get-new k)

  -- A configuration that was loaded has the default of every key that the file leaves out, if the
  -- key has a text as its default.
  pub load_config-default :
      (w : World v) (config : v.Config) (k : ConfigKey) (t : Text)
      → load_config loader w ≡ ok config
      → v.get k w.file ≡ none
      → In (k, text t) (default_values loader)
      → get_string k config ≡ t
  unfolding load_config
  load_config-default w config k t read absent m =
      loader.read_default_text _ _ _ _ config w k t read absent (get-defaults k (text t) m)

  -- The same holds of a flag.
  load_config-default_flag :
      (w : World v) (config : v.Config) (k : ConfigKey) (b : Bool)
      → load_config loader w ≡ ok config
      → v.get k w.file ≡ none
      → In (k, flag b) (default_values loader)
      → get_bool k config ≡ b
  unfolding load_config
  load_config-default_flag w config k b read absent m =
      loader.read_default_flag _ _ _ _ config w k b read absent (get-defaults k (flag b) m)
