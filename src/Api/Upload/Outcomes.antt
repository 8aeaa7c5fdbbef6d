-- ===== src/Api/Upload/Outcomes.antt =====
-- What an upload leaves behind.
use nimo_os_gateway.Base.{
  ◌≡◌, refl, sym, ap, ◌∙◌, ◌⊎◌, inl, inr, true, Option, none, some, Text, Error, Result, ok, err,
  if_intro,
}
use nimo_os_gateway.State.{Settings, State, set_ssl_config}
use nimo_os_gateway.State.Setters.{set_ssl_config-stages}
use nimo_os_gateway.Management.{Surroundings}
use nimo_os_gateway.Gateway.{Request}
use nimo_os_gateway.Api.{Process, Reply, settled}
use nimo_os_gateway.Api.Upload.{
  Files, custom, crt_path, key_path, use_pair, check_pair, stored, store_texts, store_uploads,
  upload,
}

-- The settings are the old ones, or the old ones with the certificate type "custom".
abbrev pub IsOldOrCustom : Settings → Settings → Type 0
IsOldOrCustom s t = (t ≡ s) ⊎ (t ≡ record s { ssl_cert_type = custom })

module _ {W : Type 0} where
  stages-IsOldOrCustom :
      (c : State W) (w : W)
      → c.settings.ssl_enabled ≡ true
      → IsOldOrCustom c.settings
          (set_ssl_config true c.settings.ssl_port c.settings.ssl_domain custom c w).1.settings
  stages-IsOldOrCustom c w on =
      elim (set_ssl_config-stages true c.settings.ssl_port c.settings.ssl_domain custom c w) [
        | inl e ↦ inl (e ∙ ap (λ b. record (c.settings) { ssl_enabled = b }) (sym on))
        | inr (inl e) ↦ inl (e ∙ ap (λ b. record (c.settings) { ssl_enabled = b }) (sym on))
        | inr (inr (inl e)) ↦ inl (e ∙ ap (λ b. record (c.settings) { ssl_enabled = b }) (sym on))
        | inr (inr (inr (inl e))) ↦
            inr (
              e
              ∙ ap (λ b. record (c.settings) { ssl_enabled = b; ssl_cert_type = custom }) (sym on))
        | inr (inr (inr (inr f))) ↦ absurd f
      ]

module _ {env : Surroundings} {W : Type 0} where
  abbrev pub KeepsSettings : Process env W → Reply × Process env W → Type 0
  KeepsSettings p r =
      IsOldOrCustom p.state.settings r.1.state.settings
      × (r.1.table ≡ p.table)
      × (r.1.disk ≡ p.disk)

  settled-KeepsSettings :
      (p : Process env W) (r : Option Error × State W × W)
      → IsOldOrCustom p.state.settings r.1.settings
      → KeepsSettings p (settled p r)
  settled-KeepsSettings p (none, c, w) h = (h, refl, refl)
  settled-KeepsSettings p (some e, c, w) h = (h, refl, refl)

  use_pair-KeepsSettings : (p : Process env W) → KeepsSettings p (use_pair p)
  use_pair-KeepsSettings p =
      if_intro (KeepsSettings p) p.state.settings.ssl_enabled _ _
        (λ on. settled-KeepsSettings p _ (stages-IsOldOrCustom p.state p.world on))
        (λ off. (inl refl, refl, refl))

module _ {env : Surroundings} {W : Type 0} (files : Files W) where
  open files use {form_file, read_upload, load_key_pair}

  check_pair-KeepsSettings :
      (o : Option Error) (p : Process env W) → KeepsSettings p (check_pair files o p)
  check_pair-KeepsSettings none p = use_pair-KeepsSettings p
  check_pair-KeepsSettings (some e) p = (inl refl, refl, refl)

  stored-KeepsSettings :
      (p : Process env W) (r : Option Error × W) → KeepsSettings p (stored files p r)
  stored-KeepsSettings p (some e, w) = (inl refl, refl, refl)
  stored-KeepsSettings p (none, w) =
      check_pair-KeepsSettings (load_key_pair (crt_path files) (key_path files) w)
        (record p { world = w })

  store_texts-KeepsSettings :
      (p : Process env W) (crt key : Result Text) → KeepsSettings p (store_texts files p crt key)
  store_texts-KeepsSettings p (err e) key = (inl refl, refl, refl)
  store_texts-KeepsSettings p (ok crt) (err e) = (inl refl, refl, refl)
  store_texts-KeepsSettings p (ok crt) (ok key) = stored-KeepsSettings p _

  store_uploads-KeepsSettings :
      (p : Process env W) (crt key : Result files.Upload)
      → KeepsSettings p (store_uploads files p crt key)
  store_uploads-KeepsSettings p (err e) key = (inl refl, refl, refl)
  store_uploads-KeepsSettings p (ok crt) (err e) = (inl refl, refl, refl)
  store_uploads-KeepsSettings p (ok crt) (ok key) = store_texts-KeepsSettings p _ _

  -- However an upload ends, the table of routes and its file stay as they were, and of the settings
  -- at most the certificate type changes, to "custom".
  pub upload-KeepsSettings : (r : Request) (p : Process env W) → KeepsSettings p (upload files r p)
  unfolding upload
  upload-KeepsSettings r p = store_uploads-KeepsSettings p _ _
