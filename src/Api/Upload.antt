-- ===== src/Api/Upload.antt =====
-- route/management_route.go: `POST /v1/gateway/ssl/upload`. The form, the files and the check of the
-- key pair are parameters; they act on the world of the hooks.
pub mod Outcomes
mod Tests
use nimo_os_gateway.Base.{
  Bool, true, false, Option, none, some, ◌++◌, ◌≡◌, Text, codes, Error, Result, ok, err, Act, ◌>>◌,
  if◌then◌else◌,
}
use nimo_os_gateway.Paths.{join_path}
use nimo_os_gateway.State.{Settings, State, set_ssl_config}
use nimo_os_gateway.Management.{Surroundings}
use nimo_os_gateway.Gateway.{Request}
use nimo_os_gateway.Api.{
  Process, Reply, Handler, reply, result, failed, refused, finished, client_error, settled,
}

-- The form, the files and the check of a key pair.
pub record Files (W : Type 0) : Type 1 where
  pub Upload : Type 0
  pub form_file : Text → Request → Result Upload
  pub read_upload : Upload → Result Text
  pub mkdir_all : Text → Act W
  pub create : Text → Act W
  pub copy : (path content : Text) → Act W
  pub load_key_pair : (crt key : Text) → W → Option Error
  pub remove : Text → Act W
  pub config_path : Text

abbrev pub custom : Text
custom = codes "custom"

abbrev pub bad_pair : Error → Reply
bad_pair e = refused (codes "invalid certificate and key pair: " ++ e)

module _ {W : Type 0} (files : Files W) where
  open files use {Upload, form_file, mkdir_all, create, copy, config_path}

  unfoldable pub certs_dir : Text
  unfolding join_path
  certs_dir = join_path config_path (codes "certs")

  abbrev pub crt_path : Text
  crt_path = join_path certs_dir (codes "gateway.crt")

  abbrev pub key_path : Text
  key_path = join_path certs_dir (codes "gateway.key")

  -- Both files are overwritten before anything is checked.
  unfoldable pub store_pair : (crt key : Text) → Act W
  store_pair crt key =
      mkdir_all certs_dir
      >> create crt_path
      >> copy crt_path crt
      >> create key_path
      >> copy key_path key

  abbrev pub or_key : Request → Result Upload → Result Upload
  or_key r (ok key) = ok key
  or_key r (err e) = form_file (codes "key") r

module _ {env : Surroundings} {W : Type 0} where
  abbrev with_world : Process env W → W → Process env W
  with_world p w = record p { world = w }

  -- `if m.management.GetSSLEnabled() { … "custom" … }`
  abbrev use_pair : Process env W → Reply × Process env W
  use_pair p =
      let s = p.state.settings in
      let changed =
        settled p (set_ssl_config true s.ssl_port s.ssl_domain custom p.state p.world) in
      if s.ssl_enabled then changed else (finished, p)

module _ {env : Surroundings} {W : Type 0} (files : Files W) where
  open files use {Upload, form_file, read_upload, load_key_pair, remove}

  -- Both are removed when they do not fit; the errors of the removals are not looked at.
  abbrev check_pair : Option Error → Process env W → Reply × Process env W
  check_pair none p = use_pair p
  check_pair (some e) p =
      (bad_pair e, with_world p (remove (key_path files) (remove (crt_path files) p.world).1).1)

  abbrev stored : Process env W → Option Error × W → Reply × Process env W
  stored p (some e, w) = (failed e, with_world p w)
  stored p (none, w) =
      check_pair (load_key_pair (crt_path files) (key_path files) w) (with_world p w)

  abbrev store_texts : Process env W → Result Text → Result Text → Reply × Process env W
  store_texts p (err e) key = (failed e, p)
  store_texts p (ok crt) (err e) = (failed e, p)
  store_texts p (ok crt) (ok key) = stored p (store_pair files crt key p.world)

  abbrev store_uploads : Process env W → Result Upload → Result Upload → Reply × Process env W
  store_uploads p (err e) key = (refused (codes "missing 'crt' file: " ++ e), p)
  store_uploads p (ok crt) (err e) = (refused (codes "missing 'pem' or 'key' file: " ++ e), p)
  store_uploads p (ok crt) (ok key) = store_texts p (read_upload crt) (read_upload key)

  -- `POST /v1/gateway/ssl/upload`
  unfoldable pub upload : Handler (Process env W)
  unfolding store_pair set_ssl_config
  upload r p =
      store_uploads p (form_file (codes "crt") r) (or_key files r (form_file (codes "pem") r))
