-- ===== src/Components.antt =====
-- service/components.go: the status of every component, for `GET /v1/gateway/components`.
-- The network, the files, JSON and the clock are parameters of the moment at which a probe looks.
pub mod Statuses
pub mod Orders
pub mod Tests
use mathlib.Core.Option
use nimo_os_gateway.Base.{
  ℕ, Bool, true, false, not, ◌&&◌, ◌||◌, Option, none, some, List, [], ◌∷◌, ◌++◌, map, Text, codes,
  same, trim_right, Error, Result, ok, err, length, replicate, set, get_elem?, ◌==◌, if◌then◌else◌,
}
use nimo_os_gateway.Paths.{slash, join_path}
use nimo_os_gateway.State.{Settings}
use nimo_os_gateway.Management.{Management, resolve_target}

pub data Category : Type 0 where
  service external ui : Category

pub data Status : Type 0 where
  unset online offline : Status

pub record ComponentStatus : Type 0 where
  pub name : Text
  pub category : Option Category
  pub version : Text
  pub status : Status
  pub error : Text
  pub probed_at : Text

-- the zero value, which `make` fills a slice with
abbrev pub zero_status : ComponentStatus
zero_status = record {
  name = [];
  category = none;
  version = [];
  status = unset;
  error = [];
  probed_at = [];
}

pub record ComponentSpec : Type 0 where
  pub name : Text
  pub category : Category
  pub version_path : Text
  pub url_file : Text
  pub local : Bool

abbrev registered_at : Text → Text → ComponentSpec
registered_at name path = record {
  name = name;
  category = service;
  version_path = path;
  url_file = [];
  local = false;
}

unfoldable pub component_manifest : List ComponentSpec
component_manifest =
    record {
      name = codes "Gateway";
      category = service;
      version_path = [];
      url_file = [];
      local = true;
    }
    ∷ registered_at (codes "NimoOS Core") (codes "/v1/sys/component/version")
    ∷ registered_at (codes "App Management") (codes "/v1/apps/version")
    ∷ registered_at (codes "User Service") (codes "/v1/users/version")
    ∷ registered_at (codes "Local Storage") (codes "/v1/storage/version")
    ∷ registered_at (codes "Message Bus") (codes "/v2/message_bus/version")
    ∷ registered_at (codes "AI") (codes "/v1/ai/version")
    ∷ registered_at (codes "Search") (codes "/v1/search/version")
    ∷ registered_at (codes "Wiki") (codes "/v1/wiki/version")
    ∷ registered_at (codes "Photos") (codes "/v1/photos/version")
    ∷ registered_at (codes "Terminal") (codes "/v1/terminal/version")
    ∷ record (registered_at (codes "Parser") (codes "/v1/parser/version")) {
      url_file = codes "parser.url";
    }
    ∷ []

abbrev pub version : Text
version = codes "dev"

pub record Response : Type 0 where
  pub status : ℕ
  pub body : Text

-- What a probe sees. `version_of` decodes a `{version}` object; `string_at` gives the string at a
-- key of an object, if there is one.
pub record Moment : Type 0 where
  pub get : Text → Result Response
  pub docker_get : (socket url : Text) → Result Response
  pub read_file : Text → Result Text
  pub version_of : Text → Result Text
  pub docker_version_of : Text → Result Text
  pub string_at : (key body : Text) → Result (Option Text)
  pub status_text : ℕ → Text
  pub trim_space : Text → Text
  pub now : Text

module _ (m : Moment) where
  open m use {
    get, docker_get, read_file, version_of, docker_version_of, string_at, status_text, trim_space,
    now,
  }

  -- `httpStatusError`
  abbrev pub status_error : ℕ → Error
  status_error code = codes "unexpected status " ++ status_text code

  abbrev on_ok : {A : Type 0} → (Text → Result A) → Result Response → Result A
  on_ok decode (err e) = err e
  on_ok decode (ok r) = if not (r.status == 200) then err (status_error r.status) else decode r.body

  -- `probeVersion`
  unfoldable pub probe_version : Text → Result Text
  probe_version url = on_ok version_of (get url)

  abbrev or_blank : Result (Option Text) → Result Text
  or_blank (err e) = err e
  or_blank (ok none) = ok []
  or_blank (ok (some v)) = ok v

  -- `probeJSONVersion`
  unfoldable pub probe_json_version : (url key : Text) → Result Text
  probe_json_version url key = or_blank (on_ok (string_at key) (get url))

  -- `probeReachable`; the version of what is reachable stays blank
  unfoldable pub probe_reachable : Text → Result Text
  probe_reachable url = on_ok (λ body. ok []) (get url)

  -- `probeDockerVersion`
  unfoldable pub probe_docker_version : Text → Result Text
  probe_docker_version socket =
      on_ok docker_version_of (docker_get socket (codes "http://unix/version"))

  abbrev trimmed : Result Text → Text
  trimmed (ok content) = trim_space content
  trimmed (err e) = []

  -- `readURLFile`
  unfoldable pub read_url_file : Text → Text
  read_url_file path = trimmed (read_file path)

  abbrev pub row : Text → Category → ComponentStatus
  row name category = record zero_status { name = name; category = some category; probed_at = now }

  abbrev pub is_online : Text → ComponentStatus → ComponentStatus
  is_online v cs = record cs { status = online; version = v }

  abbrev pub is_offline : Error → ComponentStatus → ComponentStatus
  is_offline e cs = record cs { status = offline; error = e }

  abbrev pub rated : ComponentStatus → Result Text → ComponentStatus
  rated cs (ok v) = is_online v cs
  rated cs (err e) = is_offline e cs

  -- The base URL, or why there is none.
  abbrev found_base : Error → Text → Result Text
  found_base e [] = err e
  found_base e (c ∷ base) = ok (c ∷ base)

  abbrev and_probe : Text → Result Text → Result Text
  and_probe path (err e) = err e
  and_probe path (ok base) = probe_version (trim_right slash base ++ path)

  module _ {Url : Type 0} (g : Management Url) (c : Settings) where
    unfoldable pub base_of : ComponentSpec → Result Text
    unfolding resolve_target read_url_file join_path
    base_of spec =
        if not (same spec.url_file [])
        then found_base (codes "discovery file not found: " ++ spec.url_file)
            (read_url_file (join_path c.runtime_path spec.url_file))
        else found_base (codes "not registered") (resolve_target g spec.version_path)

    -- `probeComponent`
    unfoldable pub probe_component : ComponentSpec → ComponentStatus
    unfolding base_of probe_version
    probe_component spec =
        if spec.local
        then is_online version (row spec.name spec.category)
        else rated (row spec.name spec.category) (and_probe spec.version_path (base_of spec))

    abbrev ui_version : Result Text → Result Text
    ui_version (err e) = err (codes "version.json unreadable")
    ui_version (ok []) = err (codes "version.json unreadable")
    ui_version (ok (d ∷ v)) = ok (d ∷ v)

    abbrev ui_file : Result Text → Result Text
    ui_file (err e) = err (codes "version.json not found")
    ui_file (ok content) = ui_version (version_of content)

    -- `probeUI`
    unfoldable pub probe_ui : ComponentStatus
    unfolding join_path
    probe_ui =
        rated (row (codes "NimoOS UI") ui)
          (ui_file (read_file (join_path c.www_path (codes "version.json"))))

    -- `probeExternal`
    unfoldable pub probe_external : List ComponentStatus
    unfolding probe_json_version probe_reachable probe_docker_version
    probe_external =
        rated (row (codes "Qdrant") external)
          (probe_json_version (trim_right slash c.qdrant_url ++ codes "/") (codes "version"))
        ∷ rated (row (codes "Ollama") external) (
            probe_json_version (trim_right slash c.ollama_url ++ codes "/api/version")
              (codes "version"))
        ∷ rated (row (codes "Docker") external) (probe_docker_version c.docker_socket)
        ∷ rated (row (codes "Photos ML") external)
            (probe_reachable (trim_right slash c.photos_ml_url ++ codes "/ping"))
        ∷ []

    -- Each index of the loop is one of the manifest's; another one would write nothing.
    abbrev write_row : ℕ → Option ComponentSpec → List ComponentStatus → List ComponentStatus
    write_row i none out = out
    write_row i (some spec) out = set out i (probe_component spec)

    -- The goroutines, in the order in which they write their rows.
    unfoldable pub write_rows :
        List ComponentSpec → List ℕ → List ComponentStatus → List ComponentStatus
    write_rows specs [] out = out
    write_rows specs (i ∷ order) out = write_rows specs order (write_row i (get_elem? specs i) out)

    -- `GetComponents`, for one order of the goroutines
    unfoldable pub get_components : List ℕ → List ComponentStatus
    unfolding write_rows component_manifest probe_ui probe_external
    get_components order =
        write_rows component_manifest order (replicate (length component_manifest) zero_status)
        ++ probe_ui ∷ probe_external
