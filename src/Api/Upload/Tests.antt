-- ===== src/Api/Upload/Tests.antt =====
-- Uploads to a store of files that holds a working pair, with a key that does not fit.
use nimo_os_gateway.Base.{
  ◌≡◌, refl, true, none, some, [], ◌∷◌, Text, codes, Error, Result, ok, Dict, split, insert, remove,
  same,
}
use nimo_os_gateway.State.{
  Settings, no_settings, set_ssl_config, set_ssl_enabled, set_ssl_port, set_ssl_domain,
  set_ssl_cert_type, notify_config,
}
use nimo_os_gateway.State.Setters.{with_ssl}
use nimo_os_gateway.Paths.{join_path, resolve}
use nimo_os_gateway.Management.Tests.{one_file, start}
use nimo_os_gateway.Gateway.{Request}
use nimo_os_gateway.Api.{Process}
use nimo_os_gateway.Api.Upload.{Files, certs_dir, store_pair, bad_pair, upload}
use nimo_os_gateway.Api.Upload.Outcomes.{KeepsSettings, upload-KeepsSettings}

abbrev mismatch : Error
mismatch = codes "private key does not match public key"

abbrev uploaded : Text → Request → Result Text
uploaded name r = ok name

abbrev small_files : Files (Dict Text)
small_files = record {
  Upload = Text;
  form_file = uploaded;
  read_upload = λ u. ok u;
  mkdir_all = λ dir w. (none, w);
  create = λ path w. (none, insert path [] w);
  copy = λ path content w. (none, insert path content w);
  load_key_pair = λ crt key w. some mismatch;
  remove = λ path w. (none, remove path w);
  config_path = codes "/etc/nimoos";
}

abbrev fitting_files : Files (Dict Text)
fitting_files = record small_files { load_key_pair = λ crt key w. none }

abbrev with_https : Settings
with_https = with_ssl true (codes "443") (codes "nas") (codes "auto") no_settings

abbrev process : Process one_file (Dict Text)
process = record {
  table = start;
  disk = codes "[]";
  state = record {
    settings = with_https;
    on_gateway_port_change = [];
    on_gateway_config_change = [];
  };
  world = (codes "/etc/nimoos/certs/gateway.crt", codes "old") ∷ [];
}

abbrev form : Request
form = record {
  method = codes "POST";
  path = codes "/v1/gateway/ssl/upload";
  remote_addr = codes "127.0.0.1:5000";
  headers = [];
}

-- The answer is 400, and the pair that worked is gone.
destroyed : upload small_files form process ≡ (bad_pair mismatch, record process { world = [] })
unfolding upload store_pair insert remove same certs_dir join_path split resolve
destroyed = refl

-- With a key that fits, the type becomes "custom".
upload-KeepsSettings_example : KeepsSettings process (upload fitting_files form process)
upload-KeepsSettings_example = upload-KeepsSettings fitting_files form process

becomes_custom :
    (upload fitting_files form process).1.state.settings
    ≡ record with_https { ssl_cert_type = codes "custom" }
unfolding upload store_pair set_ssl_config set_ssl_enabled set_ssl_port set_ssl_domain
    set_ssl_cert_type notify_config
becomes_custom = refl
