-- ===== src/Gateways.antt =====
-- main.go: starting, replacing and stopping the HTTP and HTTPS servers of the gateway.
-- The network, the clock, the files and x509 are parameters; `generate` stands for
-- `GenerateSelfSignedCert`, which Authority models.
pub mod Servers
pub mod Reload
pub mod Certificates
pub mod Tests
use nimo_os_gateway.Base.{
  ℕ, ◌+◌, ◌*◌, Bool, true, false, not, ◌&&◌, ◌||◌, Option, none, some, List, [], ◌∷◌, ◌++◌, Text,
  codes, same, ltb, Error, Result, ok, err, Act, if◌then◌else◌,
}
use nimo_os_gateway.Paths.{join_path}
use nimo_os_gateway.Addresses.{split_host_port, join_host_port}
use nimo_os_gateway.Probes.{
  Ended, returned, panicked, running, Fetched, check_url_with_retry, check_https_url_with_retry,
}
use nimo_os_gateway.State.{Settings}

pub record Certificate : Type 0 where
  pub common_name : Text
  pub not_before : ℕ
  pub not_after : ℕ

-- `Sys` is the state of the network and the files; times are in seconds.
pub record Host : Type 1 where
  pub Sys : Type 0
  pub listen : Text → Sys → Result Text × Sys
  pub fetch : Text → Sys → Fetched × Sys
  pub is_missing : Text → Sys → Bool
  pub read_file : Text → Sys → Result Text
  pub pem_decode : Text → Option (Text × Text)
  pub parse_certificate : Text → Result Certificate
  pub now : Sys → ℕ
  pub config_path : Text

-- `_gateway` and `_sslGateway`, each by the address of its server, all servers that were started,
-- and those that were told to shut down.
pub record Gateways : Type 0 where
  pub gateway : Option Text
  pub ssl_gateway : Option Text
  pub started : List Text
  pub stopping : List Text

-- Whether a server runs on a port.
abbrev pub port_matches : Text → Result (Text × Text) → Bool
port_matches port (ok (host, p)) = same p port
port_matches port (err e) = false

unfoldable pub runs_on : Option Text → Text → Bool
unfolding split_host_port
runs_on none port = false
runs_on (some addr) port = port_matches port (split_host_port addr)

abbrev pub add_old : Option Text → List Text → List Text
add_old none rest = rest
add_old (some addr) rest = addr ∷ rest

abbrev use_http : Text → Gateways → Gateways
use_http addr g = record g { gateway = some addr; stopping = add_old g.gateway g.stopping }

abbrev use_https : Text → Gateways → Gateways
use_https addr g = record g { ssl_gateway = some addr; stopping = add_old g.ssl_gateway g.stopping }

unfoldable pub stop_http : Gateways → Gateways
stop_http g = record g { gateway = none; stopping = add_old g.gateway g.stopping }

unfoldable pub stop_https : Gateways → Gateways
stop_https g = record g { ssl_gateway = none; stopping = add_old g.ssl_gateway g.stopping }

abbrev pub crt_type : Text
crt_type = codes "CERTIFICATE"

abbrev pub ten_years : ℕ
ten_years = 365 * 24 * 3600 * 10

module _ (host : Host) where
  open host use {Sys, listen, fetch, is_missing, read_file, pem_decode, parse_certificate, now}

  abbrev pub Outcome : Type 0
  Outcome = Ended × Gateways × Sys

  -- A new server replaces the old one only after its check has returned nil.
  abbrev pub when_checked : (Gateways → Gateways) → Gateways → Ended × Sys → Outcome
  when_checked swap g (returned none, s) = (returned none, swap g, s)
  when_checked swap g (returned (some e), s) = (returned (some e), g, s)
  when_checked swap g (panicked, s) = (panicked, g, s)
  when_checked swap g (running, s) = (running, g, s)

  abbrev when_listening :
      (Text → Gateways → Gateways) → (Sys → Ended × Sys) → Gateways → Result Text × Sys → Outcome
  when_listening swap check g (err e, s) = (returned (some e), g, s)
  when_listening swap check g (ok addr, s) =
      when_checked (swap addr) (record g { started = addr ∷ g.started }) (check s)

  unfoldable pub http_check : (fuel : ℕ) → (port : Text) → Sys → Ended × Sys
  unfolding check_url_with_retry
  http_check fuel port =
      check_url_with_retry (fetch (codes "http://127.0.0.1:" ++ port ++ codes "/ping")) fuel 10

  unfoldable pub https_check : (fuel : ℕ) → (port : Text) → Sys → Ended × Sys
  unfolding check_https_url_with_retry
  https_check fuel port =
      check_https_url_with_retry (fetch (codes "https://127.0.0.1:" ++ port ++ codes "/ping")) fuel
        10

  -- `reloadHTTPGateway`
  unfoldable pub reload_http_gateway : (fuel : ℕ) → (port : Text) → Gateways → Sys → Outcome
  unfolding runs_on join_host_port http_check
  reload_http_gateway fuel port g s =
      if runs_on g.gateway port
      then (returned none, g, s)
      else when_listening use_http (http_check fuel port) g (listen (join_host_port [] port) s)

  -- `reloadHTTPSGateway`
  unfoldable pub reload_https_gateway : (fuel : ℕ) → (port : Text) → Gateways → Sys → Outcome
  unfolding runs_on join_host_port https_check
  reload_https_gateway fuel port g s =
      if runs_on g.ssl_gateway port
      then (returned none, g, s)
      else when_listening use_https (https_check fuel port) g (listen (join_host_port [] port) s)

  -- `GetCertDates`: the certificate of a file, for its dates
  dates_of : Option (Text × Text) → Result (ℕ × ℕ)
  dates_of none = err (codes "failed to decode certificate PEM")
  dates_of (some (kind, bytes)) =
      if same kind crt_type
      then elim (parse_certificate bytes) [
        | ok cert ↦ ok (cert.not_before, cert.not_after)
        | err e ↦ err e
      ]
      else err (codes "failed to decode certificate PEM")

  unfoldable pub get_cert_dates : Text → Sys → Result (ℕ × ℕ)
  unfolding dates_of
  get_cert_dates path s = elim (read_file path s) [
    | ok content ↦ dates_of (pem_decode content)
    | err e ↦ err e
  ]

  -- `err == nil && cert.Subject.CommonName != domain`
  abbrev named_otherwise : Text → Result Certificate → Bool
  named_otherwise domain (ok cert) = not (same cert.common_name domain)
  named_otherwise domain (err e) = false

  abbrev block_named_otherwise : Text → Option (Text × Text) → Bool
  block_named_otherwise domain none = false
  block_named_otherwise domain (some (kind, bytes)) =
      named_otherwise domain (parse_certificate bytes)

  unfoldable pub has_other_name : Text → Text → Sys → Bool
  has_other_name path domain s = elim (read_file path s) [
    | ok content ↦ block_named_otherwise domain (pem_decode content)
    | err e ↦ false
  ]

  -- `time.Now().After(nb.Add(365 * 24 * time.Hour * 10))`, or no dates
  abbrev is_stale : ℕ → Result (ℕ × ℕ) → Bool
  is_stale time (err e) = true
  is_stale time (ok (not_before, not_after)) = ltb (not_before + ten_years) time

  unfoldable pub needs_generation : (cert_file ca_cert_file domain : Text) → Sys → Bool
  unfolding get_cert_dates has_other_name
  needs_generation cert_file ca_cert_file domain s =
      if is_missing cert_file s
      then true
      else if is_missing ca_cert_file s
      then true
      else if is_stale (now s) (get_cert_dates cert_file s)
      then true
      else has_other_name cert_file domain s

  unfoldable pub cert_dir : Text
  unfolding join_path
  cert_dir = join_path host.config_path (codes "certs")

  abbrev pub cert_file : Text
  cert_file = join_path cert_dir (codes "gateway.crt")

  abbrev pub key_file : Text
  key_file = join_path cert_dir (codes "gateway.key")

  abbrev pub ca_cert_file : Text
  ca_cert_file = join_path cert_dir (codes "ca.crt")

  module _ (generate : Text → Text → Text → Act Sys) where
    -- The certificate is made before the server starts, in the type "auto" alone.
    unfoldable pub prepare_certificate : Settings → Act Sys
    unfolding needs_generation
    prepare_certificate c s =
        if same c.ssl_cert_type (codes "auto")
        then if needs_generation cert_file ca_cert_file c.ssl_domain s
          then generate cert_file key_file c.ssl_domain s
          else (none, s)
        else (none, s)

    abbrev pub and_run : Outcome → (Gateways → Sys → Outcome) → Outcome
    and_run (returned none, g, s) k = k g s
    and_run (returned (some e), g, s) k = (returned (some e), g, s)
    and_run (panicked, g, s) k = (panicked, g, s)
    and_run (running, g, s) k = (running, g, s)

    abbrev with_gateways : Gateways → Option Error × Sys → Outcome
    with_gateways g (e, s) = (returned e, g, s)

    unfoldable pub reload_http : ℕ → Settings → Gateways → Sys → Outcome
    unfolding reload_http_gateway stop_http
    reload_http fuel c g s =
        if not (same c.gateway_port [])
        then reload_http_gateway fuel c.gateway_port g s
        else (returned none, stop_http g, s)

    unfoldable pub reload_https : ℕ → Settings → Gateways → Sys → Outcome
    unfolding reload_https_gateway stop_https prepare_certificate
    reload_https fuel c g s =
        if c.ssl_enabled && not (same c.ssl_port [])
        then and_run (with_gateways g (prepare_certificate c s))
            (reload_https_gateway fuel c.ssl_port)
        else (returned none, stop_https g, s)

    -- `reloadGateways`; `fuel` bounds the rounds of each check
    unfoldable pub reload_gateways : ℕ → Settings → Gateways → Sys → Outcome
    unfolding reload_http reload_https
    reload_gateways fuel c g s = and_run (reload_http fuel c g s) (reload_https fuel c)
