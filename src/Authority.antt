-- ===== src/Authority.antt =====
-- service/management.go, `GenerateSelfSignedCert`: the authority, and the certificate it signs.
-- Keys, serial numbers, signatures and the files are parameters.
pub mod Renewal
pub mod Broken
mod Tests
use nimo_os_gateway.Base.{
  ℕ, ◌+◌, ◌≡◌, ◌≢◌, Bool, true, false, not, Option, none, some, List, [], ◌∷◌, ◌++◌, Text, codes,
  Error, Result, ok, err, Act, ◌>>◌, if◌then◌else◌,
}
use nimo_os_gateway.Paths.{join_path}
use nimo_os_gateway.Gateways.{Host, Certificate, crt_type, ten_years}

-- `x509.Certificate` as a template; a key usage is left to what the certificate is for.
pub record Template : Type 0 where
  pub serial : ℕ
  pub common_name : Text
  pub not_before : ℕ
  pub not_after : ℕ
  pub is_ca : Bool
  pub dns_names : List Text
  pub ip_addresses : List Text

-- An address of an interface: its text, and whether it is loopback.
abbrev pub InterfaceAddr : Type 0
InterfaceAddr = Text × Bool

-- What the program relies on: a certificate has the subject of its template, an encoded block is
-- read back from the file, and a write to one file leaves the others alone.
pub record Signer (host : Host) : Type 1 where
  pub Key : Type 0
  pub generate_key : host.Sys → Result Key × host.Sys
  pub random_serial : host.Sys → Result ℕ × host.Sys
  -- the issuer is none for a certificate that signs itself
  pub sign :
      Template → Option Certificate → (subject issuer : Key) → host.Sys → Result Text × host.Sys
  pub marshal_key : Key → Result Text
  pub parse_key : Text → Result Key
  pub parse_ip : Text → Option Text
  pub interfaces : host.Sys → Result (List (Result (List InterfaceAddr)))
  pub dir : Text → Text
  pub mkdir_all : Text → Act host.Sys
  pub create : Text → Act host.Sys
  pub open_key : Text → Act host.Sys
  pub encode : (path kind bytes : Text) → Act host.Sys
  pub signed :
      (t : Template) (issuer : Option Certificate) (k j : Key) (s s' : host.Sys) (der : Text)
      → sign t issuer k j s ≡ (ok der, s')
      → (cert : Certificate) × (host.parse_certificate der ≡ ok cert)
        × (cert.common_name ≡ t.common_name)
  pub encoded :
      (path kind bytes : Text) (s s' : host.Sys)
      → encode path kind bytes s ≡ (none, s')
      → (content : Text) × (host.read_file path s' ≡ ok content)
        × (host.pem_decode content ≡ some (kind, bytes))
  pub encode_keeps :
      (path other kind bytes : Text) (s : host.Sys)
      → path ≢ other
      → host.read_file path (encode other kind bytes s).1 ≡ host.read_file path s
  pub open_keeps :
      (path other : Text) (s : host.Sys)
      → path ≢ other
      → host.read_file path (open_key other s).1 ≡ host.read_file path s

module _ {S : Type 0} where
  -- `v, err := m(); if err != nil { return err }`, in front of a value or of an error alone
  abbrev pub and_value : {A : Type 0} → Result A × S → (A → Act S) → Option Error × S
  and_value (ok a, s) k = k a s
  and_value (err e, s) k = (some e, s)

  abbrev pub bind_value : {A B : Type 0} → Result A × S → (A → S → Result B × S) → Result B × S
  bind_value (ok a, s) k = k a s
  bind_value (err e, s) k = (err e, s)

  abbrev pub then_value : {B : Type 0} → Option Error × S → (S → Result B × S) → Result B × S
  then_value (none, s) k = k s
  then_value (some e, s) k = (err e, s)

abbrev pub key_type : Text
key_type = codes "EC PRIVATE KEY"

abbrev pub local_name : Text
local_name = codes "NimoOS Local"

module _ {host : Host} (signer : Signer host) where
  open host use {Sys, is_missing, read_file, pem_decode, parse_certificate, now}
  open signer use {
    Key, generate_key, random_serial, sign, marshal_key, parse_key, parse_ip, interfaces, dir,
    mkdir_all, create, open_key, encode,
  }

  abbrev ca_template : ℕ → ℕ → Template
  ca_template serial time = record {
    serial = serial;
    common_name = codes "NimoOS-CA";
    not_before = time;
    not_after = time + ten_years;
    is_ca = true;
    dns_names = [];
    ip_addresses = [];
  }

  abbrev encode_key : Text → Result Text → Act Sys
  encode_key path (err e) s = (some e, s)
  encode_key path (ok bytes) s = encode path key_type bytes s

  abbrev parsed_with : Key → Result Certificate → Result (Certificate × Key)
  parsed_with k (err e) = err e
  parsed_with k (ok cert) = ok (cert, k)

  -- The branch with no `ca.crt`.
  unfoldable pub make_ca : (dir ca_crt ca_key : Text) → Sys → Result (Certificate × Key) × Sys
  make_ca dir ca_crt ca_key s = bind_value (generate_key s) λ k s.
      let time = now s in
      bind_value (random_serial s) λ serial s.
        bind_value (sign (ca_template serial time) none k k s) λ der s.
          then_value
            ((mkdir_all dir
                >> create ca_crt
                >> encode ca_crt crt_type der
                >> open_key ca_key
                >> encode_key ca_key (marshal_key k))
              s)
            λ s. (parsed_with k (parse_certificate der), s)

  abbrev with_key : Certificate → Result Key → Result (Certificate × Key)
  with_key cert (err e) = err e
  with_key cert (ok k) = ok (cert, k)

  abbrev key_block : Certificate → Option (Text × Text) → Result (Certificate × Key)
  key_block cert none = err (codes "failed to decode CA key PEM")
  key_block cert (some (kind, bytes)) = with_key cert (parse_key bytes)

  abbrev key_content : Certificate → Result Text → Result (Certificate × Key)
  key_content cert (err e) = err e
  key_content cert (ok content) = key_block cert (pem_decode content)

  abbrev load_key : Result Text → Result Certificate → Result (Certificate × Key)
  load_key content (err e) = err e
  load_key content (ok cert) = key_content cert content

  abbrev crt_block : Result Text → Option (Text × Text) → Result (Certificate × Key)
  crt_block key none = err (codes "failed to decode CA cert PEM")
  crt_block key (some (kind, bytes)) = load_key key (parse_certificate bytes)

  abbrev crt_content : Result Text → Result Text → Result (Certificate × Key)
  crt_content key (err e) = err e
  crt_content key (ok content) = crt_block key (pem_decode content)

  -- The branch that loads the authority.
  unfoldable pub load_ca : (ca_crt ca_key : Text) → Sys → Result (Certificate × Key) × Sys
  load_ca ca_crt ca_key s = (crt_content (read_file ca_key s) (read_file ca_crt s), s)

  unfoldable pub authority : (dir ca_crt ca_key : Text) → Sys → Result (Certificate × Key) × Sys
  unfolding make_ca load_ca
  authority dir ca_crt ca_key s =
      let made = make_ca dir ca_crt ca_key s in
      if is_missing ca_crt s then made else load_ca ca_crt ca_key s

  outside_addrs : List InterfaceAddr → List Text
  outside_addrs [] = []
  outside_addrs ((ip, loopback) ∷ as') =
      if loopback then outside_addrs as' else ip ∷ outside_addrs as'

  interface_addrs : List (Result (List InterfaceAddr)) → List Text
  unfolding outside_addrs
  interface_addrs [] = []
  interface_addrs (err e ∷ is) = interface_addrs is
  interface_addrs (ok as' ∷ is) = outside_addrs as' ++ interface_addrs is

  abbrev all_addrs : Result (List (Result (List InterfaceAddr))) → List Text
  all_addrs (err e) = []
  all_addrs (ok is) = interface_addrs is

  abbrev domain_ips : Option Text → List Text
  domain_ips none = []
  domain_ips (some ip) = ip ∷ []

  abbrev domain_names : Text → Option Text → List Text
  domain_names domain none = domain ∷ []
  domain_names domain (some ip) = []

  -- The certificate names the domain as an alternative, not as its subject.
  unfoldable pub server_template : (domain : Text) → (serial time : ℕ) → Sys → Template
  unfolding interface_addrs
  server_template domain serial time s = record {
    serial = serial;
    common_name = local_name;
    not_before = time;
    not_after = time + ten_years;
    is_ca = false;
    dns_names = domain_names domain (parse_ip domain) ++ codes "localhost" ∷ [];
    ip_addresses =
        domain_ips (parse_ip domain) ++ codes "127.0.0.1" ∷ codes "::1" ∷ all_addrs (interfaces s);
  }

  unfoldable pub write_pair : (crt key der : Text) → Key → Act Sys
  write_pair crt key der k =
      create crt >> encode crt crt_type der >> open_key key >> encode_key key (marshal_key k)

  unfoldable pub sign_server : (crt key domain : Text) → Certificate × Key → Act Sys
  unfolding server_template write_pair
  sign_server crt key domain (ca, ca_key) s = and_value (generate_key s) λ k s.
      let time = now s in
      and_value (random_serial s) λ serial s.
        and_value (sign (server_template domain serial time s) (some ca) k ca_key s)
          λ der s. write_pair crt key der k s

  -- `GenerateSelfSignedCert`
  unfoldable pub generate_self_signed_cert : (crt key domain : Text) → Act Sys
  unfolding authority sign_server join_path
  generate_self_signed_cert crt key domain s =
      and_value
        (authority (dir crt) (join_path (dir crt) (codes "ca.crt"))
          (join_path (dir crt) (codes "ca.key")) s)
        (sign_server crt key domain)
