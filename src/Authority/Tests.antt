-- ===== src/Authority/Tests.antt =====
-- A certificate for "nimo.lan" on a store of files whose blocks are prefixed by the length of their
-- kind, and whose certificates are their subjects.
use nimo_os_gateway.Base.{
  ℕ, ◌≡◌, ◌≢◌, refl, sym, ap, ◌∙◌, Bool, true, false, Option, none, some, [], ◌∷◌, ◌++◌, Text,
  codes, Error, Result, ok, err, Act, Dict, lookup, insert, lookup-insert, same, same_refl,
  same-false_iff, length, take, drop, split,
}
use nimo_os_gateway.Gateways.{Host, Certificate, needs_generation}
use nimo_os_gateway.Authority.{Signer, Template, generate_self_signed_cert}
use nimo_os_gateway.Paths.{join_path, clean, resolve}
use nimo_os_gateway.Authority.Broken.{generate-no_key}
use nimo_os_gateway.Authority.Renewal.{generate-needs_generation}

take-length : (a b : Text) → take (length a) (a ++ b) ≡ a
take-length [] b = refl
take-length (x ∷ a) b = ap (◌∷◌ x) (take-length a b)

drop-length : (a b : Text) → drop (length a) (a ++ b) ≡ b
drop-length [] b = refl
drop-length (x ∷ a) b = drop-length a b

abbrev block : Text → Text → Text
block kind bytes = length kind ∷ (kind ++ bytes)

abbrev read_block : Text → Option (Text × Text)
read_block [] = none
read_block (n ∷ content) = some (take n content, drop n content)

read_block-block : (kind bytes : Text) → read_block (block kind bytes) ≡ some (kind, bytes)
read_block-block kind bytes = rw (take-length kind bytes, drop-length kind bytes) refl

abbrev read_found : Option Text → Result Text
read_found none = err (codes "no such file")
read_found (some content) = ok content

abbrev is_absent : Option Text → Bool
is_absent none = true
is_absent (some content) = false

abbrev named : Text → Certificate
named name = record { common_name = name; not_before = 0; not_after = 10 }

abbrev small_host : Host
small_host = record {
  Sys = Dict Text;
  listen = λ addr s. (ok addr, s);
  fetch = λ url s. ((some 200, none), s);
  is_missing = λ path s. is_absent (lookup path s);
  read_file = λ path s. read_found (lookup path s);
  pem_decode = read_block;
  parse_certificate = λ der. ok (named der);
  now = λ s. 5;
  config_path = codes "/etc/nimoos";
}

abbrev write_block : (path kind bytes : Text) → Act (Dict Text)
write_block path kind bytes s = (none, insert path (block kind bytes) s)

abbrev sign_name :
    Template → Option Certificate → (subject issuer : ℕ) → Dict Text → Result Text × Dict Text
sign_name t issuer k j s = (ok t.common_name, s)

ok-injective {ℓ} : {A : Type ℓ} {a b : A} → ok a ≡ ok b → a ≡ b
ok-injective e = cc

sign_name-signed :
    (t : Template) (issuer : Option Certificate) (k j : ℕ) (s s' : Dict Text) (der : Text)
    → sign_name t issuer k j s ≡ (ok der, s')
    → (cert : Certificate) × (small_host.parse_certificate der ≡ ok cert)
      × (cert.common_name ≡ t.common_name)
sign_name-signed t issuer k j s s' der e =
    (named der, refl, sym (ok-injective (ap (λ (r : Result Text × Dict Text). r.0) e)))

write_block-encoded :
    (path kind bytes : Text) (s s' : Dict Text)
    → write_block path kind bytes s ≡ (none, s')
    → (content : Text) × (small_host.read_file path s' ≡ ok content)
      × (read_block content ≡ some (kind, bytes))
write_block-encoded path kind bytes s s' e = (
  block kind bytes,
  ap (λ (r : Option Error × Dict Text). small_host.read_file path r.1) (sym e)
      ∙ rw (lookup-insert path path (block kind bytes) s, same_refl path) refl,
  read_block-block kind bytes,
)

insert_keeps :
    (path other content : Text) (s : Dict Text)
    → path ≢ other
    → small_host.read_file path (insert other content s) ≡ small_host.read_file path s
insert_keeps path other content s ne =
    rw (lookup-insert other path content s, (same-false_iff other path).1 (λ e. ne (sym e))) refl

abbrev small_signer : Signer small_host
small_signer = record {
  Key = ℕ;
  generate_key = λ s. (ok 1, s);
  random_serial = λ s. (ok 2, s);
  sign = sign_name;
  marshal_key = λ k. ok (codes "key");
  parse_key = λ bytes. ok 1;
  parse_ip = λ t. none;
  interfaces = λ s. ok [];
  dir = λ path. codes "/etc/nimoos/certs";
  mkdir_all = λ path s. (none, s);
  create = λ path s. (none, insert path [] s);
  open_key = λ path s. (none, insert path [] s);
  encode = write_block;
  signed = sign_name-signed;
  encoded = write_block-encoded;
  encode_keeps = λ path other kind bytes s ne. insert_keeps path other (block kind bytes) s ne;
  open_keeps = λ path other s ne. insert_keeps path other [] s ne;
}

abbrev crt : Text
crt = codes "/etc/nimoos/certs/gateway.crt"

abbrev key : Text
key = codes "/etc/nimoos/certs/gateway.key"

abbrev generated : Dict Text
generated = (generate_self_signed_cert small_signer crt key (codes "nimo.lan") []).1

succeeds : generate_self_signed_cert small_signer crt key (codes "nimo.lan") [] ≡ (none, generated)
unfolding generate_self_signed_cert lookup
succeeds = refl

crt-ne-key : crt ≢ key
unfolding same
crt-ne-key = (same-false_iff crt key).0 refl

generate-needs_generation_example :
    needs_generation small_host crt (codes "/etc/nimoos/certs/ca.crt") (codes "nimo.lan") generated
    ≡ true
generate-needs_generation_example =
    generate-needs_generation small_signer crt key (codes "/etc/nimoos/certs/ca.crt")
      (codes "nimo.lan") [] generated crt-ne-key (cc) succeeds

-- The certificate of the authority alone.
abbrev half : Dict Text
half = (codes "/etc/nimoos/certs/ca.crt", block (codes "CERTIFICATE") (codes "ca")) ∷ []

generate-no_key_example :
    ((generate_self_signed_cert small_signer crt key (codes "nimo.lan") half).0 ≢ none)
    × ((generate_self_signed_cert small_signer crt key (codes "nimo.lan") half).1 ≡ half)
unfolding lookup same join_path clean resolve split
generate-no_key_example =
    generate-no_key small_signer crt key (codes "nimo.lan") half (codes "no such file") refl refl
