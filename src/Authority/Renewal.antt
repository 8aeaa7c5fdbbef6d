-- ===== src/Authority/Renewal.antt =====
-- What a generated certificate means for the next reload.
use nimo_os_gateway.Base.{
  ◌≡◌, ◌≢◌, refl, sym, ap, ◌∙◌, true, Option, none, some, Text, Error, Result, ok, err, Act,
  and_then,
}
use nimo_os_gateway.Gateways.{Host, Certificate, crt_type, needs_generation}
use nimo_os_gateway.Gateways.Certificates.{needs_generation-named}
use nimo_os_gateway.Authority.{
  Signer, and_value, key_type, local_name, encode_key, server_template, write_pair, authority,
  sign_server, generate_self_signed_cert,
}

module _ {S : Type 0} where
  and_value-ok :
      {A : Type 0} (r : Result A × S) (k : A → Act S) (s' : S)
      → and_value r k ≡ (none, s')
      → (a : A) × (r ≡ (ok a, r.1)) × (k a r.1 ≡ (none, s'))
  and_value-ok (ok a, s) k s' h = (a, refl, h)
  and_value-ok (err e, s) k s' h = absurd (cc)

  and_then-none :
      (r : Option Error × S) (k : Act S) (s' : S)
      → and_then r k ≡ (none, s')
      → (r ≡ (none, r.1)) × (k r.1 ≡ (none, s'))
  and_then-none (none, s) k s' h = (refl, h)
  and_then-none (some e, s) k s' h = absurd (cc)

module _ {host : Host} (signer : Signer host) where
  open host use {Sys, read_file, pem_decode, parse_certificate}
  open signer use {Key, create, open_key, encode, marshal_key}

  encode_key-keeps :
      (path other : Text) (r : Result Text) (s : Sys)
      → path ≢ other
      → read_file path (encode_key signer other r s).1 ≡ read_file path s
  encode_key-keeps path other (err e) s ne = refl
  encode_key-keeps path other (ok bytes) s ne = signer.encode_keeps path other key_type bytes s ne

  -- The certificate that was written is read back.
  write_pair-read :
      (crt key der : Text) (k : Key) (s s' : Sys)
      → crt ≢ key
      → write_pair signer crt key der k s ≡ (none, s')
      → (content : Text) × (read_file crt s' ≡ ok content)
        × (pem_decode content ≡ some (crt_type, der))
  unfolding write_pair
  write_pair-read crt key der k s s' ne h =
      let (_, after_create) = and_then-none (create crt s) _ s' h in
      let s1 = (create crt s).1 in
      let (wrote, after_encode) = and_then-none (encode crt crt_type der s1) _ s' after_create in
      let s2 = (encode crt crt_type der s1).1 in
      let (_, after_open) = and_then-none (open_key key s2) _ s' after_encode in
      let s3 = (open_key key s2).1 in
      let (content, reads, decodes) = signer.encoded crt crt_type der s1 s2 wrote in
      (
        content,
        ap (λ (r : Option Error × Sys). read_file crt r.1) (sym after_open)
            ∙ encode_key-keeps crt key (marshal_key k) s3 ne
            ∙ signer.open_keeps crt key s2 ne
            ∙ reads,
        decodes,
      )

  sign_server-read :
      (crt key domain : Text) (ca : Certificate × Key) (s s' : Sys)
      → crt ≢ key
      → sign_server signer crt key domain ca s ≡ (none, s')
      → (content der : Text) × (cert : Certificate) × (read_file crt s' ≡ ok content)
        × (pem_decode content ≡ some (crt_type, der))
        × (parse_certificate der ≡ ok cert)
        × (cert.common_name ≡ local_name)
  unfolding sign_server server_template
  sign_server-read crt key domain (ca, ca_key) s s' ne h =
      let (k, made, after_key) = and_value-ok (signer.generate_key s) _ s' h in
      let s1 = (signer.generate_key s).1 in
      let (serial, drawn, after_serial) = and_value-ok (signer.random_serial s1) _ s' after_key in
      let s2 = (signer.random_serial s1).1 in
      let template = server_template signer domain serial (host.now s1) s2 in
      let (der, made_der, after_sign) =
        and_value-ok (signer.sign template (some ca) k ca_key s2) _ s' after_serial in
      let s3 = (signer.sign template (some ca) k ca_key s2).1 in
      let (cert, parsed, named) = signer.signed template (some ca) k ca_key s2 s3 der made_der in
      let (content, reads, decodes) = write_pair-read crt key der k s3 s' ne after_sign in
      (content, der, cert, reads, decodes, parsed, named)

  -- After a certificate was generated without an error for a domain other than "NimoOS Local", the
  -- next reload finds that it is to be generated again.
  pub generate-needs_generation :
      (crt key ca_file domain : Text) (s s' : Sys)
      → crt ≢ key
      → domain ≢ local_name
      → generate_self_signed_cert signer crt key domain s ≡ (none, s')
      → needs_generation host crt ca_file domain s' ≡ true
  unfolding generate_self_signed_cert
  generate-needs_generation crt key ca_file domain s s' ne other h =
      let (ca, got, after_ca) = and_value-ok (authority signer _ _ _ s) _ s' h in
      let (content, der, cert, reads, decodes, parsed, named) =
        sign_server-read crt key domain ca _ s' ne after_ca in
      needs_generation-named host crt ca_file domain content crt_type der cert s' reads decodes
        parsed (λ same_name. other (sym same_name ∙ named))
