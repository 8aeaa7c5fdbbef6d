-- ===== src/Authority/Broken.antt =====
-- An authority whose certificate was written and whose key was not.
use nimo_os_gateway.Base.{
  ◌≡◌, ◌≢◌, refl, false, none, Text, codes, Error, Result, ok, err, Option-cases, Result-cases, inl,
  inr,
}
use nimo_os_gateway.Paths.{join_path}
use nimo_os_gateway.Gateways.{Host}
use nimo_os_gateway.Authority.{Signer, crt_content, authority, generate_self_signed_cert}

module _ {host : Host} (signer : Signer host) where
  open host use {Sys, read_file, is_missing, pem_decode, parse_certificate}
  open signer use {Key, dir}

  -- Without the key nothing is loaded, whatever the file of the certificate holds.
  crt_content-err :
      (e : Error) (crt : Result Text) → (f : Error) × (crt_content signer (err e) crt ≡ err f)
  crt_content-err e (err f) = (f, refl)
  crt_content-err e (ok content) = elim (Option-cases (pem_decode content)) [
    | inl no_block ↦ (codes "failed to decode CA cert PEM", rw no_block refl)
    | inr ((kind, bytes), block) ↦ elim (Result-cases (parse_certificate bytes)) [
      | inl (cert, parsed) ↦ (e, rw (block, parsed) refl)
      | inr (f, failed) ↦ (f, rw (block, failed) refl)
    ]
  ]

  authority-err :
      (d crt key : Text) (s : Sys) (e : Error)
      → is_missing crt s ≡ false
      → read_file key s ≡ err e
      → (f : Error) × (authority signer d crt key s ≡ (err f, s))
  unfolding authority
  authority-err d crt key s e there lost =
      let (f, failed) = crt_content-err e (read_file crt s) in (f, rw (there, lost, failed) refl)

  -- While the certificate of the authority is there and its key cannot be read, every generation
  -- returns an error and changes nothing: the program never makes the authority anew.
  pub generate-no_key :
      (crt key domain : Text) (s : Sys) (e : Error)
      → is_missing (join_path (dir crt) (codes "ca.crt")) s ≡ false
      → read_file (join_path (dir crt) (codes "ca.key")) s ≡ err e
      → ((generate_self_signed_cert signer crt key domain s).0 ≢ none)
        × ((generate_self_signed_cert signer crt key domain s).1 ≡ s)
  unfolding generate_self_signed_cert
  generate-no_key crt key domain s e there lost =
      let (f, failed) =
        authority-err (dir crt) (join_path (dir crt) (codes "ca.crt"))
          (join_path (dir crt) (codes "ca.key")) s e there lost in
      rw failed (λ h. cc, refl)
