-- ===== src/Gateways/Certificates.antt =====
-- When the certificate of the HTTPS server is made anew.
use nimo_os_gateway.Base.{
  ℕ, ◌+◌, ◌≤◌, ◌≡◌, ◌≢◌, refl, inl, inr, true, false, Option, none, some, Text, ok, same_iff,
  Result-cases, arith,
}
use nimo_os_gateway.Gateways.{
  Host, Certificate, crt_type, ten_years, dates_of, get_cert_dates, has_other_name,
  needs_generation, is_stale,
}

module _ (host : Host) where
  open host use {Sys, is_missing, read_file, pem_decode, parse_certificate, now}

  -- The file holds a certificate for the domain that is not older than ten years.
  pub record IsCurrent (file domain : Text) (s : Sys) : Type 0 where
    pub content : Text
    pub bytes : Text
    pub cert : Certificate
    pub readable : read_file file s ≡ ok content
    pub decoded : pem_decode content ≡ some (crt_type, bytes)
    pub parsed : parse_certificate bytes ≡ ok cert
    pub young : now s ≤ cert.not_before + ten_years
    pub named : cert.common_name ≡ domain

  fresh_dates :
      (file : Text) (s : Sys) (content kind bytes : Text) (cert : Certificate)
      → read_file file s ≡ ok content
      → pem_decode content ≡ some (kind, bytes)
      → parse_certificate bytes ≡ ok cert
      → is_stale host (now s) (get_cert_dates host file s) ≡ false
      → (kind ≡ crt_type) × (now s ≤ cert.not_before + ten_years)
  unfolding get_cert_dates
  fresh_dates file s content kind bytes cert r d p h = ground (arith, same_iff kind crt_type)

  all_kept :
      (file ca_file domain : Text) (s : Sys)
      → needs_generation host file ca_file domain s ≡ false
      → (is_missing file s ≡ false)
        × (is_missing ca_file s ≡ false)
        × (is_stale host (now s) (get_cert_dates host file s) ≡ false)
        × (has_other_name host file domain s ≡ false)
  unfolding needs_generation
  all_kept file ca_file domain s h = ground arith

  dates_of-parsed :
      (b : Option (Text × Text)) (time : ℕ)
      → is_stale host time (dates_of host b) ≡ false
      → (kind : Text) × (bytes : Text) × (cert : Certificate) × (b ≡ some (kind, bytes))
        × (parse_certificate bytes ≡ ok cert)
  unfolding dates_of
  dates_of-parsed none time h = absurd (cc)
  dates_of-parsed (some (kind, bytes)) time h = elim (Result-cases (parse_certificate bytes)) [
    | inl (cert, p) ↦ (kind, bytes, cert, refl, p)
    | inr (e, p) ↦ absurd (ground arith)
  ]

  current :
      (file domain : Text) (s : Sys)
      → is_stale host (now s) (get_cert_dates host file s) ≡ false
      → has_other_name host file domain s ≡ false
      → IsCurrent file domain s
  unfolding get_cert_dates has_other_name
  current file domain s fresh name = elim (Result-cases (read_file file s)) [
    | inr (e, r) ↦ absurd (ground arith)
    | inl (content, r) ↦
        let (kind, bytes, cert, d, p) =
          dates_of-parsed (pem_decode content) (now s) (rw (r, get_cert_dates) at fresh) in
        let (crt, young) = fresh_dates file s content kind bytes cert r d p fresh in
        record {
          content = content;
          bytes = bytes;
          cert = cert;
          readable = r;
          decoded = rw (← crt) d;
          parsed = p;
          young = young;
          named = ground (arith, same_iff cert.common_name domain);
        }
  ]

  -- A certificate is kept only if there is one, there is an authority, and the certificate is
  -- current.
  pub needs_generation-false :
      (file ca_file domain : Text) (s : Sys)
      → needs_generation host file ca_file domain s ≡ false
      → (is_missing file s ≡ false) × (is_missing ca_file s ≡ false) × IsCurrent file domain s
  needs_generation-false file ca_file domain s h =
      let (present, ca_present, fresh, name) = all_kept file ca_file domain s h in
      (present, ca_present, current file domain s fresh name)

  -- A readable certificate for another name than the domain is always to be made anew.
  pub needs_generation-named :
      (file ca_file domain content kind bytes : Text) (cert : Certificate) (s : Sys)
      → read_file file s ≡ ok content
      → pem_decode content ≡ some (kind, bytes)
      → parse_certificate bytes ≡ ok cert
      → cert.common_name ≢ domain
      → needs_generation host file ca_file domain s ≡ true
  unfolding needs_generation
  needs_generation-named file ca_file domain content kind bytes cert s r d p n =
      ground (arith, same_iff cert.common_name domain)
