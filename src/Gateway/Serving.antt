-- ===== src/Gateway/Serving.antt =====
-- Which requests the handler passes on, and what every answer carries.
use mathlib.Core.List.{reverse-append, reverse-reverse}
use nimo_os_gateway.Base.{
  ◌≡◌, ◌≢◌, refl, sym, ◌∙◌, ◌↔◌, ◌⊎◌, inl, inr, true, false, Option, none, some, [], ◌∷◌, ◌++◌,
  Text, codes, same, Bool-cases, has_prefix_iff, insert, same_iff, same-false_iff, has_suffix,
  has_prefix, has_prefix-append, reverse, ap, split, All, In, IsFree, arith,
}
use nimo_os_gateway.Paths.{slash, dot_dot}
use nimo_os_gateway.Internal.{internal, Lowers, decoded, is_internal_path}
use nimo_os_gateway.Internal.Decision.{is_internal_path-In}
use nimo_os_gateway.Gateway.{
  Headers, Request, options_method, ping_path, version_suffix, public_version_path,
  is_hidden_version, cors_headers, Served, replied, proxied, panicked, serve,
  rewrite_request_source_ip,
}
use nimo_os_gateway.Gateway.SourceIp.{rewrite-rewritten}

has_suffix-append : (s p : Text) → has_suffix (s ++ p) p ≡ true
unfolding has_suffix
has_suffix-append s p = rw (reverse-append s p) (has_prefix-append (reverse p) (reverse s))

ping-no_version : has_suffix ping_path version_suffix ≡ false
unfolding has_suffix has_prefix
ping-no_version = refl

has_suffix_iff : (s p : Text) → (has_suffix s p ≡ true) ↔ ((b : Text) × (s ≡ b ++ p))
unfolding has_suffix
has_suffix_iff s p = (
  λ h.
      let (t, e) = (has_prefix_iff (reverse s) (reverse p)).0 h in
      (
        reverse t,
        sym (reverse-reverse s)
            ∙ ap reverse e
            ∙ reverse-append (reverse p) t
            ∙ ap (λ q. reverse t ++ q) (reverse-reverse p),
      ),
  λ (b, e). rw e (has_suffix-append b p),
)

-- A version endpoint that only services read: its path ends in `/version`, and it is not that of the
-- system.
abbrev pub IsHiddenVersion : Text → Type 0
IsHiddenVersion path =
    ((base : Text) × (path ≡ base ++ codes "/version")) × (path ≢ codes "/v1/sys/version")

is_hidden_version_iff : (path : Text) → (is_hidden_version path ≡ true) ↔ IsHiddenVersion path
unfolding is_hidden_version
is_hidden_version_iff path = ground (
  arith,
  has_suffix_iff path version_suffix,
  same_iff path public_version_path,
  same-false_iff path public_version_path,
)

-- The headers that the handler sets on every response.
abbrev pub response_headers : Headers
response_headers =
    (codes "Access-Control-Allow-Private-Network", codes "true" ∷ [])
    ∷ (codes "Access-Control-Allow-Origin", codes "*" ∷ [])
    ∷ (
      codes "Access-Control-Allow-Methods",
      codes "GET, POST, PUT, DELETE, OPTIONS, PATCH, HEAD" ∷ [],
    )
    ∷ (
      codes "Access-Control-Allow-Headers",
      codes
            "Content-Type, Authorization, X-Requested-With, Tus-Resumable, Upload-Length, Upload-Offset, Upload-Metadata, Upload-Concat, Upload-Defer-Length, X-HTTP-Method-Override"
          ∷ [],
    )
    ∷ (
      codes "Access-Control-Expose-Headers",
      codes
            "Location, Upload-Offset, Upload-Length, Tus-Resumable, Tus-Version, Tus-Extension, Tus-Max-Size, Upload-Metadata, Upload-Concat, Upload-Defer-Length"
          ∷ [],
    )
    ∷ []

cors_headers_lem : cors_headers ≡ response_headers
unfolding cors_headers insert same
cors_headers_lem = refl

module _ {P : Type 0} (to_lower : Text → Text) (get_proxy : Text → Option P) where
  -- What the tests of the handler say when it passes a request on.
  pub record Passes (r : Request) (proxy : P) (h : Headers) (s : Request) : Type 0 where
    pub method : same r.method options_method ≡ false
    pub path : same r.path ping_path ≡ false
    pub internal : is_internal_path to_lower r.path ≡ false
    pub version : is_hidden_version r.path ≡ false
    pub chosen : get_proxy r.path ≡ some proxy
    pub rewritten : rewrite_request_source_ip r ≡ some s
    pub cors : h ≡ cors_headers

  pub serve-Passes :
      (r s : Request) (proxy : P) (h : Headers)
      → serve to_lower get_proxy r ≡ proxied proxy h s
      → Passes r proxy h s
  unfolding serve
  serve-Passes r s proxy h e = ground arith

  pub Passes-serve :
      (r s : Request) (proxy : P) (h : Headers)
      → Passes r proxy h s
      → serve to_lower get_proxy r ≡ proxied proxy h s
  unfolding serve
  Passes-serve r s proxy h p = ground arith

  -- The conditions under which a request goes to a proxy, and what goes with it.
  pub record IsPassed (r : Request) (proxy : P) (h : Headers) (s : Request) : Type 0 where
    pub method : r.method ≢ codes "OPTIONS"
    pub path : r.path ≢ codes "/ping"
    pub internal :
        (seg : Text) → In seg (split slash (decoded r.path)) → codes "_internal" ≢ to_lower seg
    pub version : ¬ IsHiddenVersion r.path
    pub chosen : get_proxy r.path ≡ some proxy
    pub rewritten : rewrite_request_source_ip r ≡ some s
    pub cors : h ≡ response_headers

  -- A request with a path that is not empty and has no segment `..` once it is decoded is handed to a
  -- proxy exactly when its method is not OPTIONS, its path is not `/ping`, no segment of the decoded
  -- path reads `_internal` in lower case, the path does not end in `/version` unless it is
  -- `/v1/sys/version`, and this proxy is registered for it; it is handed on with its source headers
  -- rewritten, and the answer carries the five CORS headers.
  pub serve-proxied_iff :
      (r s : Request) (proxy : P) (h : Headers)
      → Lowers to_lower
      → r.path ≢ []
      → All (λ part. part ≢ dot_dot) (split slash (decoded r.path))
      → (serve to_lower get_proxy r ≡ proxied proxy h s) ↔ IsPassed r proxy h s
  serve-proxied_iff r s proxy h laws ne plain =
      let internal_iff = is_internal_path-In to_lower laws r.path ne plain in
      (
        λ e.
            let p = serve-Passes r s proxy h e in
            record {
              method = (same-false_iff r.method options_method).0 p.method;
              path = (same-false_iff r.path ping_path).0 p.path;
              internal = λ seg m reads. cc (internal_iff.1 (seg, m, reads), p.internal);
              version = λ v. cc ((is_hidden_version_iff r.path).1 v, p.version);
              chosen = p.chosen;
              rewritten = p.rewritten;
              cors = p.cors ∙ cors_headers_lem;
            },
        λ p. Passes-serve r s proxy h (record {
          method = (same-false_iff r.method options_method).1 p.method;
          path = (same-false_iff r.path ping_path).1 p.path;
          internal = elim (Bool-cases (is_internal_path to_lower r.path)) [
            | inl is_internal ↦
                let (seg, m, reads) = internal_iff.0 is_internal in absurd (p.internal seg m reads)
            | inr outside ↦ outside
          ];
          version = elim (Bool-cases (is_hidden_version r.path)) [
            | inl hidden ↦ absurd (p.version ((is_hidden_version_iff r.path).0 hidden))
            | inr shown ↦ shown
          ];
          chosen = p.chosen;
          rewritten = p.rewritten;
          cors = p.cors ∙ sym cors_headers_lem;
        }),
      )

  serve_refused :
      (r : Request)
      → r.method ≢ options_method
      → r.path ≢ ping_path
      → (is_internal_path to_lower r.path ≡ true) ⊎ (is_hidden_version r.path ≡ true)
      → serve to_lower get_proxy r ≡ replied 404 cors_headers []
  unfolding serve
  serve_refused r m p h =
      ground (arith, same_iff r.method options_method, same_iff r.path ping_path)

  -- Whatever is registered, a request whose decoded path has no `..` and has a segment that reads
  -- `_internal` in lower case gets 404, unless its method is OPTIONS or its path is `/ping`.
  pub serve-internal :
      (r : Request) (seg : Text)
      → Lowers to_lower
      → r.method ≢ options_method
      → r.path ≢ ping_path
      → r.path ≢ []
      → All (λ part. part ≢ dot_dot) (split slash (decoded r.path))
      → In seg (split slash (decoded r.path))
      → internal ≡ to_lower seg
      → serve to_lower get_proxy r ≡ replied 404 cors_headers []
  serve-internal r seg laws m p ne plain part reads =
      serve_refused r m p
        (inl ((is_internal_path-In to_lower laws r.path ne plain).1 (seg, part, reads)))

  -- Whatever is registered, a path that ends in `/version` gets 404, but for `/v1/sys/version`,
  -- unless the method is OPTIONS.
  pub serve-version :
      (r : Request) (base : Text)
      → r.method ≢ options_method
      → r.path ≡ base ++ version_suffix
      → r.path ≢ public_version_path
      → serve to_lower get_proxy r ≡ replied 404 cors_headers []
  unfolding is_hidden_version
  serve-version r base m e ne =
      let suffix : has_suffix r.path version_suffix ≡ true =
        rw e (has_suffix-append base version_suffix) in
      serve_refused r m
        (λ ping. cc (suffix, ap (λ p. has_suffix p version_suffix) ping, ping-no_version))
        (inr (rw (suffix, (same-false_iff r.path public_version_path).1 ne)))

  -- The headers of the response, set before the handler decides anything.
  unfoldable pub served_headers : Served P → Option Headers
  served_headers (replied status h body) = some h
  served_headers (proxied proxy h r) = some h
  served_headers panicked = none

  -- With a port in its remote address no request makes the handler panic, and every answer carries
  -- the CORS headers.
  pub serve-cors :
      (r : Request) (host port : Text)
      → r.remote_addr ≡ host ++ b':' ∷ port
      → IsFree b':' port
      → served_headers (serve to_lower get_proxy r) ≡ some cors_headers
  unfolding serve served_headers
  serve-cors r host port e free = ground (arith, rewrite-rewritten r host port e free)
