-- ===== src/Api/Access.antt =====
-- The access rule of the guarded endpoints, behind the gateway's rewriting of the source headers.
use nimo_os_gateway.Base.{
  ℕ, ◌≡◌, ◌≢◌, refl, sym, ◌∙◌, inl, inr, true, false, Option, none, some, [], ◌∷◌, ◌++◌, Text, same,
  same_refl, codes, All, lookup, lookup-insert, IsFree, ok, arith, Bool-cases, Option-cases,
  some-injective, ◌⊎◌,
}
use nimo_os_gateway.Paths.{trim_prefix}
use nimo_os_gateway.Addresses.{split_host_port}
use nimo_os_gateway.Gateway.{
  Headers, Request, x_forwarded_for, is_loopback, set_header, serve, proxied, rewritten, get_header,
}
use nimo_os_gateway.Gateway.SourceIp.{rewrite-outside, rewrite-rewritten}
use nimo_os_gateway.Gateway.Serving.{serve-Passes}
use nimo_os_gateway.Api.{
  Echo, Handler, authorization, unauthorized, guarded, skipper, lookup_token, parse_token,
  passed_on, join_values,
}

-- A request that arrives with no forwarded address leaves with that of its peer alone.
passed_on-none :
    (gateway_addr ip port : Text) (r : Request)
    → split_host_port r.remote_addr ≡ ok (ip, port)
    → lookup x_forwarded_for r.headers ≡ none
    → lookup x_forwarded_for (passed_on gateway_addr r).headers ≡ some (ip ∷ [])
unfolding passed_on join_values set_header
passed_on-none gateway_addr ip port r e h =
    rw (e, h, lookup-insert x_forwarded_for x_forwarded_for, same_refl)

module _ {P : Type 0} (to_lower : Text → Text) (get_proxy : Text → Option P) where
  served-rewritten :
      (r s : Request) (proxy : P) (headers : Headers) (host port : Text)
      → serve to_lower get_proxy r ≡ proxied proxy headers s
      → r.remote_addr ≡ host ++ b':' ∷ port
      → IsFree b':' port
      → s ≡ rewritten r host
  served-rewritten r s proxy headers host port handed from free = some-injective (
      sym (serve-Passes to_lower get_proxy r s proxy headers handed).rewritten
      ∙ rewrite-rewritten r host port from free)

  -- The source of a request that the gateway hands to a proxy, as the next server sees it.
  pub passed_on-outside :
      (r s : Request) (proxy : P) (headers : Headers) (host port ip gateway_addr : Text)
      → serve to_lower get_proxy r ≡ proxied proxy headers s
      → r.remote_addr ≡ host ++ b':' ∷ port
      → IsFree b':' port
      → is_loopback host ≡ false
      → split_host_port r.remote_addr ≡ ok (ip, port)
      → lookup x_forwarded_for (passed_on gateway_addr s).headers ≡ some (ip ∷ [])
  passed_on-outside r s proxy headers host port ip gateway_addr handed from free outside split =
      let out = rewrite-outside r host port from free outside in
      rw (served-rewritten r s proxy headers host port handed from free)
        (passed_on-none gateway_addr ip port (rewritten r host) split out.forwarded)

lookup_token-one :
    (echo : Echo) (validate : Text → Option ℕ) (r : Request)
    → (token : Text) × (lookup_token echo validate r ≡ token ∷ [])
unfolding lookup_token
lookup_token-one echo validate r =
    elim (Bool-cases (same (get_header authorization r.headers) [])) [
      | inl empty ↦ (echo.query_param (codes "token") r, rw empty refl)
      | inr given ↦
          (trim_prefix (get_header authorization r.headers) (codes "Bearer "), rw given refl)
    ]

module _ (echo : Echo) (validate : Text → Option ℕ) where
  skipper-false :
      (r : Request) (ip : Text)
      → lookup x_forwarded_for r.headers ≡ some (ip ∷ [])
      → ip ≢ []
      → IsFree b',' ip
      → is_loopback ip ≡ false
      → skipper echo validate r ≡ false
  unfolding skipper
  skipper-false r ip h ne free outside = rw (echo.one_forwarded r ip h ne free) (ground arith)

  loopback-ne : (ip : Text) → is_loopback ip ≡ true → ip ≢ []
  unfolding same
  loopback-ne ip inside e = absurd (cc (rw e at inside))

  skipper-true :
      (r : Request) (ip : Text)
      → lookup x_forwarded_for r.headers ≡ some (ip ∷ [])
      → IsFree b',' ip
      → is_loopback ip ≡ true
      → skipper echo validate r ≡ true
  unfolding skipper
  skipper-true r ip h free inside =
      rw (echo.one_forwarded r ip h (loopback-ne ip inside) free) (ground arith)

  parse_token-none :
      (r : Request) (token : Text)
      → validate token ≡ none
      → parse_token echo validate token r ≡ none
  unfolding parse_token
  parse_token-none r token h = rw h

  module _ {S : Type 0} (next : Handler S) (r : Request) (state : S) where
    -- Without a valid token and with a source that is not this machine, a guarded handler does not
    -- run: the answer is 401 and nothing changes.
    pub guarded-refused :
        (ip : Text)
        → lookup x_forwarded_for r.headers ≡ some (ip ∷ [])
        → ip ≢ []
        → IsFree b',' ip
        → is_loopback ip ≡ false
        → All (λ token. validate token ≡ none) (lookup_token echo validate r)
        → guarded echo validate next r state ≡ (unauthorized, state)
    unfolding guarded
    guarded-refused ip h ne free outside invalid =
        let (token, one) = lookup_token-one echo validate r in
        echo.jwt-refused (skipper echo validate) (lookup_token echo validate)
          (parse_token echo validate) next r state token (skipper-false r ip h ne free outside) one
          (parse_token-none r token (rw one at invalid).0)

    -- From this machine it runs, with no token.
    pub guarded-local :
        (ip : Text)
        → lookup x_forwarded_for r.headers ≡ some (ip ∷ [])
        → IsFree b',' ip
        → is_loopback ip ≡ true
        → guarded echo validate next r state ≡ next r state
    unfolding guarded
    guarded-local ip h free inside =
        echo.jwt-skipped (skipper echo validate) (lookup_token echo validate)
          (parse_token echo validate) next r state (skipper-true r ip h free inside)

    -- The access rule lets a request through or refuses it, and does nothing else.
    pub guarded-cases :
        (guarded echo validate next r state ≡ (unauthorized, state))
        ⊎ ((q : Request) × (guarded echo validate next r state ≡ next q state))
    unfolding guarded
    guarded-cases =
        let (token, one) = lookup_token-one echo validate r in
        elim (Bool-cases (skipper echo validate r)) [
          | inl skips ↦ inr (r, echo.jwt-skipped _ _ _ next r state skips)
          | inr asks ↦ elim (Option-cases (parse_token echo validate token r)) [
            | inl bad ↦ inl (echo.jwt-refused _ _ _ next r state token asks one bad)
            | inr (q, good) ↦ inr (q, echo.jwt-parsed _ _ _ next r q state token asks one good)
          ]
        ]
