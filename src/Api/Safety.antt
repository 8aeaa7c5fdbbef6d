-- ===== src/Api/Safety.antt =====
-- Who reaches which endpoint of the management server, and what a request can change.
use nimo_os_gateway.Base.{
  ℕ, ◌≡◌, ◌≢◌, refl, inl, inr, true, false, Option, none, some, [], ◌∷◌, ◌++◌, ◌∙◌, Text, All,
  lookup, IsFree, ok, Bool-cases, Option-cases,
}
use nimo_os_gateway.Addresses.{split_host_port}
use nimo_os_gateway.Management.{Surroundings}
use nimo_os_gateway.Gateway.{Headers, Request, x_forwarded_for, is_loopback, serve, proxied}
use nimo_os_gateway.Api.{Echo, Binder, Process, Reply, unauthorized, lookup_token, passed_on}
use nimo_os_gateway.Api.Upload.{Files}
use nimo_os_gateway.Api.Access.{passed_on-outside, guarded-refused, guarded-local}
use nimo_os_gateway.Api.Server.{
  Sights, Endpoint, get, endpoints, endpoint_of, handler, registered_endpoint, manage,
}
use nimo_os_gateway.Api.Server.Cases.{
  needs_token, is_change, find_endpoint-All, endpoints-reads, open-reads, registered-guarded,
  registered-open, registered-reads, manage-found,
}

module _ {env : Surroundings} {W : Type 0} (bind : Binder) (files : Files W) (sights : Sights W)
    (echo : Echo) (validate : Text → Option ℕ) (unmatched : Request → Reply) where
  module _ (r : Request) (p : Process env W) where
    -- A request by GET leaves the routes, the settings and the files as they are, with and without
    -- a token.
    pub manage-get : r.method ≡ get → (manage bind files sights echo validate unmatched r p).1 ≡ p
    unfolding manage endpoint_of
    manage-get by_get = elim (Option-cases (endpoint_of r)) [
      | inl nothing ↦ rw nothing refl
      | inr (e, found) ↦
          let reads =
            find_endpoint-All (λ m x. m ≡ get → is_change x ≡ false) r.method r.path endpoints e
              endpoints-reads found by_get in
          rw found (registered-reads bind files sights echo validate unmatched e r p reads)
    ]

  -- From this machine each endpoint runs, with no token.
  pub manage-local :
      (r : Request) (p : Process env W) (ip : Text) (e : Endpoint)
      → endpoint_of r ≡ some e
      → lookup x_forwarded_for r.headers ≡ some (ip ∷ [])
      → IsFree b',' ip
      → is_loopback ip ≡ true
      → manage bind files sights echo validate unmatched r p ≡ handler bind files sights e r p
  manage-local r p ip e found h free inside =
      manage-found bind files sights echo validate unmatched r p e found
      ∙ elim (Bool-cases (needs_token e)) [
        | inl closed ↦
            registered-guarded bind files sights echo validate unmatched e r p closed
            ∙ guarded-local echo validate (handler bind files sights e) r p ip h free inside
        | inr free' ↦ registered-open bind files sights echo validate unmatched e r p free'
      ]

  module _ {P : Type 0} (to_lower : Text → Text) (get_proxy : Text → Option P) (r s : Request)
      (proxy : P) (headers : Headers) (host port ip gateway_addr : Text) (p : Process env W)
      (handed : serve to_lower get_proxy r ≡ proxied proxy headers s)
      (from : r.remote_addr ≡ host ++ b':' ∷ port) (free : IsFree b':' port)
      (outside : is_loopback host ≡ false) (split : split_host_port r.remote_addr ≡ ok (ip, port))
      (ne : ip ≢ []) (bare : IsFree b',' ip) (remote : is_loopback ip ≡ false)
      (invalid : All
        (λ token. validate token ≡ none)
        (lookup_token echo validate (passed_on gateway_addr s))) where
    outside-refused :
        (e : Endpoint)
        → needs_token e ≡ true
        → registered_endpoint bind files sights echo validate e (passed_on gateway_addr s) p
          ≡ (unauthorized, p)
    outside-refused e closed =
        registered-guarded bind files sights echo validate unmatched e (passed_on gateway_addr s) p
          closed
        ∙ guarded-refused echo validate (handler bind files sights e) (passed_on gateway_addr s) p
            ip
            (passed_on-outside to_lower get_proxy r s proxy headers host port ip gateway_addr handed
              from free outside split)
            ne bare remote invalid

    -- A request that the gateway hands on, from a remote address `host:port` that is not loopback,
    -- with no valid token, gets 401 from each endpoint that changes something or probes the network,
    -- whatever its headers say.
    pub manage-refused :
        (e : Endpoint)
        → endpoint_of (passed_on gateway_addr s) ≡ some e
        → needs_token e ≡ true
        → manage bind files sights echo validate unmatched (passed_on gateway_addr s) p
          ≡ (unauthorized, p)
    manage-refused e found closed =
        manage-found bind files sights echo validate unmatched (passed_on gateway_addr s) p e found
        ∙ outside-refused e closed

    -- A request that the gateway hands on, from a remote address `host:port` that is not loopback,
    -- with no valid token, changes nothing, whatever its method, its path and its headers are.
    pub manage-outside :
        (manage bind files sights echo validate unmatched (passed_on gateway_addr s) p).1 ≡ p
    unfolding manage
    manage-outside = elim (Option-cases (endpoint_of (passed_on gateway_addr s))) [
      | inl nothing ↦ rw nothing refl
      | inr (e, found) ↦ rw found (elim (Bool-cases (needs_token e)) [
        | inl closed ↦ rw (outside-refused e closed) refl
        | inr free' ↦
            registered-reads bind files sights echo validate unmatched e (passed_on gateway_addr s)
              p (open-reads e free')
      ])
    ]
