-- ===== src/Api/Server/Cases.antt =====
-- The endpoints of the management server one by one: which are guarded, and which only read.
use nimo_os_gateway.Base.{
  ℕ, ◌≡◌, refl, inl, inr, Bool, true, false, Option, some, List, [], ◌∷◌, ◌⊎◌, ◌∙◌, ◌&&◌, Text,
  same, same_iff, All, arith, Bool-cases, Option-cases, some-injective,
}
use nimo_os_gateway.Management.{Surroundings}
use nimo_os_gateway.Gateway.{Request}
use nimo_os_gateway.Api.{Echo, Binder, Process, Reply, guarded, list_routes, get_port}
use nimo_os_gateway.Api.Upload.{Files}
use nimo_os_gateway.Api.Endpoints.{Change, change_handler}
use mathlib.Core.Path.{subst₂}
use nimo_os_gateway.Api.Access.{guarded-cases}
use nimo_os_gateway.Api.Server.{
  Sights, Endpoint, get, ping, routes, components, device_info, lan_discovery, port, ssl, ca,
  change, endpoints, find_endpoint, endpoint_of, handler, registered_endpoint, manage, answer_ping,
  list_components, get_device_info, discover_lan, get_ssl, get_ca,
}

-- The endpoints that ask a client from outside for a token: those that change something or probe.
abbrev pub needs_token : Endpoint → Bool
needs_token components = true
needs_token lan_discovery = true
needs_token (change c) = true
needs_token _ = false

abbrev pub is_change : Endpoint → Bool
is_change (change c) = true
is_change _ = false

pub open-reads : (e : Endpoint) → needs_token e ≡ false → is_change e ≡ false
open-reads e h = ground arith

-- What holds of each entry of the table holds of the endpoint that is found.
pub find_endpoint-All :
    (P : Text → Endpoint → Type 0) (method path : Text) (es : List (Text × Text × Endpoint))
    (e : Endpoint)
    → All (λ (entry : Text × Text × Endpoint). P entry.0 entry.2) es
    → find_endpoint method path es ≡ some e
    → P method e
unfolding find_endpoint
find_endpoint-All P method path [] e h found = absurd (cc)
find_endpoint-All P method path ((m, p, x) ∷ es) e (h, hs) found =
    elim (Bool-cases (same m method && same p path)) [
      | inl here ↦
          let at : m ≡ method = (same_iff m method).0 (ground arith) in
          let is : x ≡ e = some-injective (rw (here, find_endpoint) at found) in subst₂ P at is h
      | inr more ↦ find_endpoint-All P method path es e hs (rw (more, find_endpoint) at found)
    ]

-- No endpoint for GET changes anything.
pub endpoints-reads :
    All (λ (entry : Text × Text × Endpoint). entry.0 ≡ get → is_change entry.2 ≡ false) endpoints
unfolding endpoints
endpoints-reads = grind arith

module _ {env : Surroundings} {W : Type 0} (bind : Binder) (files : Files W) (sights : Sights W)
    (echo : Echo) (validate : Text → Option ℕ) (unmatched : Request → Reply) where
  pub registered-guarded :
      (e : Endpoint) (r : Request) (p : Process env W)
      → needs_token e ≡ true
      → registered_endpoint bind files sights echo validate e r p
        ≡ guarded echo validate (handler bind files sights e) r p
  unfolding registered_endpoint
  registered-guarded components r p h = refl
  registered-guarded lan_discovery r p h = refl
  registered-guarded (change c) r p h = refl
  registered-guarded ping r p h = absurd (cc)
  registered-guarded routes r p h = absurd (cc)
  registered-guarded device_info r p h = absurd (cc)
  registered-guarded port r p h = absurd (cc)
  registered-guarded ssl r p h = absurd (cc)
  registered-guarded ca r p h = absurd (cc)

  pub registered-open :
      (e : Endpoint) (r : Request) (p : Process env W)
      → needs_token e ≡ false
      → registered_endpoint bind files sights echo validate e r p ≡ handler bind files sights e r p
  unfolding registered_endpoint
  registered-open components r p h = absurd (cc)
  registered-open lan_discovery r p h = absurd (cc)
  registered-open (change c) r p h = absurd (cc)
  registered-open ping r p h = refl
  registered-open routes r p h = refl
  registered-open device_info r p h = refl
  registered-open port r p h = refl
  registered-open ssl r p h = refl
  registered-open ca r p h = refl

  handler-reads :
      (e : Endpoint) (r : Request) (p : Process env W)
      → is_change e ≡ false
      → (handler bind files sights e r p).1 ≡ p
  unfolding handler answer_ping list_routes get_port list_components get_device_info discover_lan
      get_ssl get_ca
  handler-reads ping r p h = refl
  handler-reads routes r p h = refl
  handler-reads components r p h = refl
  handler-reads device_info r p h = refl
  handler-reads lan_discovery r p h = refl
  handler-reads port r p h = refl
  handler-reads ssl r p h = refl
  handler-reads ca r p h = refl
  handler-reads (change c) r p h = absurd (cc)

  pub registered-reads :
      (e : Endpoint) (r : Request) (p : Process env W)
      → is_change e ≡ false
      → (registered_endpoint bind files sights echo validate e r p).1 ≡ p
  registered-reads e r p h = elim (Bool-cases (needs_token e)) [
    | inl closed ↦ elim (guarded-cases echo validate (handler bind files sights e) r p) [
      | inl refused ↦ rw (registered-guarded e r p closed, refused) refl
      | inr (q, runs) ↦ rw (registered-guarded e r p closed, runs) (handler-reads e q p h)
    ]
    | inr free ↦ rw (registered-open e r p free) (handler-reads e r p h)
  ]

  registered-cases :
      (e : Endpoint) (r : Request) (p : Process env W)
      → ((registered_endpoint bind files sights echo validate e r p).1 ≡ p)
        ⊎ ((c : Change) × (q : Request) × (registered_endpoint bind files sights echo validate e r p
              ≡ change_handler bind files c q p))
  unfolding handler
  registered-cases (change c) r p =
      elim (guarded-cases echo validate (handler bind files sights (change c)) r p) [
        | inl refused ↦ inl (rw (registered-guarded (change c) r p refl, refused) refl)
        | inr (q, runs) ↦ inr (c, q, registered-guarded (change c) r p refl ∙ runs)
      ]
  registered-cases ping r p = inl (registered-reads ping r p refl)
  registered-cases routes r p = inl (registered-reads routes r p refl)
  registered-cases components r p = inl (registered-reads components r p refl)
  registered-cases device_info r p = inl (registered-reads device_info r p refl)
  registered-cases lan_discovery r p = inl (registered-reads lan_discovery r p refl)
  registered-cases port r p = inl (registered-reads port r p refl)
  registered-cases ssl r p = inl (registered-reads ssl r p refl)
  registered-cases ca r p = inl (registered-reads ca r p refl)

  -- A request changes nothing, or it runs one of the four handlers that change something.
  pub manage-cases :
      (r : Request) (p : Process env W)
      → ((manage bind files sights echo validate unmatched r p).1 ≡ p)
        ⊎ ((c : Change) × (q : Request) × (manage bind files sights echo validate unmatched r p
              ≡ change_handler bind files c q p))
  unfolding manage
  manage-cases r p = elim (Option-cases (endpoint_of r)) [
    | inl nothing ↦ inl (rw nothing refl)
    | inr (e, found) ↦ rw found (registered-cases e r p)
  ]

  pub manage-found :
      (r : Request) (p : Process env W) (e : Endpoint)
      → endpoint_of r ≡ some e
      → manage bind files sights echo validate unmatched r p
        ≡ registered_endpoint bind files sights echo validate e r p
  unfolding manage
  manage-found r p e found = rw found refl
