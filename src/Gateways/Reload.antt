-- ===== src/Gateways/Reload.antt =====
-- What a reload leaves running.
use nimo_os_gateway.Base.{
  ℕ, ◌≡◌, ◌≢◌, refl, sym, ap, ◌∙◌, inl, inr, Bool, true, false, not, Option, none, some, [], Text,
  Act, Result, ok, err, same, same_iff, same-false_iff, Bool-cases, arith, ◌&&◌,
}
use nimo_os_gateway.Addresses.{split_host_port}
use nimo_os_gateway.State.{Settings}
use nimo_os_gateway.Probes.{returned, panicked, running}
use nimo_os_gateway.Gateways.{
  Host, Gateways, Outcome, port_matches, runs_on, stop_http, stop_https, reload_http_gateway,
  reload_https_gateway, prepare_certificate, and_run, with_gateways, reload_http, reload_https,
  reload_gateways,
}
use nimo_os_gateway.Gateways.Servers.{
  IsPort, Binds, reload_http_gateway_same, reload_https_gateway_same, reload_http_gateway-runs_on,
  reload_https_gateway-runs_on,
}

-- A server runs on the port if one is wanted there, and none runs otherwise.
abbrev pub Serves : Bool → Text → Option Text → Type 0
Serves true port gateway = runs_on gateway port ≡ true
Serves false port gateway = gateway ≡ none

abbrev pub wants_http : Settings → Bool
wants_http c = not (same c.gateway_port [])

abbrev pub wants_https : Settings → Bool
wants_https c = c.ssl_enabled && not (same c.ssl_port [])

-- The ports of the servers that are wanted are port numbers.
abbrev pub HasPorts : Settings → Type 0
HasPorts c =
    (wants_http c ≡ true → IsPort c.gateway_port) × (wants_https c ≡ true → IsPort c.ssl_port)

port_matches-other :
    (r : Result (Text × Text)) (port other : Text)
    → port_matches port r ≡ true
    → other ≢ port
    → port_matches other r ≡ false
port_matches-other (ok (name, p)) port other h ne =
    (same-false_iff p other).1 λ e. ne (sym e ∙ (same_iff p port).0 h)
port_matches-other (err e) port other h ne = refl

-- A server that is as one port asks does not run on another.
pub Serves-other :
    (wanted : Bool) (port other : Text) (gateway : Option Text)
    → Serves wanted port gateway
    → other ≢ port
    → runs_on gateway other ≡ false
unfolding runs_on
Serves-other true port other none h ne = refl
Serves-other true port other (some addr) h ne =
    port_matches-other (split_host_port addr) port other h ne
Serves-other false port other gateway h ne = rw h refl

module _ (host : Host) where
  open host use {Sys, listen}

  module _ (generate : Text → Text → Text → Act Sys) where
    and_run-ok :
        (r : Outcome host) (k : Gateways → Sys → Outcome host)
        → (and_run host generate r k).0 ≡ returned none
        → (r.0 ≡ returned none) × (and_run host generate r k ≡ k r.1 r.2)
    and_run-ok (returned none, g, s) k h = (refl, refl)
    and_run-ok (returned (some e), g, s) k h = absurd (cc)
    and_run-ok (panicked, g, s) k h = absurd (cc)
    and_run-ok (running, g, s) k h = absurd (cc)

    reload_http_wanted :
        (fuel : ℕ) (c : Settings) (g : Gateways) (s : Sys)
        → wants_http c ≡ true
        → reload_http host generate fuel c g s ≡ reload_http_gateway host fuel c.gateway_port g s
    unfolding reload_http
    reload_http_wanted fuel c g s h = rw h

    reload_http_unwanted :
        (fuel : ℕ) (c : Settings) (g : Gateways) (s : Sys)
        → wants_http c ≡ false
        → reload_http host generate fuel c g s ≡ (returned none, stop_http g, s)
    unfolding reload_http
    reload_http_unwanted fuel c g s h = rw h

    reload_https_wanted :
        (fuel : ℕ) (c : Settings) (g : Gateways) (s : Sys)
        → wants_https c ≡ true
        → reload_https host generate fuel c g s
          ≡ and_run host generate
              (with_gateways host generate g (prepare_certificate host generate c s))
              (reload_https_gateway host fuel c.ssl_port)
    unfolding reload_https
    reload_https_wanted fuel c g s h = rw h

    reload_https_unwanted :
        (fuel : ℕ) (c : Settings) (g : Gateways) (s : Sys)
        → wants_https c ≡ false
        → reload_https host generate fuel c g s ≡ (returned none, stop_https g, s)
    unfolding reload_https
    reload_https_unwanted fuel c g s h = rw h

    reload_gateways-and_run :
        (fuel : ℕ) (c : Settings) (g : Gateways) (s : Sys)
        → reload_gateways host generate fuel c g s
          ≡ and_run host generate
              (reload_http host generate fuel c g s)
              (reload_https host generate fuel c)
    unfolding reload_gateways
    reload_gateways-and_run fuel c g s = refl

    stop_http-none : (g : Gateways) → g.gateway ≡ none → stop_http g ≡ g
    unfolding stop_http
    stop_http-none g h = ground arith

    stop_https-none : (g : Gateways) → g.ssl_gateway ≡ none → stop_https g ≡ g
    unfolding stop_https
    stop_https-none g h = ground arith

    reload_http_settled :
        (fuel : ℕ) (c : Settings) (g : Gateways) (s : Sys) (wanted : Bool)
        → wants_http c ≡ wanted
        → Serves wanted c.gateway_port g.gateway
        → reload_http host generate fuel c g s ≡ (returned none, g, s)
    reload_http_settled fuel c g s true w h =
        reload_http_wanted fuel c g s w ∙ reload_http_gateway_same host fuel c.gateway_port g s h
    reload_http_settled fuel c g s false w h =
        reload_http_unwanted fuel c g s w ∙ ap (λ t. (returned none, t, s)) (stop_http-none g h)

    reload_https_settled :
        (fuel : ℕ) (c : Settings) (g : Gateways) (s : Sys) (wanted : Bool)
        → wants_https c ≡ wanted
        → Serves wanted c.ssl_port g.ssl_gateway
        → prepare_certificate host generate c s ≡ (none, s)
        → reload_https host generate fuel c g s ≡ (returned none, g, s)
    reload_https_settled fuel c g s true w h ready =
        rw (reload_https_wanted fuel c g s w, ready)
          (reload_https_gateway_same host fuel c.ssl_port g s h)
    reload_https_settled fuel c g s false w h ready =
        reload_https_unwanted fuel c g s w ∙ ap (λ t. (returned none, t, s)) (stop_https-none g h)

    reload_https-gateway :
        (fuel : ℕ) (c : Settings) (g : Gateways) (s : Sys)
        → (reload_https host generate fuel c g s).1.gateway ≡ g.gateway
    unfolding reload_https reload_https_gateway stop_https
    reload_https-gateway fuel c g s = ground arith

    -- A reload keeps an HTTP server that already is as the settings ask, however it ends.
    pub reload_gateways-gateway :
        (fuel : ℕ) (c : Settings) (g : Gateways) (s : Sys)
        → Serves (wants_http c) c.gateway_port g.gateway
        → (reload_gateways host generate fuel c g s).1.gateway ≡ g.gateway
    reload_gateways-gateway fuel c g s http =
        rw (reload_gateways-and_run fuel c g s, reload_http_settled fuel c g s _ refl http)
          (reload_https-gateway fuel c g s)

    -- When both servers already are as the settings ask and no certificate is to be made, a reload
    -- touches neither: no port is opened, nothing is checked and nothing is told to stop.
    pub reload_gateways_settled :
        (fuel : ℕ) (c : Settings) (g : Gateways) (s : Sys)
        → Serves (wants_http c) c.gateway_port g.gateway
        → Serves (wants_https c) c.ssl_port g.ssl_gateway
        → prepare_certificate host generate c s ≡ (none, s)
        → reload_gateways host generate fuel c g s ≡ (returned none, g, s)
    reload_gateways_settled fuel c g s http https ready =
        rw (reload_gateways-and_run fuel c g s, reload_http_settled fuel c g s _ refl http)
          (reload_https_settled fuel c g s _ refl https ready)

    module _ (binds : Binds host) where
      reload_http-Serves :
          (fuel : ℕ) (c : Settings) (g : Gateways) (s : Sys)
          → (wants_http c ≡ true → IsPort c.gateway_port)
          → (reload_http host generate fuel c g s).0 ≡ returned none
          → Serves (wants_http c) c.gateway_port (reload_http host generate fuel c g s).1.gateway
      unfolding stop_http
      reload_http-Serves fuel c g s is_port h = elim (Bool-cases (wants_http c)) [
        | inl wanted ↦
            let eq = reload_http_wanted fuel c g s wanted in
            rw (eq, wanted)
              (reload_http_gateway-runs_on host binds fuel c.gateway_port g s (is_port wanted)
                (rw eq at h)).0
        | inr not_wanted ↦ rw (reload_http_unwanted fuel c g s not_wanted, not_wanted) refl
      ]

      reload_https-Serves :
          (fuel : ℕ) (c : Settings) (g : Gateways) (s : Sys)
          → (wants_https c ≡ true → IsPort c.ssl_port)
          → (reload_https host generate fuel c g s).0 ≡ returned none
          → Serves (wants_https c) c.ssl_port (reload_https host generate fuel c g s).1.ssl_gateway
            × ((reload_https host generate fuel c g s).1.gateway ≡ g.gateway)
      unfolding stop_https
      reload_https-Serves fuel c g s is_port h = elim (Bool-cases (wants_https c)) [
        | inl wanted ↦
            let eq = reload_https_wanted fuel c g s wanted in
            let prepared = prepare_certificate host generate c s in
            let (_, after) =
              and_run-ok (with_gateways host generate g prepared)
                (reload_https_gateway host fuel c.ssl_port) (rw eq at h) in
            rw (eq, after, wanted)
              (reload_https_gateway-runs_on host binds fuel c.ssl_port g prepared.1 (is_port wanted)
                (rw after at (rw eq at h)))
        | inr not_wanted ↦ rw (reload_https_unwanted fuel c g s not_wanted, not_wanted) (refl, refl)
      ]

      -- If listeners get the port number that they ask for, and the wanted ports are such numbers,
      -- then after a reload of both servers that returned nil each of them runs on its port if it is wanted, and is unset otherwise.
      pub reload_gateways-Serves :
          (fuel : ℕ) (c : Settings) (g : Gateways) (s : Sys)
          → HasPorts c
          → (reload_gateways host generate fuel c g s).0 ≡ returned none
          → Serves
              (wants_http c)
              c.gateway_port
              (reload_gateways host generate fuel c g s).1.gateway
            × Serves
                (wants_https c)
                c.ssl_port
                (reload_gateways host generate fuel c g s).1.ssl_gateway
      reload_gateways-Serves fuel c g s ports h =
          let eq = reload_gateways-and_run fuel c g s in
          let (first, after) = and_run-ok (reload_http host generate fuel c g s) _ (rw eq at h) in
          let (https, kept) = reload_https-Serves fuel c _ _ ports.1 (rw after at (rw eq at h)) in
          let http = reload_http-Serves fuel c g s ports.0 first in
          rw (eq, after) (rw kept http, https)
