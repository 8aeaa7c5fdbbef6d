-- ===== src/Gateways/Servers.antt =====
-- How one server is replaced by another.
use nimo_os_gateway.Base.{
  ℕ, ◌≡◌, refl, inl, inr, true, false, Option, none, some, List, [], ◌∷◌, ◌++◌, ◌<◌, ◌^◌, Text,
  codes, Result, ok, err, same_refl, Bool-cases, arith, decimal,
}
use nimo_os_gateway.Addresses.{split_host_port, join_host_port}
use nimo_os_gateway.Probes.{Ended, returned, check_url_with_retry}
use nimo_os_gateway.Gateways.{
  Host, Gateways, runs_on, use_http, use_https, when_listening, http_check, https_check,
  reload_http_gateway, reload_https_gateway,
}

-- A port number. `net.Listen` takes 0 and the empty port as a free port of the system's choice, and
-- names of services as their ports; none of these is meant here.
abbrev pub IsPort : Text → Type 0
IsPort port = (n : ℕ) × (0 < n) × (n < 2 ^ 16) × (port ≡ decimal n)

-- What is documented of a listener: its address ends in the port number that was asked for.
abbrev pub Binds : (host : Host) → Type 0
Binds host =
    (port addr : Text) (s s' : host.Sys)
    → IsPort port
    → host.listen (join_host_port [] port) s ≡ (ok addr, s')
    → (name : Text) × (split_host_port addr ≡ ok (name, port))

-- A server that was in use is told to stop, and no other.
abbrev pub Stops : Option Text → List Text → List Text → Type 0
Stops none before after = after ≡ before
Stops (some addr) before after = after ≡ addr ∷ before

module _ (host : Host) where
  open host use {Sys, listen}

  -- What serves after the servers of one kind were reloaded.
  module _ (swap : Text → Gateways → Gateways) (check : Sys → Ended × Sys) where
    when_listening-swapped :
        (g : Gateways) (r : Result Text × Sys)
        → (when_listening host swap check g r).0 ≡ returned none
        → (addr : Text) × (r.0 ≡ ok addr)
          × ((when_listening host swap check g r).1
              ≡ swap addr (record g { started = addr ∷ g.started }))
    when_listening-swapped g (err e, s) h = absurd (cc)
    when_listening-swapped g (ok addr, s) h = (addr, refl, ground arith)

  pub reload_http_gateway_same :
      (fuel : ℕ) (port : Text) (g : Gateways) (s : Sys)
      → runs_on g.gateway port ≡ true
      → reload_http_gateway host fuel port g s ≡ (returned none, g, s)
  unfolding reload_http_gateway
  reload_http_gateway_same fuel port g s h = rw h

  reload_http_gateway_new :
      (fuel : ℕ) (port : Text) (g : Gateways) (s : Sys)
      → runs_on g.gateway port ≡ false
      → reload_http_gateway host fuel port g s
        ≡ when_listening host use_http
            (http_check host fuel port)
            g
            (listen (join_host_port [] port) s)
  unfolding reload_http_gateway
  reload_http_gateway_new fuel port g s h = rw h

  pub reload_https_gateway_same :
      (fuel : ℕ) (port : Text) (g : Gateways) (s : Sys)
      → runs_on g.ssl_gateway port ≡ true
      → reload_https_gateway host fuel port g s ≡ (returned none, g, s)
  unfolding reload_https_gateway
  reload_https_gateway_same fuel port g s h = rw h

  reload_https_gateway_new :
      (fuel : ℕ) (port : Text) (g : Gateways) (s : Sys)
      → runs_on g.ssl_gateway port ≡ false
      → reload_https_gateway host fuel port g s
        ≡ when_listening host use_https
            (https_check host fuel port)
            g
            (listen (join_host_port [] port) s)
  unfolding reload_https_gateway
  reload_https_gateway_new fuel port g s h = rw h

  -- The new server listens, and its check has returned nil.
  pub record IsReady (fuel : ℕ) (port : Text) (s : Sys) (addr : Text) : Type 0 where
    pub listens : (listen (join_host_port [] port) s).0 ≡ ok addr
    pub checked :
        (check_url_with_retry
          (host.fetch (codes "http://127.0.0.1:" ++ port ++ codes "/ping"))
          fuel
          10
          (listen (join_host_port [] port) s).1).0
        ≡ returned none

  -- The new server is in use, and of the servers in use only the old one is told to stop.
  pub record IsReplaced (addr : Text) (g g' : Gateways) : Type 0 where
    pub gateway : g'.gateway ≡ some addr
    pub ssl_gateway : g'.ssl_gateway ≡ g.ssl_gateway
    pub stopping : Stops g.gateway g.stopping g'.stopping

  -- The servers that are in use stay in use.
  pub record IsKept (g g' : Gateways) : Type 0 where
    pub gateway : g'.gateway ≡ g.gateway
    pub ssl_gateway : g'.ssl_gateway ≡ g.ssl_gateway
    pub stopping : g'.stopping ≡ g.stopping

  module _ (binds : Binds host) where
    Binds-runs_on :
        (port addr : Text) (s : Sys)
        → IsPort port
        → (listen (join_host_port [] port) s).0 ≡ ok addr
        → runs_on (some addr) port ≡ true
    unfolding runs_on
    Binds-runs_on port addr s is_port h =
        let r = listen (join_host_port [] port) s in
        let whole : r ≡ (ok addr, r.1) = λ i. (h i, r.1) in
        let (name, e) = binds port addr s r.1 is_port whole in rw e (same_refl port)

    -- After a reload for a port number that returned nil the HTTP server runs on the port, and the HTTPS server is
    -- the one that ran before.
    pub reload_http_gateway-runs_on :
        (fuel : ℕ) (port : Text) (g : Gateways) (s : Sys)
        → IsPort port
        → (reload_http_gateway host fuel port g s).0 ≡ returned none
        → (runs_on (reload_http_gateway host fuel port g s).1.gateway port ≡ true)
          × ((reload_http_gateway host fuel port g s).1.ssl_gateway ≡ g.ssl_gateway)
    reload_http_gateway-runs_on fuel port g s is_port h =
        elim (Bool-cases (runs_on g.gateway port)) [
          | inl at ↦ rw (reload_http_gateway_same fuel port g s at) (at, refl)
          | inr off ↦
              let new = reload_http_gateway_new fuel port g s off in
              let (addr, bound, swapped) =
                when_listening-swapped use_http (http_check host fuel port) g _ (rw new at h) in
              rw (new, swapped) (Binds-runs_on port addr s is_port bound, refl)
        ]

    pub reload_https_gateway-runs_on :
        (fuel : ℕ) (port : Text) (g : Gateways) (s : Sys)
        → IsPort port
        → (reload_https_gateway host fuel port g s).0 ≡ returned none
        → (runs_on (reload_https_gateway host fuel port g s).1.ssl_gateway port ≡ true)
          × ((reload_https_gateway host fuel port g s).1.gateway ≡ g.gateway)
    reload_https_gateway-runs_on fuel port g s is_port h =
        elim (Bool-cases (runs_on g.ssl_gateway port)) [
          | inl at ↦ rw (reload_https_gateway_same fuel port g s at) (at, refl)
          | inr off ↦
              let new = reload_https_gateway_new fuel port g s off in
              let (addr, bound, swapped) =
                when_listening-swapped use_https (https_check host fuel port) g _ (rw new at h) in
              rw (new, swapped) (Binds-runs_on port addr s is_port bound, refl)
        ]
