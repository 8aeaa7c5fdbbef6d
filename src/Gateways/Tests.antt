-- ===== src/Gateways/Tests.antt =====
-- Reloads on a host with two free ports, where every request is answered 200.
use nimo_os_gateway.Base.{
  ℕ, ◌≡◌, refl, ap, ◌⊎◌, inl, inr, Bool, true, false, none, some, [], ◌∷◌, Text, codes, last_index,
  Result, ok, err, Act, same, same_iff, arith, if◌then◌else◌, decimal,
}
use nimo_os_gateway.Addresses.{contains, split_host_port, join_host_port}
use nimo_os_gateway.Probes.{Ended, returned}
use nimo_os_gateway.State.{Settings, no_settings}
use nimo_os_gateway.State.Setters.{with_port, with_ssl}
use nimo_os_gateway.Gateways.{
  Host, Certificate, Gateways, crt_type, runs_on, reload_gateways, prepare_certificate,
  needs_generation,
}
use nimo_os_gateway.Gateways.Servers.{Binds, IsPort}
use nimo_os_gateway.Gateways.Reload.{Serves, reload_gateways_settled, reload_gateways-Serves}

-- The addresses that can be listened on.
abbrev bound : Bool → Text → Result Text
bound true addr = ok addr
bound false addr = err (codes "address already in use")

abbrev is_free : Text → Bool
is_free addr = if same addr (codes ":8080") then true else same addr (codes ":8443")

abbrev nas_cert : Certificate
nas_cert = record { common_name = codes "nas"; not_before = 1000; not_after = 2000 }

-- `Sys` is the status of every answer.
abbrev pub small_host : Host
small_host = record {
  Sys = ℕ;
  listen = λ addr s. (bound (is_free addr) addr, s);
  fetch = λ url s. ((some s, none), s);
  is_missing = λ path s. false;
  read_file = λ path s. ok (codes "pem");
  pem_decode = λ content. some (crt_type, content);
  parse_certificate = λ bytes. ok nas_cert;
  now = λ s. 5000;
  config_path = codes "/etc/nimoos";
}

abbrev pub generate_nothing : Text → Text → Text → Act ℕ
generate_nothing cert key domain s = (none, s)

free_port :
    (port : Text)
    → is_free (join_host_port [] port) ≡ true
    → (port ≡ codes "8080") ⊎ (port ≡ codes "8443")
unfolding join_host_port contains same
free_port port h =
    ground (arith, same_iff (codes ":8080") (b':' ∷ port), same_iff (codes ":8443") (b':' ∷ port))

split_free :
    (port : Text)
    → is_free (join_host_port [] port) ≡ true
    → split_host_port (join_host_port [] port) ≡ ok ([], port)
unfolding join_host_port split_host_port contains last_index
split_free port h = elim (free_port port h) [ inl e ↦ rw e refl | inr e ↦ rw e refl ]

bound-ok : (b : Bool) (a addr : Text) → bound b a ≡ ok addr → (b ≡ true) × (addr ≡ a)
bound-ok true a addr e = (refl, cc)
bound-ok false a addr e = absurd (cc)

pub small_host-Binds : Binds small_host
small_host-Binds port addr s s' is_port e =
    let (free, is_addr) = bound-ok _ _ addr (ap (λ (r : Result Text × ℕ). r.0) e) in
    ([], rw is_addr (split_free port free))

abbrev nothing : Gateways
nothing = record { gateway = none; ssl_gateway = none; started = []; stopping = [] }

abbrev pub on_8080 : Gateways
on_8080 = record nothing { gateway = some (codes ":8080") }

abbrev wanted : Settings
wanted =
    with_ssl true (codes "8443") (codes "nas") (codes "auto") (with_port (codes "8080") no_settings)

abbrev both : Gateways
both = record {
  gateway = some (codes ":8080");
  ssl_gateway = some (codes ":8443");
  started = codes ":8443" ∷ codes ":8080" ∷ [];
  stopping = [];
}

-- Both servers start when every request is answered 200.
both_run :
    reload_gateways small_host generate_nothing 1 wanted nothing 200 ≡ (returned none, both, 200)
unfolding reload_gateways same runs_on join_host_port
both_run = refl

pub http_wanted-IsPort : IsPort (codes "8080")
unfolding decimal
http_wanted-IsPort = (8080, omega arith, omega arith, refl)

pub ssl_wanted-IsPort : IsPort (codes "8443")
unfolding decimal
ssl_wanted-IsPort = (8443, omega arith, omega arith, refl)

reload_gateways-Serves_example :
    Serves true
      (codes "8080")
      (reload_gateways small_host generate_nothing 1 wanted nothing 200).1.gateway
    × Serves true
        (codes "8443")
        (reload_gateways small_host generate_nothing 1 wanted nothing 200).1.ssl_gateway
unfolding same
reload_gateways-Serves_example =
    reload_gateways-Serves small_host generate_nothing small_host-Binds 1 wanted nothing 200
      (λ on. http_wanted-IsPort, λ on. ssl_wanted-IsPort)
      (ap (λ (r : Ended × Gateways × ℕ). r.0) both_run)

reload_gateways_settled_example :
    reload_gateways small_host generate_nothing 1 wanted both 200 ≡ (returned none, both, 200)
unfolding runs_on split_host_port contains last_index same prepare_certificate needs_generation
reload_gateways_settled_example =
    reload_gateways_settled small_host generate_nothing 1 wanted both 200 refl refl refl

abbrev small_crt_path : Text
small_crt_path = codes "/etc/nimoos/certs/gateway.crt"

abbrev ca_path : Text
ca_path = codes "/etc/nimoos/certs/ca.crt"
