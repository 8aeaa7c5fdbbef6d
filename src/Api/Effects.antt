-- ===== src/Api/Effects.antt =====
-- What a client reads after a change that the management server has reported as done.
use nimo_os_gateway.Base.{
  ℕ, List, sym, ◌≡◌, refl, ◌∙◌, inl, inr, Option, none, some, [], ◌∷◌, Text, Dict, insert, same,
  Bool-cases, Result-cases, In, arith, ok, Error,
}
use nimo_os_gateway.State.{State, set_gateway_port, set_ssl_config}
use nimo_os_gateway.State.Setters.{set_ssl_config-ok, set_gateway_port-ok, set_gateway_port-verdict}
use nimo_os_gateway.Management.{
  Surroundings, Route, Management, routes_of, get_routes, create_route, put_route,
}
use nimo_os_gateway.Gateway.{Request}
use nimo_os_gateway.Api.{
  Binder, SslConfigRequest, Process, reply, no_content, finished, route_list, port_result,
  ssl_result, list_routes, post_route, get_port, put_port, put_ssl, settled, created,
}
use nimo_os_gateway.Api.Server.{Sights, current_dates, get_ssl}

-- A written key with its value is one of the routes.
routes_of-insert :
    (path target : Text) (m : Dict Text)
    → In (record { path = path; target = target }) (routes_of (insert path target m))
unfolding routes_of insert
routes_of-insert path target [] = inl refl
routes_of-insert path target ((p, t) ∷ m) = elim (Bool-cases (same p path)) [
  | inl here ↦ rw here (inl refl)
  | inr more ↦ rw more (inr (routes_of-insert path target m))
]

module _ (env : Surroundings) where
  create_route-targets :
      (runtime_path : Text) (route : Route) (g : Management env.Url) (s : env.Sys)
      → (create_route env runtime_path route g s).0 ≡ none
      → (create_route env runtime_path route g s).1.path_target_map
        ≡ insert route.path route.target g.path_target_map
  unfolding create_route put_route
  create_route-targets runtime_path route g s h = elim (Result-cases (env.parse route.target)) [
    | inl (url, parsed) ↦ rw (parsed, create_route, put_route) refl
    | inr (e, failed) ↦ absurd (cc (rw (failed, create_route) at h))
  ]

module _ {env : Surroundings} {W : Type 0} where
  pub settled-finished :
      (p : Process env W) (r : Option Error × State W × W)
      → (settled p r).0 ≡ finished
      → (r.0 ≡ none) × ((settled p r).1.state ≡ r.1)
  settled-finished p (none, c, w) h = (refl, refl)
  settled-finished p (some e, c, w) h = ground arith

  created-no_content :
      (p : Process env W) (r : Option Error × Management env.Url × env.Sys)
      → (created p r).0 ≡ reply 201 no_content
      → (r.0 ≡ none) × ((created p r).1.table ≡ r.1)
  created-no_content p (none, g, s) h = (refl, refl)
  created-no_content p (some e, g, s) h = absurd (cc)

  module _ (bind : Binder) (r q : Request) (p : Process env W) where
    -- After a change of the port that was reported as done, the API reports the new port.
    pub put_port-get_port :
        (port : Text)
        → bind.bind_port r ≡ ok (some port)
        → (put_port bind r p).0 ≡ finished
        → (get_port q (put_port bind r p).1).0 ≡ reply 200 (port_result port)
    unfolding put_port get_port
    put_port-get_port port bound h =
        let (quiet, same_state) =
          settled-finished p (set_gateway_port port p.state p.world) (rw (bound, put_port) at h) in
        rw
          (
            bound,
            same_state,
            set_gateway_port-ok port p.state p.world
                (sym (set_gateway_port-verdict port p.state p.world) ∙ quiet),
          )
          refl

    -- After a change of the SSL settings that was reported as done, the API reports the new
    -- settings.
    pub put_ssl-get_ssl :
        (sights : Sights W) (new : SslConfigRequest)
        → bind.bind_ssl r ≡ ok new
        → (put_ssl bind r p).0 ≡ finished
        → (dates : Option ℕ × Option ℕ) × ((get_ssl sights q (put_ssl bind r p).1).0
            ≡ reply 200 (
                ssl_result (record {
                  enabled = new.enabled;
                  port = new.port;
                  domain = new.domain;
                  cert_type = new.cert_type;
                  effective_time = dates.0;
                  expiration_time = dates.1;
                })))
    unfolding put_ssl get_ssl
    put_ssl-get_ssl sights new bound h =
        let run = set_ssl_config new.enabled new.port new.domain new.cert_type p.state p.world in
        let (quiet, same_state) = settled-finished p run (rw (bound, put_ssl) at h) in
        (
          current_dates sights (put_ssl bind r p).1.world,
          rw
              (
                bound,
                same_state,
                set_ssl_config-ok new.enabled new.port new.domain new.cert_type p.state p.world
                    quiet,
              )
              refl,
        )

    -- After a route was reported as created, the API lists it.
    pub post_route-list_routes :
        (route : Route)
        → bind.bind_route r ≡ ok (some route)
        → (post_route bind r p).0 ≡ reply 201 no_content
        → (listed : List Route) × ((list_routes q (post_route bind r p).1).0
            ≡ reply 200 (route_list listed))
          × In route listed
    unfolding post_route list_routes get_routes
    post_route-list_routes route bound h =
        let run = create_route env p.state.settings.runtime_path route p.table p.disk in
        let (quiet, table) = created-no_content p run (rw (bound, post_route) at h) in
        let target =
          create_route-targets env p.state.settings.runtime_path route p.table p.disk quiet in
        (
          get_routes (post_route bind r p).1.table,
          refl,
          rw (bound, table, target)
              (routes_of-insert route.path route.target p.table.path_target_map),
        )
