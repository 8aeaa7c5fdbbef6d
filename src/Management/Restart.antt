-- ===== src/Management/Restart.antt =====
-- A route that was registered survives a restart of the gateway, and the probes of the components
-- ask the server that the gateway forwards to.
use nimo_os_gateway.Base.{
  ◌≡◌, sym, ap, ◌∙◌, inl, inr, Option, none, some, Text, ok, Result-cases, lookup, keys,
  keys-lookup, Dict, In, arith, ◌≢◌,
}
use nimo_os_gateway.Paths.{join_path}
use nimo_os_gateway.Management.{
  Surroundings, Route, Management, new_proxy, get_proxy, resolve_target, routes_file,
  load_path_target_map, save_path_target_map, new_management_service, create_route,
}
use nimo_os_gateway.Management.Table.{
  IsConsistent, proxy_for, new_management_service-IsConsistent, create_route-IsConsistent,
}
use nimo_os_gateway.Management.Lookup.{
  AtLongest, resolve_target-AtLongest, search_value, search_value-agree, get_proxy_iff,
}

module _ (env : Surroundings) where
  open env use {Sys, Url, parse, read_file, write_file, marshal, unmarshal}

  pub save-written :
      (file : Text) (m : Dict Text) (s s' : Sys)
      → save_path_target_map env file m s ≡ (none, s')
      → (content : Text) × (marshal m ≡ ok content) × (write_file file content s ≡ (none, s'))
  unfolding save_path_target_map
  save-written file m s s' e = elim (Result-cases (marshal m)) [
    | inl (content, made) ↦ (content, made, rw (made, save_path_target_map) at e)
    | inr (f, failed) ↦ absurd (cc)
  ]

  -- What was saved without an error is loaded again.
  pub load-save :
      (file : Text) (m : Dict Text) (s s' : Sys)
      → env.IsPortable m
      → save_path_target_map env file m s ≡ (none, s')
      → (m' : Dict Text) × (load_path_target_map env file s' ≡ ok m')
        × ((k : Text) → lookup k m' ≡ lookup k m)
  unfolding load_path_target_map
  load-save file m s s' portable e =
      let (content, made, written) = save-written file m s s' e in
      let (m', back, same) = env.unmarshal_marshal m content portable made in
      (m', rw (env.read_written file content s s' written, load_path_target_map) back, same)

  -- The table and the file after a registration that returned no error.
  create_route-saved :
      (runtime_path : Text) (route : Route) (g g' : Management Url) (s s' : Sys)
      → create_route env runtime_path route g s ≡ (none, g', s')
      → save_path_target_map env (join_path runtime_path routes_file) g'.path_target_map s
        ≡ (none, s')
  unfolding create_route
  create_route-saved runtime_path route g g' s s' e = elim (Result-cases (parse route.target)) [
    | inl (url, parsed) ↦ ground arith
    | inr (f, failed) ↦ ground arith
  ]

  -- After a registration that returned no error, in a consistent table of valid UTF-8, a gateway
  -- that starts anew gives each path the proxy that the running one gives it.
  pub get_proxy-restart :
      (runtime_path : Text) (route : Route) (g g' : Management Url) (s s' : Sys) (path : Text)
      → IsConsistent env g
      → env.IsPortable g'.path_target_map
      → create_route env runtime_path route g s ≡ (none, g', s')
      → get_proxy (new_management_service env runtime_path s') path ≡ get_proxy g' path
  unfolding get_proxy search_value new_management_service
  get_proxy-restart runtime_path route g g' s s' path consistent portable e =
      let (m', loaded, same) =
        load-save (join_path runtime_path routes_file) g'.path_target_map s s' portable
          (create_route-saved runtime_path route g g' s s' e) in
      let after : IsConsistent env g' =
        rw (ap (λ (r : Option Text × Management Url × Sys). r.1) e) at
          (create_route-IsConsistent env runtime_path route g s consistent) in
      let again = new_management_service-IsConsistent env runtime_path s' in
      search_value-agree (new_management_service env runtime_path s').path_reverse_proxy_map
        g'.path_reverse_proxy_map path
        λ k h.
          again.proxies k
          ∙ ap (proxy_for env) (rw (loaded, new_management_service) (same k))
          ∙ sym (after.proxies k)

  proxy_for-ok :
      (target : Text) (url : Url)
      → parse target ≡ ok url
      → proxy_for env (some target) ≡ some (new_proxy url)
  proxy_for-ok target url h = ground arith

  -- In a consistent table whose targets all parse, the target of the longest registered prefix of a
  -- path is what the component probes resolve it to, and the gateway's own proxy forwards there.
  pub resolve_target-get_proxy :
      (g : Management Url) (path target : Text)
      → IsConsistent env g
      → ((k t : Text) → lookup k g.path_target_map ≡ some t → (url : Url) × (parse t ≡ ok url))
      → AtLongest g.path_target_map path target
      → (url : Url) × (parse target ≡ ok url)
        × (get_proxy g path ≡ some (new_proxy url))
        × (resolve_target g path ≡ target)
  unfolding resolve_target search_value
  resolve_target-get_proxy g path target consistent parses (p, l, found) =
      let (url, parsed) = parses p target found in
      let proxied : lookup p g.path_reverse_proxy_map ≡ some (new_proxy url) =
        consistent.proxies p ∙ ap (proxy_for env) found ∙ proxy_for-ok target url parsed in
      (
        url,
        parsed,
        (get_proxy_iff g path (new_proxy url)).1 (
          p,
          record {
            listed = (keys-lookup p g.path_reverse_proxy_map).1 (λ none_there. cc);
            matches = l.matches;
            longest = λ q m h. l.longest q ((keys-lookup q g.path_target_map).1 (registered q m)) h;
          },
          proxied,
        ),
        resolve_target-AtLongest g path target (p, l, found),
      )
    where
      registered :
          (q : Text) → In q (keys g.path_reverse_proxy_map) → lookup q g.path_target_map ≢ none
      registered q m gone =
          (keys-lookup q g.path_reverse_proxy_map).0 m
            (consistent.proxies q ∙ ap (proxy_for env) gone)
