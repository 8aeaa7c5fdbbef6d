-- ===== src/Startup/Run/Routes.antt =====
-- The routes after the hooks that start the servers.
use nimo_os_gateway.Base.{
  ◌≡◌, refl, sym, ◌∙◌, false, Option, none, some, List, [], ◌∷◌, Text, codes, Error, Result, ok,
  err, and_then-ok, ◌>>◌, same, same_refl, lookup, All, arith,
}
use mathlib.Core.Path.{subst}
use nimo_os_gateway.Addresses.{join_host_port}
use nimo_os_gateway.Management.{Surroundings, ReverseProxy, Route, new_proxy}
use nimo_os_gateway.Management.Registered.{create_route-parses, create_route-lookup}
use nimo_os_gateway.Api.{Process}
use nimo_os_gateway.Startup.Run.{
  Machine, localhost, http_url, management_paths, register, register_all, after_listen,
  publish_address, start_management, publish_static,
}

module _ {env : Surroundings} {W : Type 0} where
  -- The proxy of a path in the table of a process.
  abbrev pub proxy_at : Process env W → Text → Option (ReverseProxy env.Url)
  proxy_at p path = lookup path p.table.path_reverse_proxy_map

  register-keeps :
      (target k : Text) (url : env.Url) (route : Route) (p : Process env W)
      → env.parse route.target ≡ ok url
      → proxy_at p k ≡ some (new_proxy url)
      → proxy_at (register route p).1 k ≡ some (new_proxy url)
  unfolding register
  register-keeps target k url route p parsed there =
      create_route-lookup env p.state.settings.runtime_path route p.table p.disk url k parsed
      ∙ ground (arith, there)

  register-own :
      (url : env.Url) (route : Route) (p : Process env W)
      → env.parse route.target ≡ ok url
      → proxy_at (register route p).1 route.path ≡ some (new_proxy url)
  unfolding register
  register-own url route p parsed =
      create_route-lookup env p.state.settings.runtime_path route p.table p.disk url route.path
        parsed
      ∙ rw (same_refl route.path) refl

  register-other :
      (url : env.Url) (route : Route) (p : Process env W) (k : Text)
      → env.parse route.target ≡ ok url
      → same route.path k ≡ false
      → proxy_at (register route p).1 k ≡ proxy_at p k
  unfolding register
  register-other url route p k parsed ne =
      create_route-lookup env p.state.settings.runtime_path route p.table p.disk url k parsed
      ∙ rw ne refl

  register-parses :
      (route : Route) (p : Process env W)
      → (register route p).0 ≡ none
      → (url : env.Url) × (env.parse route.target ≡ ok url)
  unfolding register
  register-parses route p h =
      create_route-parses env p.state.settings.runtime_path route p.table p.disk h

  register_all-keeps :
      (target k : Text) (url : env.Url) (paths : List Text) (p : Process env W)
      → env.parse target ≡ ok url
      → (register_all target paths p).0 ≡ none
      → proxy_at p k ≡ some (new_proxy url)
      → proxy_at (register_all target paths p).1 k ≡ some (new_proxy url)
  unfolding register_all
  register_all-keeps target k url [] p parsed h there = there
  register_all-keeps target k url (path ∷ paths) p parsed h there =
      let route : Route = record { path = path; target = target } in
      let (_, rest) = and_then-ok (register route p) (register_all target paths) h in
      rw rest (
        register_all-keeps target k url paths (register route p).1 parsed (rw rest at h)
          (register-keeps target k url route p parsed there))

  register_all-own :
      (target : Text) (url : env.Url) (paths : List Text) (p : Process env W)
      → env.parse target ≡ ok url
      → (register_all target paths p).0 ≡ none
      → All (λ path. proxy_at (register_all target paths p).1 path ≡ some (new_proxy url)) paths
  unfolding register_all
  register_all-own target url [] p parsed h = tt
  register_all-own target url (path ∷ paths) p parsed h =
      let route : Route = record { path = path; target = target } in
      let (_, rest) = and_then-ok (register route p) (register_all target paths) h in
      subst
        (λ (r : Option Error × Process env W).
          All (λ q. proxy_at r.1 q ≡ some (new_proxy url)) (path ∷ paths))
        (sym rest)
        (
          register_all-keeps target path url paths (register route p).1 parsed (rw rest at h)
              (register-own url route p parsed),
          register_all-own target url paths (register route p).1 parsed (rw rest at h),
        )

  register_all-parses :
      (target path : Text) (paths : List Text) (p : Process env W)
      → (register_all target (path ∷ paths) p).0 ≡ none
      → (url : env.Url) × (env.parse target ≡ ok url)
  unfolding register_all
  register_all-parses target path paths p h =
      let route : Route = record { path = path; target = target } in
      register-parses route p (and_then-ok (register route p) (register_all target paths) h).0

  management-parses :
      (target : Text) (p : Process env W)
      → (register_all target management_paths p).0 ≡ none
      → (url : env.Url) × (env.parse target ≡ ok url)
  unfolding management_paths
  management-parses target p h = register_all-parses target _ _ p h

  after_listen-ok :
      (m : Machine W) (k : Text → Process env W → Option Error × Process env W) (p : Process env W)
      (r : Result Text × W)
      → (after_listen m k p r).0 ≡ none
      → (addr : Text) × (r.0 ≡ ok addr) × (after_listen m k p r ≡ k addr (record p { world = r.1 }))
  after_listen-ok m k p (err e, w) h = absurd (cc)
  after_listen-ok m k p (ok addr, w) h = (addr, refl, refl)

  module _ (m : Machine W) where
    -- After the hook of the management server every path of its has a proxy to that server.
    pub start_management-own :
        (p : Process env W)
        → (start_management m p).0 ≡ none
        → (addr : Text) × (url : env.Url) × ((m.listen
              (join_host_port localhost (codes "0"))
              p.world).0
            ≡ ok addr)
          × (env.parse (http_url addr) ≡ ok url)
          × All
              (λ path. proxy_at (start_management m p).1 path ≡ some (new_proxy url))
              management_paths
    unfolding start_management
    start_management-own p h =
        let step = λ (addr : Text).
          publish_address m m.management_url_filename (http_url addr)
          >> register_all (http_url addr) management_paths in
        let (addr, bound, ran) =
          after_listen-ok m step p (m.listen (join_host_port localhost (codes "0")) p.world) h in
        let target = http_url addr in
        let q = record p { world = (m.listen (join_host_port localhost (codes "0")) p.world).1 } in
        let published = publish_address m m.management_url_filename target q in
        let (_, rest) =
          and_then-ok published (register_all target management_paths) (rw ran at h) in
        let after : start_management m p ≡ register_all target management_paths published.1 =
          ran ∙ rest in
        let done : (register_all target management_paths published.1).0 ≡ none = rw after at h in
        let (url, parsed) = management-parses target published.1 done in
        (
          addr,
          url,
          bound,
          parsed,
          subst
              (λ (r : Option Error × Process env W).
                All (λ path. proxy_at r.1 path ≡ some (new_proxy url)) management_paths)
              (sym after) (register_all-own target url management_paths published.1 parsed done),
        )

    -- The hook of the static files registers the root.
    pub publish_static-step :
        (p : Process env W)
        → (publish_static m p).0 ≡ none
        → (url : env.Url) × (proxy_at (publish_static m p).1 (codes "/") ≡ some (new_proxy url))
          × ((k : Text)
              → same (codes "/") k ≡ false
              → proxy_at (publish_static m p).1 k ≡ proxy_at p k)
    unfolding publish_static
    publish_static-step p h =
        let step = λ (addr : Text).
          publish_address m m.static_url_filename (http_url addr)
          >> register (record { path = codes "/"; target = http_url addr }) in
        let (addr, bound, ran) =
          after_listen-ok m step p (m.listen (join_host_port localhost (codes "0")) p.world) h in
        let root : Route = record { path = codes "/"; target = http_url addr } in
        let q = record p { world = (m.listen (join_host_port localhost (codes "0")) p.world).1 } in
        let published = publish_address m m.static_url_filename (http_url addr) q in
        let (_, rest) = and_then-ok published (register root) (rw ran at h) in
        let after : publish_static m p ≡ register root published.1 = ran ∙ rest in
        let (url, parsed) = register-parses root published.1 (rw after at h) in
        (
          url,
          rw after (register-own url root published.1 parsed),
          λ k ne. rw after (register-other url root published.1 k parsed ne),
        )
