-- ===== src/Startup/Run/Served.antt =====
-- What the gateway serves after a start.
use nimo_os_gateway.Base.{
  ◌≡◌, refl, ap, ◌∙◌, true, false, Option, none, some, Text, codes, Error, ok, and_then-ok, ◌>>◌,
  same, has_prefix, lookup, All, All-In, All-intro, In, arith,
}
use nimo_os_gateway.Addresses.{join_host_port}
use nimo_os_gateway.Internal.{is_internal_path}
use nimo_os_gateway.State.{ConfigHook}
use nimo_os_gateway.Management.{Surroundings, ReverseProxy, new_proxy, get_proxy}
use nimo_os_gateway.Management.Lookup.{get_proxy-some}
use nimo_os_gateway.Management.Registered.{get_proxy-own}
use nimo_os_gateway.Gateway.{
  Request, options_method, ping_path, is_hidden_version, rewrite_request_source_ip, cors_headers,
  serve, proxied,
}
use nimo_os_gateway.Gateway.Serving.{Passes-serve}
use nimo_os_gateway.Api.{Process}
use nimo_os_gateway.Startup.Run.{
  Machine, localhost, http_url, management_paths, start_management, publish_static, start_gateway,
  start_all,
}
use nimo_os_gateway.Startup.Run.Routes.{proxy_at, start_management-own, publish_static-step}
use nimo_os_gateway.Startup.Run.Port.{start_gateway-table}

-- No path of the management server is the root.
management_paths-ne-root : All (λ path. same (codes "/") path ≡ false) management_paths
unfolding management_paths same
management_paths-ne-root = ground arith

module _ {env : Surroundings} {W : Type 0} (m : Machine W) (reload : ConfigHook W)
    (p : Process env W) where
  abbrev managed : Process env W
  managed = (start_management m p).1

  abbrev gated : Process env W
  gated = (start_gateway m reload managed).1

  start_all-steps :
      (start_all m reload p).0 ≡ none
      → ((start_management m p).0 ≡ none)
        × ((publish_static m gated).0 ≡ none)
        × (start_all m reload p ≡ publish_static m gated)
  unfolding start_all
  start_all-steps h =
      let (first, rest) =
        and_then-ok (start_management m p) (start_gateway m reload >> publish_static m) h in
      let (second, last) =
        and_then-ok (start_gateway m reload managed) (publish_static m) (rw rest at h) in
      (first, rw (rest ∙ last) at h, rest ∙ last)

  -- After a start that ended without an error, each path that the management server registers leads
  -- to that server, at the address of its listener, whatever was registered before.
  pub start_all-own :
      (start_all m reload p).0 ≡ none
      → (addr : Text) × (url : env.Url) × ((m.listen
            (join_host_port localhost (codes "0"))
            p.world).0
          ≡ ok addr)
        × (env.parse (http_url addr) ≡ ok url)
        × All
            (λ path. get_proxy (start_all m reload p).1.table path ≡ some (new_proxy url))
            management_paths
  start_all-own h =
      let (first, last, whole) = start_all-steps h in
      let (addr, url, bound, parsed, own) = start_management-own m p first in
      let (_, _, others) = publish_static-step m gated last in
      let there = λ (path : Text) (listed : In path management_paths).
        get_proxy-own (start_all m reload p).1.table path (new_proxy url) (
          ap (λ (r : Option Error × Process env W). proxy_at r.1 path) whole
          ∙ others path (
              All-In (λ q. same (codes "/") q ≡ false) management_paths management_paths-ne-root
                path listed)
          ∙ ap (λ t. lookup path t.path_reverse_proxy_map) (start_gateway-table m reload managed)
          ∙ All-In (λ q. proxy_at managed q ≡ some (new_proxy url)) management_paths own path
              listed) in
      (
        addr,
        url,
        bound,
        parsed,
        All-intro (λ path. get_proxy (start_all m reload p).1.table path ≡ some (new_proxy url))
            management_paths there,
      )

  start_all-proxied :
      (path : Text)
      → (start_all m reload p).0 ≡ none
      → has_prefix path (codes "/") ≡ true
      → (proxy : ReverseProxy env.Url) × (get_proxy (start_all m reload p).1.table path
          ≡ some proxy)
  start_all-proxied path h below =
      let (_, last, whole) = start_all-steps h in
      let (url, root, _) = publish_static-step m gated last in
      get_proxy-some (start_all m reload p).1.table path (codes "/") (λ missing. cc (root, missing))
        below

  -- After a start that ended without an error, the gateway hands on every request for a path that
  -- begins with a slash, unless it answers the request itself or refuses its path: none is lost for
  -- want of a route.
  pub start_all-serves :
      (to_lower : Text → Text) (r s : Request)
      → (start_all m reload p).0 ≡ none
      → has_prefix r.path (codes "/") ≡ true
      → same r.method options_method ≡ false
      → same r.path ping_path ≡ false
      → is_internal_path to_lower r.path ≡ false
      → is_hidden_version r.path ≡ false
      → rewrite_request_source_ip r ≡ some s
      → (proxy : ReverseProxy env.Url) × (serve to_lower
            (get_proxy (start_all m reload p).1.table)
            r
          ≡ proxied proxy cors_headers s)
  start_all-serves to_lower r s h below method path internal version rewritten =
      let (proxy, chosen) = start_all-proxied r.path h below in
      (
        proxy,
        Passes-serve to_lower (get_proxy (start_all m reload p).1.table) r s proxy cors_headers
            (record {
              method = method;
              path = path;
              internal = internal;
              version = version;
              chosen = chosen;
              rewritten = rewritten;
              cors = refl;
            }),
      )
