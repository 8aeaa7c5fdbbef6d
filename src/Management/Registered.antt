-- ===== src/Management/Registered.antt =====
-- What a registration that succeeded gives to the paths below the route.
use nimo_os_gateway.Base.{
  ◌≤◌, ◌≡◌, refl, inl, inr, true, none, some, [], ◌∷◌, Text, Result-cases, ok, has_prefix, length,
  lookup, keys-lookup, lookup-insert, same, if◌then◌else◌, arith,
}
use nimo_os_gateway.Management.{
  Surroundings, ReverseProxy, Route, Management, new_proxy, put_route, get_proxy, create_route,
}
use nimo_os_gateway.Management.Lookup.{get_proxy_iff}

length-has_prefix : (s p : Text) → has_prefix s p ≡ true → length p ≤ length s
unfolding has_prefix
length-has_prefix s [] h = omega arith
length-has_prefix [] (y ∷ p) h = absurd (cc)
length-has_prefix (x ∷ s) (y ∷ p) h = ground (arith, length-has_prefix s p)

has_prefix_refl : (s : Text) → has_prefix s s ≡ true
unfolding has_prefix
has_prefix_refl [] = refl
has_prefix_refl (x ∷ s) = ground (arith, has_prefix_refl s)

-- A registered path itself gets its own proxy: no longer key is a prefix of it.
pub get_proxy-own :
    {Url : Type 0} (g : Management Url) (path : Text) (proxy : ReverseProxy Url)
    → lookup path g.path_reverse_proxy_map ≡ some proxy
    → get_proxy g path ≡ some proxy
get_proxy-own g path proxy there = (get_proxy_iff g path proxy).1 (
  path,
  record {
    listed = (keys-lookup path g.path_reverse_proxy_map).1 (λ e. cc);
    matches = has_prefix_refl path;
    longest = λ q m h. length-has_prefix path q h;
  },
  there,
)

module _ (env : Surroundings) (runtime_path : Text) (route : Route) (g : Management env.Url)
    (s : env.Sys) where
  -- A target of a registration that returned nil can be parsed.
  pub create_route-parses :
      (create_route env runtime_path route g s).0 ≡ none
      → (url : env.Url) × (env.parse route.target ≡ ok url)
  unfolding create_route
  create_route-parses h = elim (Result-cases (env.parse route.target)) [
    | inl found ↦ found
    | inr (e, failed) ↦ absurd (cc (rw (failed, create_route) at h))
  ]

  -- The proxies after a registration whose target can be parsed, however the write ends.
  pub create_route-lookup :
      (url : env.Url) (k : Text)
      → env.parse route.target ≡ ok url
      → lookup k (create_route env runtime_path route g s).1.path_reverse_proxy_map
        ≡ (if same route.path k then some (new_proxy url) else lookup k g.path_reverse_proxy_map)
  unfolding create_route put_route
  create_route-lookup url k parsed =
      rw (parsed, create_route, put_route) (lookup-insert route.path k (new_proxy url) _)
