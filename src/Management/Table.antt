-- ===== src/Management/Table.antt =====
-- The proxies always are those of the registered targets.
use nimo_os_gateway.Base.{
  ◌≡◌, refl, ◌∙◌, Option, none, some, [], ◌∷◌, Text, Result, ok, err, Result-cases, inl, inr,
  lookup, Dict, IsMap, insert-IsMap, lookup-insert, same_iff, arith, if◌then◌else◌, same,
}
use nimo_os_gateway.Paths.{join_path}
use nimo_os_gateway.Management.{
  Surroundings, ReverseProxy, Route, Management, new_proxy, add_proxy, build_proxies, put_route,
  load_path_target_map, new_management_service, create_route, or_empty, from_table, routes_file,
}

module _ (env : Surroundings) where
  open env use {Sys, Url, parse, unmarshal, read_file}

  -- The proxy that a target asks for, over one that is there already.
  abbrev over : Option Text → Option (ReverseProxy Url) → Option (ReverseProxy Url)
  over none old = old
  over (some target) old = elim (parse target) [ ok url ↦ some (new_proxy url) | err e ↦ old ]

  abbrev pub proxy_for : Option Text → Option (ReverseProxy Url)
  proxy_for target = over target none

  -- Every registered target that parses has its proxy, and there is no other proxy.
  pub record IsConsistent (g : Management Url) : Type 0 where
    pub targets_map : IsMap g.path_target_map
    pub proxies :
        (k : Text) → lookup k g.path_reverse_proxy_map ≡ proxy_for (lookup k g.path_target_map)

  lookup-build_proxies :
      (m : Dict Text) (proxies : Dict (ReverseProxy Url)) (k : Text)
      → IsMap m
      → lookup k (build_proxies env m proxies) ≡ over (lookup k m) (lookup k proxies)
  unfolding build_proxies lookup
  lookup-build_proxies [] proxies k h = refl
  lookup-build_proxies ((j, t) ∷ m) proxies k h =
      lookup-build_proxies m (add_proxy env j (parse t) proxies) k h.1 ∙ step
    where
      added :
          (r : Result Url)
          → lookup k (add_proxy env j r proxies) ≡ (
              if same j k
              then elim r [ ok url ↦ some (new_proxy url) | err e ↦ lookup k proxies ]
              else lookup k proxies)
      added (ok url) = lookup-insert j k (new_proxy url) proxies
      added (err e) = ground arith

      step :
          over (lookup k m) (lookup k (add_proxy env j (parse t) proxies))
          ≡ over (lookup k ((j, t) ∷ m)) (lookup k proxies)
      step = rw (added (parse t)) (ground (arith, same_iff j k))

  pub or_empty-IsMap :
      (r : Result (Dict Text)) → ((m : Dict Text) → r ≡ ok m → IsMap m) → IsMap (or_empty env r)
  or_empty-IsMap (ok m) h = h m refl
  or_empty-IsMap (err e) h = tt

  load-IsMap :
      (file : Text) (s : Sys) (m : Dict Text) → load_path_target_map env file s ≡ ok m → IsMap m
  unfolding load_path_target_map
  load-IsMap file s m e = elim (Result-cases (read_file file s)) [
    | inl (content, found) ↦ env.unmarshal-IsMap content m (rw (found, load_path_target_map) at e)
    | inr (f, missing) ↦ absurd (cc)
  ]

  pub from_table-IsConsistent : (m : Dict Text) → IsMap m → IsConsistent (from_table env m)
  unfolding lookup
  from_table-IsConsistent m distinct = record {
    targets_map = distinct;
    proxies = λ k. lookup-build_proxies m [] k distinct;
  }

  -- The service starts with a consistent table, whatever its file holds.
  pub new_management_service-IsConsistent :
      (runtime_path : Text) (s : Sys) → IsConsistent (new_management_service env runtime_path s)
  unfolding new_management_service
  new_management_service-IsConsistent runtime_path s =
      from_table-IsConsistent _
        (or_empty-IsMap _ (load-IsMap (join_path runtime_path routes_file) s))

  pub put_route-IsConsistent :
      (route : Route) (url : Url) (g : Management Url)
      → parse route.target ≡ ok url
      → IsConsistent g
      → IsConsistent (put_route env route url g)
  unfolding put_route
  put_route-IsConsistent route url g e h = record {
    targets_map = insert-IsMap route.path route.target g.path_target_map h.targets_map;
    proxies = λ k.
        rw
          (
            lookup-insert route.path k (new_proxy url) g.path_reverse_proxy_map,
            lookup-insert route.path k route.target g.path_target_map,
          )
          (ground (arith, h.proxies k));
  }

  -- Registering a route keeps the table consistent, on every branch: a target that does not parse,
  -- a file that cannot be written, and success.
  pub create_route-IsConsistent :
      (runtime_path : Text) (route : Route) (g : Management Url) (s : Sys)
      → IsConsistent g
      → IsConsistent (create_route env runtime_path route g s).1
  unfolding create_route
  create_route-IsConsistent runtime_path route g s h = elim (Result-cases (parse route.target)) [
    | inl (url, parsed) ↦ rw (parsed, create_route) (put_route-IsConsistent route url g parsed h)
    | inr (e, failed) ↦ rw (failed, create_route) h
  ]
