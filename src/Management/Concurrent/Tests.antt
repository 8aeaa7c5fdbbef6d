-- ===== src/Management/Concurrent/Tests.antt =====
-- Two calls on a table with one route.
use nimo_os_gateway.Base.{
  ◌≡◌, ◌≢◌, refl, none, some, [], ◌∷◌, codes, lookup, insert, same, same-false_iff,
}
use nimo_os_gateway.Management.{Route, new_proxy, put_route, new_management_service}
use nimo_os_gateway.Management.Tests.{one_file, start, ai_route}
use nimo_os_gateway.Management.Concurrent.{starting, completed, Server, Leads}
use nimo_os_gateway.Management.Concurrent.Kept.{IsFair, Leads-IsFair}
use nimo_os_gateway.Management.Concurrent.Crossed.{proxy-crossed}
use nimo_os_gateway.Management.Concurrent.Lost.{last_server, reached, route-lost}

abbrev photos_route : Route
photos_route = record { path = codes "/v1/photos"; target = codes "photos" }

abbrev both_start : Server one_file
both_start = record {
  table = start;
  disk = codes "[]";
  calls = (ai_route, starting) ∷ (photos_route, starting) ∷ [];
}

paths-ne : ai_route.path ≢ photos_route.path
unfolding same
paths-ne = (same-false_iff ai_route.path photos_route.path).0 refl

abbrev at_end : Server one_file
at_end =
    last_server one_file (codes "/run") ai_route photos_route start (codes "[]") (codes "ai")
      (codes "photos") (codes "{}") (codes "{}")

at_end-reached : Leads one_file (codes "/run") both_start at_end
at_end-reached =
    reached one_file (codes "/run") ai_route photos_route start (codes "[]") (codes "ai")
      (codes "photos") (codes "{}") (codes "{}") refl refl refl refl (λ content u. refl)

Leads-IsFair_example : IsFair one_file (ai_route ∷ photos_route ∷ []) start at_end
Leads-IsFair_example =
    Leads-IsFair one_file (ai_route ∷ photos_route ∷ []) start (codes "/run") (codes "[]") at_end
      at_end-reached

route-lost_example :
    (y : Server one_file) × Leads one_file (codes "/run") both_start y
    × (y.calls ≡ (ai_route, completed none) ∷ (photos_route, completed none) ∷ [])
    × (lookup (codes "/v1/ai") y.table.path_target_map ≡ some (codes "ai"))
    × (lookup (codes "/v1/photos") y.table.path_target_map ≡ some (codes "photos"))
    × (lookup (codes "/v1/ai") y.table.path_reverse_proxy_map ≡ some (new_proxy (codes "ai")))
    × (lookup (codes "/v1/photos") y.table.path_reverse_proxy_map
        ≡ some (new_proxy (codes "photos")))
    × (lookup
          (codes "/v1/photos")
          (new_management_service one_file (codes "/run") y.disk).path_target_map
        ≡ lookup (codes "/v1/photos") start.path_target_map)
unfolding put_route insert same
route-lost_example =
    route-lost one_file (codes "/run") ai_route photos_route start (codes "[]") (codes "ai")
      (codes "photos") (codes "{}") (codes "{}") refl refl refl refl (λ content u. refl) paths-ne
      refl

-- Two calls for `/v1/ai`.
crossed_calls :
    (y : Server one_file) × Leads one_file
      (codes "/run")
      (record {
        table = start;
        disk = codes "[]";
        calls =
            (record { path = codes "/v1/ai"; target = codes "one" }, starting)
            ∷ (record { path = codes "/v1/ai"; target = codes "two" }, starting)
            ∷ [];
      })
      y
    × (y.calls
        ≡ (record { path = codes "/v1/ai"; target = codes "one" }, completed none)
          ∷ (record { path = codes "/v1/ai"; target = codes "two" }, completed none)
          ∷ [])
    × (lookup (codes "/v1/ai") y.table.path_target_map ≡ some (codes "two"))
    × (lookup (codes "/v1/ai") y.table.path_reverse_proxy_map ≡ some (new_proxy (codes "one")))
crossed_calls =
    proxy-crossed one_file (codes "/run") (codes "/v1/ai") (codes "one") (codes "two") start
      (codes "[]") (codes "one") (codes "two") (codes "{}") refl refl refl (λ u. refl)
