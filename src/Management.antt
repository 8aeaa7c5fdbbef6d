-- ===== src/Management.antt =====
-- service/management.go: the table of routes, the proxies built from it, and its file.
-- `url.Parse`, `encoding/json` and the file system are parameters, with what the program relies on.
pub mod Order
pub mod Table
pub mod Lookup
pub mod Restart
pub mod Registered
pub mod Concurrent
pub mod Tests
use nimo_os_gateway.Base.{
  ℕ, ◌*◌, ◌≡◌, Bool, true, false, Option, none, some, List, [], ◌∷◌, Text, codes, Error, Result, ok,
  err, Act, has_prefix, length, ltb, lookup, insert, keys, Dict, IsMap, if◌then◌else◌,
}
use nimo_os_gateway.Paths.{join_path}

-- `http.Transport`, in milliseconds and bytes
pub record Transport : Type 0 where
  pub dial_timeout : ℕ
  pub keep_alive : ℕ
  pub max_idle_conns : ℕ
  pub max_idle_conns_per_host : ℕ
  pub idle_conn_timeout : ℕ
  pub response_header_timeout : ℕ
  pub write_buffer_size : ℕ
  pub read_buffer_size : ℕ

abbrev pub upload_transport : Transport
upload_transport = record {
  dial_timeout = 30 * 1000;
  keep_alive = 30 * 1000;
  max_idle_conns = 100;
  max_idle_conns_per_host = 20;
  idle_conn_timeout = 120 * 1000;
  response_header_timeout = 300 * 1000;
  write_buffer_size = 256 * 1024;
  read_buffer_size = 256 * 1024;
}

-- A negative `FlushInterval` flushes after each write.
pub data FlushInterval : Type 0 where
  immediately : FlushInterval
  every : ℕ → FlushInterval

-- `httputil.ReverseProxy`, as `NewSingleHostReverseProxy` makes it.
pub record ReverseProxy (Url : Type 0) : Type 0 where
  pub target : Url
  pub transport : Transport
  pub flush_interval : FlushInterval

-- What the program uses of its surroundings. `Sys` is the state of the file system. A map is
-- `IsPortable` if its texts are valid UTF-8: JSON gives such a map back.
pub record Surroundings : Type 1 where
  pub Sys : Type 0
  pub Url : Type 0
  pub parse : Text → Result Url
  pub read_file : Text → Sys → Result Text
  pub write_file : Text → Text → Act Sys
  pub marshal : Dict Text → Result Text
  pub unmarshal : Text → Result (Dict Text)
  pub IsPortable : Dict Text → Type 0
  pub read_written :
      (path content : Text) (s s' : Sys)
      → write_file path content s ≡ (none, s')
      → read_file path s' ≡ ok content
  pub unmarshal-IsMap : (content : Text) (m : Dict Text) → unmarshal content ≡ ok m → IsMap m
  pub unmarshal_marshal :
      (m : Dict Text) (content : Text)
      → IsPortable m
      → marshal m ≡ ok content
      → (m' : Dict Text) × (unmarshal content ≡ ok m') × ((k : Text) → lookup k m' ≡ lookup k m)

pub record Route : Type 0 where
  pub path : Text
  pub target : Text

pub record Management (Url : Type 0) : Type 0 where
  pub path_target_map : Dict Text
  pub path_reverse_proxy_map : Dict (ReverseProxy Url)

-- `sort.Slice(keys, len(keys[i]) > len(keys[j]))`, as insertion
insert_key : Text → List Text → List Text
insert_key x [] = x ∷ []
insert_key x (y ∷ ys) = if ltb (length y) (length x) then x ∷ y ∷ ys else y ∷ insert_key x ys

unfoldable pub sort_keys : List Text → List Text
unfolding insert_key
sort_keys [] = []
sort_keys (x ∷ xs) = insert_key x (sort_keys xs)

-- `getSortedKeys`
unfoldable pub get_sorted_keys : {V : Type 0} → Dict V → List Text
unfolding sort_keys keys
get_sorted_keys m = sort_keys (keys m)

-- the loop of `GetProxy` and of `resolveTarget`
unfoldable pub first_match : Text → List Text → Option Text
first_match path [] = none
first_match path (p ∷ ps) = if has_prefix path p then some p else first_match path ps

abbrev pub value_at : {V : Type 0} → Dict V → Option Text → Option V
value_at m none = none
value_at m (some p) = lookup p m

unfoldable pub get_proxy : {Url : Type 0} → Management Url → Text → Option (ReverseProxy Url)
unfolding get_sorted_keys first_match lookup
get_proxy g path =
    value_at g.path_reverse_proxy_map (first_match path (get_sorted_keys g.path_reverse_proxy_map))

-- service/components.go, `resolveTarget`; the empty text is its answer when nothing matches
abbrev text_or_empty : Option Text → Text
text_or_empty none = []
text_or_empty (some t) = t

unfoldable pub resolve_target : {Url : Type 0} → Management Url → Text → Text
unfolding get_sorted_keys first_match lookup
resolve_target g version_path =
    text_or_empty
      (value_at g.path_target_map (first_match version_path (get_sorted_keys g.path_target_map)))

-- `GetRoutes`
unfoldable pub routes_of : Dict Text → List Route
routes_of [] = []
routes_of ((path, target) ∷ m) = record { path = path; target = target } ∷ routes_of m

unfoldable pub get_routes : {Url : Type 0} → Management Url → List Route
unfolding routes_of
get_routes g = routes_of g.path_target_map

abbrev pub routes_file : Text
routes_file = codes "routes.json"

unfoldable pub new_proxy : {Url : Type 0} → Url → ReverseProxy Url
new_proxy url = record { target = url; transport = upload_transport; flush_interval = immediately }

module _ (env : Surroundings) where
  open env use {Sys, Url, parse, read_file, write_file, marshal, unmarshal}

  -- `loadPathTargetMapFrom`; the map of a file that holds the JSON value null is nil in Go, and
  -- counts as empty here
  unfoldable pub load_path_target_map : Text → Sys → Result (Dict Text)
  load_path_target_map file s = elim (read_file file s) [
    | ok content ↦ unmarshal content
    | err e ↦ err e
  ]

  -- `savePathTargetMapTo`
  unfoldable pub save_path_target_map : Text → Dict Text → Act Sys
  save_path_target_map file m s = elim (marshal m) [
    | ok content ↦ write_file file content s
    | err e ↦ (some e, s)
  ]

  -- The loop that builds the proxies: a target that does not parse is logged and left out.
  add_proxy : Text → Result Url → Dict (ReverseProxy Url) → Dict (ReverseProxy Url)
  unfolding insert new_proxy
  add_proxy path (ok url) proxies = insert path (new_proxy url) proxies
  add_proxy path (err e) proxies = proxies

  unfoldable pub build_proxies : Dict Text → Dict (ReverseProxy Url) → Dict (ReverseProxy Url)
  unfolding add_proxy
  build_proxies [] proxies = proxies
  build_proxies ((path, target) ∷ m) proxies =
      build_proxies m (add_proxy path (parse target) proxies)

  abbrev or_empty : Result (Dict Text) → Dict Text
  or_empty (ok m) = m
  or_empty (err e) = []

  abbrev from_table : Dict Text → Management Url
  from_table m = record { path_target_map = m; path_reverse_proxy_map = build_proxies m [] }

  -- `NewManagementService`
  unfoldable pub new_management_service : Text → Sys → Management Url
  unfolding build_proxies load_path_target_map join_path
  new_management_service runtime_path s =
      from_table (or_empty (load_path_target_map (join_path runtime_path routes_file) s))

  abbrev with_management : Management Url → Option Error × Sys → Option Error × Management Url × Sys
  with_management g (e, s) = (e, g, s)

  -- The table after a route is set.
  unfoldable pub put_route : Route → Url → Management Url → Management Url
  unfolding insert new_proxy
  put_route route url g = record {
    path_target_map = insert route.path route.target g.path_target_map;
    path_reverse_proxy_map = insert route.path (new_proxy url) g.path_reverse_proxy_map;
  }

  -- `CreateRoute`
  unfoldable pub create_route :
      Text → Route → Management Url → Sys → Option Error × Management Url × Sys
  unfolding put_route save_path_target_map
  create_route runtime_path route g s = elim (parse route.target) [
    | err e ↦ (some e, g, s)
    | ok url ↦
        let g' = put_route route url g in
        with_management g'
          (save_path_target_map (join_path runtime_path routes_file) g'.path_target_map s)
  ]
