-- ===== src/Components/Tests.antt =====
-- The components of a gateway with one route.
use nimo_os_gateway.Base.{
  ℕ, ◌<◌, ◌≡◌, refl, inl, inr, false, none, List, [], ◌∷◌, ◌++◌, map, Text, codes, ok, err, In,
  length, lookup, has_prefix, keys, arith, same,
}
use nimo_os_gateway.State.{no_settings}
use nimo_os_gateway.Management.{Management}
use nimo_os_gateway.Management.Lookup.{AtLongest}
use nimo_os_gateway.Components.{
  ComponentSpec, service, Moment, Response, component_manifest, probe_component, probe_ui,
  probe_external, get_components,
}
use nimo_os_gateway.Components.Orders.{get_components-map}

abbrev answered : Response
answered = record { status = 200; body = codes "1.0" }

abbrev pub moment : Moment
moment = record {
  get = λ url. ok answered;
  docker_get = λ socket url. err (codes "no such file");
  read_file = λ path. err (codes "no such file");
  version_of = λ body. ok body;
  docker_version_of = λ body. ok body;
  string_at = λ key body. ok none;
  status_text = λ code. [];
  trim_space = λ s. s;
  now = codes "2025-01-01T00:00:00Z";
}

abbrev search_only : Management Text
search_only = record {
  path_target_map = (codes "/v1/search", codes "http://127.0.0.1:9000/") ∷ [];
  path_reverse_proxy_map = [];
}

abbrev search_spec : ComponentSpec
search_spec = record {
  name = codes "Search";
  category = service;
  version_path = codes "/v1/search/version";
  url_file = [];
  local = false;
}

-- The goroutines end in the reverse order, and one of them twice.
abbrev ended : List ℕ
ended = 11 ∷ 10 ∷ 9 ∷ 8 ∷ 7 ∷ 11 ∷ 6 ∷ 5 ∷ 4 ∷ 3 ∷ 2 ∷ 1 ∷ 0 ∷ []

all_ended : (j : ℕ) → j < length component_manifest → In j ended
unfolding component_manifest
all_ended j lt = ground arith

get_components-map_example :
    get_components moment search_only no_settings ended
    ≡ map (probe_component moment search_only no_settings) component_manifest
      ++ probe_ui moment search_only no_settings ∷ probe_external moment search_only no_settings
get_components-map_example = get_components-map moment search_only no_settings ended all_ended

search-AtLongest :
    AtLongest search_only.path_target_map search_spec.version_path (codes "http://127.0.0.1:9000/")
unfolding lookup keys has_prefix same
search-AtLongest = (
  codes "/v1/search",
  record {
    listed = inl refl;
    matches = refl;
    longest = λ q m h. elim m [ inl e ↦ rw e (omega arith) | inr f ↦ absurd f ];
  },
  refl,
)
