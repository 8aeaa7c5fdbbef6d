-- ===== src/Management/Tests.antt =====
-- Tables of routes, in surroundings whose disk is one file and whose JSON encodes one table.
use mathlib.Core.Path.{subst}
use nimo_os_gateway.Base.{
  ◌≡◌, ◌≢◌, refl, sym, ap, ◌↔◌, inl, inr, Option, none, some, List, [], ◌∷◌, Text, codes, Error,
  Result, ok, err, has_prefix, lookup, insert, keys, Dict, IsMap, same, arith,
}
use nimo_os_gateway.Management.{
  Surroundings, Route, Management, new_proxy, put_route, get_proxy, first_match, value_at,
  resolve_target, from_table, build_proxies, new_management_service, create_route, get_sorted_keys,
  load_path_target_map, save_path_target_map, sort_keys,
}
use nimo_os_gateway.Management.Order.{IsDescending, SameMembers}
use nimo_os_gateway.Management.Table.{IsConsistent, from_table-IsConsistent}
use nimo_os_gateway.Management.Lookup.{AtLongest, get_proxy_iff, get_proxy-any_order}
use nimo_os_gateway.Management.Restart.{get_proxy-restart, resolve_target-get_proxy}

-- The table of the tests, which the file holds in its one encoding.
abbrev pub table : Dict Text
table = (codes "/", codes "web") ∷ (codes "/v1/ai", codes "ai") ∷ []

abbrev pub encoding : Text
encoding = codes "{}"

abbrev pub parse_text : Text → Result Text
parse_text [] = err (codes "empty url")
parse_text (c ∷ s) = ok (c ∷ s)

abbrev pub decode : Text → Result (Dict Text)
decode [] = err (codes "unexpected end of JSON input")
decode (c ∷ s) = ok table

ok-injective {ℓ} : {A : Type ℓ} {a b : A} → ok a ≡ ok b → a ≡ b
ok-injective e = cc

pub written_back :
    (content s' : Text)
    → ◌≡◌ {A = Option Error × Text} (none, content) (none, s')
    → ok s' ≡ ok content
written_back content s' e = ap ok (sym (ap (λ (r : Option Error × Text). r.1) e))

pub decoded_table :
    (m : Dict Text) (content : Text)
    → m ≡ table
    → ok encoding ≡ ok content
    → (m' : Dict Text) × (decode content ≡ ok m') × ((k : Text) → lookup k m' ≡ lookup k m)
decoded_table m content is_table e =
    (table, sym (ap decode (ok-injective e)), λ k. ap (lookup k) (sym is_table))

pub decode-IsMap : (content : Text) (m : Dict Text) → decode content ≡ ok m → IsMap m
unfolding lookup same
decode-IsMap [] m e = absurd (cc e)
decode-IsMap (c ∷ s) m e = subst (λ t. IsMap t) (ok-injective e) (refl, (refl, tt))

abbrev pub one_file : Surroundings
one_file = record {
  Sys = Text;
  Url = Text;
  parse = parse_text;
  read_file = λ path s. ok s;
  write_file = λ path content s. (none, content);
  marshal = λ m. ok encoding;
  unmarshal = decode;
  IsPortable = λ m. m ≡ table;
  read_written = λ path content s s' e. written_back content s' e;
  unmarshal-IsMap = decode-IsMap;
  unmarshal_marshal = decoded_table;
}

abbrev pub start : Management Text
start = from_table one_file ((codes "/", codes "web") ∷ [])

abbrev pub ai_route : Route
ai_route = record { path = codes "/v1/ai"; target = codes "ai" }

abbrev before : Text
before = codes "[]"

abbrev with_ai : Management Text
with_ai = (create_route one_file (codes "/run") ai_route start before).1

abbrev model_path : Text
model_path = codes "/v1/ai/models"

registered_run :
    create_route one_file (codes "/run") ai_route start before
    ≡ (none, from_table one_file table, encoding)
unfolding create_route put_route save_path_target_map insert build_proxies same
registered_run = refl

restarted : new_management_service one_file (codes "/run") encoding ≡ from_table one_file table
unfolding new_management_service load_path_target_map
restarted = refl

longest_wins : get_proxy (from_table one_file table) model_path ≡ some (new_proxy (codes "ai"))
unfolding get_proxy first_match get_sorted_keys sort_keys keys build_proxies insert lookup
    has_prefix same new_proxy
longest_wins = refl

pub start-IsConsistent : IsConsistent one_file start
unfolding lookup
start-IsConsistent = from_table-IsConsistent one_file ((codes "/", codes "web") ∷ []) (refl, tt)

get_proxy_iff_example :
    (get_proxy (from_table one_file table) model_path ≡ some (new_proxy (codes "ai")))
    ↔ AtLongest (build_proxies one_file table []) model_path (new_proxy (codes "ai"))
get_proxy_iff_example =
    get_proxy_iff (from_table one_file table) model_path (new_proxy (codes "ai"))

abbrev other_order : List Text
other_order = codes "/v1/ai" ∷ codes "/" ∷ []

table-keys : keys (build_proxies one_file table []) ≡ codes "/" ∷ codes "/v1/ai" ∷ []
unfolding keys build_proxies insert same
table-keys = refl

other_order-SameMembers : SameMembers other_order (keys (build_proxies one_file table []))
other_order-SameMembers k = rw table-keys (ground arith)

other_order-IsDescending : IsDescending other_order
other_order-IsDescending = ((omega arith, tt), (tt, tt))

get_proxy-any_order_example :
    value_at (build_proxies one_file table []) (first_match model_path other_order)
    ≡ get_proxy (from_table one_file table) model_path
get_proxy-any_order_example =
    get_proxy-any_order (from_table one_file table) model_path other_order other_order-SameMembers
      other_order-IsDescending

abbrev home_path : Text
home_path = codes "/index.html"

get_proxy-restart_example :
    get_proxy (new_management_service one_file (codes "/run") encoding) model_path
    ≡ get_proxy (from_table one_file table) model_path
get_proxy-restart_example =
    get_proxy-restart one_file (codes "/run") ai_route start (from_table one_file table) before
      encoding model_path start-IsConsistent refl registered_run

table-IsMap : IsMap table
unfolding lookup same
table-IsMap = (refl, (refl, tt))

parse_text-ok : (t : Text) → t ≢ [] → (url : Text) × (parse_text t ≡ ok url)
parse_text-ok [] h = absurd (h refl)
parse_text-ok (c ∷ s) h = (c ∷ s, refl)

table_targets : (k t : Text) → lookup k table ≡ some t → t ≢ []
unfolding lookup
table_targets k t e = ground arith

ai-AtLongest : AtLongest table model_path (codes "ai")
unfolding lookup keys has_prefix same
ai-AtLongest = (
  codes "/v1/ai",
  record {
    listed = inr (inl refl);
    matches = refl;
    longest = λ q m h. elim m [
      | inl e ↦ rw e (omega arith)
      | inr (inl e) ↦ rw e (omega arith)
      | inr (inr f) ↦ absurd f
    ];
  },
  refl,
)

resolve_target-get_proxy_example :
    (url : Text) × (parse_text (codes "ai") ≡ ok url)
    × (get_proxy (from_table one_file table) model_path ≡ some (new_proxy url))
    × (resolve_target (from_table one_file table) model_path ≡ codes "ai")
resolve_target-get_proxy_example =
    resolve_target-get_proxy one_file (from_table one_file table) model_path (codes "ai")
      (from_table-IsConsistent one_file table table-IsMap)
      (λ k t e. parse_text-ok t (table_targets k t e)) ai-AtLongest
