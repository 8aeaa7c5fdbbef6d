-- ===== src/Management/Lookup.antt =====
-- Which proxy a path gets, and how the table of routes changes that.
use nimo_os_gateway.Base.{
  ◌≤◌, ◌≡◌, ◌≢◌, refl, ap, ◌∙◌, ◌↔◌, inl, inr, true, false, Option, none, some, List, Text,
  has_prefix, length, lookup, insert, keys, keys-insert, keys-lookup, lookup-insert, same_refl,
  same-false_iff, In, Option-cases, arith, Dict,
}
use nimo_os_gateway.Management.{
  Surroundings, ReverseProxy, Route, Management, new_proxy, put_route, get_proxy, first_match,
  text_or_empty, resolve_target, get_sorted_keys, value_at,
}
use nimo_os_gateway.Management.Order.{
  IsLongest, IsDescending, SameMembers, SameMatches, sort_keys-In, sort_keys-IsDescending,
  first_match-IsLongest, first_match-none, first_match-SameMatches, IsLongest-unique,
}

module _ {V : Type 0} where
  sorted-IsDescending : (m : Dict V) → IsDescending (get_sorted_keys m)
  unfolding get_sorted_keys
  sorted-IsDescending m = sort_keys-IsDescending (keys m)

  sorted-In : (m : Dict V) → SameMembers (get_sorted_keys m) (keys m)
  unfolding get_sorted_keys
  sorted-In m = sort_keys-In (keys m)

  -- The search over the map, with the answer that its specification gives.
  unfoldable pub search_value : Dict V → Text → Option V
  search_value m path = value_at m (first_match path (get_sorted_keys m))

  -- The value at the longest key that is a prefix of the path.
  abbrev pub AtLongest : Dict V → Text → V → Type 0
  AtLongest m path v = (p : Text) × IsLongest path (keys m) p × (lookup p m ≡ some v)

  IsLongest-sorted :
      (m : Dict V) (path p : Text)
      → IsLongest path (get_sorted_keys m) p ↔ IsLongest path (keys m) p
  IsLongest-sorted m path p = (
    λ l. record {
      listed = (sorted-In m p).0 l.listed;
      matches = l.matches;
      longest = λ q i h. l.longest q ((sorted-In m q).1 i) h;
    },
    λ l. record {
      listed = (sorted-In m p).1 l.listed;
      matches = l.matches;
      longest = λ q i h. l.longest q ((sorted-In m q).0 i) h;
    },
  )

  first_match-of_IsLongest :
      (m : Dict V) (path p : Text)
      → IsLongest path (keys m) p
      → first_match path (get_sorted_keys m) ≡ some p
  first_match-of_IsLongest m path p l = elim (Option-cases (first_match path (get_sorted_keys m))) [
    | inl nothing ↦ absurd (
        cc (
          l.matches,
          first_match-none path (get_sorted_keys m) nothing p ((sorted-In m p).1 l.listed),
        ))
    | inr (q, found) ↦
        let sorted =
          first_match-IsLongest path (get_sorted_keys m) q (sorted-IsDescending m) found in
        found
        ∙ ap {B = Option Text} some
            (IsLongest-unique path (get_sorted_keys m) (keys m) q p (λ k h. sorted-In m k) sorted l)
  ]

  pub search_value_iff :
      (m : Dict V) (path : Text) (v : V) → (search_value m path ≡ some v) ↔ AtLongest m path v
  unfolding search_value
  search_value_iff m path v = (
    λ e. elim (Option-cases (first_match path (get_sorted_keys m))) [
      | inl nothing ↦ absurd (cc)
      | inr (p, found) ↦ (
        p,
        (IsLongest-sorted m path p).0
            (first_match-IsLongest path (get_sorted_keys m) p (sorted-IsDescending m) found),
        rw (found, search_value) at e,
      )
    ],
    λ (p, l, e). rw (first_match-of_IsLongest m path p l) e,
  )

  sorted-SameMatches :
      (m n : Dict V) (path : Text)
      → ((k : Text) → has_prefix path k ≡ true → lookup k m ≡ lookup k n)
      → SameMatches path (get_sorted_keys m) (get_sorted_keys n)
  sorted-SameMatches m n path h k e =
      ground (arith, sorted-In m k, sorted-In n k, keys-lookup k m, keys-lookup k n, h k)

  value_at-first_match :
      (m n : Dict V) (path : Text)
      → ((k : Text) → has_prefix path k ≡ true → lookup k m ≡ lookup k n)
      → (o : Option Text) → first_match path (get_sorted_keys m) ≡ o
      → value_at m o ≡ value_at n o
  value_at-first_match m n path h none e = refl
  value_at-first_match m n path h (some p) e =
      h p (first_match-IsLongest path (get_sorted_keys m) p (sorted-IsDescending m) e).matches

  -- Two maps that agree on the keys which are prefixes of the path, and on what stands there, give
  -- the same answer.
  pub search_value-agree :
      (m n : Dict V) (path : Text)
      → ((k : Text) → has_prefix path k ≡ true → lookup k m ≡ lookup k n)
      → search_value m path ≡ search_value n path
  unfolding search_value
  search_value-agree m n path h =
      value_at-first_match m n path h (first_match path (get_sorted_keys m)) refl
      ∙ ap (value_at n) (
          first_match-SameMatches path (get_sorted_keys m) (get_sorted_keys n)
            (sorted-IsDescending m) (sorted-IsDescending n) (sorted-SameMatches m n path h))

  search_value-none :
      (m : Dict V) (path : Text)
      → ((k : Text) → In k (keys m) → has_prefix path k ≡ false)
      → search_value m path ≡ none
  search_value-none m path h = elim (Option-cases (search_value m path)) [
    | inl e ↦ e
    | inr (v, e) ↦
        let (p, l, _) = (search_value_iff m path v).0 e in absurd (cc (l.matches, h p l.listed))
  ]

  first_match_any_order :
      (m : Dict V) (order : List Text) (path : Text)
      → SameMembers order (keys m)
      → IsDescending order
      → value_at m (first_match path order) ≡ search_value m path
  unfolding search_value
  first_match_any_order m order path s d = ap (value_at m) (
      first_match-SameMatches path order (get_sorted_keys m) d (sorted-IsDescending m)
        (λ k h. ground (arith, s k, sorted-In m k)))

module _ {Url : Type 0} (g : Management Url) (path : Text) where
  -- `GetProxy` returns the proxy of the longest registered prefix of the path, and only that one.
  pub get_proxy_iff :
      (proxy : ReverseProxy Url)
      → (get_proxy g path ≡ some proxy) ↔ AtLongest g.path_reverse_proxy_map path proxy
  unfolding get_proxy search_value
  get_proxy_iff proxy = search_value_iff g.path_reverse_proxy_map path proxy

  -- Go gives the keys of a map in any order, and `sort.Slice` orders keys of one length in any way:
  -- every such order leads to the same proxy.
  pub get_proxy-any_order :
      (order : List Text)
      → SameMembers order (keys g.path_reverse_proxy_map)
      → IsDescending order
      → value_at g.path_reverse_proxy_map (first_match path order) ≡ get_proxy g path
  unfolding get_proxy search_value
  get_proxy-any_order order s d = first_match_any_order g.path_reverse_proxy_map order path s d

-- A path below a registered one has a proxy.
pub get_proxy-some :
    {Url : Type 0} (g : Management Url) (path key : Text)
    → lookup key g.path_reverse_proxy_map ≢ none
    → has_prefix path key ≡ true
    → (proxy : ReverseProxy Url) × (get_proxy g path ≡ some proxy)
unfolding get_proxy
get_proxy-some g path key there below =
    let m = g.path_reverse_proxy_map in
    elim (Option-cases (first_match path (get_sorted_keys m))) [
      | inl nothing ↦ absurd (
          cc (
            below,
            first_match-none path (get_sorted_keys m) nothing key
                ((sorted-In m key).1 ((keys-lookup key m).1 there)),
          ))
      | inr (p, found) ↦ elim (Option-cases (lookup p m)) [
        | inl missing ↦ absurd (
            (keys-lookup p m).0
              ((sorted-In m p).0
                (first_match-IsLongest path (get_sorted_keys m) p (sorted-IsDescending m)
                  found).listed)
              missing)
        | inr (proxy, at) ↦ (proxy, rw found at)
      ]
    ]

module _ (env : Surroundings) (route : Route) (url : env.Url) (g : Management env.Url)
    (path : Text) where
  -- A new route changes nothing for the paths that do not begin with it.
  pub get_proxy-put_route_ne :
      has_prefix path route.path ≡ false
      → get_proxy (put_route env route url g) path ≡ get_proxy g path
  unfolding get_proxy search_value put_route
  get_proxy-put_route_ne miss =
      search_value-agree (insert route.path (new_proxy url) g.path_reverse_proxy_map)
        g.path_reverse_proxy_map path
        λ k h. rw (lookup-insert route.path k, (same-false_iff route.path k).1 (λ e. absurd (cc)))

  -- A new route takes over each path that begins with it, unless a longer registered route is a
  -- prefix of the path too.
  pub get_proxy-put_route :
      has_prefix path route.path ≡ true
      → ((q : Text)
          → In q (keys g.path_reverse_proxy_map)
          → has_prefix path q ≡ true
          → length q ≤ length route.path)
      → get_proxy (put_route env route url g) path ≡ some (new_proxy url)
  unfolding put_route
  get_proxy-put_route hit longest =
      (get_proxy_iff (put_route env route url g) path (new_proxy url)).1 (
        route.path,
        record {
          listed = (keys-insert route.path route.path _ _).1 (inl refl);
          matches = hit;
          longest = λ q m h.
              elim ((keys-insert route.path q (new_proxy url) g.path_reverse_proxy_map).0 m) [
                | inl e ↦ omega (arith, ap length e)
                | inr r ↦ longest q r h
              ];
        },
        rw (lookup-insert route.path route.path, same_refl),
      )

-- `resolveTarget` answers with the target of the longest registered prefix.
pub resolve_target-AtLongest :
    {Url : Type 0} (g : Management Url) (path target : Text)
    → AtLongest g.path_target_map path target
    → resolve_target g path ≡ target
unfolding resolve_target search_value
resolve_target-AtLongest g path target l =
    ap text_or_empty ((search_value_iff g.path_target_map path target).1 l)
