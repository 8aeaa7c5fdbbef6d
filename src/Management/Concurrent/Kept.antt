-- ===== src/Management/Concurrent/Kept.antt =====
-- What holds in every order of the steps.
use nimo_os_gateway.Base.{
  ℕ, zero, suc, ◌≡◌, ◌≢◌, refl, ◌∙◌, inl, inr, false, Option, none, some, List, [], ◌∷◌, Text,
  Error, ok, get_elem?, set, All, All-intro, All-map, All-In, In, Result-cases, Option-cases,
  Bool-cases, lookup, lookup-insert, same, same_refl, same_iff, same-false_iff, some-injective,
}
use mathlib.Core.Path.{subst}
use nimo_os_gateway.Paths.{join_path}
use nimo_os_gateway.Management.{Surroundings, Route, Management, new_proxy, routes_file}
use nimo_os_gateway.Management.Concurrent.{
  Place, starting, targeted, mapped, put_target, put_proxy, encoded, completed, Call, Server, go_on,
  moved, turn, Leads, here, after,
}

module _ {A : Type 0} (P : A → Type 0) where
  get_elem?-All : (xs : List A) (i : ℕ) (a : A) → get_elem? xs i ≡ some a → All P xs → P a
  get_elem?-All [] i a e h = absurd (cc)
  get_elem?-All (x ∷ xs) zero a e h = subst P (some-injective e) h.0
  get_elem?-All (x ∷ xs) (suc i) a e h = get_elem?-All xs i a e h.1

  set-All : (xs : List A) (i : ℕ) (a : A) → P a → All P xs → All P (set xs i a)
  set-All [] i a p h = tt
  set-All (x ∷ xs) zero a p h = (p, h.1)
  set-All (x ∷ xs) (suc i) a p h = (h.0, set-All xs i a p h.1)

module _ (env : Surroundings) (routes : List Route) (first : Management env.Url) where
  open env use {Sys, Url}

  -- The path leads to the target of one of the routes with this path.
  abbrev pub Owned : Management Url → Text → Type 0
  Owned g path =
      (r : Route) × In r routes × (r.path ≡ path) × (lookup path g.path_target_map ≡ some r.target)

  -- The path has the proxy of one of the routes with this path.
  abbrev pub Proxied : Management Url → Text → Type 0
  Proxied g path =
      (r : Route) × (url : Url) × In r routes
      × (r.path ≡ path)
      × (env.parse r.target ≡ ok url)
      × (lookup path g.path_reverse_proxy_map ≡ some (new_proxy url))

  -- A call that has set its target, or its proxy too, and has met no error keeps its path registered.
  abbrev Claimed : Management Url → Route → Place Url → Type 0
  Claimed g route starting = Unit
  Claimed g route (targeted url) = (env.parse route.target ≡ ok url) × Owned g route.path
  Claimed g route mapped = Owned g route.path × Proxied g route.path
  Claimed g route (encoded content) = Owned g route.path × Proxied g route.path
  Claimed g route (completed none) = Owned g route.path × Proxied g route.path
  Claimed g route (completed (some e)) = Unit

  abbrev Fair : Management Url → Call Url → Type 0
  Fair g (route, place) = In route routes × Claimed g route place

  -- A path of no route has the target and the proxy that it had at first.
  abbrev pub Untouched : Management Url → Type 0
  Untouched g =
      (path : Text)
      → All (λ r. r.path ≢ path) routes
      → (lookup path g.path_target_map ≡ lookup path first.path_target_map)
        × (lookup path g.path_reverse_proxy_map ≡ lookup path first.path_reverse_proxy_map)

  -- What a step does to the table.
  record Keeps (g g' : Management Url) : Type 0 where
    untouched : Untouched g → Untouched g'
    owned : (path : Text) → Owned g path → Owned g' path
    proxied : (path : Text) → Proxied g path → Proxied g' path

  Keeps-same : (g : Management Url) → Keeps g g
  Keeps-same g = record { untouched = λ h. h; owned = λ p h. h; proxied = λ p h. h }

  other_path :
      (route : Route) (path : Text)
      → In route routes
      → All (λ r. r.path ≢ path) routes
      → same route.path path ≡ false
  other_path route path listed all =
      (same-false_iff route.path path).1 (All-In (λ r. r.path ≢ path) routes all route listed)

  put_target-Keeps :
      (route : Route) (g : Management Url) → In route routes → Keeps g (put_target route g)
  unfolding put_target
  put_target-Keeps route g listed = record {
    untouched = λ h path all. (
      lookup-insert route.path path route.target g.path_target_map
          ∙ rw (other_path route path listed all) (h path all).0,
      (h path all).1,
    );
    owned = λ path h. elim (Bool-cases (same route.path path)) [
      | inl hit ↦ (
        route,
        listed,
        (same_iff route.path path).0 hit,
        rw (lookup-insert route.path path route.target g.path_target_map, hit) refl,
      )
      | inr away ↦
          let (r, m, at, there) = h in
          (r, m, at, rw (lookup-insert route.path path route.target g.path_target_map, away) there)
    ];
    proxied = λ path h. h;
  }

  put_proxy-Keeps :
      (route : Route) (url : Url) (g : Management Url)
      → In route routes
      → env.parse route.target ≡ ok url
      → Keeps g (put_proxy route url g)
  unfolding put_proxy
  put_proxy-Keeps route url g listed parsed = record {
    untouched = λ h path all. (
      (h path all).0,
      lookup-insert route.path path (new_proxy url) g.path_reverse_proxy_map
          ∙ rw (other_path route path listed all) (h path all).1,
    );
    owned = λ path h. h;
    proxied = λ path h. elim (Bool-cases (same route.path path)) [
      | inl hit ↦ (
        route,
        url,
        listed,
        (same_iff route.path path).0 hit,
        parsed,
        rw (lookup-insert route.path path (new_proxy url) g.path_reverse_proxy_map, hit) refl,
      )
      | inr away ↦
          let (r, u, m, at, reads, there) = h in
          (
            r,
            u,
            m,
            at,
            reads,
            rw (lookup-insert route.path path (new_proxy url) g.path_reverse_proxy_map, away) there,
          )
    ];
  }

  put_target-own :
      (route : Route) (g : Management Url) → In route routes → Owned (put_target route g) route.path
  unfolding put_target
  put_target-own route g listed = (
    route,
    listed,
    refl,
    rw (lookup-insert route.path route.path route.target g.path_target_map, same_refl route.path)
        refl,
  )

  put_proxy-own :
      (route : Route) (url : Url) (g : Management Url)
      → In route routes
      → env.parse route.target ≡ ok url
      → Proxied (put_proxy route url g) route.path
  unfolding put_proxy
  put_proxy-own route url g listed parsed = (
    route,
    url,
    listed,
    refl,
    parsed,
    rw
        (
          lookup-insert route.path route.path (new_proxy url) g.path_reverse_proxy_map,
          same_refl route.path,
        )
        refl,
  )

  Keeps-Claimed :
      (g g' : Management Url) (route : Route) (place : Place Url)
      → Keeps g g'
      → Claimed g route place
      → Claimed g' route place
  Keeps-Claimed g g' route starting k h = tt
  Keeps-Claimed g g' route (targeted url) k h = (h.0, k.owned route.path h.1)
  Keeps-Claimed g g' route mapped k h = (k.owned route.path h.0, k.proxied route.path h.1)
  Keeps-Claimed g g' route (encoded c) k h = (k.owned route.path h.0, k.proxied route.path h.1)
  Keeps-Claimed g g' route (completed none) k h = (k.owned route.path h.0, k.proxied route.path h.1)
  Keeps-Claimed g g' route (completed (some e)) k h = tt

  -- Every call has what it has claimed, and the paths of no route are as they were.
  pub record IsFair (x : Server env) : Type 0 where
    pub others : Untouched x.table
    pub calls : All (Fair x.table) x.calls

  -- Calls that have not begun.
  abbrev pub starting_calls : List Route → List (Call Url)
  starting_calls [] = []
  starting_calls (r ∷ rs) = (r, starting) ∷ starting_calls rs

  starting-Fair :
      (rs : List Route) → All (λ r. In r routes) rs → All (Fair first) (starting_calls rs)
  starting-Fair [] h = tt
  starting-Fair (r ∷ rs) h = ((h.0, tt), starting-Fair rs h.1)

  module _ (runtime_path : Text) where
    -- What a step leaves: the claim of the call, and what the others have claimed.
    abbrev Good : Route → Management Url → Place Url × Management Url × Sys → Type 0
    Good route g (place, g', s) = Claimed g' route place × Keeps g g'

    go_on-Good :
        (route : Route) (place : Place Url) (g : Management Url) (s : Sys)
        (next : Place Url × Management Url × Sys)
        → In route routes
        → Claimed g route place
        → go_on env runtime_path route place g s ≡ some next
        → Good route g next
    unfolding go_on
    go_on-Good route starting g s next listed claim e =
        elim (Result-cases (env.parse route.target)) [
          | inl (url, parsed) ↦
              subst (Good route g) (some-injective (rw parsed at e))
                ((parsed, put_target-own route g listed), put_target-Keeps route g listed)
          | inr (f, failed) ↦
              subst (Good route g) (some-injective (rw failed at e)) (tt, Keeps-same g)
        ]
    go_on-Good route (targeted url) g s next listed (parsed, own) e =
        let keeps = put_proxy-Keeps route url g listed parsed in
        subst (Good route g) (some-injective e)
          ((keeps.owned route.path own, put_proxy-own route url g listed parsed), keeps)
    go_on-Good route mapped g s next listed claim e =
        elim (Result-cases (env.marshal g.path_target_map)) [
          | inl (content, made) ↦
              subst (Good route g) (some-injective (rw made at e)) (claim, Keeps-same g)
          | inr (f, failed) ↦
              subst (Good route g) (some-injective (rw failed at e)) (tt, Keeps-same g)
        ]
    go_on-Good route (encoded content) g s next listed claim e =
        let r = env.write_file (join_path runtime_path routes_file) content s in
        subst (Good route g) (some-injective e) (written r.0, Keeps-same g)
      where
        written : (o : Option Error) → Claimed g route (completed o)
        written none = claim
        written (some f) = tt
    go_on-Good route (completed o) g s next listed claim e = absurd (cc)

    moved-IsFair :
        (x y : Server env) (i : ℕ) (call : Call Url)
        → get_elem? x.calls i ≡ some call
        → IsFair x
        → moved env runtime_path x i call.0 (go_on env runtime_path call.0 call.1 x.table x.disk)
          ≡ some y
        → IsFair y
    moved-IsFair x y i (route, place) at fair e =
        let (listed, claim) = get_elem?-All (Fair x.table) x.calls i (route, place) at fair.calls in
        elim (Option-cases (go_on env runtime_path route place x.table x.disk)) [
          | inl stop ↦ absurd (cc (rw stop at e))
          | inr ((place', g, s), ran) ↦
              let (own, keeps) =
                go_on-Good route place x.table x.disk (place', g, s) listed claim ran in
              let kept =
                All-map (Fair x.table) (Fair g) x.calls
                  (λ c f. (f.0, Keeps-Claimed x.table g c.0 c.1 keeps f.1)) fair.calls in
              let next : IsFair
                  (record { table = g; disk = s; calls = set x.calls i (route, place') }) =
                record {
                  others = keeps.untouched fair.others;
                  calls = set-All (Fair g) x.calls i (route, place') (listed, own) kept;
                } in
              subst IsFair (some-injective (rw ran at e)) next
        ]

    turn-IsFair :
        (i : ℕ) (x y : Server env) → IsFair x → turn env runtime_path i x ≡ some y → IsFair y
    unfolding turn
    turn-IsFair i x y fair e = elim (Option-cases (get_elem? x.calls i)) [
      | inl no_call ↦ absurd (cc (rw no_call at e))
      | inr (call, at) ↦ moved-IsFair x y i call at fair (rw at at e)
    ]

    Leads-keeps : (x y : Server env) → Leads env runtime_path x y → IsFair x → IsFair y
    Leads-keeps x y here fair = fair
    Leads-keeps x y (after {y = m} i before e) fair =
        turn-IsFair i m y (Leads-keeps x m before fair) e

    -- Whatever the order of their steps, and whichever of them fail: calls for these routes that
    -- start together leave the paths of no call as they were, and a call that has set its target and
    -- its proxy and has met no error keeps its path registered, with the target of a call for this
    -- path and with the proxy of a call for this path, which may be another one.
    pub Leads-IsFair :
        (s : Sys) (y : Server env)
        → Leads env runtime_path
            (record { table = first; disk = s; calls = starting_calls routes })
            y
        → IsFair y
    Leads-IsFair s y order = Leads-keeps _ y order (record {
      others = λ path all. (refl, refl);
      calls = starting-Fair routes (All-intro (λ r. In r routes) routes (λ r m. m));
    })
