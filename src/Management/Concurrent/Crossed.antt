-- ===== src/Management/Concurrent/Crossed.antt =====
-- An order of two calls for one path that leaves the target of one with the proxy of the other.
use nimo_os_gateway.Base.{
  ◌≡◌, refl, none, some, [], ◌∷◌, Text, ok, lookup, lookup-insert, same_refl,
}
use nimo_os_gateway.Paths.{join_path}
use nimo_os_gateway.Management.{Surroundings, Route, Management, new_proxy, routes_file}
use nimo_os_gateway.Management.Concurrent.{
  Place, starting, targeted, mapped, encoded, completed, put_target, put_proxy, Server, turn, Leads,
  here, after,
}

module _ (env : Surroundings) (runtime_path path target_a target_b : Text) (g : Management env.Url)
    (s : env.Sys) (url_a url_b : env.Url) (content : Text) where
  open env use {Sys, Url, parse, marshal, write_file}

  abbrev a : Route
  a = record { path = path; target = target_a }

  abbrev b : Route
  b = record { path = path; target = target_b }

  abbrev server : Management Url → Sys → Place Url → Place Url → Server env
  server h u p q = record { table = h; disk = u; calls = (a, p) ∷ (b, q) ∷ [] }

  abbrev targets : Management Url
  targets = put_target b (put_target a g)

  abbrev crossed : Management Url
  crossed = put_proxy a url_a (put_proxy b url_b targets)

  abbrev wrote : Sys → Sys
  wrote u = (write_file (join_path runtime_path routes_file) content u).1

  module _ (parsed_a : parse target_a ≡ ok url_a) (parsed_b : parse target_b ≡ ok url_b)
      (made : marshal crossed.path_target_map ≡ ok content)
      (writes : (u : Sys)
        → (write_file (join_path runtime_path routes_file) content u).0 ≡ none) where
    abbrev Reached : Server env → Type 0
    Reached = Leads env runtime_path (server g s starting starting)

    -- Both have set their proxies: the one that set its target first set its proxy last.
    crossed-Reached : Reached (server crossed s mapped mapped)
    unfolding turn
    crossed-Reached =
        let x1 : Reached (server (put_target a g) s (targeted url_a) starting) =
          after 0 here (rw parsed_a refl) in
        let x2 : Reached (server targets s (targeted url_a) (targeted url_b)) =
          after 1 x1 (rw parsed_b refl) in
        let x3 : Reached (server (put_proxy b url_b targets) s (targeted url_a) mapped) =
          after 1 x2 refl in
        after 0 x3 refl

    all-Reached : Reached (server crossed (wrote (wrote s)) (completed none) (completed none))
    unfolding turn
    all-Reached =
        let whole : (u : Sys)
            → write_file (join_path runtime_path routes_file) content u ≡ (none, wrote u) =
          λ u i. (writes u i, wrote u) in
        let x5 : Reached (server crossed s (encoded content) mapped) =
          after 0 crossed-Reached (rw made refl) in
        let x6 : Reached (server crossed s (encoded content) (encoded content)) =
          after 1 x5 (rw made refl) in
        let x7 : Reached (server crossed (wrote s) (completed none) (encoded content)) =
          after 0 x6 (rw (whole s) refl) in
        after 1 x7 (rw (whole (wrote s)) refl)

    -- Two calls for one path whose targets can be parsed, with a file that can be written, can both
    -- return nil with the target of one and the proxy of the other: the routes are listed with a
    -- target that the gateway does not hand the requests to.
    pub proxy-crossed :
        (y : Server env) × Leads env runtime_path (server g s starting starting) y
        × (y.calls ≡ (a, completed none) ∷ (b, completed none) ∷ [])
        × (lookup path y.table.path_target_map ≡ some target_b)
        × (lookup path y.table.path_reverse_proxy_map ≡ some (new_proxy url_a))
    unfolding put_target put_proxy
    proxy-crossed = (
      server crossed (wrote (wrote s)) (completed none) (completed none),
      all-Reached,
      refl,
      rw (lookup-insert path path target_b _, same_refl path) refl,
      rw (lookup-insert path path (new_proxy url_a) _, same_refl path) refl,
    )
