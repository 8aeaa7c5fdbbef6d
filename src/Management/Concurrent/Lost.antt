-- ===== src/Management/Concurrent/Lost.antt =====
-- An order of two calls after which the file lacks a route that was reported as created.
use nimo_os_gateway.Base.{
  ◌≡◌, ◌≢◌, refl, sym, ◌∙◌, none, some, [], ◌∷◌, Text, ok, lookup, lookup-insert, same_refl,
  same-false_iff,
}
use nimo_os_gateway.Paths.{join_path}
use nimo_os_gateway.Management.{
  Surroundings, Route, Management, new_proxy, put_route, routes_file, new_management_service,
  save_path_target_map,
}
use nimo_os_gateway.Management.Restart.{load-save}
use nimo_os_gateway.Management.Concurrent.{
  Place, starting, targeted, mapped, put_target, put_proxy, encoded, completed, Server, turn, Leads,
  here, after,
}

module _ (env : Surroundings) (runtime_path : Text) (a b : Route) (g : Management env.Url)
    (s : env.Sys) (url_a url_b : env.Url) (one both : Text) where
  open env use {Sys, Url, parse, marshal, write_file}

  abbrev pub routes_path : Text
  routes_path = join_path runtime_path routes_file

  abbrev pub with_a : Management Url
  with_a = put_route env a url_a g

  abbrev pub with_both : Management Url
  with_both = put_route env b url_b with_a

  abbrev pub server : Management Url → Sys → Place Url → Place Url → Server env
  server h u p q = record { table = h; disk = u; calls = (a, p) ∷ (b, q) ∷ [] }

  abbrev pub wrote_both : Sys
  wrote_both = (write_file routes_path both s).1

  abbrev pub wrote_one : Sys
  wrote_one = (write_file routes_path one wrote_both).1

  abbrev pub last_server : Server env
  last_server = server with_both wrote_one (completed none) (completed none)

  module _ (parsed_a : parse a.target ≡ ok url_a) (parsed_b : parse b.target ≡ ok url_b)
      (made_one : marshal with_a.path_target_map ≡ ok one)
      (made_both : marshal with_both.path_target_map ≡ ok both)
      (writes : (content : Text) (u : Sys) → (write_file routes_path content u).0 ≡ none) where
    pub reached : Leads env runtime_path (server g s starting starting) last_server
    unfolding turn put_route put_target put_proxy
    reached =
        let whole_both : write_file routes_path both s ≡ (none, wrote_both) =
          λ i. (writes both s i, wrote_both) in
        let whole_one : write_file routes_path one wrote_both ≡ (none, wrote_one) =
          λ i. (writes one wrote_both i, wrote_one) in
        let x0 : Leads env runtime_path (server g s starting starting)
            (server (put_target a g) s (targeted url_a) starting) =
          after 0 here (rw parsed_a refl) in
        let x1 : Leads env runtime_path (server g s starting starting)
            (server with_a s mapped starting) =
          after 0 x0 refl in
        let x2 : Leads env runtime_path (server g s starting starting)
            (server with_a s (encoded one) starting) =
          after 0 x1 (rw made_one refl) in
        let y3 : Leads env runtime_path (server g s starting starting)
            (server (put_target b with_a) s (encoded one) (targeted url_b)) =
          after 1 x2 (rw parsed_b refl) in
        let x3 : Leads env runtime_path (server g s starting starting)
            (server with_both s (encoded one) mapped) =
          after 1 y3 refl in
        let x4 : Leads env runtime_path (server g s starting starting)
            (server with_both s (encoded one) (encoded both)) =
          after 1 x3 (rw made_both refl) in
        let x5 : Leads env runtime_path (server g s starting starting)
            (server with_both wrote_both (encoded one) (completed none)) =
          after 1 x4 (rw whole_both refl) in
        after 0 x5 (rw whole_one refl)

    -- Two calls for different paths whose targets can be parsed, on a table of valid UTF-8 and with
    -- a file that can be written, can both return nil with both routes in the table, each with its target
    -- and its proxy, and the file without the second route: after a restart the path of the second
    -- call has the target that it had before both calls.
    pub route-lost :
        a.path ≢ b.path
        → env.IsPortable with_a.path_target_map
        → (y : Server env) × Leads env runtime_path (server g s starting starting) y
          × (y.calls ≡ (a, completed none) ∷ (b, completed none) ∷ [])
          × (lookup a.path y.table.path_target_map ≡ some a.target)
          × (lookup b.path y.table.path_target_map ≡ some b.target)
          × (lookup a.path y.table.path_reverse_proxy_map ≡ some (new_proxy url_a))
          × (lookup b.path y.table.path_reverse_proxy_map ≡ some (new_proxy url_b))
          × (lookup b.path (new_management_service env runtime_path y.disk).path_target_map
              ≡ lookup b.path g.path_target_map)
    unfolding put_route new_management_service save_path_target_map
    route-lost apart portable =
        let whole_one : write_file routes_path one wrote_both ≡ (none, wrote_one) =
          λ i. (writes one wrote_both i, wrote_one) in
        let (m, loaded, agrees) =
          load-save env routes_path with_a.path_target_map wrote_both wrote_one portable
            (rw (save_path_target_map, made_one) whole_one) in
        (
          last_server,
          reached,
          refl,
          rw
              (
                lookup-insert b.path a.path b.target _,
                (same-false_iff b.path a.path).1 (λ e. apart (sym e)),
                lookup-insert a.path a.path a.target _,
                same_refl a.path,
              )
              refl,
          rw (lookup-insert b.path b.path b.target _, same_refl b.path) refl,
          rw
              (
                lookup-insert b.path a.path (new_proxy url_b) _,
                (same-false_iff b.path a.path).1 (λ e. apart (sym e)),
                lookup-insert a.path a.path (new_proxy url_a) _,
                same_refl a.path,
              )
              refl,
          rw (lookup-insert b.path b.path (new_proxy url_b) _, same_refl b.path) refl,
          rw loaded (
              agrees b.path
              ∙ lookup-insert a.path b.path a.target g.path_target_map
              ∙ rw ((same-false_iff a.path b.path).1 apart) refl),
        )
