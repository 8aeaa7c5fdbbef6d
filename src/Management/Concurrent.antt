-- ===== src/Management/Concurrent.antt =====
-- service/management.go: calls of `CreateRoute` that run at the same time, as the handlers of the
-- management server do. Each call sets its target, then its proxy, encodes the targets and writes the
-- file; between these, another call may go on. Each write to a map is one step: that the Go runtime
-- ends the program when it notices two at once is left out.
pub mod Alone
pub mod Kept
pub mod Lost
pub mod Crossed
mod Tests
use nimo_os_gateway.Base.{
  ℕ, ◌≡◌, Option, none, some, List, [], ◌∷◌, Text, Error, Result, ok, err, get_elem?, set, insert,
}
use nimo_os_gateway.Paths.{join_path}
use nimo_os_gateway.Management.{Surroundings, Route, Management, new_proxy, routes_file}

-- How far a call has come: its target is set, its proxy is set too, the targets are encoded, or it
-- has returned.
pub data Place (Url : Type 0) : Type 0 where
  starting : Place Url
  targeted : Url → Place Url
  mapped : Place Url
  encoded : Text → Place Url
  completed : Option Error → Place Url

abbrev pub Call : Type 0 → Type 0
Call Url = Route × Place Url

module _ {Url : Type 0} where
  -- `g.pathTargetMap[route.Path] = route.Target`
  unfoldable pub put_target : Route → Management Url → Management Url
  unfolding insert
  put_target route g = record g {
    path_target_map = insert route.path route.target g.path_target_map;
  }

  -- `g.pathReverseProxyMap[route.Path] = proxy`
  unfoldable pub put_proxy : Route → Url → Management Url → Management Url
  unfolding insert new_proxy
  put_proxy route url g = record g {
    path_reverse_proxy_map = insert route.path (new_proxy url) g.path_reverse_proxy_map;
  }

module _ (env : Surroundings) where
  open env use {Sys, Url, parse, marshal, write_file}

  pub record Server : Type 0 where
    pub table : Management Url
    pub disk : Sys
    pub calls : List (Call Url)

  abbrev Progress : Type 0
  Progress = Place Url × Management Url × Sys

  abbrev after_parse : Route → Management Url → Sys → Result Url → Progress
  after_parse route g s (err e) = (completed (some e), g, s)
  after_parse route g s (ok url) = (targeted url, put_target route g, s)

  abbrev after_marshal : Management Url → Sys → Result Text → Progress
  after_marshal g s (err e) = (completed (some e), g, s)
  after_marshal g s (ok content) = (encoded content, g, s)

  abbrev after_write : Management Url → Option Error × Sys → Progress
  after_write g (e, s) = (completed e, g, s)

  module _ (runtime_path : Text) where
    -- The next part of one call; `none` when it has returned.
    unfoldable pub go_on : Route → Place Url → Management Url → Sys → Option Progress
    unfolding put_target put_proxy join_path
    go_on route starting g s = some (after_parse route g s (parse route.target))
    go_on route (targeted url) g s = some (mapped, put_proxy route url g, s)
    go_on route mapped g s = some (after_marshal g s (marshal g.path_target_map))
    go_on route (encoded content) g s =
        some (after_write g (write_file (join_path runtime_path routes_file) content s))
    go_on route (completed e) g s = none

    abbrev pub moved : Server → ℕ → Route → Option Progress → Option Server
    moved x i route none = none
    moved x i route (some (place, g, s)) =
        some (record { table = g; disk = s; calls = set x.calls i (route, place) })

    abbrev pub go_on_at : Server → ℕ → Option (Call Url) → Option Server
    go_on_at x i none = none
    go_on_at x i (some (route, place)) = moved x i route (go_on route place x.table x.disk)

    -- A step of the call with number `i`.
    unfoldable pub turn : ℕ → Server → Option Server
    unfolding go_on
    turn i x = go_on_at x i (get_elem? x.calls i)

    -- What some order of the steps leads to.
    pub data Leads (x : Server) : Server → Type 0 where
      here : Leads x x
      after : {y z : Server} (i : ℕ) → Leads x y → turn i y ≡ some z → Leads x z
