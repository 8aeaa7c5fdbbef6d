-- ===== src/Management/Concurrent/Alone.antt =====
-- A call that runs alone is `CreateRoute`.
use nimo_os_gateway.Base.{
  ℕ, zero, suc, ◌≡◌, refl, inl, inr, Option, none, some, Result-cases, Text, insert,
}
use nimo_os_gateway.Management.{
  Surroundings, Route, Management, put_route, create_route, save_path_target_map,
}
use nimo_os_gateway.Management.Concurrent.{Place, starting, completed, go_on, put_target, put_proxy}

module _ (env : Surroundings) (runtime_path : Text) where
  open env use {Sys, Url}

  abbrev or_done :
      Place Url × Management Url × Sys
      → (Place Url × Management Url × Sys → Place Url × Management Url × Sys)
      → Option (Place Url × Management Url × Sys)
      → Place Url × Management Url × Sys
  or_done now rest none = now
  or_done now rest (some next) = rest next

  -- At most `n` steps of one call, with no other between them.
  unfoldable pub alone :
      ℕ → Route → Place Url → Management Url → Sys → Place Url × Management Url × Sys
  alone zero route place g s = (place, g, s)
  alone (suc n) route place g s =
      or_done (place, g, s) (λ (p, h, u). alone n route p h u)
        (go_on env runtime_path route place g s)

  -- A call that no other interrupts does in four steps what `CreateRoute` does, on every branch.
  pub alone-create_route :
      (route : Route) (g : Management Url) (s : Sys)
      → alone 4 route starting g s ≡ (
        completed (create_route env runtime_path route g s).0,
        (create_route env runtime_path route g s).1,
        (create_route env runtime_path route g s).2,
      )
  unfolding alone go_on put_target put_proxy put_route create_route save_path_target_map
  alone-create_route route g s = elim (Result-cases (env.parse route.target)) [
    | inl (url, parsed) ↦
        let targets = insert route.path route.target g.path_target_map in
        elim (Result-cases (env.marshal targets)) [
          | inl (content, made) ↦ rw (parsed, create_route) (rw (made, save_path_target_map) refl)
          | inr (e, failed) ↦ rw (parsed, create_route) (rw (failed, save_path_target_map) refl)
        ]
    | inr (e, failed) ↦ rw (failed, create_route) refl
  ]
