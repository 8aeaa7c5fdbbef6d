-- ===== src/Migration/Steps.antt =====
-- Which migration runs, and that the program as it is shipped changes nothing.
use nimo_os_gateway.Base.{
  ◌≡◌, refl, ap, ◌↔◌, inl, inr, true, false, none, some, List, [], ◌∷◌, ◌++◌, ok, All, arith,
  Result-cases,
}
use nimo_os_gateway.Migration.{
  MigrationTool, Machine, Flags, dummy, select, migrate_with, main_with, main,
}

module _ {W : Type 0} where
  -- The first tool of the list that is needed, after tools that are not.
  abbrev pub IsFirst : List (MigrationTool W) → W → MigrationTool W → Type 0
  IsFirst tools w tool =
      (before after : List (MigrationTool W)) × (tools ≡ before ++ tool ∷ after)
      × All (λ (t : MigrationTool W). t.is_migration_needed w ≡ ok false) before
      × (tool.is_migration_needed w ≡ ok true)

  select-IsFirst :
      (tools : List (MigrationTool W)) (w : W) (tool : MigrationTool W)
      → select tools w ≡ ok (some tool)
      → IsFirst tools w tool
  unfolding select
  select-IsFirst [] w tool h = absurd (cc)
  select-IsFirst (t ∷ tools) w tool h = elim (Result-cases (t.is_migration_needed w)) [
    | inl (true, asked) ↦
        let same : t ≡ tool = cc (rw (asked, select) at h) in
        ([], tools, ap (λ (u : MigrationTool W). u ∷ tools) same, tt, rw (← same) asked)
    | inl (false, asked) ↦
        let (before, after, e, unneeded, needed) =
          select-IsFirst tools w tool (rw (asked, select) at h) in
        (t ∷ before, after, ap (◌∷◌ t) e, (asked, unneeded), needed)
    | inr (e, asked) ↦ absurd (cc (rw (asked, select) at h))
  ]

  IsFirst-select :
      (before after : List (MigrationTool W)) (w : W) (tool : MigrationTool W)
      → All (λ (t : MigrationTool W). t.is_migration_needed w ≡ ok false) before
      → tool.is_migration_needed w ≡ ok true
      → select (before ++ tool ∷ after) w ≡ ok (some tool)
  unfolding select
  IsFirst-select [] after w tool unneeded needed = rw needed refl
  IsFirst-select (t ∷ before) after w tool (asked, unneeded) needed =
      rw asked (IsFirst-select before after w tool unneeded needed)

  -- The tool that is selected is the first of the list that is needed, after tools that say that
  -- they are not, and only that one.
  pub select_iff :
      (tools : List (MigrationTool W)) (w : W) (tool : MigrationTool W)
      → (select tools w ≡ ok (some tool)) ↔ IsFirst tools w tool
  select_iff tools w tool = (
    select-IsFirst tools w tool,
    λ (before, after, e, unneeded, needed).
        rw e (IsFirst-select before after w tool unneeded needed),
  )

  dummy-none : (w : W) → select (dummy ∷ []) w ≡ ok none
  unfolding select dummy
  dummy-none w = refl

  -- The program as it is shipped changes nothing, whatever its flags, the user and systemd say.
  pub main-world : (m : Machine W) (flags : Flags) (w : W) → (main m flags w).2 ≡ w
  unfolding main main_with migrate_with
  main-world m flags w = ground (arith, dummy-none w)
