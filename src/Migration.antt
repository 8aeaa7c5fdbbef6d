-- ===== src/Migration.antt =====
-- cmd/migration-tool: the program that runs before the gateway of a new version. The tools, systemd
-- and the user id are parameters; the world `W` is what they act on, and what is printed is kept in
-- the order in which it is printed.
pub mod Steps
mod Tests
use nimo_os_gateway.Base.{
  ℕ, Bool, true, false, not, Option, none, some, List, [], ◌∷◌, ◌++◌, Text, codes, Error, Result,
  ok, err, Act, ◌==◌, if◌then◌else◌,
}

-- `interfaces.MigrationTool`
pub record MigrationTool (W : Type 0) : Type 0 where
  pub is_migration_needed : W → Result Bool
  pub pre_migrate : Act W
  pub migrate : Act W
  pub post_migrate : Act W

-- A line that the logger prints, with its prefix.
pub data Level : Type 0 where
  debug_level info_level error_level : Level

pub record Logger : Type 0 where
  pub debug_mode : Bool
  pub lines : List (Level × Text)

unfoldable pub new_logger : Logger
new_logger = record { debug_mode = false; lines = [] }

abbrev print : Level → Text → Logger → Logger
print level line l = record l { lines = l.lines ++ (level, line) ∷ [] }

-- `Logger.Debug`, `Logger.Info`, `Logger.Error`
unfoldable pub log_debug : Text → Logger → Logger
log_debug line l = if l.debug_mode then print debug_level line l else l

unfoldable pub log_info : Text → Logger → Logger
log_info line l = print info_level line l

unfoldable pub log_error : Text → Logger → Logger
log_error line l = print error_level line l

abbrev pub with_mode : Bool → Logger → Logger
with_mode on l = if on then record l { debug_mode = true } else l

-- How the program ends: it returns, exits with a code, or panics.
pub data Exit : Type 0 where
  returned : Exit
  exited : ℕ → Exit
  panicked : Error → Exit

pub record Flags : Type 0 where
  pub version : Bool
  pub debug : Bool
  pub force : Bool

pub record Machine (W : Type 0) : Type 0 where
  pub getuid : W → ℕ
  pub is_service_running : Text → W → Result Bool

abbrev pub service_name : Text
service_name = codes "nimoos-gateway.service"

abbrev pub Ending : Type 0 → Type 0
Ending W = Exit × Logger × W

module _ {W : Type 0} where
  -- `migrationTool` of migration_dummy.go
  unfoldable pub dummy : MigrationTool W
  dummy = record {
    is_migration_needed = λ w. ok false;
    pre_migrate = λ w. (none, w);
    migrate = λ w. (none, w);
    post_migrate = λ w. (none, w);
  }

  -- The loop that looks for the first tool that is needed.
  abbrev or_later :
      MigrationTool W
      → Result Bool
      → Result (Option (MigrationTool W))
      → Result (Option (MigrationTool W))
  or_later tool (err e) rest = err e
  or_later tool (ok true) rest = ok (some tool)
  or_later tool (ok false) rest = rest

  unfoldable pub select : List (MigrationTool W) → W → Result (Option (MigrationTool W))
  select [] w = ok none
  select (tool ∷ tools) w = or_later tool (tool.is_migration_needed w) (select tools w)

  -- An error after the migration is only reported.
  abbrev after_post : Logger → Option Error × W → Ending W
  after_post l (none, w) = (returned, l, w)
  after_post l (some e, w) =
      (returned, log_error (codes "Migration succeeded, but post-migration failed: " ++ e) l, w)

  abbrev after_migrate : MigrationTool W → Logger → Option Error × W → Ending W
  after_migrate tool l (some e, w) = (panicked e, l, w)
  after_migrate tool l (none, w) = after_post l (tool.post_migrate w)

  abbrev after_pre : MigrationTool W → Logger → Option Error × W → Ending W
  after_pre tool l (some e, w) = (panicked e, l, w)
  after_pre tool l (none, w) = after_migrate tool l (tool.migrate w)

  abbrev run_selected : Logger → W → Result (Option (MigrationTool W)) → Ending W
  run_selected l w (err e) = (panicked e, l, w)
  run_selected l w (ok none) = (returned, log_info (codes "No migration to proceed.") l, w)
  run_selected l w (ok (some tool)) = after_pre tool l (tool.pre_migrate w)

  unfoldable pub migrate_with : List (MigrationTool W) → Logger → W → Ending W
  unfolding select log_info log_error
  migrate_with tools l w = run_selected l w (select tools w)

  -- A running gateway is left alone, unless the flag `-f` is given.
  abbrev when_stopped : List (MigrationTool W) → Logger → W → Result Bool → Ending W
  when_stopped tools l w (err e) = (
    panicked e,
    log_error (codes "Failed to check if " ++ service_name ++ codes " is running") l,
    w,
  )
  when_stopped tools l w (ok true) = (
    exited 1,
    log_info (service_name ++ codes " is running. If migration is still needed, try with -f.") l,
    w,
  )
  when_stopped tools l w (ok false) = migrate_with tools l w

  abbrev as_root : Machine W → Flags → List (MigrationTool W) → Logger → W → Ending W
  as_root m flags tools l w =
      if not flags.force
      then when_stopped tools l w (m.is_service_running service_name w)
      else migrate_with tools l w

  -- `main`, for a list of tools
  unfoldable pub main_with : List (MigrationTool W) → Machine W → Flags → W → Ending W
  unfolding migrate_with new_logger log_info log_error
  main_with tools m flags w =
      if flags.version
      then (exited 0, new_logger, w)
      else if not (m.getuid w == 0)
      then (
        exited 1,
        log_info (codes "Root privileges are required to run this program.") new_logger,
        w,
      )
      else as_root m flags tools (with_mode flags.debug new_logger) w

  -- `main`
  unfoldable pub main : Machine W → Flags → W → Ending W
  unfolding main_with dummy
  main = main_with (dummy ∷ [])
