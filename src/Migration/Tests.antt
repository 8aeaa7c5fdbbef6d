-- ===== src/Migration/Tests.antt =====
-- Two migrations, of which the second is needed.
use nimo_os_gateway.Base.{◌≡◌, ◌↔◌, true, false, none, some, List, [], ◌∷◌, Text, codes, ok}
use nimo_os_gateway.Migration.{MigrationTool, Machine, Flags, select, dummy}
use nimo_os_gateway.Migration.Steps.{IsFirst, select_iff}

abbrev moving : MigrationTool (List Text)
moving = record {
  is_migration_needed = λ w. ok true;
  pre_migrate = λ w. (none, w);
  migrate = λ w. (none, codes "moved" ∷ w);
  post_migrate = λ w. (none, w);
}

abbrev root_machine : Machine (List Text)
root_machine = record { getuid = λ w. 0; is_service_running = λ name w. ok false }

abbrev no_flags : Flags
no_flags = record { version = false; debug = true; force = false }

select_iff_example :
    (select (dummy ∷ moving ∷ []) [] ≡ ok (some moving)) ↔ IsFirst (dummy ∷ moving ∷ []) [] moving
select_iff_example = select_iff (dummy ∷ moving ∷ []) [] moving
