-- ===== src/Startup/Main/Tests.antt =====
-- A run of `main` on a machine whose world is the list of the files that exist.
use nimo_os_gateway.Base.{
  ◌≡◌, ◌≢◌, refl, Bool, true, none, List, [], ◌∷◌, Text, codes, Act, All, ◌↔◌, arith, same,
  same_iff, ok, if◌then◌else◌, false, split,
}
use nimo_os_gateway.Paths.{join_path, resolve}
use nimo_os_gateway.State.{no_settings}
use nimo_os_gateway.State.Tests.{noting}
use nimo_os_gateway.Management.Tests.{one_file, start}
use nimo_os_gateway.Api.{Process}
use nimo_os_gateway.Startup.Run.{Machine, write_pid_file, run}
use nimo_os_gateway.Startup.Main.{start_and_stop, main, main-files_iff}

abbrev has_file : Text → List Text → Bool
has_file q [] = false
has_file q (f ∷ fs) = if same q f then true else has_file q fs

abbrev without : Text → List Text → List Text
without path [] = []
without path (f ∷ fs) = let rest = without path fs in if same path f then rest else f ∷ rest

abbrev listing_machine : Machine (List Text)
listing_machine = record {
  listen = λ addr w. (ok (codes "127.0.0.1:4000"), w);
  is_free = λ w p. true;
  getpid = λ w. 7;
  mkdir_all = λ path w. (none, w);
  write_file = λ path content w. (none, path ∷ w);
  remove = λ path w. (none, without path w);
  serve_static = λ w. (none, w);
  management_url_filename = codes "management.url";
  static_url_filename = codes "static.url";
}

removes :
    (q path : Text) (w : List Text)
    → (has_file q (without path w) ≡ true) ↔ ((has_file q w ≡ true) × (q ≢ path))
removes q path [] = ground arith
removes q path (f ∷ fs) = ground (arith, removes q path fs, same_iff q f, same_iff path f)

abbrev before_main : Process one_file (List Text)
before_main = record {
  table = start;
  disk = codes "[]";
  state = record noting { settings = record no_settings { runtime_path = codes "/run" } };
  world = codes "/run/routes.json" ∷ [];
}

-- The hooks of `run`, and a reload and a shutdown that leave the files alone.
abbrev start_hooks : Act (Process one_file (List Text))
start_hooks = run listing_machine (λ c w. (none, w))

abbrev stop_nothing : Act (List Text)
stop_nothing w = (none, w)

abbrev after_main : Process one_file (List Text)
after_main =
    start_and_stop listing_machine start_hooks stop_nothing (codes "/run")
      (record before_main { world = codes "/run/gateway.pid" ∷ codes "/run/routes.json" ∷ [] })

main-files_iff_example : (has_file (codes "/run/management.url") after_main.world ≡ true) ↔ (
    (has_file
        (codes "/run/management.url")
        (start_hooks (record before_main {
          world = codes "/run/gateway.pid" ∷ codes "/run/routes.json" ∷ [];
        })).1.world
      ≡ true)
    × All
        (λ f. codes "/run/management.url" ≢ join_path (codes "/run") f)
        (codes "gateway.pid" ∷ codes "management.url" ∷ codes "static.url" ∷ []))
unfolding write_pid_file split resolve same main
main-files_iff_example =
    main-files_iff listing_machine start_hooks stop_nothing has_file removes before_main after_main
      (codes "/run/management.url") refl
