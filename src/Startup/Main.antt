-- ===== src/Startup/Main.antt =====
-- main.go: `main` around the start of the servers: the file with the process id, and the deferred
-- functions. `start` is the call of `Start`, whether it ends by itself or by a signal; `shutdown` is
-- the call of `Shutdown` for the server of `_gateway`, if there is one.
mod Tests
use nimo_os_gateway.Base.{
  ◌≡◌, ◌≢◌, sym, Bool, true, Option, none, some, List, [], ◌∷◌, Text, codes, Error, Act, All, ◌↔◌,
}
use nimo_os_gateway.Paths.{join_path}
use nimo_os_gateway.Management.{Surroundings}
use nimo_os_gateway.Api.{Process}
use nimo_os_gateway.Startup.Run.{Machine, write_pid_file, cleanup_files}

-- How `main` ends; a panic comes before any function is deferred.
pub data Exit (S : Type 0) : Type 0 where
  panicked : Error → S → Exit S
  returned : S → Exit S

module _ {env : Surroundings} {W : Type 0} (m : Machine W) (start : Act (Process env W))
    (shutdown : Act W) where
  abbrev pub filenames : List Text
  filenames = codes "gateway.pid" ∷ m.management_url_filename ∷ m.static_url_filename ∷ []

  -- The errors of `Start` and of `Shutdown` are logged. The functions that were deferred run from
  -- the last to the first.
  abbrev pub start_and_stop : Text → Process env W → Process env W
  start_and_stop runtime_path p =
      let q = (start p).1 in
      record q { world = cleanup_files m runtime_path filenames (shutdown q.world).1 }

  abbrev pub with_pid_file : Process env W → Option Error × W → Exit (Process env W)
  with_pid_file p (some e, w) = panicked e (record p { world = w })
  with_pid_file p (none, w) =
      returned (start_and_stop p.state.settings.runtime_path (record p { world = w }))

  -- `main`
  unfoldable pub main : Process env W → Exit (Process env W)
  unfolding write_pid_file cleanup_files
  main p = with_pid_file p (write_pid_file m p.state.settings.runtime_path p.world)

  with_pid_file-returned :
      (p end : Process env W) (r : Option Error × W)
      → with_pid_file p r ≡ returned end
      → end ≡ start_and_stop p.state.settings.runtime_path (record p { world = r.1 })
  with_pid_file-returned p end (none, w) h = sym (cc)
  with_pid_file-returned p end (some e, w) h = absurd (cc)

  module _ (exists : Text → W → Bool)
      (removes : (q path : Text) (w : W)
        → (exists q (m.remove path w).1 ≡ true) ↔ ((exists q w ≡ true) × (q ≢ path))) where
    -- Where files can be removed, those that remain are those of other names.
    cleanup_files_iff :
        (q runtime_path : Text) (fs : List Text) (w : W)
        → (exists q (cleanup_files m runtime_path fs w) ≡ true)
          ↔ ((exists q w ≡ true) × All (λ f. q ≢ join_path runtime_path f) fs)
    unfolding cleanup_files
    cleanup_files_iff q runtime_path [] w = (λ h. (h, tt), λ (h, _). h)
    cleanup_files_iff q runtime_path (f ∷ fs) w =
        let rest = cleanup_files_iff q runtime_path fs (m.remove (join_path runtime_path f) w).1 in
        let first = removes q (join_path runtime_path f) w in
        (
          λ h.
              let (kept, others) = rest.0 h in
              let (there, ne) = first.0 kept in (there, (ne, others)),
          λ (there, (ne, others)). rest.1 (first.1 (there, ne), others),
        )

    -- Where files can be removed, a `main` that has returned has left neither the file of the
    -- process id nor the two address files, and every other file is as `Shutdown` left it.
    pub main-files_iff :
        (p end : Process env W) (q : Text)
        → main p ≡ returned end
        → let path = p.state.settings.runtime_path in
          let last =
            (shutdown (start (record p { world = (write_pid_file m path p.world).1 })).1.world).1 in
          (exists q end.world ≡ true) ↔ (
            (exists q last ≡ true)
            × All
                (λ f. q ≢ join_path path f)
                (codes "gateway.pid" ∷ m.management_url_filename ∷ m.static_url_filename ∷ []))
    unfolding main
    main-files_iff p end q h =
        rw (with_pid_file-returned p end (write_pid_file m p.state.settings.runtime_path p.world) h)
          (cleanup_files_iff q p.state.settings.runtime_path filenames _)
