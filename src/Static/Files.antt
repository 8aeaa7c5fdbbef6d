-- ===== src/Static/Files.antt =====
-- What clients and the system see of the files behind `CustomFS`.
use nimo_os_gateway.Base.{
  ℕ, suc, ◌+◌, ◌≤◌, ◌≡◌, ◌∙◌, ap, ◌↔◌, true, some, List, [], ◌∷◌, Text, Result, ok, err, length,
  arith,
}
use nimo_os_gateway.Static.{
  FileInfo, Base, custom_file_info, file_stat, custom_stat, not_modified, wrap_info,
}

module _ {W : Type 0} (base : Base W) where
  open base use {File, open_file, stat}

  wrap_info-mod_time :
      (start_time : ℕ) (r : Result FileInfo) (info : FileInfo)
      → wrap_info base start_time r ≡ ok info
      → info.mod_time ≡ start_time
  unfolding custom_file_info
  wrap_info-mod_time start_time (ok i) info h = ground arith
  wrap_info-mod_time start_time (err e) info h = absurd (cc)

  -- A client that asks with the time that it was given for a file gets 304 for whatever file there
  -- is now exactly when the program has not been started anew since: a file that is replaced while
  -- the program runs counts as not modified.
  pub file_stat-not_modified :
      (start start' : ℕ) (file file' : File) (w w' : W) (info info' : FileInfo)
      → start ≤ start'
      → file_stat base start file w ≡ ok info
      → file_stat base start' file' w' ≡ ok info'
      → (not_modified (some info.mod_time) info'.mod_time ≡ true) ↔ (start ≡ start')
  unfolding file_stat not_modified
  file_stat-not_modified start start' file file' w w' info info' later h h' =
      rw
        (
          wrap_info-mod_time start (stat file w) info h,
          wrap_info-mod_time start' (stat file' w') info' h',
        )
        (ground arith)

  -- Calls of `Stat`, one after the other.
  unfoldable pub stat_all : ℕ → List Text → W → W
  stat_all start_time [] w = w
  stat_all start_time (name ∷ names) w =
      stat_all start_time names (custom_stat base start_time name w).1

  custom_stat-world :
      (start_time : ℕ) (name : Text) (w : W)
      → (custom_stat base start_time name w).1 ≡ (open_file name w).1
  unfolding custom_stat
  custom_stat-world start_time name w = ground arith

  -- Each call of `Stat` opens a file and closes none: when every file can be opened, there are as
  -- many more open files as there were calls.
  pub stat_all-open :
      (opened : W → ℕ) (start_time : ℕ) (names : List Text) (w : W)
      → ((name : Text) (u : W) → opened (open_file name u).1 ≡ suc (opened u))
      → opened (stat_all start_time names w) ≡ length names + opened w
  unfolding stat_all
  stat_all-open opened start_time [] w opens = omega arith
  stat_all-open opened start_time (name ∷ names) w opens =
      let rest =
        stat_all-open opened start_time names (custom_stat base start_time name w).1 opens in
      let one = ap opened (custom_stat-world start_time name w) ∙ opens name w in omega arith
