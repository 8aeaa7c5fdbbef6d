-- ===== src/Static.antt =====
-- route/static_route.go: the server of the static files. The directory of the files and echo's
-- handler of them are parameters; `regexp` is modelled as far as the one expression needs it.
pub mod Expressions
pub mod Pages
pub mod Files
mod Tests
use nimo_os_gateway.Base.{
  ℕ, Bool, true, false, not, ◌&&◌, Option, none, some, List, [], ◌∷◌, Text, codes, Result, ok, err,
  leb, if◌then◌else◌,
}
use nimo_os_gateway.Gateway.{Headers, Request, set_header}
use nimo_os_gateway.Static.Expressions.{Regex, text, many_not, end, seq, alt, match_string}

-- `fs.FileInfo`, with times in seconds
pub record FileInfo : Type 0 where
  pub name : Text
  pub size : ℕ
  pub mode : ℕ
  pub mod_time : ℕ
  pub is_dir : Bool

-- The base of `CustomFS`: `os.DirFS` on the directory. An opened file can be asked for its
-- information; reading and seeking are there if the file has the methods.
pub record Base (W : Type 0) : Type 1 where
  pub File : Type 0
  pub open_file : Text → W → Result File × W
  pub stat : File → W → Result FileInfo
  pub reader : File → Option (ℕ → W → Result Text × W)
  pub seeker : File → Option ((offset whence : ℕ) → W → Result ℕ × W)

-- `CustomFileInfo`: the time of the program's start in place of the file's
unfoldable pub custom_file_info : ℕ → FileInfo → FileInfo
custom_file_info start_time info = record info { mod_time = start_time }

module _ {W : Type 0} (base : Base W) (start_time : ℕ) where
  open base use {File, open_file, stat, reader, seeker}

  abbrev wrap_info : Result FileInfo → Result FileInfo
  wrap_info (err e) = err e
  wrap_info (ok info) = ok (custom_file_info start_time info)

  -- `CustomFS.Open`; a `CustomFile` is the file under other methods
  unfoldable pub custom_open : Text → W → Result File × W
  custom_open name w = open_file name w

  -- `CustomFile.Stat`
  unfoldable pub file_stat : File → W → Result FileInfo
  unfolding custom_file_info
  file_stat file w = wrap_info (stat file w)

  abbrev stat_opened : Result File × W → Result FileInfo × W
  stat_opened (err e, w) = (err e, w)
  stat_opened (ok file, w) = (wrap_info (stat file w), w)

  -- `CustomFS.Stat`
  unfoldable pub custom_stat : Text → W → Result FileInfo × W
  unfolding custom_file_info
  custom_stat name w = stat_opened (open_file name w)

  abbrev run_read : Option (ℕ → W → Result Text × W) → ℕ → W → Result Text × W
  run_read none n w = (err (codes "file does not implement io.Reader"), w)
  run_read (some read) n w = read n w

  -- `CustomFile.Read`, for a buffer of `n` bytes
  unfoldable pub file_read : File → ℕ → W → Result Text × W
  file_read file = run_read (reader file)

  abbrev run_seek : Option (ℕ → ℕ → W → Result ℕ × W) → ℕ → ℕ → W → Result ℕ × W
  run_seek none offset whence w = (err (codes "file does not implement io.Seeker"), w)
  run_seek (some seek) offset whence w = seek offset whence w

  -- `CustomFile.Seek`
  unfoldable pub file_seek : File → ℕ → ℕ → W → Result ℕ × W
  file_seek file = run_seek (seeker file)

-- `indexRE`
unfoldable pub index_re : Regex
index_re = seq (text (codes "/")) (
    alt end (
      seq (text (codes "modules/")) (
        seq (many_not b'/') (
          seq (text (codes "/")) (
            alt end (
              alt
                (seq (text (codes "index.")) (
                  alt (seq (text (codes "htm")) (alt (text (codes "l")) (text []))) (
                    alt (seq (text (codes "asp")) (alt (text (codes "x")) (text [])))
                      (alt (text (codes "cgi")) (alt (text (codes "do")) (text (codes "jsp")))))))
                (seq
                  (alt (text (codes "default")) (alt (text (codes "index")) (text (codes "home"))))
                  (text (codes ".php")))))))))

abbrev pub cache_control : Text
cache_control = codes "Cache-Control"

abbrev pub no_cache : Text
no_cache = codes "no-cache, no-store, must-revalidate,proxy-revalidate, max-age=0"

-- The middleware in front of the files: the headers of the response to a request.
unfoldable pub page_headers : Request → Headers → Headers
unfolding set_header
page_headers r h = if match_string index_re r.path then set_header cache_control no_cache h else h

-- `http.ServeContent`: whether `If-Modified-Since` leads to 304, for the time of a file
unfoldable pub not_modified : Option ℕ → ℕ → Bool
not_modified none mod_time = false
not_modified (some since) mod_time = leb mod_time since
