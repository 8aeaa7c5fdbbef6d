-- ===== src/Static/Tests.antt =====
-- The static files of a directory with two pages.
use nimo_os_gateway.Base.{
  ℕ, suc, ◌≡◌, refl, ◌↔◌, true, false, none, some, [], ◌∷◌, Text, codes, ok, lookup, arith,
}
use nimo_os_gateway.Gateway.{Request}
use nimo_os_gateway.Static.{
  FileInfo, Base, file_stat, not_modified, index_re, cache_control, no_cache, page_headers,
}
use nimo_os_gateway.Static.Expressions.{match_string}
use nimo_os_gateway.Static.Files.{file_stat-not_modified}
use nimo_os_gateway.Static.Pages.{IsIndexPath, page_headers_iff}

matches_root : match_string index_re (codes "/") ≡ true
unfolding match_string index_re
matches_root = refl

matches_module : match_string index_re (codes "/modules/photos/index.html") ≡ true
unfolding match_string index_re
matches_module = refl

misses_index : match_string index_re (codes "/index.html") ≡ false
unfolding match_string index_re
misses_index = refl

-- The world counts the open files.
abbrev page : Text → FileInfo
page name = record { name = name; size = 3; mode = 420; mod_time = 5; is_dir = false }

abbrev counting : Base ℕ
counting = record {
  File = Text;
  open_file = λ name w. (ok name, suc w);
  stat = λ file w. ok (page file);
  reader = λ file. none;
  seeker = λ file. none;
}

abbrev first_start : ℕ
first_start = 100

abbrev started_at : FileInfo
started_at = record (page (codes "index.html")) { mod_time = 100 }

file_stat-not_modified_example :
    (not_modified (some first_start) first_start ≡ true) ↔ (first_start ≡ first_start)
unfolding file_stat
file_stat-not_modified_example =
    file_stat-not_modified counting 100 100 (codes "index.html") (codes "index.html") 0 0 started_at
      started_at (omega arith) refl refl

abbrev module_request : Request
module_request = record {
  method = codes "GET";
  path = codes "/modules/photos/";
  remote_addr = codes "127.0.0.1:4000";
  headers = [];
}

page_headers_iff_example :
    (lookup cache_control (page_headers module_request []) ≡ some (no_cache ∷ []))
    ↔ IsIndexPath (codes "/modules/photos/")
unfolding lookup
page_headers_iff_example = page_headers_iff module_request [] refl
