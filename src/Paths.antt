-- ===== src/Paths.antt =====
-- What the program uses of Go's packages `path`, `path/filepath` and `net/url` on paths.
pub mod Segments
pub mod Cleaning
use nimo_os_gateway.Base.{
  ℕ, ◌+◌, ◌-◌, ◌*◌, Bool, true, false, ◌&&◌, ◌||◌, Option, none, some, List, [], ◌∷◌, ◌++◌, reverse,
  Text, codes, same, has_prefix, split, leb, ◌==◌, if◌then◌else◌, drop, length,
}
use mathlib.Core.Option

abbrev pub slash : ℕ
slash = b'/'

abbrev pub dot : Text
dot = codes "."

abbrev pub dot_dot : Text
dot_dot = codes ".."

-- Segments with a slash between them.
unfoldable pub join : List Text → Text
join [] = []
join (p ∷ []) = p
join (p ∷ q ∷ ps) = p ++ slash ∷ join (q ∷ ps)

-- `..` leaves a directory; at the root it is dropped, and a relative path keeps it in front.
abbrev pub up : Bool → List Text → List Text
up true [] = []
up true (s ∷ stack) = stack
up false [] = dot_dot ∷ []
up false (s ∷ stack) = if same s dot_dot then dot_dot ∷ s ∷ stack else stack

-- One element of `path.Clean`; the stack has the last element at its head.
unfoldable pub resolve : Bool → List Text → Text → List Text
resolve rooted stack seg =
    if same seg [] || same seg dot
    then stack
    else if same seg dot_dot
    then up rooted stack
    else seg ∷ stack

resolve_all : Bool → List Text → List Text → List Text
resolve_all rooted stack [] = reverse stack
resolve_all rooted stack (seg ∷ segs) = resolve_all rooted (resolve rooted stack seg) segs

-- The elements of the cleaned path.
unfoldable pub clean_segments : Bool → Text → List Text
unfolding resolve_all
clean_segments rooted s = resolve_all rooted [] (split slash s)

abbrev render : Bool → List Text → Text
render true segs = slash ∷ join segs
render false [] = dot
render false (p ∷ ps) = join (p ∷ ps)

-- `path.Clean`
unfoldable pub clean : Text → Text
unfolding clean_segments join
clean [] = dot
clean (c ∷ s) = render (c == slash) (clean_segments (c == slash) (c ∷ s))

-- `filepath.Join(a, b)`: empty arguments are left out.
unfoldable pub join_path : Text → Text → Text
unfolding clean
join_path [] [] = []
join_path [] (c ∷ b) = clean (c ∷ b)
join_path (c ∷ a) [] = clean (c ∷ a)
join_path (c ∷ a) (d ∷ b) = clean ((c ∷ a) ++ slash ∷ d ∷ b)

-- `strings.TrimPrefix(s, p)`
unfoldable pub trim_prefix : Text → Text → Text
unfolding has_prefix
trim_prefix s p = if has_prefix s p then drop (length p) s else s

abbrev pub percent : ℕ
percent = b'%'

abbrev in_range : ℕ → ℕ → ℕ → Bool
in_range lo hi c = leb lo c && leb c hi

-- `ishex` and `unhex`
abbrev pub hex_value : ℕ → Option ℕ
hex_value c =
    if in_range b'0' b'9' c
    then some (c - b'0')
    else if in_range b'a' b'f' c
    then some (c - b'a' + 10)
    else if in_range b'A' b'F' c
    then some (c - b'A' + 10)
    else none

-- Where the decoder stands: outside an escape, behind `%`, or behind `%` and a digit.
pub data Mode : Type 0 where
  plain first : Mode
  second : ℕ → Mode

unescape_from : Mode → Text → Option Text
unescape_from plain [] = some []
unescape_from first [] = none
unescape_from (second h) [] = none
unescape_from plain (c ∷ s) =
    let escaped = unescape_from first s in
    let kept = Option.map (◌∷◌ c) (unescape_from plain s) in if c == percent then escaped else kept
unescape_from first (c ∷ s) = elim (hex_value c) [
  | none ↦ none
  | some h ↦ unescape_from (second h) s
]
unescape_from (second h) (c ∷ s) = elim (hex_value c) [
  | none ↦ none
  | some l ↦ Option.map (◌∷◌ (h * 16 + l)) (unescape_from plain s)
]

-- `url.PathUnescape`; `none` is an error
unfoldable pub path_unescape : Text → Option Text
unfolding unescape_from
path_unescape s = unescape_from plain s
