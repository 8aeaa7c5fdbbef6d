-- ===== src/Internal.antt =====
-- route/gateway_route.go, `isInternalPath`: which request paths are refused as internal.
-- `to_lower` stands for `strings.ToLower`, whose tables for letters outside ASCII are not modelled.
pub mod Tests
pub mod Decision
use nimo_os_gateway.Base.{
  ℕ, ◌+◌, ◌<◌, ◌≡◌, Bool, true, false, ◌&&◌, ◌||◌, Option, none, some, List, [], ◌∷◌, ◌++◌, map,
  Text, codes, same, split, leb, if◌then◌else◌, IsFree, All,
}
use nimo_os_gateway.Paths.{slash, clean, trim_prefix, path_unescape}

abbrev pub internal : Text
internal = codes "_internal"

-- One byte of `strings.ToLower`, for ASCII.
abbrev pub lower_byte : ℕ → ℕ
lower_byte c = if leb b'A' c && leb c b'Z' then c + 32 else c

-- What the program relies on: `strings.ToLower` maps one character at a time, the ASCII letters
-- and the slash in the way of ASCII, and nothing else to a slash.
pub record Lowers (to_lower : Text → Text) : Type 0 where
  pub ascii : (s : Text) → All (λ c. c < 128) s → to_lower s ≡ map lower_byte s
  pub at_slash : (a b : Text) → to_lower (a ++ slash ∷ b) ≡ to_lower a ++ slash ∷ to_lower b
  pub no_slash : (s : Text) → IsFree slash s → IsFree slash (to_lower s)

-- `if dec, err := url.PathUnescape(p); err == nil { p = dec }`
abbrev or_else : Option Text → Text → Text
or_else none p = p
or_else (some dec) p = dec

unfoldable pub decoded : Text → Text
unfolding path_unescape
decoded p = or_else (path_unescape p) p

-- the loop over the segments
unfoldable pub has_internal : List Text → Bool
has_internal [] = false
has_internal (seg ∷ segs) = same seg internal || has_internal segs

unfoldable pub is_internal_path : (Text → Text) → Text → Bool
unfolding decoded has_internal
is_internal_path to_lower [] = false
is_internal_path to_lower (c ∷ p) =
    has_internal
      (split slash (trim_prefix (to_lower (clean (slash ∷ decoded (c ∷ p)))) (slash ∷ [])))
