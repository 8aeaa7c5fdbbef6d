-- ===== src/Internal/Tests.antt =====
-- Runs of `isInternalPath`, with the ASCII lower case for `strings.ToLower`.
use mathlib.Core.List.{map-append}
use nimo_os_gateway.Base.{
  ◌≡◌, ◌↔◌, refl, true, false, [], ◌∷◌, map, Text, codes, split, IsFree, In, arith, same,
}
use nimo_os_gateway.Paths.{slash, clean, resolve, trim_prefix, path_unescape}
use nimo_os_gateway.Internal.{internal, lower_byte, Lowers, decoded, is_internal_path}
use nimo_os_gateway.Internal.Decision.{is_internal_path-In}

abbrev pub ascii_lower : Text → Text
ascii_lower = map lower_byte

lower-IsFree : (s : Text) → IsFree slash s → IsFree slash (map lower_byte s)
lower-IsFree [] h = tt
lower-IsFree (c ∷ s) h = (ground arith, lower-IsFree s h.1)

pub ascii_lower-Lowers : Lowers ascii_lower
ascii_lower-Lowers = record {
  ascii = λ s h. refl;
  at_slash = λ a b. map-append lower_byte a (slash ∷ b);
  no_slash = lower-IsFree;
}

all_refused :
    (is_internal_path ascii_lower (codes "/v1/ai/_internal") ≡ true)
    × (is_internal_path ascii_lower (codes "/v1/ai/_INTERNAL/x") ≡ true)
    × (is_internal_path ascii_lower (codes "/v1/x/../ai/%5Finternal/x") ≡ true)
unfolding is_internal_path split trim_prefix clean resolve same path_unescape
all_refused = (refl, refl, refl)

passed :
    (is_internal_path ascii_lower (codes "/v1/internal_notes") ≡ false)
    × (is_internal_path ascii_lower (codes "/v1/_internals/x") ≡ false)
    × (is_internal_path ascii_lower (codes "/v1/_internal/../x") ≡ false)
unfolding is_internal_path split trim_prefix clean resolve same path_unescape
passed = (refl, refl, refl)

abbrev pub spoofed : Text
spoofed = codes "/v1/_Internal"

is_internal_path-In_example :
    (is_internal_path ascii_lower spoofed ≡ true)
    ↔ ((seg : Text) × In seg (split slash (decoded spoofed)) × (internal ≡ ascii_lower seg))
unfolding decoded split
is_internal_path-In_example =
    is_internal_path-In ascii_lower ascii_lower-Lowers spoofed (cc) ((cc), ((cc), ((cc), tt)))
