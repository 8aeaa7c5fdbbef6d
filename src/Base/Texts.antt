-- ===== src/Base/Texts.antt =====
-- Go strings as their bytes, and the functions of the package `strings` that the program calls.
use Prim.Native.Nat.{ℕ, suc}
use Prim.Native.Char.{code}
use Prim.Native.String.{String}
use mathlib.Core.Path.{◌≡◌, refl, ap₂}
use mathlib.Core.Logic.{◌↔◌, ◌≢◌}
use mathlib.Core.Bool.{Bool, true, false, ◌&&◌}
use mathlib.Core.Option.{Option, none, some}
use mathlib.Core.List.{List, [], ◌∷◌, ◌++◌, reverse}
use native.Mathlib.Omega.{arith}
use nimo_os_gateway.Base.Tests.{◌==◌, if◌then◌else◌}
use nimo_os_gateway.Base.Lists.{All}

abbrev pub Text : Type 0
Text = List ℕ

-- The code points of a literal; these are its bytes, since the program's literals are ASCII.
abbrev pub codes : String → Text
codes String.[] = []
codes (String.◌∷◌ c s) = code c ∷ codes s

-- `a == b`
unfoldable pub same : Text → Text → Bool
same [] [] = true
same (x ∷ xs) (y ∷ ys) = x == y && same xs ys
same _ _ = false

-- `strings.HasPrefix(s, p)`
unfoldable pub has_prefix : Text → Text → Bool
has_prefix s [] = true
has_prefix [] (y ∷ p) = false
has_prefix (x ∷ s) (y ∷ p) = x == y && has_prefix s p

-- `strings.HasSuffix(s, p)`
unfoldable pub has_suffix : Text → Text → Bool
unfolding has_prefix
has_suffix s p = has_prefix (reverse s) (reverse p)

-- `strings.Split(s, sep)` for a separator of one byte
abbrev close : ℕ → List Text → List Text
close c [] = (c ∷ []) ∷ []
close c (p ∷ ps) = (c ∷ p) ∷ ps

unfoldable pub split : ℕ → Text → List Text
split sep [] = [] ∷ []
split sep (c ∷ s) = let rest = split sep s in if c == sep then [] ∷ rest else close c rest

-- `strings.TrimRight(s, string(c))`
abbrev trim_step : ℕ → ℕ → Text → Text
trim_step c x [] = if x == c then [] else x ∷ []
trim_step c x (y ∷ ys) = x ∷ y ∷ ys

unfoldable pub trim_right : ℕ → Text → Text
trim_right c [] = []
trim_right c (x ∷ s) = trim_step c x (trim_right c s)

-- `strings.LastIndex(s, string(c))`; `none` is -1
abbrev later_index : Bool → Option ℕ → Option ℕ
later_index here (some i) = some (suc i)
later_index true none = some 0
later_index false none = none

unfoldable pub last_index : ℕ → Text → Option ℕ
last_index c [] = none
last_index c (x ∷ s) = later_index (x == c) (last_index c s)

pub same_refl : (s : Text) → same s s ≡ true
unfolding same
same_refl [] = refl
same_refl (x ∷ s) = ground (arith, same_refl s)

same_sound : (s t : Text) → same s t ≡ true → s ≡ t
unfolding same
same_sound [] [] h = refl
same_sound (x ∷ s) (y ∷ t) h = ground (arith, same_sound s t)
same_sound [] (y ∷ t) h = cc
same_sound (x ∷ s) [] h = cc

pub same_iff : (s t : Text) → (same s t ≡ true) ↔ (s ≡ t)
same_iff s t = (same_sound s t, λ e. rw e (same_refl t))

pub same-false_iff : (s t : Text) → (same s t ≡ false) ↔ (s ≢ t)
same-false_iff s t = ground (arith, same_iff s t)

pub has_prefix-append : (p s : Text) → has_prefix (p ++ s) p ≡ true
unfolding has_prefix
has_prefix-append [] [] = refl
has_prefix-append [] (x ∷ s) = refl
has_prefix-append (y ∷ p) s = ground (arith, has_prefix-append p s)

prefix_rest : (s p : Text) → has_prefix s p ≡ true → (t : Text) × (s ≡ p ++ t)
unfolding has_prefix
prefix_rest s [] h = (s, refl)
prefix_rest [] (y ∷ p) h = cc
prefix_rest (x ∷ s) (y ∷ p) h =
    let (t, e) = prefix_rest s p (ground arith) in (t, ap₂ ◌∷◌ (ground arith) e)

pub has_prefix_iff : (s p : Text) → (has_prefix s p ≡ true) ↔ ((t : Text) × (s ≡ p ++ t))
has_prefix_iff s p = (prefix_rest s p, λ (t, e). rw e (has_prefix-append p t))

-- No byte of the text is `c`.
abbrev pub IsFree : ℕ → Text → Type 0
IsFree c = All (λ x. x ≢ c)
