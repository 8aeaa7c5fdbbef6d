-- ===== src/Paths/Cleaning.antt =====
-- The elements of a cleaned path.
use mathlib.Core.List.{reverse-cons}
use nimo_os_gateway.Base.{
  ◌≡◌, ◌≢◌, ◌↔◌, ◌⊎◌, inl, inr, Bool, true, List, [], ◌∷◌, reverse, Text, split, All, In, IsFree,
  All-append, In-append, In-append_left, In-append_right, same_iff, arith,
}
use nimo_os_gateway.Paths.Segments.{split-IsFree}
use nimo_os_gateway.Paths.{slash, dot, dot_dot, resolve, resolve_all, clean_segments}

pub In-reverse : (x : Text) (xs : List Text) → In x (reverse xs) ↔ In x xs
In-reverse x [] = (λ h. h, λ h. h)
In-reverse x (y ∷ ys) = rw reverse-cons (
  λ h. elim (In-append x (reverse ys) (y ∷ []) h) [
    | inl l ↦ inr ((In-reverse x ys).0 l)
    | inr (inl e) ↦ inl e
    | inr (inr f) ↦ absurd f
  ],
  λ h. elim h [
    | inl e ↦ In-append_right x (reverse ys) (y ∷ []) (inl e)
    | inr r ↦ In-append_left x (reverse ys) (y ∷ []) ((In-reverse x ys).1 r)
  ],
)

-- A segment that names something: not empty, and not the directory itself.
abbrev pub IsName : Text → Type 0
IsName seg = (seg ≢ []) × (seg ≢ dot)

resolve-In :
    (rooted : Bool) (stack : List Text) (seg x : Text)
    → seg ≢ dot_dot
    → In x (resolve rooted stack seg) ↔ (In x stack ⊎ ((x ≡ seg) × IsName seg))
unfolding resolve
resolve-In rooted stack seg x h =
    ground (arith, same_iff seg [], same_iff seg dot, same_iff seg dot_dot)

resolve_all-In :
    (rooted : Bool) (stack segs : List Text) (x : Text)
    → All (λ s. s ≢ dot_dot) segs
    → In x (resolve_all rooted stack segs) ↔ (In x stack ⊎ (In x segs × IsName x))
unfolding resolve_all
resolve_all-In rooted stack [] x h = ground (arith, In-reverse x stack)
resolve_all-In rooted stack (seg ∷ segs) x h = ground (
  arith,
  resolve_all-In rooted (resolve rooted stack seg) segs x h.1,
  resolve-In rooted stack seg x h.0,
)

-- With no `..` in it, cleaning keeps exactly the segments that name something.
pub clean_segments-In :
    (rooted : Bool) (s x : Text)
    → All (λ seg. seg ≢ dot_dot) (split slash s)
    → In x (clean_segments rooted s) ↔ (In x (split slash s) × IsName x)
unfolding clean_segments
clean_segments-In rooted s x h = ground (arith, resolve_all-In rooted [] (split slash s) x h)

resolve-IsFree :
    (stack : List Text) (seg : Text)
    → All (IsFree slash) stack
    → IsFree slash seg
    → All (IsFree slash) (resolve true stack seg)
unfolding resolve
resolve-IsFree stack seg h k = ground arith

All-reverse : (P : Text → Type 0) (xs : List Text) → All P xs → All P (reverse xs)
All-reverse P [] h = tt
All-reverse P (x ∷ xs) h =
    rw reverse-cons (All-append P (reverse xs) (x ∷ []) (All-reverse P xs h.1) (h.0, tt))

resolve_all-IsFree :
    (stack segs : List Text)
    → All (IsFree slash) stack
    → All (IsFree slash) segs
    → All (IsFree slash) (resolve_all true stack segs)
unfolding resolve_all
resolve_all-IsFree stack [] h k = All-reverse (IsFree slash) stack h
resolve_all-IsFree stack (seg ∷ segs) h k =
    resolve_all-IsFree (resolve true stack seg) segs (resolve-IsFree stack seg h k.0) k.1

-- The elements of a cleaned path hold no slash.
pub clean_segments-IsFree : (s : Text) → All (IsFree slash) (clean_segments true s)
unfolding clean_segments
clean_segments-IsFree s = resolve_all-IsFree [] (split slash s) tt (split-IsFree slash s)
