-- ===== src/Internal/Decision.antt =====
-- What `isInternalPath` decides: whether a segment of the decoded and cleaned path is `_internal`,
-- whatever the case of its letters.
use nimo_os_gateway.Base.{
  ℕ, ◌≡◌, ◌≢◌, refl, ap, ◌∙◌, ◌↔◌, inl, inr, true, List, [], ◌∷◌, ◌++◌, map, Text, same, same_iff,
  split, IsFree, All, In, has_prefix, arith,
}
use nimo_os_gateway.Paths.{slash, dot, dot_dot, join, clean, clean_segments, trim_prefix}
use nimo_os_gateway.Paths.Segments.{split-join, split-append}
use nimo_os_gateway.Paths.Cleaning.{IsName, clean_segments-In, clean_segments-IsFree}
use nimo_os_gateway.Internal.{internal, Lowers, decoded, has_internal, is_internal_path}

has_internal_iff : (segs : List Text) → (has_internal segs ≡ true) ↔ In internal segs
unfolding has_internal
has_internal_iff [] = (λ h. cc, λ h. absurd h)
has_internal_iff (seg ∷ segs) = ground (arith, has_internal_iff segs, same_iff seg internal)

trim_slash : (s : Text) → trim_prefix (slash ∷ s) (slash ∷ []) ≡ s
unfolding trim_prefix has_prefix
trim_slash [] = refl
trim_slash (c ∷ s) = refl

In-map :
    (f : Text → Text) (y : Text) (xs : List Text)
    → In y (map f xs) ↔ ((x : Text) × In x xs × (y ≡ f x))
In-map f y [] = (λ h. absurd h, λ h. h.1)
In-map f y (x ∷ xs) = (
  λ h. elim h [
    | inl e ↦ (x, inl refl, e)
    | inr r ↦ let (z, m, e) = (In-map f y xs).0 r in (z, inr m, e)
  ],
  λ (z, m, e). elim m [
    | inl same_head ↦ inl (e ∙ ap f same_head)
    | inr r ↦ inr ((In-map f y xs).1 (z, r, e))
  ],
)

module _ (to_lower : Text → Text) (laws : Lowers to_lower) where
  to_lower-nil : to_lower [] ≡ []
  to_lower-nil = laws.ascii [] tt

  to_lower-join :
      (p : Text) (ps : List Text) → to_lower (join (p ∷ ps)) ≡ join (map to_lower (p ∷ ps))
  unfolding join
  to_lower-join p [] = refl
  to_lower-join p (q ∷ ps) =
      laws.at_slash p (join (q ∷ ps)) ∙ ap (λ t. to_lower p ++ slash ∷ t) (to_lower-join q ps)

  map-IsFree : (ps : List Text) → All (IsFree slash) ps → All (IsFree slash) (map to_lower ps)
  map-IsFree [] h = tt
  map-IsFree (p ∷ ps) h = (laws.no_slash p h.0, map-IsFree ps h.1)

  -- The loop sees the elements of the cleaned path in lower case; the root alone gives one empty
  -- segment, which is not internal.
  lowered :
      (segs : List Text)
      → All (IsFree slash) segs
      → (has_internal (split slash (to_lower (join segs))) ≡ true) ↔ In internal (map to_lower segs)
  unfolding has_internal split join same
  lowered [] h = rw to_lower-nil (λ e. absurd (cc e), λ e. absurd e)
  lowered (p ∷ ps) h =
      rw (to_lower-join p ps, split-join (to_lower p) (map to_lower ps) (map-IsFree (p ∷ ps) h))
        (has_internal_iff (map to_lower (p ∷ ps)))

  is_internal_path-clean :
      (c : ℕ) (p : Text)
      → is_internal_path to_lower (c ∷ p)
        ≡ has_internal
            (split slash (to_lower (join (clean_segments true (slash ∷ decoded (c ∷ p))))))
  unfolding is_internal_path clean
  is_internal_path-clean c p = rw (laws.at_slash [] _, to_lower-nil, trim_slash)

  internal-IsName : (seg : Text) → internal ≡ to_lower seg → IsName seg
  internal-IsName seg h = (
    λ e. absurd (cc (h ∙ ap to_lower e ∙ to_lower-nil)),
    λ e. absurd (cc (h ∙ ap to_lower e ∙ laws.ascii dot (omega arith))),
  )

  -- A path is internal exactly when the lower case of an element of the decoded and cleaned path is
  -- `_internal`.
  pub is_internal_path_iff :
      (p : Text)
      → p ≢ []
      → (is_internal_path to_lower p ≡ true) ↔ (
          (seg : Text) × In seg (clean_segments true (slash ∷ decoded p))
          × (internal ≡ to_lower seg))
  is_internal_path_iff [] h = absurd (h refl)
  is_internal_path_iff (c ∷ p) h =
      let segs = clean_segments true (slash ∷ decoded (c ∷ p)) in
      let (to, from) = lowered segs (clean_segments-IsFree (slash ∷ decoded (c ∷ p))) in
      rw (is_internal_path-clean c p) (
        λ e. (In-map to_lower internal segs).0 (to e),
        λ m. from ((In-map to_lower internal segs).1 m),
      )

  -- A path that is not empty and has no segment `..` once it is decoded is internal exactly when the
  -- lower case of one of the segments of the decoded path is `_internal`.
  pub is_internal_path-In :
      (p : Text)
      → p ≢ []
      → All (λ seg. seg ≢ dot_dot) (split slash (decoded p))
      → (is_internal_path to_lower p ≡ true)
        ↔ ((seg : Text) × In seg (split slash (decoded p)) × (internal ≡ to_lower seg))
  is_internal_path-In p h plain =
      let leading : split slash (slash ∷ decoded p) ≡ [] ∷ split slash (decoded p) =
        split-append slash [] (decoded p) tt in
      let kept = λ (seg : Text).
        rw leading at
          (clean_segments-In true (slash ∷ decoded p) seg (rw leading ((λ e. cc), plain))) in
      let (to, from) = is_internal_path_iff p h in
      (
        λ e. let (seg, m, l) = to e in (seg, own seg l ((kept seg).0 m).0, l),
        λ (seg, m, l). from (seg, (kept seg).1 (inr m, internal-IsName seg l), l),
      )
    where
      own :
          (seg : Text)
          → internal ≡ to_lower seg
          → In seg ([] ∷ split slash (decoded p))
          → In seg (split slash (decoded p))
      own seg l (inl e) = absurd ((internal-IsName seg l).0 e)
      own seg l (inr m) = m
