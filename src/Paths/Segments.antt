-- ===== src/Paths/Segments.antt =====
-- Splitting a text at a separator, and joining segments by slashes.
use nimo_os_gateway.Base.{
  ℕ, ◌≡◌, ◌≢◌, refl, ap, ◌∙◌, List, [], ◌∷◌, ◌++◌, Text, split, IsFree, All, arith,
}
use nimo_os_gateway.Paths.{slash, join}

pub split-ne-nil : (sep : ℕ) (s : Text) → split sep s ≢ []
unfolding split
split-ne-nil sep [] = cc
split-ne-nil sep (c ∷ s) = close-ne-nil
  where
    close-ne-nil : split sep (c ∷ s) ≢ []
    close-ne-nil = ground arith

-- No segment holds the separator.
pub split-IsFree : (sep : ℕ) (s : Text) → All (IsFree sep) (split sep s)
unfolding split
split-IsFree sep [] = (tt, tt)
split-IsFree sep (c ∷ s) = ground (arith, split-IsFree sep s)

pub split_free : (sep : ℕ) (s : Text) → IsFree sep s → split sep s ≡ s ∷ []
unfolding split
split_free sep [] h = refl
split_free sep (c ∷ s) h = ground (arith, split_free sep s h.1)

pub split-append :
    (sep : ℕ) (p s : Text) → IsFree sep p → split sep (p ++ sep ∷ s) ≡ p ∷ split sep s
unfolding split
split-append sep [] s h = ground arith
split-append sep (c ∷ p) s h = ground (arith, split-append sep p s h.1)

-- Splitting gives the segments back that were joined.
pub split-join :
    (p : Text) (ps : List Text) → All (IsFree slash) (p ∷ ps) → split slash (join (p ∷ ps)) ≡ p ∷ ps
unfolding join
split-join p [] h = split_free slash p h.0
split-join p (q ∷ ps) h = split-append slash p _ h.0 ∙ ap (◌∷◌ p) (split-join q ps h.1)
