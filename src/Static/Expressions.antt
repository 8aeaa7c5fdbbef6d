-- ===== src/Static/Expressions.antt =====
-- The part of Go's `regexp` that the program uses: texts, `[^c]*`, `$`, sequences and alternatives,
-- with a matcher that looks for a match anywhere in the text.
use nimo_os_gateway.Base.{
  ℕ, ◌≡◌, refl, ap, ◌↔◌, ◌⊎◌, inl, inr, Bool, true, not, ◌&&◌, ◌||◌, [], ◌∷◌, ◌++◌, Text, same,
  same_iff, has_prefix, has_prefix_iff, has_prefix-append, IsFree, drop, length, ◌==◌, Bool-cases,
  ||-eq-true, arith,
}

pub data Regex : Type 0 where
  text : Text → Regex
  many_not : ℕ → Regex
  end : Regex
  seq alt : Regex → Regex → Regex

-- `[^c]*` and then what `k` wants of the rest
skip : ℕ → (Text → Bool) → Text → Bool
skip c k [] = k []
skip c k (x ∷ s) = k (x ∷ s) || (not (x == c) && skip c k s)

-- Whether the expression matches at the start, with a rest that `k` accepts.
match_at : Regex → (Text → Bool) → Text → Bool
unfolding has_prefix skip
match_at (text t) k s = has_prefix s t && k (drop (length t) s)
match_at (many_not c) k s = skip c k s
match_at end k s = same s [] && k s
match_at (seq a b) k s = match_at a (match_at b k) s
match_at (alt a b) k s = match_at a k s || match_at b k s

-- `MatchString`
unfoldable pub match_string : Regex → Text → Bool
unfolding match_at same
match_string r [] = match_at r (λ rest. true) []
match_string r (x ∷ s) = match_at r (λ rest. true) (x ∷ s) || match_string r s

-- What an expression means: it takes a text apart into what it matches and the rest.
abbrev pub Splits : Regex → Text → Text → Type 0
Splits (text t) s rest = s ≡ t ++ rest
Splits (many_not c) s rest = (m : Text) × IsFree c m × (s ≡ m ++ rest)
Splits end s rest = (s ≡ []) × (rest ≡ [])
Splits (seq a b) s rest = (mid : Text) × Splits a s mid × Splits b mid rest
Splits (alt a b) s rest = Splits a s rest ⊎ Splits b s rest

-- The rest that the matcher goes on with.
abbrev Found : (Text → Text → Type 0) → (Text → Bool) → Text → Type 0
Found splits k s = (rest : Text) × splits s rest × (k rest ≡ true)

drop-append : (t rest : Text) → drop (length t) (t ++ rest) ≡ rest
drop-append [] rest = refl
drop-append (x ∷ t) rest = drop-append t rest

&&-right : (a b : Bool) → (a && b) ≡ true → b ≡ true
&&-right a b h = ground arith

text_sound :
    (t : Text) (k : Text → Bool) (s : Text)
    → match_at (text t) k s ≡ true
    → Found (Splits (text t)) k s
unfolding match_at
text_sound t k s h =
    let (rest, e) = (has_prefix_iff s t).0 (ground arith) in
    (rest, e, rw (e, drop-append t rest) at (&&-right (has_prefix s t) _ h))

skip_sound :
    (c : ℕ) (k : Text → Bool) (s : Text) → skip c k s ≡ true → Found (Splits (many_not c)) k s
unfolding skip
skip_sound c k [] h = ([], ([], tt, refl), h)
skip_sound c k (x ∷ s) h = elim (Bool-cases (k (x ∷ s))) [
  | inl here ↦ (x ∷ s, ([], tt, refl), here)
  | inr later ↦
      let (rest, (m, free, e), accepted) = skip_sound c k s (ground arith) in
      (rest, (x ∷ m, (ground arith, free), ap (◌∷◌ x) e), accepted)
]

skip_complete :
    (c : ℕ) (k : Text → Bool) (m rest : Text)
    → IsFree c m
    → k rest ≡ true
    → skip c k (m ++ rest) ≡ true
unfolding skip
skip_complete c k [] [] free h = h
skip_complete c k [] (x ∷ rest) free h = rw h refl
skip_complete c k (x ∷ m) rest free h = ground (arith, skip_complete c k m rest free.1 h)

match_at_sound :
    (r : Regex) (k : Text → Bool) (s : Text) → match_at r k s ≡ true → Found (Splits r) k s
unfolding match_at
match_at_sound (text t) k s h = text_sound t k s h
match_at_sound (many_not c) k s h = skip_sound c k s h
match_at_sound end k s h =
    let empty : s ≡ [] = (same_iff s []).0 (ground arith) in
    ([], (empty, refl), rw empty at (&&-right (same s []) (k s) h))
match_at_sound (seq a b) k s h =
    let (mid, first, more) = match_at_sound a (match_at b k) s h in
    let (rest, second, accepted) = match_at_sound b k mid more in
    (rest, (mid, first, second), accepted)
match_at_sound (alt a b) k s h = elim (||-eq-true (match_at a k s) (match_at b k s) h) [
  | inl l ↦ let (rest, split, accepted) = match_at_sound a k s l in (rest, inl split, accepted)
  | inr r ↦ let (rest, split, accepted) = match_at_sound b k s r in (rest, inr split, accepted)
]

match_at_complete :
    (r : Regex) (k : Text → Bool) (s rest : Text)
    → Splits r s rest
    → k rest ≡ true
    → match_at r k s ≡ true
unfolding match_at same
match_at_complete (text t) k s rest e h = rw e (rw (has_prefix-append t rest, drop-append t rest) h)
match_at_complete (many_not c) k s rest (m, free, e) h = rw e (skip_complete c k m rest free h)
match_at_complete end k s rest (e, e') h = rw e (rw e' at h)
match_at_complete (seq a b) k s rest (mid, first, second) h =
    match_at_complete a (match_at b k) s mid first (match_at_complete b k mid rest second h)
match_at_complete (alt a b) k s rest (inl l) h = rw (match_at_complete a k s rest l h) refl
match_at_complete (alt a b) k s rest (inr r) h =
    rw (match_at_complete b k s rest r h) (ground arith)

match_string_sound :
    (r : Regex) (s : Text)
    → match_string r s ≡ true
    → (before mid rest : Text) × (s ≡ before ++ mid) × Splits r mid rest
unfolding match_string
match_string_sound r [] h =
    let (rest, splits, _) = match_at_sound r (λ rest. true) [] h in ([], [], rest, refl, splits)
match_string_sound r (x ∷ s) h =
    elim (||-eq-true (match_at r (λ rest. true) (x ∷ s)) (match_string r s) h) [
      | inl here ↦
          let (rest, splits, _) = match_at_sound r (λ rest. true) (x ∷ s) here in
          ([], x ∷ s, rest, refl, splits)
      | inr later ↦
          let (before, mid, rest, e, splits) = match_string_sound r s later in
          (x ∷ before, mid, rest, ap (◌∷◌ x) e, splits)
    ]

match_string_complete :
    (r : Regex) (before mid rest : Text) → Splits r mid rest → match_string r (before ++ mid) ≡ true
unfolding match_string
match_string_complete r [] [] rest splits = match_at_complete r (λ rest. true) [] rest splits refl
match_string_complete r [] (x ∷ mid) rest splits =
    rw (match_at_complete r (λ rest. true) (x ∷ mid) rest splits refl) refl
match_string_complete r (x ∷ before) mid rest splits =
    rw (match_string_complete r before mid rest splits) (ground arith)

-- `MatchString` finds a match wherever there is one, and nothing else.
pub match_string_iff :
    (r : Regex) (s : Text)
    → (match_string r s ≡ true)
      ↔ ((before mid rest : Text) × (s ≡ before ++ mid) × Splits r mid rest)
match_string_iff r s = (
  match_string_sound r s,
  λ (before, mid, rest, e, splits). rw e (match_string_complete r before mid rest splits),
)
