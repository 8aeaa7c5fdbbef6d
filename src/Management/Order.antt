-- ===== src/Management/Order.antt =====
-- The search for the longest registered prefix does not depend on the order in which a map gives
-- its keys, nor on how the sort orders keys of one length.
use nimo_os_gateway.Base.{
  ℕ, ◌≤◌, ◌≡◌, refl, sym, ap, ◌∙◌, ◌↔◌, ◌⊎◌, inl, inr, true, false, Option, none, some, List, [],
  ◌∷◌, Text, has_prefix, length, All, In, All-In, Bool-cases, Option-cases, arith,
}
use nimo_os_gateway.Management.{insert_key, sort_keys, first_match}

-- What the search looks for: a listed prefix of the path, and no listed prefix is longer.
pub record IsLongest (path : Text) (ps : List Text) (p : Text) : Type 0 where
  pub listed : In p ps
  pub matches : has_prefix path p ≡ true
  pub longest : (q : Text) → In q ps → has_prefix path q ≡ true → length q ≤ length p

abbrev pub IsDescending : List Text → Type 0
IsDescending [] = Unit
IsDescending (x ∷ xs) = All (λ y. length y ≤ length x) xs × IsDescending xs

-- The lists agree on the prefixes of a path.
abbrev pub SameMatches : Text → List Text → List Text → Type 0
SameMatches path xs ys = (k : Text) → has_prefix path k ≡ true → In k xs ↔ In k ys

abbrev pub SameMembers : List Text → List Text → Type 0
SameMembers xs ys = (k : Text) → In k xs ↔ In k ys

insert_key-In : (x k : Text) (ys : List Text) → In k (insert_key x ys) ↔ ((k ≡ x) ⊎ In k ys)
unfolding insert_key
insert_key-In x k [] = ground arith
insert_key-In x k (y ∷ ys) = ground (arith, insert_key-In x k ys)

pub sort_keys-In : (ks : List Text) → SameMembers (sort_keys ks) ks
unfolding sort_keys
sort_keys-In [] k = (λ h. h, λ h. h)
sort_keys-In (x ∷ xs) k = ground (arith, sort_keys-In xs k, insert_key-In x k (sort_keys xs))

insert_key-All :
    (n : ℕ) (x : Text) (ys : List Text)
    → length x ≤ n
    → All (λ y. length y ≤ n) ys
    → All (λ y. length y ≤ n) (insert_key x ys)
unfolding insert_key
insert_key-All n x [] h k = (h, tt)
insert_key-All n x (y ∷ ys) h k = ground (arith, insert_key-All n x ys h k.1)

All-mono :
    (n m : ℕ) (ys : List Text) → n ≤ m → All (λ y. length y ≤ n) ys → All (λ y. length y ≤ m) ys
All-mono n m [] h k = tt
All-mono n m (y ∷ ys) h k = (omega arith, All-mono n m ys h k.1)

insert_key-IsDescending :
    (x : Text) (ys : List Text) → IsDescending ys → IsDescending (insert_key x ys)
unfolding insert_key
insert_key-IsDescending x [] h = (tt, tt)
insert_key-IsDescending x (y ∷ ys) h = ground (
  arith,
  insert_key-IsDescending x ys h.1,
  insert_key-All (length y) x ys,
  All-mono (length y) (length x) ys,
)

pub sort_keys-IsDescending : (ks : List Text) → IsDescending (sort_keys ks)
unfolding sort_keys
sort_keys-IsDescending [] = tt
sort_keys-IsDescending (x ∷ xs) =
    insert_key-IsDescending x (sort_keys xs) (sort_keys-IsDescending xs)

pub first_match-IsLongest :
    (path : Text) (ps : List Text) (p : Text)
    → IsDescending ps
    → first_match path ps ≡ some p
    → IsLongest path ps p
unfolding first_match
first_match-IsLongest path [] p d e = cc
first_match-IsLongest path (x ∷ xs) p d e = elim (Bool-cases (has_prefix path x)) [
  | inl hit ↦
      let same : x ≡ p = ground arith in
      record {
        listed = inl (ground arith);
        matches = ground arith;
        longest = λ q m h. elim m [
          | inl e ↦ omega (arith, ap length (e ∙ same))
          | inr r ↦ omega (arith, All-In (λ y. length y ≤ length x) xs d.0 q r, ap length same)
        ];
      }
  | inr miss ↦
      let rest = first_match-IsLongest path xs p d.1 (ground arith) in
      record {
        listed = inr rest.listed;
        matches = rest.matches;
        longest = λ q m h. elim m [ inl e ↦ absurd (cc) | inr r ↦ rest.longest q r h ];
      }
]

pub first_match-none :
    (path : Text) (ps : List Text)
    → first_match path ps ≡ none
    → (q : Text) → In q ps
    → has_prefix path q ≡ false
unfolding first_match
first_match-none path [] e q m = absurd m
first_match-none path (x ∷ xs) e q m = ground (arith, first_match-none path xs (ground arith) q)

prefix_unique :
    (s p q : Text) → has_prefix s p ≡ true → has_prefix s q ≡ true → length p ≡ length q → p ≡ q
unfolding has_prefix
prefix_unique s [] [] h k e = refl
prefix_unique s [] (y ∷ q) h k e = absurd (omega arith)
prefix_unique s (x ∷ p) [] h k e = absurd (omega arith)
prefix_unique [] (x ∷ p) (y ∷ q) h k e = cc
prefix_unique (c ∷ s) (x ∷ p) (y ∷ q) h k e = ground (arith, prefix_unique s p q)

-- There is at most one longest prefix.
pub IsLongest-unique :
    (path : Text) (ps qs : List Text) (p q : Text)
    → SameMatches path ps qs
    → IsLongest path ps p
    → IsLongest path qs q
    → p ≡ q
IsLongest-unique path ps qs p q s a b =
    let first : length q ≤ length p = a.longest q ((s q b.matches).1 b.listed) b.matches in
    let second : length p ≤ length q = b.longest p ((s p a.matches).0 a.listed) a.matches in
    prefix_unique path p q a.matches b.matches (omega arith)

-- Any two descending lists that agree on the prefixes of the path give the same match.
pub first_match-SameMatches :
    (path : Text) (ps qs : List Text)
    → IsDescending ps
    → IsDescending qs
    → SameMatches path ps qs
    → first_match path ps ≡ first_match path qs
first_match-SameMatches path ps qs dp dq s = elim (Option-cases (first_match path ps)) [
  | inl nothing ↦ elim (Option-cases (first_match path qs)) [
    | inl neither ↦ nothing ∙ sym neither
    | inr (q, found) ↦
        let l = first_match-IsLongest path qs q dq found in
        absurd (cc (l.matches, first_match-none path ps nothing q ((s q l.matches).1 l.listed)))
  ]
  | inr (p, found) ↦ elim (Option-cases (first_match path qs)) [
    | inl nothing ↦
        let l = first_match-IsLongest path ps p dp found in
        absurd (cc (l.matches, first_match-none path qs nothing p ((s p l.matches).0 l.listed)))
    | inr (q, also) ↦
        let a = first_match-IsLongest path ps p dp found in
        let b = first_match-IsLongest path qs q dq also in
        found ∙ ap {B = Option Text} some (IsLongest-unique path ps qs p q s a b) ∙ sym also
  ]
]
