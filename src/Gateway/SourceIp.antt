-- ===== src/Gateway/SourceIp.antt =====
-- What downstream services are told about the source of a request.
use mathlib.Core.List.{append-ne-nil_of_right_ne-nil as append-ne-nil, cons-ne-nil}
use nimo_os_gateway.Base.{
  ℕ, ◌≡◌, ◌≢◌, refl, ap, true, false, Option, none, some, List, [], ◌∷◌, ◌++◌, Text, same,
  same_refl, same-false_iff, sym, split, last_index, take, length, lookup, lookup-insert,
  lookup-remove, remove, IsFree, arith, inl, inr, ◌⊎◌, ◌∙◌, ◌==◌, ==_refl, Bool-cases,
}
use nimo_os_gateway.Paths.Segments.{split_free}
use nimo_os_gateway.Gateway.{
  Headers, Request, add_header, get_header, x_forwarded_for, x_real_ip, ip_list, last, remote_ip,
  is_loopback, restore, drop_blank, rewrite_request_source_ip, rewritten,
}

last_index_free : (c : ℕ) (s : Text) → IsFree c s → last_index c s ≡ none
unfolding last_index
last_index_free c [] h = refl
last_index_free c (x ∷ s) h = ground (arith, last_index_free c s h.1)

last_index-append : (c : ℕ) (a b : Text) → IsFree c b → last_index c (a ++ c ∷ b) ≡ some (length a)
unfolding last_index
last_index-append c [] b h = ground (arith, last_index_free c b h)
last_index-append c (x ∷ a) b h = rw (last_index-append c a b h)

take-length : (a b : Text) → take (length a) (a ++ b) ≡ a
take-length [] b = refl
take-length (x ∷ a) b = ap (◌∷◌ x) (take-length a b)

-- The address is all that stands before the last colon, brackets included.
pub remote_ip-append :
    (host port : Text) → IsFree b':' port → remote_ip (host ++ b':' ∷ port) ≡ some host
unfolding remote_ip
remote_ip-append host port h =
    rw (last_index-append b':' host port h) (ap some (take-length host (b':' ∷ port)))

-- The last part of a split is what stands behind the last separator.
split-last :
    (sep : ℕ) (a b : Text)
    → IsFree sep b
    → (p q : Text) × (ps : List Text) × (split sep (a ++ sep ∷ b) ≡ p ∷ q ∷ ps) × (last q ps ≡ b)
unfolding split last
split-last sep [] b h = ([], b, [], rw (split_free sep b h, ==_refl sep), refl)
split-last sep (x ∷ a) b h =
    let (p, q, ps, e, l) = split-last sep a b h in
    elim (Bool-cases (x == sep)) [
      | inl at ↦ ([], p, q ∷ ps, rw (at, e), l)
      | inr off ↦ (x ∷ p, q, ps, rw (off, e), l)
    ]

-- What a rewritten request keeps.
pub record KeepsRest (r s : Request) : Type 0 where
  pub method : s.method ≡ r.method
  pub path : s.path ≡ r.path
  pub remote_addr : s.remote_addr ≡ r.remote_addr
  pub others :
      (name : Text)
      → name ≢ x_forwarded_for
      → name ≢ x_real_ip
      → lookup name s.headers ≡ lookup name r.headers

-- The rewritten request carries `ips` as its `X-Forwarded-For`, and no `X-Real-IP`.
pub record Rewritten (r : Request) (ips : Option (List Text)) (s : Request) : Type 0 where
  pub returned : rewrite_request_source_ip r ≡ some s
  pub forwarded : lookup x_forwarded_for s.headers ≡ ips
  pub real_ip : lookup x_real_ip s.headers ≡ none
  pub rest : KeepsRest r s

cleared : Headers → Headers
cleared h = remove x_real_ip (remove x_forwarded_for h)

lookup-cleared_forwarded : (h : Headers) → lookup x_forwarded_for (cleared h) ≡ none
unfolding cleared same
lookup-cleared_forwarded h = rw (lookup-remove, lookup-remove)

lookup-cleared_real : (h : Headers) → lookup x_real_ip (cleared h) ≡ none
unfolding cleared same
lookup-cleared_real h = rw lookup-remove

lookup-cleared_other :
    (name : Text) (h : Headers)
    → name ≢ x_forwarded_for
    → name ≢ x_real_ip
    → lookup name (cleared h) ≡ lookup name h
unfolding cleared
lookup-cleared_other name h not_forwarded not_real = rw (
  lookup-remove x_real_ip name (remove x_forwarded_for h),
  lookup-remove x_forwarded_for name h,
  (same-false_iff x_real_ip name).1 (λ e. not_real (sym e)),
  (same-false_iff x_forwarded_for name).1 (λ e. not_forwarded (sym e)),
)

-- The one header that a trusted reverse proxy gets back.
with_source : Text → Headers → Headers
with_source ip h = add_header x_forwarded_for ip (cleared h)

lookup-with_source :
    (ip : Text) (h : Headers) → lookup x_forwarded_for (with_source ip h) ≡ some (ip ∷ [])
unfolding with_source add_header
lookup-with_source ip h = rw (lookup-insert, same_refl, lookup-cleared_forwarded h)

lookup-with_source_ne :
    (ip name : Text) (h : Headers)
    → name ≢ x_forwarded_for
    → lookup name (with_source ip h) ≡ lookup name (cleared h)
unfolding with_source add_header
lookup-with_source_ne ip name h ne =
    rw (
      lookup-insert x_forwarded_for name,
      (same-false_iff x_forwarded_for name).1 (λ e. ne (sym e)),
    )

restore-outside :
    (ips : List Text) (ip : Text) (h : Headers) → is_loopback ip ≡ false → restore ips ip h ≡ h
restore-outside [] ip h e = refl
restore-outside (x ∷ xs) ip h e = ground arith

-- `ip` is the last address of the header value `v`: the whole of it, or all behind its last comma.
abbrev pub LastAddress : Text → Text → Type 0
LastAddress ip v =
    IsFree b',' ip × (((v ≡ ip) × (ip ≢ [])) ⊎ ((front : Text) × (v ≡ front ++ b',' ∷ ip)))

drop_blank_two : (p q : Text) (ps : List Text) → drop_blank (p ∷ q ∷ ps) ≡ p ∷ q ∷ ps
drop_blank_two [] q ps = refl
drop_blank_two (c ∷ p) q ps = refl

drop_blank_one : (p : Text) → p ≢ [] → drop_blank (p ∷ []) ≡ p ∷ []
drop_blank_one [] h = absurd (h refl)
drop_blank_one (c ∷ p) h = refl

ip_list-split :
    (h : Headers)
    → get_header x_forwarded_for h ≢ []
    → ip_list h ≡ drop_blank (split b',' (get_header x_forwarded_for h))
unfolding ip_list
ip_list-split h ne = rw ((same-false_iff (get_header x_forwarded_for h) []).1 ne)

ip_list-last :
    (h : Headers) (ip : Text)
    → LastAddress ip (get_header x_forwarded_for h)
    → (x : Text) × (xs : List Text) × (ip_list h ≡ x ∷ xs) × (last x xs ≡ ip)
unfolding last
ip_list-last h ip (free, inl (whole, ne)) = (
  ip,
  [],
  ip_list-split h (rw whole ne)
      ∙ ap (λ v. drop_blank (split b',' v)) whole
      ∙ ap drop_blank (split_free b',' ip free)
      ∙ drop_blank_one ip ne,
  refl,
)
ip_list-last h ip (free, inr (front, e)) =
    let (p, q, ps, parts, l) = split-last b',' front ip free in
    (
      p,
      q ∷ ps,
      ip_list-split h (rw e (append-ne-nil front (cons-ne-nil b',' ip)))
          ∙ ap (λ v. drop_blank (split b',' v)) e
          ∙ ap drop_blank parts
          ∙ drop_blank_two p q ps,
      l,
    )

restore-loopback :
    (ips : List Text) (x : Text) (xs : List Text) (ip host : Text) (h : Headers)
    → ips ≡ x ∷ xs
    → last x xs ≡ ip
    → is_loopback host ≡ true
    → restore ips host h ≡ add_header x_forwarded_for ip h
restore-loopback ips x xs ip host h e l inside = rw (e, l, inside)

module _ (r : Request) (host port : Text) (from : r.remote_addr ≡ host ++ b':' ∷ port)
    (free : IsFree b':' port) where
  pub rewrite-rewritten : rewrite_request_source_ip r ≡ some (rewritten r host)
  unfolding rewrite_request_source_ip
  rewrite-rewritten = rw (from, remote_ip-append host port free)

  -- A request whose remote address is `host:port`, with a host other than 127.0.0.1 and ::1, is
  -- rewritten to one with neither `X-Forwarded-For` nor `X-Real-IP`, and with all else kept.
  pub rewrite-outside : is_loopback host ≡ false → Rewritten r none (rewritten r host)
  unfolding cleared
  rewrite-outside outside = record {
    returned = rewrite-rewritten;
    forwarded =
        rw (restore-outside (ip_list r.headers) host (cleared r.headers) outside)
          (lookup-cleared_forwarded r.headers);
    real_ip =
        rw (restore-outside (ip_list r.headers) host (cleared r.headers) outside)
          (lookup-cleared_real r.headers);
    rest = record {
      method = refl;
      path = refl;
      remote_addr = refl;
      others = λ name nf nr.
          rw (restore-outside (ip_list r.headers) host (cleared r.headers) outside)
            (lookup-cleared_other name r.headers nf nr);
    };
  }

  -- A request whose remote address is a loopback host and a port carries the last address of its
  -- `X-Forwarded-For` alone, whatever stood in front of it, no `X-Real-IP`, and all else kept.
  pub rewrite-loopback :
      (ip : Text)
      → is_loopback host ≡ true
      → LastAddress ip (get_header x_forwarded_for r.headers)
      → Rewritten r (some (ip ∷ [])) (rewritten r host)
  unfolding cleared with_source
  rewrite-loopback ip inside from_proxy =
      let (x, xs, ips, l) = ip_list-last r.headers ip from_proxy in
      let restored : restore (ip_list r.headers) host (cleared r.headers)
          ≡ with_source ip r.headers =
        restore-loopback _ x xs ip host (cleared r.headers) ips l inside in
      record {
        returned = rewrite-rewritten;
        forwarded = rw restored (lookup-with_source ip r.headers);
        real_ip =
            rw restored
              (lookup-with_source_ne ip x_real_ip r.headers (cc) ∙ lookup-cleared_real r.headers);
        rest = record {
          method = refl;
          path = refl;
          remote_addr = refl;
          others = λ name nf nr. rw restored (
              lookup-with_source_ne ip name r.headers nf
              ∙ lookup-cleared_other name r.headers nf nr);
        };
      }
