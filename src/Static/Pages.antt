-- ===== src/Static/Pages.antt =====
-- Which pages no client may keep.
use mathlib.Core.Path.{subst}
use nimo_os_gateway.Base.{
  ◌≡◌, refl, sym, ◌↔◌, ◌⊎◌, inl, inr, none, some, List, [], ◌∷◌, ◌++◌, append_assoc, Text, codes,
  In, All, All-In, IsFree, lookup, lookup-insert, same_refl, Bool-cases,
}
use nimo_os_gateway.Gateway.{Headers, Request}
use nimo_os_gateway.Static.{index_re, cache_control, no_cache, page_headers}
use nimo_os_gateway.Static.Expressions.{match_string, match_string_iff, Splits}

-- The names of index pages of a module, as the start of what follows its directory.
abbrev pub index_names : List Text
index_names =
    codes "index.html"
    ∷ codes "index.htm"
    ∷ codes "index.aspx"
    ∷ codes "index.asp"
    ∷ codes "index.cgi"
    ∷ codes "index.do"
    ∷ codes "index.jsp"
    ∷ codes "default.php"
    ∷ codes "index.php"
    ∷ codes "home.php"
    ∷ []

abbrev slash_text : Text
slash_text = codes "/"

abbrev modules_text : Text
modules_text = codes "/modules/"

-- Below the directory of a module.
abbrev pub module_page : Text → Text → Text → Text
module_page module_name name rest = modules_text ++ (module_name ++ (slash_text ++ (name ++ rest)))

-- A path that ends in a slash, or has the index page of a module somewhere.
abbrev pub IsIndexPath : Text → Type 0
IsIndexPath path =
    ((before : Text) × (path ≡ before ++ slash_text))
    ⊎ ((before module_name name rest : Text) × IsFree b'/' module_name
        × In name index_names
        × (path ≡ before ++ module_page module_name name rest))

-- The last part of the expression, as it stands in it.
abbrev Extension : Text → Text → Type 0
Extension f rest =
    ((g : Text) × (f ≡ codes "htm" ++ g) × ((g ≡ codes "l" ++ rest) ⊎ (g ≡ rest)))
    ⊎ (((g : Text) × (f ≡ codes "asp" ++ g) × ((g ≡ codes "x" ++ rest) ⊎ (g ≡ rest)))
        ⊎ ((f ≡ codes "cgi" ++ rest) ⊎ ((f ≡ codes "do" ++ rest) ⊎ (f ≡ codes "jsp" ++ rest))))

abbrev Page : Text → Text → Type 0
Page d rest =
    ((f : Text) × (d ≡ codes "index." ++ f) × Extension f rest)
    ⊎ ((f : Text) × ((d ≡ codes "default" ++ f)
          ⊎ ((d ≡ codes "index" ++ f) ⊎ (d ≡ codes "home" ++ f)))
        × (f ≡ codes ".php" ++ rest))

-- A name of the list, followed by a rest.
abbrev Named : Text → Text → Type 0
Named d rest = (name : Text) × In name index_names × (d ≡ name ++ rest)

Extension-Named : (d f rest : Text) → d ≡ codes "index." ++ f → Extension f rest → Named d rest
Extension-Named d f rest e (inl (g, e', inl e'')) =
    (codes "index.html", inl refl, rw (e, e', e'') refl)
Extension-Named d f rest e (inl (g, e', inr e'')) =
    (codes "index.htm", inr (inl refl), rw (e, e', e'') refl)
Extension-Named d f rest e (inr (inl (g, e', inl e''))) =
    (codes "index.aspx", inr (inr (inl refl)), rw (e, e', e'') refl)
Extension-Named d f rest e (inr (inl (g, e', inr e''))) =
    (codes "index.asp", inr (inr (inr (inl refl))), rw (e, e', e'') refl)
Extension-Named d f rest e (inr (inr (inl e'))) =
    (codes "index.cgi", inr (inr (inr (inr (inl refl)))), rw (e, e') refl)
Extension-Named d f rest e (inr (inr (inr (inl e')))) =
    (codes "index.do", inr (inr (inr (inr (inr (inl refl))))), rw (e, e') refl)
Extension-Named d f rest e (inr (inr (inr (inr e')))) =
    (codes "index.jsp", inr (inr (inr (inr (inr (inr (inl refl)))))), rw (e, e') refl)

Page-Named : (d rest : Text) → Page d rest → Named d rest
Page-Named d rest (inl (f, e, x)) = Extension-Named d f rest e x
Page-Named d rest (inr (f, inl e, e')) =
    (codes "default.php", inr (inr (inr (inr (inr (inr (inr (inl refl))))))), rw (e, e') refl)
Page-Named d rest (inr (f, inr (inl e), e')) =
    (codes "index.php", inr (inr (inr (inr (inr (inr (inr (inr (inl refl)))))))), rw (e, e') refl)
Page-Named d rest (inr (f, inr (inr e), e')) = (
  codes "home.php",
  inr (inr (inr (inr (inr (inr (inr (inr (inr (inl refl))))))))),
  rw (e, e') refl,
)

-- Each name of the list is one that the expression takes.
names-Page : (rest : Text) → All (λ name. Page (name ++ rest) rest) index_names
names-Page rest = (
  inl (_, refl, inl (_, refl, inl refl)),
  (
    inl (_, refl, inl (_, refl, inr refl)),
    (
      inl (_, refl, inr (inl (_, refl, inl refl))),
      (
        inl (_, refl, inr (inl (_, refl, inr refl))),
        (
          inl (_, refl, inr (inr (inl refl))),
          (
            inl (_, refl, inr (inr (inr (inl refl)))),
            (
              inl (_, refl, inr (inr (inr (inr refl)))),
              (
                inr (_, inl refl, refl),
                (inr (_, inr (inl refl), refl), (inr (_, inr (inr refl), refl), tt)),
              ),
            ),
          ),
        ),
      ),
    ),
  ),
)

index_re_sound : (before mid rest : Text) → Splits index_re mid rest → IsIndexPath (before ++ mid)
unfolding index_re
index_re_sound before mid rest (a, e, inl (empty, _)) = inl (before, rw (e, empty) refl)
index_re_sound before mid rest (a, e, inr (b, eb, (c, (m, free, em), (d, ec, inl (empty, _))))) =
    inl (
      before ++ (modules_text ++ m),
      rw (e, eb, em, ec, empty) (sym (append_assoc before (modules_text ++ m) slash_text)),
    )
index_re_sound before mid rest (a, e, inr (b, eb, (c, (m, free, em), (d, ec, inr page)))) =
    let (name, listed, ed) = Page-Named d rest page in
    inr (before, m, name, rest, free, listed, rw (e, eb, em, ec, ed) refl)

index_re_complete :
    (path : Text)
    → IsIndexPath path
    → (before mid rest : Text) × (path ≡ before ++ mid) × Splits index_re mid rest
unfolding index_re
index_re_complete path (inl (before, e)) = (before, slash_text, [], e, ([], refl, inl (refl, refl)))
index_re_complete path (inr (before, m, name, rest, free, listed, e)) =
    let page = All-In (λ n. Page (n ++ rest) rest) index_names (names-Page rest) name listed in
    (
      before,
      module_page m name rest,
      rest,
      e,
      (
        _,
        refl,
        inr (
          _,
          refl,
          (slash_text ++ (name ++ rest), (m, free, refl), (name ++ rest, refl, inr page)),
        ),
      ),
    )

module _ (r : Request) (h : Headers) (fresh : lookup cache_control h ≡ none) where
  -- A response forbids caching exactly for a path that ends in a slash, or that has the index page
  -- of a module somewhere.
  pub page_headers_iff :
      (lookup cache_control (page_headers r h) ≡ some (no_cache ∷ [])) ↔ IsIndexPath r.path
  unfolding page_headers
  page_headers_iff = elim (Bool-cases (match_string index_re r.path)) [
    | inl hit ↦ (
      λ _.
          let (before, mid, rest, e, splits) = (match_string_iff index_re r.path).0 hit in
          subst IsIndexPath (sym e) (index_re_sound before mid rest splits),
      λ _. rw hit (rw (lookup-insert cache_control cache_control, same_refl) refl),
    )
    | inr miss ↦ (
      λ same. absurd (cc (rw miss at same)),
      λ page.
          absurd (cc (miss, (match_string_iff index_re r.path).1 (index_re_complete r.path page))),
    )
  ]
