-- ===== src/Components/Statuses.antt =====
-- What each row of the answer says.

use nimo_os_gateway.Base.{
  ◌≡◌, ◌≢◌, refl, ◌⊎◌, inl, inr, false, List, [], ◌∷◌, ◌++◌, map, Text, Result, ok, err, All,
  All-append, arith, ℕ, ◌<◌, length, In, same, Bool-cases, trim_right,
}
use nimo_os_gateway.Paths.{slash}
use nimo_os_gateway.State.{Settings}
use nimo_os_gateway.Management.{Management}
use nimo_os_gateway.Management.Lookup.{AtLongest, resolve_target-AtLongest}
use nimo_os_gateway.Components.{
  ComponentStatus, ComponentSpec, Category, external, ui, online, offline, Moment,
  component_manifest, probe_component, probe_ui, probe_external, get_components, rated, row,
  is_online, base_of, probe_version, Response, found_base,
}
use nimo_os_gateway.Components.Orders.{get_components-map}

-- A row is online without an error, or offline without a version.
abbrev pub IsRated : ComponentStatus → Type 0
IsRated cs = ((cs.status ≡ online) × (cs.error ≡ [])) ⊎ ((cs.status ≡ offline) × (cs.version ≡ []))

module _ (m : Moment) where
  rated-IsRated :
      (name : Text) (k : Category) (r : Result Text) → IsRated (rated m (row m name k) r)
  rated-IsRated name k (ok v) = inl (refl, refl)
  rated-IsRated name k (err e) = inr (refl, refl)

  module _ {Url : Type 0} (g : Management Url) (c : Settings) where
    probe_component-IsRated : (spec : ComponentSpec) → IsRated (probe_component m g c spec)
    unfolding probe_component
    probe_component-IsRated spec = elim (Bool-cases spec.local) [
      | inl here ↦ rw here (inl (refl, refl))
      | inr away ↦ rw away (rated-IsRated spec.name spec.category _)
    ]

    All-map : (specs : List ComponentSpec) → All IsRated (map (probe_component m g c) specs)
    All-map [] = tt
    All-map (spec ∷ specs) = (probe_component-IsRated spec, All-map specs)

    others-IsRated : All IsRated (probe_ui m g c ∷ probe_external m g c)
    unfolding probe_ui probe_external
    others-IsRated = (
      rated-IsRated _ ui _,
      (
        rated-IsRated _ external _,
        (
          rated-IsRated _ external _,
          (rated-IsRated _ external _, (rated-IsRated _ external _, tt)),
        ),
      ),
    )

    -- Whatever the probes find and in whatever order they end, each row of the answer is online
    -- without an error or offline without a version; none is left unset.
    pub get_components-IsRated :
        (order : List ℕ)
        → ((j : ℕ) → j < length component_manifest → In j order)
        → All IsRated (get_components m g c order)
    get_components-IsRated order all = rw (get_components-map m g c order all) (
        All-append IsRated (map (probe_component m g c) component_manifest) _
          (All-map component_manifest) others-IsRated)

    found_base-ok : (e base : Text) → base ≢ [] → found_base m e base ≡ ok base
    found_base-ok e [] h = absurd (h refl)
    found_base-ok e (x ∷ base) h = refl

    probe_version-ok :
        (url : Text) (r : Response) (v : Text)
        → m.get url ≡ ok r
        → r.status ≡ 200
        → m.version_of r.body ≡ ok v
        → probe_version m url ≡ ok v
    unfolding probe_version
    probe_version-ok url r v e s d = ground arith

    base_of-registered :
        (spec : ComponentSpec) (target : Text)
        → spec.url_file ≡ []
        → AtLongest g.path_target_map spec.version_path target
        → target ≢ []
        → base_of m g c spec ≡ ok target
    unfolding base_of same
    base_of-registered spec target no_file l ne =
        rw (no_file, resolve_target-AtLongest g spec.version_path target l)
          (found_base-ok _ target ne)

    -- A service that is registered and answers 200 with a version is online with this version; the
    -- probe asks the target of the longest registered prefix of its version path.
    pub probe_component-registered :
        (spec : ComponentSpec) (target v : Text) (r : Response)
        → spec.local ≡ false
        → spec.url_file ≡ []
        → AtLongest g.path_target_map spec.version_path target
        → target ≢ []
        → m.get (trim_right slash target ++ spec.version_path) ≡ ok r
        → r.status ≡ 200
        → m.version_of r.body ≡ ok v
        → probe_component m g c spec ≡ is_online m v (row m spec.name spec.category)
    unfolding probe_component
    probe_component-registered spec target v r away no_file l ne answered good decoded =
        rw
          (
            away,
            base_of-registered spec target no_file l ne,
            probe_version-ok (trim_right slash target ++ spec.version_path) r v answered good
                decoded,
          )
          refl
