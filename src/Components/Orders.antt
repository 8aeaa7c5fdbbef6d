-- ===== src/Components/Orders.antt =====
-- The list of components does not depend on the order in which the probes end.

use nimo_os_gateway.Base.{
  ℕ, zero, suc, ◌<◌, ◌≡◌, ◌≢◌, refl, sym, ap, ◌∙◌, inl, inr, some, List, [], ◌∷◌, ◌++◌, map, length,
  replicate, set, get_elem?, In, arith, ◌==◌, Option-cases, Bool-cases,
}
use nimo_os_gateway.State.{Settings}
use nimo_os_gateway.Management.{Management}
use nimo_os_gateway.Components.{
  ComponentStatus, ComponentSpec, Moment, zero_status, component_manifest, probe_component,
  probe_ui, probe_external, write_row, write_rows, get_components,
}

some-injective {ℓ} : {A : Type ℓ} {a b : A} → some a ≡ some b → a ≡ b
some-injective e = cc

module _ {A : Type 0} where
  -- Lists of one length that agree at each index are equal.
  list_ext :
      (xs ys : List A)
      → length xs ≡ length ys
      → ((i : ℕ) → i < length xs → get_elem? xs i ≡ get_elem? ys i)
      → xs ≡ ys
  list_ext [] [] e h = refl
  list_ext [] (y ∷ ys) e h = absurd (omega arith)
  list_ext (x ∷ xs) [] e h = absurd (omega arith)
  list_ext (x ∷ xs) (y ∷ ys) e h =
      rw
        (
          some-injective (h zero (omega arith)),
          list_ext xs ys (omega (arith, e)) (λ i lt. h (suc i) (omega arith)),
        )
        refl

  length-set : (xs : List A) (i : ℕ) (v : A) → length (set xs i v) ≡ length xs
  length-set [] i v = refl
  length-set (x ∷ xs) zero v = refl
  length-set (x ∷ xs) (suc i) v = ap suc (length-set xs i v)

  get_elem?-set : (xs : List A) (i : ℕ) (v : A) → i < length xs → get_elem? (set xs i v) i ≡ some v
  get_elem?-set [] i v h = absurd (omega arith)
  get_elem?-set (x ∷ xs) zero v h = refl
  get_elem?-set (x ∷ xs) (suc i) v h = get_elem?-set xs i v (omega arith)

  get_elem?-set_ne :
      (xs : List A) (i j : ℕ) (v : A) → i ≢ j → get_elem? (set xs i v) j ≡ get_elem? xs j
  get_elem?-set_ne [] i j v h = refl
  get_elem?-set_ne (x ∷ xs) zero zero v h = absurd (h refl)
  get_elem?-set_ne (x ∷ xs) zero (suc j) v h = refl
  get_elem?-set_ne (x ∷ xs) (suc i) zero v h = refl
  get_elem?-set_ne (x ∷ xs) (suc i) (suc j) v h = get_elem?-set_ne xs i j v (λ e. h (ap suc e))

  length-replicate : (n : ℕ) (a : A) → length (replicate n a) ≡ n
  length-replicate zero a = refl
  length-replicate (suc n) a = ap suc (length-replicate n a)

  get_elem?-some : (xs : List A) (i : ℕ) → i < length xs → (x : A) × (get_elem? xs i ≡ some x)
  get_elem?-some [] i h = absurd (omega arith)
  get_elem?-some (x ∷ xs) zero h = (x, refl)
  get_elem?-some (x ∷ xs) (suc i) h = get_elem?-some xs i (omega arith)

module _ {A B : Type 0} (f : A → B) where
  length-map : (xs : List A) → length (map f xs) ≡ length xs
  length-map [] = refl
  length-map (x ∷ xs) = ap suc (length-map xs)

  get_elem?-map :
      (xs : List A) (i : ℕ) (x : A) → get_elem? xs i ≡ some x → get_elem? (map f xs) i ≡ some (f x)
  get_elem?-map [] i x e = absurd (cc e)
  get_elem?-map (y ∷ ys) zero x e = ap some (ap f (some-injective e))
  get_elem?-map (y ∷ ys) (suc i) x e = get_elem?-map ys i x e

module _ (m : Moment) {Url : Type 0} (g : Management Url) (c : Settings)
    (specs : List ComponentSpec) where
  abbrev target : List ComponentStatus
  target = map (probe_component m g c) specs

  abbrev write : ℕ → List ComponentStatus → List ComponentStatus
  write i out = write_row m g c i (get_elem? specs i) out

  length-write : (i : ℕ) (out : List ComponentStatus) → length (write i out) ≡ length out
  length-write i out = elim (Option-cases (get_elem? specs i)) [
    | inl nothing ↦ rw nothing refl
    | inr (spec, found) ↦ rw found (length-set out i (probe_component m g c spec))
  ]

  length-write_rows :
      (order : List ℕ) (out : List ComponentStatus)
      → length (write_rows m g c specs order out) ≡ length out
  unfolding write_rows
  length-write_rows [] out = refl
  length-write_rows (i ∷ order) out = length-write_rows order (write i out) ∙ length-write i out

  written :
      (i : ℕ) (out : List ComponentStatus)
      → length out ≡ length specs
      → i < length specs
      → get_elem? (write i out) i ≡ get_elem? target i
  written i out e lt =
      let (spec, found) = get_elem?-some specs i lt in
      rw (found, get_elem?-map (probe_component m g c) specs i spec found)
        (get_elem?-set out i (probe_component m g c spec) (rw e lt))

  -- A row that was written stays as it is: every write of it is the same.
  written_stays :
      (i j : ℕ) (out : List ComponentStatus)
      → length out ≡ length specs
      → j < length specs
      → get_elem? out j ≡ get_elem? target j
      → get_elem? (write i out) j ≡ get_elem? target j
  written_stays i j out e lt h = elim (Bool-cases (i == j)) [
    | inl at ↦
        let same_row : i ≡ j = ground arith in rw (← same_row) (written i out e (rw same_row lt))
    | inr off ↦ elim (Option-cases (get_elem? specs i)) [
      | inl nothing ↦ rw nothing h
      | inr (spec, found) ↦
          rw found (get_elem?-set_ne out i j (probe_component m g c spec) (ground arith) ∙ h)
    ]
  ]

  write_rows-stays :
      (order : List ℕ) (j : ℕ) (out : List ComponentStatus)
      → length out ≡ length specs
      → j < length specs
      → get_elem? out j ≡ get_elem? target j
      → get_elem? (write_rows m g c specs order out) j ≡ get_elem? target j
  unfolding write_rows
  write_rows-stays [] j out e lt h = h
  write_rows-stays (i ∷ order) j out e lt h =
      write_rows-stays order j (write i out) (length-write i out ∙ e) lt
        (written_stays i j out e lt h)

  write_rows-written :
      (order : List ℕ) (j : ℕ) (out : List ComponentStatus)
      → length out ≡ length specs
      → j < length specs
      → In j order
      → get_elem? (write_rows m g c specs order out) j ≡ get_elem? target j
  unfolding write_rows
  write_rows-written [] j out e lt h = absurd h
  write_rows-written (i ∷ order) j out e lt (inl at) =
      write_rows-stays order j (write i out) (length-write i out ∙ e) lt
        (rw at (written i out e (rw at at lt)))
  write_rows-written (i ∷ order) j out e lt (inr later) =
      write_rows-written order j (write i out) (length-write i out ∙ e) lt later

  write_rows-map :
      (order : List ℕ)
      → ((j : ℕ) → j < length specs → In j order)
      → write_rows m g c specs order (replicate (length specs) zero_status) ≡ target
  write_rows-map order all =
      let start = length-replicate (length specs) zero_status in
      let size = length-write_rows order (replicate (length specs) zero_status) ∙ start in
      list_ext _ target (size ∙ sym (length-map (probe_component m g c) specs)) λ j lt.
        let inside = rw size at lt in
        write_rows-written order j (replicate (length specs) zero_status) start inside
          (all j inside)

module _ (m : Moment) {Url : Type 0} (g : Management Url) (c : Settings) where
  -- In whatever order the probes end, and however often one writes its row, the answer is the
  -- status of each component of the manifest in its order, then the UI and the external services.
  pub get_components-map :
      (order : List ℕ)
      → ((j : ℕ) → j < length component_manifest → In j order)
      → get_components m g c order
        ≡ map (probe_component m g c) component_manifest ++ probe_ui m g c ∷ probe_external m g c
  unfolding get_components
  get_components-map order all =
      ap (λ rows. rows ++ probe_ui m g c ∷ probe_external m g c)
        (write_rows-map m g c component_manifest order all)
