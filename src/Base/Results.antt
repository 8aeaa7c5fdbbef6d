-- ===== src/Base/Results.antt =====
-- Go's `error` results. An `error` is `Option Error`, with `none` for nil; an action on a store
-- returns its error and the new store, and what was written before an error stays written.
use mathlib.Core.Path.{◌≡◌, refl}
use mathlib.Core.Logic.{◌⊎◌, inl, inr}
use mathlib.Core.Option.{Option, none, some}
use nimo_os_gateway.Base.Texts.{Text}

abbrev pub Error : Type 0
Error = Text

-- A value and a nil error, or an error alone.
pub data Result {ℓ} (A : Type ℓ) : Type ℓ where
  ok : A → Result A
  err : Error → Result A

abbrev pub Act : Type 0 → Type 0
Act S = S → Option Error × S

module _ {S : Type 0} where
  abbrev pub done : Act S
  done s = (none, s)

  abbrev pub fail : Error → Act S
  fail e s = (some e, s)

  -- `if err := m(); err != nil { return err }; return k()`
  abbrev pub and_then : Option Error × S → Act S → Option Error × S
  and_then (none, s) k = k s
  and_then (some e, s) k = (some e, s)

  infixr 5 ◌>>◌
  abbrev pub ◌>>◌ : Act S → Act S → Act S
  ◌>>◌ m k s = and_then (m s) k

pub Result-cases {ℓ} :
    {A : Type ℓ} (r : Result A) → ((a : A) × (r ≡ ok a)) ⊎ ((e : Error) × (r ≡ err e))
Result-cases (ok a) = inl (a, refl)
Result-cases (err e) = inr (e, refl)

-- The first step of a chain that ended without an error ended without one, and the rest ran.
pub and_then-ok :
    {S : Type 0} (r : Option Error × S) (k : Act S)
    → (and_then r k).0 ≡ none
    → (r.0 ≡ none) × (and_then r k ≡ k r.1)
and_then-ok (none, s) k h = (refl, refl)
and_then-ok (some e, s) k h = absurd (cc)
