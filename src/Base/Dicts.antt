-- ===== src/Base/Dicts.antt =====
-- Go maps with text keys, as association lists. A write replaces the entry of its key, and a new
-- key goes to the end; nothing that is proved of the program depends on this order.
use mathlib.Core.Path.{◌≡◌, refl}
use mathlib.Core.Logic.{◌↔◌, ◌⊎◌, ◌≢◌}
use mathlib.Core.Option.{Option, none, some}
use mathlib.Core.List.{List, [], ◌∷◌}
use native.Mathlib.Omega.{arith}
use nimo_os_gateway.Base.Tests.{if◌then◌else◌}
use nimo_os_gateway.Base.Lists.{In}
use nimo_os_gateway.Base.Texts.{Text, same, same_iff}

abbrev pub Dict : Type 0 → Type 0
Dict V = List (Text × V)

module _ {V : Type 0} where
  -- `m[k]` with its second result
  unfoldable pub lookup : Text → Dict V → Option V
  lookup k [] = none
  lookup k ((j, v) ∷ m) = if same j k then some v else lookup k m

  -- `m[k] = v`
  unfoldable pub insert : Text → V → Dict V → Dict V
  insert k v [] = (k, v) ∷ []
  insert k v ((j, w) ∷ m) = if same j k then (k, v) ∷ m else (j, w) ∷ insert k v m

  -- `for k := range m`
  unfoldable pub keys : Dict V → List Text
  keys [] = []
  keys ((k, v) ∷ m) = k ∷ keys m

  pub lookup-insert :
      (k j : Text) (v : V) (m : Dict V)
      → lookup j (insert k v m) ≡ (if same k j then some v else lookup j m)
  unfolding lookup insert
  lookup-insert k j v [] = refl
  lookup-insert k j v ((i, w) ∷ m) =
      ground (arith, same_iff k j, same_iff i k, same_iff i j, lookup-insert k j v m)

  -- A key is listed exactly when it has a value.
  pub keys-lookup : (k : Text) (m : Dict V) → In k (keys m) ↔ (lookup k m ≢ none)
  unfolding lookup keys
  keys-lookup k [] = (λ h. absurd h, λ h. h refl)
  keys-lookup k ((j, v) ∷ m) = ground (arith, same_iff j k, keys-lookup k m)

  pub keys-insert :
      (k j : Text) (v : V) (m : Dict V) → In j (keys (insert k v m)) ↔ ((j ≡ k) ⊎ In j (keys m))
  keys-insert k j v m =
      ground
        (arith, keys-lookup j (insert k v m), keys-lookup j m, lookup-insert k j v m, same_iff k j)

  -- `delete(m, k)`
  unfoldable pub remove : Text → Dict V → Dict V
  remove k [] = []
  remove k ((j, v) ∷ m) = if same j k then remove k m else (j, v) ∷ remove k m

  pub lookup-remove :
      (k j : Text) (m : Dict V) → lookup j (remove k m) ≡ (if same k j then none else lookup j m)
  unfolding lookup remove
  lookup-remove k j [] = ground arith
  lookup-remove k j ((i, w) ∷ m) =
      ground (arith, same_iff k j, same_iff i k, same_iff i j, lookup-remove k j m)

  -- Each key stands once, as in a Go map.
  abbrev pub IsMap : Dict V → Type 0
  IsMap [] = Unit
  IsMap ((k, v) ∷ m) = (lookup k m ≡ none) × IsMap m

  pub insert-IsMap : (k : Text) (v : V) (m : Dict V) → IsMap m → IsMap (insert k v m)
  unfolding lookup insert
  insert-IsMap k v [] h = (refl, tt)
  insert-IsMap k v ((j, w) ∷ m) h =
      ground (arith, same_iff j k, insert-IsMap k v m h.1, lookup-insert k j v m, same_iff k j)
