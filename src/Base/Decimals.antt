-- ===== src/Base/Decimals.antt =====
-- Decimal notation, as `fmt.Sprintf("%d", n)` and `net.IP.String` write it.
use Prim.Native.Nat.{ℕ, zero, suc, ◌+◌, ◌/◌, ◌%◌}
use mathlib.Core.Path.{◌≡◌, refl}
use mathlib.Core.Logic.{◌≢◌}
use mathlib.Core.List.{[], ◌∷◌}
use native.Mathlib.Omega.{arith}
use nimo_os_gateway.Base.Tests.{ltb, if◌then◌else◌}
use nimo_os_gateway.Base.Texts.{Text, codes}

-- The last digit is written first; `n + 1` rounds are more than a number has digits.
emit : ℕ → ℕ → Text → Text
emit zero n out = out
emit (suc fuel) n out =
    let rest = emit fuel (n / 10) ((b'0' + n % 10) ∷ out) in
    if ltb n 10 then (b'0' + n % 10) ∷ out else rest

unfoldable pub decimal : ℕ → Text
unfolding emit
decimal n = emit (suc n) n []

emit-ne-nil : (fuel n : ℕ) (out : Text) → out ≢ [] → emit fuel n out ≢ []
unfolding emit
emit-ne-nil zero n out h = h
emit-ne-nil (suc fuel) n out h = ground (arith, emit-ne-nil fuel (n / 10) ((b'0' + n % 10) ∷ out))

pub decimal-ne-nil : (n : ℕ) → decimal n ≢ []
unfolding decimal
decimal-ne-nil n = ground (arith, emit-ne-nil n (n / 10) ((b'0' + n % 10) ∷ []))

decimal_sample : decimal 8089 ≡ codes "8089"
unfolding decimal
decimal_sample = refl
