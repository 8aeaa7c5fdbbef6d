-- ===== src/Startup/Ports.antt =====
-- Which port the gateway takes when none is configured.
use nimo_os_gateway.Base.{
  ℕ, ◌≡◌, ◌≢◌, refl, ◌∙◌, ◌⊎◌, inr, Bool, true, false, List, [], ◌∷◌, ◌++◌, Text, decimal,
  decimal-ne-nil, All, In, arith, if◌then◌else◌,
}
use nimo_os_gateway.Startup.{probe_ports, pick_port, ports_to_check, ports_from}

last_port : ℕ → List ℕ → ℕ
last_port d [] = d
last_port d (p ∷ ps) = last_port p ps

-- The first free port, or the last of the list when none is free.
first_free : (ℕ → Bool) → ℕ → List ℕ → ℕ
first_free free d [] = d
first_free free d (p ∷ ps) = let rest = first_free free p ps in if free p then p else rest

probe_ports-first_free :
    (free : ℕ → Bool) (d : ℕ) (ps : List ℕ)
    → probe_ports free (decimal d) ps ≡ decimal (first_free free d ps)
unfolding probe_ports first_free
probe_ports-first_free free d [] = refl
probe_ports-first_free free d (p ∷ ps) = ground (arith, probe_ports-first_free free p ps)

-- What the search promises of its result.
abbrev pub IsChoice : (ℕ → Bool) → List ℕ → ℕ → ℕ → Type 0
IsChoice free ps last p = ((free p ≡ true) × In p ps) ⊎ ((p ≡ last) × All (λ q. free q ≡ false) ps)

first_free-IsChoice :
    (free : ℕ → Bool) (d : ℕ) (ps : List ℕ)
    → IsChoice free ps (last_port d ps) (first_free free d ps)
unfolding first_free last_port
first_free-IsChoice free d [] = inr (refl, tt)
first_free-IsChoice free d (p ∷ ps) = ground (arith, first_free-IsChoice free p ps)

probe_ports_start :
    (free : ℕ → Bool) (port port' : Text) (p : ℕ) (ps : List ℕ)
    → probe_ports free port (p ∷ ps) ≡ probe_ports free port' (p ∷ ps)
unfolding probe_ports
probe_ports_start free port port' p ps = refl

pick_port-first_free :
    (free : ℕ → Bool) → pick_port free ≡ decimal (first_free free 0 ports_to_check)
unfolding pick_port
pick_port-first_free free =
    probe_ports_start free [] (decimal 0) 80 (ports_from 9 81 ++ ports_from 10 8080)
    ∙ probe_ports-first_free free 0 ports_to_check

pub pick_port-ne-nil : (free : ℕ → Bool) → pick_port free ≢ []
pick_port-ne-nil free =
    rw (pick_port-first_free free) (decimal-ne-nil (first_free free 0 ports_to_check))

-- The gateway always gets a port: a free one of the list, or 8089 when none is free. The text is
-- never empty.
pub pick_port-IsChoice :
    (free : ℕ → Bool)
    → (p : ℕ) × (pick_port free ≡ decimal p)
      × IsChoice free ports_to_check 8089 p
      × (pick_port free ≢ [])
unfolding last_port
pick_port-IsChoice free = (
  first_free free 0 ports_to_check,
  pick_port-first_free free,
  first_free-IsChoice free 0 ports_to_check,
  pick_port-ne-nil free,
)
