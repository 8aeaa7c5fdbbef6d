-- ===== src/Startup/Ready/Tests.antt =====
-- A run of the two goroutines in which systemd is told before the static files are served.
use nimo_os_gateway.Base.{◌≤◌, ◌≡◌, ◌⊎◌, refl, none, List, [], ◌∷◌, Text, codes, Act}
use nimo_os_gateway.Startup.Ready.{
  serving, notified, System, start_turn, notify_turn, boot, advance, Runs, here, next,
}
use nimo_os_gateway.Startup.Ready.Notified.{CanGo, Runs-notified, Runs-eventually}

abbrev noted : Text → Act (List Text)
noted name w = (none, name ∷ w)

abbrev management : Act (List Text)
management = noted (codes "management")

abbrev gateway : Act (List Text)
gateway = noted (codes "gateway")

abbrev static : Act (List Text)
static = noted (codes "static")

abbrev told : System (List Text)
told = record {
  starter = serving;
  notifier = notified;
  process = codes "static" ∷ codes "gateway" ∷ codes "management" ∷ [];
}

six_steps : Runs management gateway static (boot []) 6 told
unfolding advance
six_steps =
    next start_turn
      (next notify_turn
        (next start_turn (next start_turn (next start_turn (next start_turn here refl) refl) refl)
          refl)
        refl)
      refl

Runs-notified_example : (q r : List Text) × (management [] ≡ (none, q)) × (gateway q ≡ (none, r))
Runs-notified_example = Runs-notified management gateway static [] 6 told six_steps refl

Runs-eventually_example :
    (6 ≤ 6)
    × (CanGo management gateway static [] told
        ⊎ ((told.notifier ≡ notified) × (told.starter ≡ serving)))
Runs-eventually_example = Runs-eventually management gateway static [] 6 told refl six_steps
