-- ===== src/Startup/Ready.antt =====
-- main.go: how the goroutine that tells systemd waits for the two services. The channels have no
-- buffer: a send ends when it is received. The first hook that fails ends the program.
pub mod Notified
mod Tests
use nimo_os_gateway.Base.{ℕ, suc, ◌+◌, ◌≡◌, Option, none, some, Error, Act}

-- Where `Start` stands: in one of the three hooks, in a send, in the call of `Serve`, or at the end
-- of the program.
pub data Starter : Type 0 where
  management_hook management_ready gateway_hook gateway_ready static_hook serving ended : Starter

-- Where the goroutine stands that waits for both services.
pub data Notifier : Type 0 where
  wants_management wants_gateway notifying notified : Notifier

pub record System (S : Type 0) : Type 0 where
  pub starter : Starter
  pub notifier : Notifier
  pub process : S

-- Which of the two goes on.
pub data Turn : Type 0 where
  start_turn notify_turn : Turn

module _ {S : Type 0} where
  abbrev pub boot : S → System S
  boot p = record { starter = management_hook; notifier = wants_management; process = p }

  abbrev pub after_hook : Starter → Notifier → Option Error × S → System S
  after_hook next n (none, p) = record { starter = next; notifier = n; process = p }
  after_hook next n (some e, p) = record { starter = ended; notifier = n; process = p }

module _ {S : Type 0} (management gateway static : Act S) where
  -- One step of the goroutine whose turn it is; `none` if it has to wait or has nothing left to do.
  -- The two meet at a channel in the turn of the sender.
  abbrev pub step : Turn → Starter → Notifier → S → Option (System S)
  step start_turn management_hook n p = some (after_hook management_ready n (management p))
  step start_turn management_ready wants_management p =
      some (record { starter = gateway_hook; notifier = wants_gateway; process = p })
  step start_turn gateway_hook n p = some (after_hook gateway_ready n (gateway p))
  step start_turn gateway_ready wants_gateway p =
      some (record { starter = static_hook; notifier = notifying; process = p })
  step start_turn static_hook n p = some (after_hook serving n (static p))
  step notify_turn ended n p = none
  step notify_turn s notifying p = some (record { starter = s; notifier = notified; process = p })
  step _ _ _ _ = none

  unfoldable pub advance : Turn → System S → Option (System S)
  advance t x = step t x.starter x.notifier x.process

  -- The systems that `n` steps lead to, in any order of the turns.
  pub data Runs (x : System S) : ℕ → System S → Type 0 where
    here : Runs x 0 x
    next :
        {n : ℕ} {y z : System S} (t : Turn) → Runs x n y → advance t y ≡ some z → Runs x (suc n) z
