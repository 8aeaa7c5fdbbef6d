-- ===== src/Startup/Run/Port.antt =====
-- The hook of the gateway: the port, and what it leaves alone.
use nimo_os_gateway.Base.{
  ◌≡◌, ◌≢◌, refl, sym, ◌∙◌, inl, inr, Option, none, some, [], Text, Error, Act, and_then,
  and_then-ok, ◌>>◌, same, same-false_iff, Bool-cases, arith,
}
use nimo_os_gateway.State.{ConfigHook, set_gateway_port}
use nimo_os_gateway.State.Setters.{set_gateway_port-ok, set_gateway_port-verdict}
use nimo_os_gateway.Management.{Surroundings}
use nimo_os_gateway.Api.{Process}
use nimo_os_gateway.Startup.{pick_port}
use nimo_os_gateway.Startup.Ports.{pick_port-ne-nil}
use nimo_os_gateway.Startup.Run.{
  Machine, take_port, add_reload, reload_now, choose_port, start_gateway,
}

module _ {env : Surroundings} {W : Type 0} where
  and_then-table :
      (r : Option Error × Process env W) (k : Act (Process env W))
      → ((q : Process env W) → (k q).1.table ≡ q.table)
      → (and_then r k).1.table ≡ r.1.table
  and_then-table (none, p) k h = h p
  and_then-table (some e, p) k h = refl

  module _ (m : Machine W) (reload : ConfigHook W) where
    choose_port-table : (p : Process env W) → (choose_port m reload p).1.table ≡ p.table
    unfolding choose_port
    choose_port-table p = ground arith

    pub start_gateway-table : (p : Process env W) → (start_gateway m reload p).1.table ≡ p.table
    unfolding start_gateway
    start_gateway-table p =
        and_then-table (choose_port m reload p) (add_reload m reload >> reload_now m reload)
          (λ q. refl)
        ∙ choose_port-table p

    take_port-port :
        (port : Text) (p : Process env W)
        → port ≢ []
        → (take_port m reload port p).0 ≡ none
        → (take_port m reload port p).1.state.settings.gateway_port ≡ port
    take_port-port port p ne h =
        let given = (same-false_iff port []).1 ne in
        let quiet : (set_gateway_port port p.state p.world).0 ≡ none = rw given at h in
        rw given (
          rw
            (set_gateway_port-ok port p.state p.world
              (sym (set_gateway_port-verdict port p.state p.world) ∙ quiet))
            refl)

    choose_port-ne-nil :
        (p : Process env W)
        → (choose_port m reload p).0 ≡ none
        → (choose_port m reload p).1.state.settings.gateway_port ≢ []
    unfolding choose_port
    choose_port-ne-nil p h = elim (Bool-cases (same p.state.settings.gateway_port [])) [
      | inl empty ↦
          let port = pick_port (m.is_free p.world) in
          let taken =
            take_port-port port p (pick_port-ne-nil (m.is_free p.world))
              (rw (empty, choose_port) at h) in
          rw empty (rw taken (pick_port-ne-nil (m.is_free p.world)))
      | inr given ↦ rw given ((same-false_iff p.state.settings.gateway_port []).0 given)
    ]

    -- After the hook of the gateway has returned nil the gateway has a port.
    pub start_gateway-ne-nil :
        (p : Process env W)
        → (start_gateway m reload p).0 ≡ none
        → (start_gateway m reload p).1.state.settings.gateway_port ≢ []
    unfolding start_gateway
    start_gateway-ne-nil p h =
        let (quiet, rest) =
          and_then-ok (choose_port m reload p) (add_reload m reload >> reload_now m reload) h in
        rw rest (choose_port-ne-nil p quiet)
