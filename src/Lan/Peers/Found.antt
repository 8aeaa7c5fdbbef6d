-- ===== src/Lan/Peers/Found.antt =====
-- What holds of each device that a scan returns.
use nimo_os_gateway.Base.{◌≡◌, Bool, true, false, List, Text, ok}
use nimo_os_gateway.Lan.{Interface, Targets, enumerate_scan_targets}
use nimo_os_gateway.Lan.Own.{IsOwn}
use nimo_os_gateway.Lan.Scope.{IsLocal}
use nimo_os_gateway.Lan.Peers.{LanDevice, Network, scan_lan}

module _ (net : Network) (alive : Text → Bool) (is : List Interface) where
  abbrev targets : Targets
  targets = enumerate_scan_targets (ok is)

  -- A device at an address of a local subnet, which is marked as this machine only if the address is
  -- one of its own, and always then if the scan was not truncated.
  pub record IsFound (d : LanDevice) : Type 0 where
    pub local : IsLocal is d.ip
    pub own : d.self ≡ true → IsOwn is d.ip
    pub known : (scan_lan net alive (ok is)).truncated ≡ false → IsOwn is d.ip → d.self ≡ true
