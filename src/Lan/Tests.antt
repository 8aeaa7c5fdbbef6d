-- ===== src/Lan/Tests.antt =====
-- Scans of small networks.
use nimo_os_gateway.Base.{
  ℕ, ◌+◌, ◌*◌, ◌^◌, ◌≡◌, refl, true, false, List, [], ◌∷◌, Text, codes, ok, decimal, has_prefix,
  same, arith,
}
use nimo_os_gateway.Lan.{
  Addr, ipv4_net, other, Interface, enumerate_scan_targets, subnet_hosts, ip_string,
}
use nimo_os_gateway.Lan.Subnet.{Scanned, subnet_hosts-IsHostOf}
use nimo_os_gateway.Lan.Scope.{IsScope, IsLocal, enumerate_scan_targets-IsScope}

-- 192.168.1.10
abbrev here : ℕ
here = 192 * 2 ^ 24 + 168 * 2 ^ 16 + 1 * 2 ^ 8 + 10

abbrev interface_named : Text → List Addr → Interface
interface_named name addrs = record {
  name = name;
  is_up = true;
  is_loopback = false;
  addrs = ok addrs;
}

abbrev interfaces : List Interface
interfaces =
    interface_named (codes "docker0") (ipv4_net (here + 256) 30 32 ∷ [])
    ∷ interface_named (codes "eth0") (other ∷ ipv4_net here 30 32 ∷ [])
    ∷ []

small_scan : enumerate_scan_targets (ok interfaces) ≡ record {
  hosts = codes "192.168.1.9" ∷ codes "192.168.1.10" ∷ [];
  self_ips = codes "192.168.1.10" ∷ [];
  truncated = false;
}
unfolding enumerate_scan_targets subnet_hosts ip_string decimal has_prefix same
small_scan = refl

enumerate_scan_targets-IsScope_example :
    IsScope (IsLocal interfaces) (enumerate_scan_targets (ok interfaces))
enumerate_scan_targets-IsScope_example = enumerate_scan_targets-IsScope interfaces

-- A mask of 16 ones: the /24 of the own address is scanned.
subnet_hosts-IsHostOf_example : Scanned here 16 (subnet_hosts here 16 32)
subnet_hosts-IsHostOf_example = subnet_hosts-IsHostOf here 16 32 (omega arith)
