-- ===== src/Lan/Peers/Tests.antt =====
-- A scan of a network with two addresses and one gateway.
use nimo_os_gateway.Base.{
  ℕ, ◌+◌, ◌-◌, ◌*◌, ◌^◌, ◌≡◌, refl, inl, inr, Bool, true, false, Option, none, some, List, [], ◌∷◌,
  ◌++◌, Text, codes, same, ok, All, decimal, has_prefix, arith, if◌then◌else◌,
}
use nimo_os_gateway.Gateway.{pong}
use nimo_os_gateway.Management.Order.{SameMembers}
use nimo_os_gateway.Lan.{
  ip_string, ipv4_net, Interface, enumerate_scan_targets, listed, subnet_hosts,
}
use nimo_os_gateway.Lan.Peers.{
  Network, scan_lan, scan_hosts, sort_devices, found_devices, scan_host, probe_peer, ip_less,
}
use nimo_os_gateway.Lan.Peers.Orders.{IsAddress, scan_lan-any_order}

-- 192.168.1.10
abbrev here : ℕ
here = 192 * 2 ^ 24 + 168 * 2 ^ 16 + 1 * 2 ^ 8 + 10

abbrev interfaces : List Interface
interfaces =
    record {
      name = codes "eth0";
      is_up = true;
      is_loopback = false;
      addrs = ok (ipv4_net here 30 32 ∷ []);
    }
    ∷ []

abbrev nine : Text
nine = codes "192.168.1.9"

abbrev ten : Text
ten = codes "192.168.1.10"

abbrev parse_two : Text → Option ℕ
parse_two t = if same t nine then some (here - 1) else if same t ten then some here else none

-- Both answer to `/ping` as a gateway does, and neither tells its name.
abbrev pub both_answer : Network
both_answer = record {
  get = λ url. ok (record { status = 200; body = ok pong });
  decode_info = λ body. none;
  parse_ip4 = parse_two;
}

abbrev always : Text → Bool
always h = true

scanned : (enumerate_scan_targets (ok interfaces)).hosts ≡ nine ∷ ten ∷ []
unfolding enumerate_scan_targets subnet_hosts ip_string decimal has_prefix same
scanned = refl

two_devices :
    (scan_lan both_answer always (ok interfaces)).devices
    ≡ record { ip = nine; hostname = []; version = []; self = false }
      ∷ record { ip = ten; hostname = []; version = []; self = true }
      ∷ []
unfolding scan_lan scan_hosts enumerate_scan_targets subnet_hosts ip_string decimal has_prefix same
    sort_devices found_devices scan_host probe_peer ip_less listed
two_devices = refl

swapped-SameMembers : SameMembers (enumerate_scan_targets (ok interfaces)).hosts (ten ∷ nine ∷ [])
swapped-SameMembers k = rw scanned (ground arith)

read_back : All (IsAddress both_answer) (enumerate_scan_targets (ok interfaces)).hosts
unfolding ip_string decimal same
read_back = rw scanned ((here - 1, refl, refl), ((here, refl, refl), tt))

scan_lan-any_order_example :
    (scan_lan both_answer always (ok interfaces)).devices
    ≡ scan_hosts both_answer
        (enumerate_scan_targets (ok interfaces)).self_ips
        (λ ip. codes "http://" ++ ip)
        always
        (ten ∷ nine ∷ [])
scan_lan-any_order_example =
    scan_lan-any_order both_answer always interfaces (ten ∷ nine ∷ []) swapped-SameMembers
      ((λ m. elim m [ inl e ↦ cc e | inr f ↦ f ]), ((λ m. m), tt)) read_back
