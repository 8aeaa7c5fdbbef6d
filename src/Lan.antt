-- ===== src/Lan.antt =====
-- service/lan_discovery.go: which addresses are scanned, how a peer is recognised, and the list of
-- the devices that is returned. An IPv4 address is its uint32 value.
pub mod Subnet
pub mod Scope
pub mod Own
pub mod Peers
mod Tests
use mathlib.Core.Option
use nimo_os_gateway.Base.{
  ℕ, zero, suc, ◌+◌, ◌-◌, ◌*◌, ◌/◌, ◌%◌, ◌^◌, Bool, true, false, not, ◌&&◌, ◌||◌, Option, none,
  some, List, [], ◌∷◌, ◌++◌, Text, codes, same, has_prefix, decimal, Result, ok, err, Error, leb,
  ltb, ◌==◌, length, if◌then◌else◌, take,
}

abbrev pub scan_address_cap : ℕ
scan_address_cap = 1024

abbrev pub virtual_iface_prefixes : List Text
virtual_iface_prefixes =
    codes "docker"
    ∷ codes "veth"
    ∷ codes "br-"
    ∷ codes "virbr"
    ∷ codes "tun"
    ∷ codes "tap"
    ∷ codes "lo"
    ∷ codes "cni"
    ∷ codes "flannel"
    ∷ []

any_prefix : Text → List Text → Bool
any_prefix name [] = false
any_prefix name (p ∷ ps) = if has_prefix name p then true else any_prefix name ps

-- `isVirtualInterface`
unfoldable pub is_virtual_interface : Text → Bool
unfolding any_prefix has_prefix
is_virtual_interface name = any_prefix name virtual_iface_prefixes

-- `net.IP.String` of an IPv4 address
unfoldable pub ip_string : ℕ → Text
unfolding decimal
ip_string ip =
    decimal (ip / 2 ^ 24)
    ++ b'.'
      ∷ (decimal (ip / 2 ^ 16 % 256)
          ++ b'.' ∷ (decimal (ip / 2 ^ 8 % 256) ++ b'.' ∷ decimal (ip % 256)))

-- 169.254.0.0/16
unfoldable pub is_link_local : ℕ → Bool
is_link_local ip = ip / 2 ^ 16 == 169 * 256 + 254

-- `net.IPNet` for an IPv4 address, with the size of its mask, or another address of an interface.
pub data Addr : Type 0 where
  ipv4_net : (ip ones bits : ℕ) → Addr
  other : Addr

-- `for i := uint32(1); i < total-1; i++`, with `n` rounds left
unfoldable pub host_range : (base i n : ℕ) → List ℕ
host_range base i zero = []
host_range base i (suc n) = (base + i) % 2 ^ 32 ∷ host_range base (i + 1) n

abbrev pub narrowed : ℕ → ℕ
narrowed ones = if ltb ones 24 then 24 else ones

-- `uint32(1) << (32 - ones)` and `ip & mask`
abbrev pub block_size : ℕ → ℕ
block_size ones = 2 ^ (32 - ones)

abbrev pub block_base : ℕ → ℕ → ℕ
block_base ip ones = ip / block_size ones * block_size ones

-- `subnetHosts`
unfoldable pub subnet_hosts : (ip ones bits : ℕ) → List ℕ
unfolding host_range is_link_local
subnet_hosts ip ones bits =
    if is_link_local ip
    then []
    else if not (bits == 32)
    then []
    else if leb 31 (narrowed ones)
    then []
    else host_range (block_base ip (narrowed ones)) 1 (block_size (narrowed ones) - 2)

-- `net.Interface`
pub record Interface : Type 0 where
  pub name : Text
  pub is_up : Bool
  pub is_loopback : Bool
  pub addrs : Result (List Addr)

-- The variables of the loops of `enumerateScanTargets`; `seen` holds what `hosts` holds.
pub record Targets : Type 0 where
  pub hosts : List Text
  pub self_ips : List Text
  pub truncated : Bool

unfoldable pub listed : Text → List Text → Bool
listed h [] = false
listed h (x ∷ xs) = if same x h then true else listed h xs

abbrev add_host : Text → Targets → Targets
add_host h t = record t { hosts = t.hosts ++ h ∷ [] }

-- The innermost loop: it ends the search when the list is full.
unfoldable pub add_hosts : List ℕ → Targets → Targets
unfolding listed
add_hosts [] t = t
add_hosts (ip ∷ ips) t =
    let skipped = add_hosts ips t in
    let added = add_hosts ips (add_host (ip_string ip) t) in
    if listed (ip_string ip) t.hosts
    then skipped
    else if leb scan_address_cap (length t.hosts)
    then record t { truncated = true }
    else added

abbrev add_self : ℕ → Targets → Targets
add_self ip t = record t { self_ips = ip_string ip ∷ t.self_ips }

add_addr : Addr → Targets → Targets
unfolding add_hosts
add_addr other t = t
add_addr (ipv4_net ip ones bits) t =
    if is_link_local ip then t else add_hosts (subnet_hosts ip ones bits) (add_self ip t)

-- A search that has ended goes no further.
unfoldable pub add_addrs : List Addr → Targets → Targets
unfolding add_addr
add_addrs [] t = t
add_addrs (a ∷ as') t = if t.truncated then t else add_addrs as' (add_addr a t)

abbrev pub is_scanned : Interface → Bool
is_scanned i = i.is_up && not i.is_loopback && not (is_virtual_interface i.name)

abbrev addrs_of : Result (List Addr) → List Addr
addrs_of (ok addrs) = addrs
addrs_of (err e) = []

abbrev add_interface : Interface → Targets → Targets
add_interface i t = if is_scanned i then add_addrs (addrs_of i.addrs) t else t

add_interfaces : List Interface → Targets → Targets
unfolding add_addrs is_virtual_interface
add_interfaces [] t = t
add_interfaces (i ∷ is) t = if t.truncated then t else add_interfaces is (add_interface i t)

abbrev pub no_targets : Targets
no_targets = record { hosts = []; self_ips = []; truncated = false }

-- `enumerateScanTargets`, for the answer of `net.Interfaces`
unfoldable pub enumerate_scan_targets : Result (List Interface) → Targets
unfolding add_interfaces
enumerate_scan_targets (err e) = no_targets
enumerate_scan_targets (ok ifaces) = add_interfaces ifaces no_targets
