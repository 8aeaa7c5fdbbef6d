-- ===== src/Lan/Peers.antt =====
-- service/lan_discovery.go: how a peer is recognised, and the list of devices that a scan returns.
-- The network, JSON and `net.ParseIP` are parameters.
pub mod Sorting
pub mod Orders
pub mod Found
pub mod Tests
use nimo_os_gateway.Base.{
  ℕ, ◌<◌, ◌^◌, ◌≡◌, Bool, true, false, not, ◌||◌, Option, none, some, List, [], ◌∷◌, ◌++◌, map,
  Text, codes, same, Result, ok, err, take, ltb, ◌==◌, if◌then◌else◌,
}
use nimo_os_gateway.Gateway.{pong, ping_path}
use nimo_os_gateway.Lan.{ip_string, listed, Interface, Targets, enumerate_scan_targets}

pub record LanDevice : Type 0 where
  pub ip : Text
  pub hostname : Text
  pub version : Text
  pub self : Bool

pub record LanDiscoveryResult : Type 0 where
  pub devices : List LanDevice
  pub truncated : Bool

pub record DeviceInfo : Type 0 where
  pub os : Text
  pub hostname : Text
  pub version : Text

-- A response, with what reading its body gives.
pub record Answer : Type 0 where
  pub status : ℕ
  pub body : Result Text

pub record Network : Type 0 where
  pub get : Text → Result Answer
  pub decode_info : Text → Option DeviceInfo
  pub parse_ip4 : Text → Option ℕ

-- The order of Go's `<` on strings.
unfoldable pub text_less : Text → Text → Bool
text_less s [] = false
text_less [] (d ∷ t) = true
text_less (c ∷ s) (d ∷ t) =
    let rest = text_less s t in if ltb c d then true else if ltb d c then false else rest

module _ (net : Network) where
  open net use {get, decode_info, parse_ip4}

  -- `ipLess`; four bytes compare as the number that they are
  abbrev less_by : Text → Text → Option ℕ → Option ℕ → Bool
  less_by a b (some m) (some n) = ltb m n
  less_by a b none n = text_less a b
  less_by a b (some m) none = text_less a b

  unfoldable pub ip_less : Text → Text → Bool
  unfolding text_less
  ip_less a b = less_by a b (parse_ip4 a) (parse_ip4 b)

  -- Whether the answer to `/ping` is that of a gateway; 256 bytes of it are read.
  abbrev pub reads_pong : Result Text → Bool
  reads_pong (err e) = false
  reads_pong (ok body) = same (take 256 body) pong

  abbrev pub is_fingerprint : Result Answer → Bool
  is_fingerprint (err e) = false
  is_fingerprint (ok a) = if not (a.status == 200) then false else reads_pong a.body

  abbrev with_info : LanDevice → Option DeviceInfo → LanDevice
  with_info dev none = dev
  with_info dev (some info) =
      if same info.os (codes "nimoos")
      then record dev { hostname = info.hostname; version = info.version }
      else dev

  abbrev read_info : LanDevice → Result Text → LanDevice
  read_info dev (err e) = dev
  read_info dev (ok body) = with_info dev (decode_info (take 4096 body))

  abbrev enriched : LanDevice → Result Answer → LanDevice
  enriched dev (err e) = dev
  enriched dev (ok a) = if not (a.status == 200) then dev else read_info dev a.body

  abbrev bare_device : Text → LanDevice
  bare_device ip = record { ip = ip; hostname = []; version = []; self = false }

  -- `probePeer`
  unfoldable pub probe_peer : (base_url ip : Text) → Option LanDevice
  probe_peer base_url ip =
      if is_fingerprint (get (base_url ++ ping_path))
      then some (enriched (bare_device ip) (get (base_url ++ codes "/v1/gateway/device-info")))
      else none

  -- `sort.Slice(devices, ipLess)`, as insertion
  insert_device : LanDevice → List LanDevice → List LanDevice
  unfolding ip_less
  insert_device d [] = d ∷ []
  insert_device d (e ∷ es) = if ip_less d.ip e.ip then d ∷ e ∷ es else e ∷ insert_device d es

  unfoldable pub sort_devices : List LanDevice → List LanDevice
  unfolding insert_device
  sort_devices [] = []
  sort_devices (d ∷ ds) = insert_device d (sort_devices ds)

  module _ (self_ips : List Text) (base_url_for : Text → Text) (alive : Text → Bool) where
    abbrev marked : Text → Option LanDevice → Option LanDevice
    marked h none = none
    marked h (some dev) = some (record dev { self = listed h self_ips })

    -- One goroutine; `alive` tells whether the budget lasts until its turn.
    unfoldable pub scan_host : Text → Option LanDevice
    unfolding probe_peer listed
    scan_host h = if not (alive h) then none else marked h (probe_peer (base_url_for h) h)

    abbrev and_device : Option LanDevice → List LanDevice → List LanDevice
    and_device none rest = rest
    and_device (some dev) rest = dev ∷ rest

    -- The devices, in the order in which the goroutines append them.
    unfoldable pub found_devices : List Text → List LanDevice
    unfolding scan_host
    found_devices [] = []
    found_devices (h ∷ hs) = and_device (scan_host h) (found_devices hs)

    -- `scanHosts`, for the goroutines in the order of the list
    unfoldable pub scan_hosts : List Text → List LanDevice
    unfolding found_devices sort_devices
    scan_hosts hosts = sort_devices (found_devices hosts)

  -- `ScanLAN`
  unfoldable pub scan_lan : (Text → Bool) → Result (List Interface) → LanDiscoveryResult
  unfolding scan_hosts
  scan_lan alive ifaces =
      let t = enumerate_scan_targets ifaces in
      record {
        devices = scan_hosts t.self_ips (λ ip. codes "http://" ++ ip) alive t.hosts;
        truncated = t.truncated;
      }
