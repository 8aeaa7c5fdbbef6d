-- ===== src/Lan/Peers/Orders.antt =====
-- The list of devices does not depend on the order in which the probes end.
use nimo_os_gateway.Base.{
  ℕ, ◌≡◌, ◌≢◌, refl, sym, ap, ◌∙◌, ◌↔◌, inl, inr, Bool, Option, none, some, List, [], ◌∷◌, ◌++◌,
  Text, codes, take, ◌==◌, Result, ok, err, same, All, All-intro, All-In, In, Bool-cases,
  Option-cases,
}
use nimo_os_gateway.Gateway.{ping_path}
use nimo_os_gateway.Management.Order.{SameMembers}
use nimo_os_gateway.Lan.{ip_string, listed, Interface, Targets, enumerate_scan_targets}
use nimo_os_gateway.Lan.Scope.{Distinct, enumerate_scan_targets-IsScope}
use nimo_os_gateway.Lan.Peers.{
  LanDevice, Network, Answer, DeviceInfo, is_fingerprint, with_info, read_info, enriched,
  bare_device, probe_peer, sort_devices, scan_host, marked, found_devices, scan_hosts, scan_lan,
}
use nimo_os_gateway.Lan.Peers.Sorting.{
  number_of, num, HasNumber, Ascending, Apart, AllApart, sort_devices-In, sort_devices-Ascending,
  Ascending-unique,
}

some-injective {ℓ} : {A : Type ℓ} {a b : A} → some a ≡ some b → a ≡ b
some-injective e = cc

-- The text of an IPv4 address, which `net.ParseIP` reads back.
abbrev pub IsAddress : Network → Text → Type 0
IsAddress net h = (x : ℕ) × (h ≡ ip_string x) × (net.parse_ip4 h ≡ some x)

module _ (net : Network) where
  module _ (self_ips : List Text) (base_url_for : Text → Text) (alive : Text → Bool) where
    abbrev scan : Text → Option LanDevice
    scan = scan_host net self_ips base_url_for alive

    abbrev found : List Text → List LanDevice
    found = found_devices net self_ips base_url_for alive

    enriched-ip : (dev : LanDevice) (r : Result Answer) → (enriched net dev r).ip ≡ dev.ip
    enriched-ip dev (err e) = refl
    enriched-ip dev (ok (a)) = elim (Bool-cases (a.status == 200)) [
      | inr bad ↦ rw bad refl
      | inl good ↦ rw good (read_info-ip a.body)
    ]
      where
        with_info-ip : (o : Option DeviceInfo) → (with_info net dev o).ip ≡ dev.ip
        with_info-ip none = refl
        with_info-ip (some info) = elim (Bool-cases (same info.os (codes "nimoos"))) [
          | inl known ↦ rw known refl
          | inr strange ↦ rw strange refl
        ]

        read_info-ip : (b : Result Text) → (read_info net dev b).ip ≡ dev.ip
        read_info-ip (err e) = refl
        read_info-ip (ok body) = with_info-ip (net.decode_info (take 4096 body))

    probe_peer-ip : (base ip : Text) (d : LanDevice) → probe_peer net base ip ≡ some d → d.ip ≡ ip
    unfolding probe_peer
    probe_peer-ip base ip d e =
        elim (Bool-cases (is_fingerprint net (net.get (base ++ ping_path)))) [
          | inl hit ↦
              ap (λ (x : LanDevice). x.ip) (sym (some-injective (rw hit at e)))
              ∙ enriched-ip (bare_device net ip) (net.get (base ++ codes "/v1/gateway/device-info"))
          | inr miss ↦ absurd (cc (rw miss at e))
        ]

    marked-ip :
        (h : Text) (o : Option LanDevice) (d : LanDevice)
        → marked net self_ips base_url_for alive h o ≡ some d
        → (dev : LanDevice) × (o ≡ some dev) × (d.ip ≡ dev.ip)
    marked-ip h none d e = absurd (cc e)
    marked-ip h (some dev) d e = (dev, refl, ap (λ (x : LanDevice). x.ip) (sym (some-injective e)))

    marked-self :
        (h : Text) (o : Option LanDevice) (d : LanDevice)
        → marked net self_ips base_url_for alive h o ≡ some d
        → d.self ≡ listed h self_ips
    marked-self h none d e = absurd (cc e)
    marked-self h (some dev) d e = ap (λ (x : LanDevice). x.self) (sym (some-injective e))

    -- A device carries the address at which it was found.
    pub scan_host-ip : (h : Text) (d : LanDevice) → scan h ≡ some d → d.ip ≡ h
    unfolding scan_host
    scan_host-ip h d e = elim (Bool-cases (alive h)) [
      | inr ended ↦ absurd (cc (rw ended at e))
      | inl going ↦
          let (dev, probed, ip) =
            marked-ip h (probe_peer net (base_url_for h) h) d (rw going at e) in
          ip ∙ probe_peer-ip (base_url_for h) h dev probed
    ]

    pub scan_host-self : (h : Text) (d : LanDevice) → scan h ≡ some d → d.self ≡ listed h self_ips
    unfolding scan_host
    scan_host-self h d e = elim (Bool-cases (alive h)) [
      | inr ended ↦ absurd (cc (rw ended at e))
      | inl going ↦ marked-self h (probe_peer net (base_url_for h) h) d (rw going at e)
    ]

    pub found_devices-In :
        (d : LanDevice) (hs : List Text)
        → In d (found hs) ↔ ((h : Text) × In h hs × (scan h ≡ some d))
    unfolding found_devices
    found_devices-In d [] = (λ m. absurd m, λ (h, m, e). absurd m)
    found_devices-In d (h ∷ hs) = elim (Option-cases (scan h)) [
      | inl nothing ↦
          let (to, from) = found_devices-In d hs in
          rw nothing (
            λ m. let (k, i, e) = to m in (k, inr i, e),
            λ (k, i, e). elim i [
              | inl at ↦ absurd (cc (ap scan at ∙ nothing, e))
              | inr j ↦ from (k, j, e)
            ],
          )
      | inr (dev, hit) ↦
          let (to, from) = found_devices-In d hs in
          rw hit (
            λ m. elim m [
              | inl first ↦ (h, inl refl, hit ∙ ap {B = Option LanDevice} some (sym first))
              | inr later ↦ let (k, i, e) = to later in (k, inr i, e)
            ],
            λ (k, i, e). elim i [
              | inl at ↦ inl (some-injective (sym e ∙ ap scan at ∙ hit))
              | inr j ↦ inr (from (k, j, e))
            ],
          )
    ]

    found-HasNumber : (hs : List Text) → All (IsAddress net) hs → All (HasNumber net) (found hs)
    found-HasNumber hs all = All-intro (HasNumber net) (found hs) λ d m.
        let (h, i, e) = (found_devices-In d hs).0 m in
        let (x, is_x, reads) = All-In (IsAddress net) hs all h i in
        let parsed : net.parse_ip4 d.ip ≡ some x = ap net.parse_ip4 (scan_host-ip h d e) ∙ reads in
        rw parsed refl

    num-injective :
        (h k : Text)
        → IsAddress net h
        → IsAddress net k
        → number_of (net.parse_ip4 h) ≡ number_of (net.parse_ip4 k)
        → h ≡ k
    num-injective h k (x, ex, hx) (y, ey, ky) e =
        ex ∙ ap ip_string (sym (ap number_of hx) ∙ e ∙ ap number_of ky) ∙ sym ey

    found-Apart :
        (h : Text) (hs : List Text) (d : LanDevice)
        → IsAddress net h
        → All (IsAddress net) hs
        → ¬ In h hs
        → scan h ≡ some d
        → Apart net (num net d) (found hs)
    found-Apart h hs d at all fresh hit =
        All-intro (λ e. num net d ≢ num net e) (found hs)
          λ e m clash.
            let (k, i, hit') = (found_devices-In e hs).0 m in
            let same_host : h ≡ k = num-injective h k at (All-In (IsAddress net) hs all k i) (
              ap (λ t. number_of (net.parse_ip4 t)) (sym (scan_host-ip h d hit))
              ∙ clash
              ∙ ap (λ t. number_of (net.parse_ip4 t)) (scan_host-ip k e hit')) in
            fresh (rw same_host i)

    found-AllApart :
        (hs : List Text) → All (IsAddress net) hs → Distinct hs → AllApart net (found hs)
    unfolding found_devices
    found-AllApart [] all distinct = tt
    found-AllApart (h ∷ hs) all distinct = elim (Option-cases (scan h)) [
      | inl nothing ↦ rw nothing (found-AllApart hs all.1 distinct.1)
      | inr (dev, hit) ↦
          rw hit
            (found-Apart h hs dev all.0 all.1 distinct.0 hit, found-AllApart hs all.1 distinct.1)
    ]

    scan-Ascending :
        (hs : List Text)
        → All (IsAddress net) hs
        → Distinct hs
        → Ascending net (sort_devices net (found hs))
    scan-Ascending hs all distinct =
        sort_devices-Ascending net (found hs) (found-HasNumber hs all)
          (found-AllApart hs all distinct)

    -- In whatever order the probes of the same addresses end, the scan returns the same list.
    scan_hosts-any_order :
        (hosts order : List Text)
        → SameMembers hosts order
        → Distinct hosts
        → Distinct order
        → All (IsAddress net) hosts
        → scan_hosts net self_ips base_url_for alive hosts
          ≡ scan_hosts net self_ips base_url_for alive order
    unfolding scan_hosts
    scan_hosts-any_order hosts order members distinct distinct' all =
        let all' =
          All-intro (IsAddress net) order
            λ h m. All-In (IsAddress net) hosts all h ((members h).1 m) in
        Ascending-unique net _ _ (scan-Ascending hosts all distinct)
          (scan-Ascending order all' distinct')
          λ k. (
            λ m.
                let (h, i, e) =
                  (found_devices-In k hosts).0 ((sort_devices-In net k (found hosts)).0 m) in
                (sort_devices-In net k (found order)).1
                  ((found_devices-In k order).1 (h, (members h).0 i, e)),
            λ m.
                let (h, i, e) =
                  (found_devices-In k order).0 ((sort_devices-In net k (found order)).0 m) in
                (sort_devices-In net k (found hosts)).1
                  ((found_devices-In k hosts).1 (h, (members h).1 i, e)),
          )

module _ (net : Network) (alive : Text → Bool) (is : List Interface) where
  abbrev targets : Targets
  targets = enumerate_scan_targets (ok is)

  -- In whatever order the probes of the addresses in scope end, the scan returns the same list, if
  -- `net.ParseIP` reads these addresses back.
  pub scan_lan-any_order :
      (order : List Text)
      → SameMembers targets.hosts order
      → Distinct order
      → All (IsAddress net) targets.hosts
      → (scan_lan net alive (ok is)).devices
        ≡ scan_hosts net targets.self_ips (λ ip. codes "http://" ++ ip) alive order
  unfolding scan_lan
  scan_lan-any_order order members distinct all =
      scan_hosts-any_order net targets.self_ips (λ ip. codes "http://" ++ ip) alive targets.hosts
        order members (enumerate_scan_targets-IsScope is).distinct distinct all
