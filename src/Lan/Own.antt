-- ===== src/Lan/Own.antt =====
-- The addresses of this machine that a search collects.
use nimo_os_gateway.Base.{
  ℕ, ◌≡◌, refl, sym, inl, inr, true, false, List, [], ◌∷◌, Text, ok, same_iff, All, All-intro, In,
  Bool-cases, if_intro, arith,
}
use mathlib.Core.Path.{subst}
use nimo_os_gateway.Lan.{
  ip_string, is_link_local, Addr, ipv4_net, other, subnet_hosts, Interface, Targets, listed,
  add_host, add_hosts, add_self, add_addr, add_addrs, addrs_of, is_scanned, add_interface,
  add_interfaces, no_targets, enumerate_scan_targets,
}

pub listed_sound : (h : Text) (xs : List Text) → listed h xs ≡ true → In h xs
unfolding listed
listed_sound h [] e = absurd (cc)
listed_sound h (x ∷ xs) e = ground (arith, same_iff x h, listed_sound h xs)

pub listed_complete : (h : Text) (xs : List Text) → In h xs → listed h xs ≡ true
unfolding listed
listed_complete h [] m = absurd m
listed_complete h (x ∷ xs) m = ground (arith, same_iff x h, listed_complete h xs)

-- The address is one of an interface that is up, no loopback and not virtual, and not link-local.
abbrev pub IsOwn : List Interface → Text → Type 0
IsOwn is h =
    (i : Interface) × (ip : ℕ) × (ones : ℕ) × (bits : ℕ) × In i is
    × (is_scanned i ≡ true)
    × In (ipv4_net ip ones bits) (addrs_of i.addrs)
    × (is_link_local ip ≡ false)
    × (h ≡ ip_string ip)

add_hosts-self_ips : (ips : List ℕ) (t : Targets) → (add_hosts ips t).self_ips ≡ t.self_ips
unfolding add_hosts
add_hosts-self_ips [] t = refl
add_hosts-self_ips (ip ∷ ips) t =
    ground (arith, add_hosts-self_ips ips t, add_hosts-self_ips ips (add_host (ip_string ip) t))

module _ (P : Text → Type 0) where
  abbrev Collects : Targets → Type 0
  Collects t = All P t.self_ips

  abbrev pub Brings : Addr → Type 0
  Brings other = Unit
  Brings (ipv4_net ip ones bits) = is_link_local ip ≡ false → P (ip_string ip)

  add_addr-Collects : (a : Addr) (t : Targets) → Brings a → Collects t → Collects (add_addr a t)
  unfolding add_addr
  add_addr-Collects other t b h = h
  add_addr-Collects (ipv4_net ip ones bits) t b h =
      if_intro Collects (is_link_local ip) t (add_hosts (subnet_hosts ip ones bits) (add_self ip t))
        (λ local. h)
        λ routable.
          rw (add_hosts-self_ips (subnet_hosts ip ones bits) (add_self ip t)) (b routable, h)

  add_addrs-Collects :
      (as' : List Addr) (t : Targets) → All Brings as' → Collects t → Collects (add_addrs as' t)
  unfolding add_addrs
  add_addrs-Collects [] t b h = h
  add_addrs-Collects (a ∷ as') t b h =
      if_intro Collects t.truncated t (add_addrs as' (add_addr a t)) (λ ended. h)
        λ going. add_addrs-Collects as' (add_addr a t) b.1 (add_addr-Collects a t b.0 h)

  add_interfaces-Collects :
      (is : List Interface) (t : Targets)
      → All (λ i. is_scanned i ≡ true → All Brings (addrs_of i.addrs)) is
      → Collects t
      → Collects (add_interfaces is t)
  unfolding add_interfaces
  add_interfaces-Collects [] t b h = h
  add_interfaces-Collects (i ∷ is) t b h =
      if_intro Collects t.truncated t (add_interfaces is (add_interface i t)) (λ ended. h)
        λ going. add_interfaces-Collects is (add_interface i t) b.1 (
          if_intro Collects (is_scanned i) (add_addrs (addrs_of i.addrs) t) t
            (λ scanned. add_addrs-Collects (addrs_of i.addrs) t (b.0 scanned) h) (λ skipped. h))

brings :
    (is : List Interface) (i : Interface) (a : Addr)
    → In i is
    → is_scanned i ≡ true
    → In a (addrs_of i.addrs)
    → Brings (IsOwn is) a
brings is i other m s n = tt
brings is i (ipv4_net ip ones bits) m s n = λ routable. (i, ip, ones, bits, m, s, n, routable, refl)

-- Every address that is taken for one of this machine is one.
pub self_ips-IsOwn :
    (is : List Interface) → All (IsOwn is) (enumerate_scan_targets (ok is)).self_ips
unfolding enumerate_scan_targets
self_ips-IsOwn is =
    add_interfaces-Collects (IsOwn is) is no_targets
      (All-intro (λ i. is_scanned i ≡ true → All (Brings (IsOwn is)) (addrs_of i.addrs)) is
        λ i m s. All-intro (Brings (IsOwn is)) (addrs_of i.addrs) λ a n. brings is i a m s n)
      tt

-- A search does not forget: what is collected stays, and a search that has ended stays ended.
module _ (h : Text) where
  abbrev Has : Targets → Type 0
  Has t = In h t.self_ips

  add_addr-Has : (a : Addr) (t : Targets) → Has t → Has (add_addr a t)
  unfolding add_addr
  add_addr-Has other t m = m
  add_addr-Has (ipv4_net ip ones bits) t m =
      if_intro Has (is_link_local ip) t (add_hosts (subnet_hosts ip ones bits) (add_self ip t))
        (λ local. m)
        λ routable. rw (add_hosts-self_ips (subnet_hosts ip ones bits) (add_self ip t)) (inr m)

  add_addrs-Has : (as' : List Addr) (t : Targets) → Has t → Has (add_addrs as' t)
  unfolding add_addrs
  add_addrs-Has [] t m = m
  add_addrs-Has (a ∷ as') t m =
      if_intro Has t.truncated t (add_addrs as' (add_addr a t)) (λ ended. m)
        λ going. add_addrs-Has as' (add_addr a t) (add_addr-Has a t m)

  add_interface-Has : (i : Interface) (t : Targets) → Has t → Has (add_interface i t)
  add_interface-Has i t m =
      if_intro Has (is_scanned i) (add_addrs (addrs_of i.addrs) t) t
        (λ scanned. add_addrs-Has (addrs_of i.addrs) t m) (λ skipped. m)

  add_interfaces-Has : (is : List Interface) (t : Targets) → Has t → Has (add_interfaces is t)
  unfolding add_interfaces
  add_interfaces-Has [] t m = m
  add_interfaces-Has (i ∷ is) t m =
      if_intro Has t.truncated t (add_interfaces is (add_interface i t)) (λ ended. m)
        λ going. add_interfaces-Has is (add_interface i t) (add_interface-Has i t m)

add_addr-collects :
    (t : Targets) (ip ones bits : ℕ)
    → is_link_local ip ≡ false
    → In (ip_string ip) (add_addr (ipv4_net ip ones bits) t).self_ips
unfolding add_addr
add_addr-collects t ip ones bits routable =
    rw (routable, add_hosts-self_ips (subnet_hosts ip ones bits) (add_self ip t)) (inl refl)

-- Unless it ended the search, a list of addresses was taken as a whole.
abbrev Whole : Text → Targets → Type 0
Whole h t = t.truncated ≡ false → In h t.self_ips

add_addrs-Whole :
    (as' : List Addr) (t : Targets) (ip ones bits : ℕ)
    → In (ipv4_net ip ones bits) as'
    → is_link_local ip ≡ false
    → Whole (ip_string ip) (add_addrs as' t)
unfolding add_addrs
add_addrs-Whole [] t ip ones bits m routable = absurd m
add_addrs-Whole (a ∷ as') t ip ones bits m routable =
    if_intro (Whole (ip_string ip)) t.truncated t (add_addrs as' (add_addr a t))
      (λ ended whole. absurd (cc))
      λ going. elim m [
        | inl at ↦ λ whole. add_addrs-Has (ip_string ip) as' (add_addr a t) (
            subst (λ b. In (ip_string ip) (add_addr b t).self_ips) at
              (add_addr-collects t ip ones bits routable))
        | inr later ↦ add_addrs-Whole as' (add_addr a t) ip ones bits later routable
      ]

add_interface-Whole :
    (i : Interface) (t : Targets) (ip ones bits : ℕ)
    → is_scanned i ≡ true
    → In (ipv4_net ip ones bits) (addrs_of i.addrs)
    → is_link_local ip ≡ false
    → Whole (ip_string ip) (add_interface i t)
add_interface-Whole i t ip ones bits s n routable =
    if_intro (Whole (ip_string ip)) (is_scanned i) (add_addrs (addrs_of i.addrs) t) t
      (λ scanned. add_addrs-Whole (addrs_of i.addrs) t ip ones bits n routable)
      (λ skipped whole. absurd (cc))

add_interfaces_ended :
    (is : List Interface) (t : Targets) → t.truncated ≡ true → add_interfaces is t ≡ t
unfolding add_interfaces
add_interfaces_ended [] t e = refl
add_interfaces_ended (i ∷ is) t e = rw e refl

-- An interface that ended the search is the last that was looked at.
add_interfaces-later :
    (is : List Interface) (t : Targets) (h : Text) → Whole h t → Whole h (add_interfaces is t)
add_interfaces-later is t h now = elim (Bool-cases t.truncated) [
  | inl ended ↦ subst (Whole h) (sym (add_interfaces_ended is t ended)) now
  | inr going ↦ λ whole. add_interfaces-Has h is t (now going)
]

add_interfaces-Whole :
    (is : List Interface) (t : Targets) (h : Text) → IsOwn is h → Whole h (add_interfaces is t)
unfolding add_interfaces
add_interfaces-Whole [] t h (i, ip, ones, bits, m, s, n, routable, e) = absurd m
add_interfaces-Whole (j ∷ is) t h (i, ip, ones, bits, m, s, n, routable, e) =
    if_intro (Whole h) t.truncated t (add_interfaces is (add_interface j t))
      (λ ended whole. absurd (cc))
      λ going. elim m [
        | inl at ↦ add_interfaces-later is (add_interface j t) h (
            subst (λ k. Whole h (add_interface k t)) at
              (subst (λ k. Whole k (add_interface i t)) (sym e)
                (add_interface-Whole i t ip ones bits s n routable)))
        | inr later ↦
            add_interfaces-Whole is (add_interface j t) h
              (i, ip, ones, bits, later, s, n, routable, e)
      ]

-- When the scan is not truncated, each address of this machine is taken for one.
pub self_ips-complete :
    (is : List Interface) (h : Text)
    → IsOwn is h
    → (enumerate_scan_targets (ok is)).truncated ≡ false
    → In h (enumerate_scan_targets (ok is)).self_ips
unfolding enumerate_scan_targets
self_ips-complete is h own whole = add_interfaces-Whole is no_targets h own whole
