-- ===== src/Lan/Scope.antt =====
-- The scope of a scan: bounded, without repetition, and taken from the local interfaces alone.
use nimo_os_gateway.Base.{
  ℕ, ◌≤◌, ◌≡◌, refl, sym, inl, inr, true, false, List, [], ◌∷◌, ◌++◌, Text, ok, same_iff, leb,
  length, length-append, All, All-append, In, In-append, Bool-cases, if_intro, All-intro, arith,
}
use nimo_os_gateway.Lan.{
  scan_address_cap, ip_string, is_link_local, Addr, ipv4_net, other, subnet_hosts, Interface,
  Targets, listed, add_host, add_hosts, add_self, add_addr, add_addrs, addrs_of, is_scanned,
  add_interface, add_interfaces, no_targets, enumerate_scan_targets,
}

abbrev pub Distinct : List Text → Type 0
Distinct [] = Unit
Distinct (x ∷ xs) = (¬ In x xs) × Distinct xs

listed-false : (h : Text) (xs : List Text) → listed h xs ≡ false → ¬ In h xs
unfolding listed
listed-false h [] e m = m
listed-false h (x ∷ xs) e m = ground (arith, same_iff x h, listed-false h xs)

Distinct-append : (xs : List Text) (h : Text) → Distinct xs → ¬ In h xs → Distinct (xs ++ h ∷ [])
Distinct-append [] h d n = ((λ m. m), tt)
Distinct-append (x ∷ xs) h d n = (
  λ m. elim (In-append x xs (h ∷ []) m) [
    | inl own ↦ d.0 own
    | inr (inl e) ↦ n (inl (sym e))
    | inr (inr f) ↦ f
  ],
  Distinct-append xs h d.1 (λ m. n (inr m)),
)

-- What holds of the list at every point of the search. `P` is what the addresses are to satisfy.
pub record IsScope (P : Text → Type 0) (t : Targets) : Type 0 where
  pub capped : length t.hosts ≤ scan_address_cap
  pub full : t.truncated ≡ true → length t.hosts ≡ scan_address_cap
  pub distinct : Distinct t.hosts
  pub scoped : All P t.hosts

module _ (P : Text → Type 0) where
  add_host-IsScope :
      (h : Text) (t : Targets)
      → IsScope P t
      → P h
      → listed h t.hosts ≡ false
      → leb scan_address_cap (length t.hosts) ≡ false
      → t.truncated ≡ false
      → IsScope P (add_host h t)
  add_host-IsScope h t v p new room going = record {
    capped = ground (arith, length-append t.hosts (h ∷ []));
    full = λ e. absurd (cc);
    distinct = Distinct-append t.hosts h v.distinct (listed-false h t.hosts new);
    scoped = All-append P t.hosts (h ∷ []) v.scoped (p, tt);
  }

  add_hosts-IsScope :
      (ips : List ℕ) (t : Targets)
      → IsScope P t
      → t.truncated ≡ false
      → All (λ ip. P (ip_string ip)) ips
      → IsScope P (add_hosts ips t)
  unfolding add_hosts
  add_hosts-IsScope [] t v going h = v
  add_hosts-IsScope (ip ∷ ips) t v going h = elim (Bool-cases (listed (ip_string ip) t.hosts)) [
    | inl old ↦ rw old (add_hosts-IsScope ips t v going h.1)
    | inr new ↦ elim (Bool-cases (leb scan_address_cap (length t.hosts))) [
      | inl at_cap ↦
          rw (new, at_cap)
            (record {
              capped = v.capped;
              full = λ e. ground (arith, v.capped);
              distinct = v.distinct;
              scoped = v.scoped;
            })
      | inr room ↦
          rw (new, room)
            (add_hosts-IsScope ips (add_host (ip_string ip) t)
              (add_host-IsScope (ip_string ip) t v h.0 new room going) going h.1)
    ]
  ]

  -- What an address of an interface contributes.
  abbrev pub Contributes : Addr → Type 0
  Contributes other = Unit
  Contributes (ipv4_net ip ones bits) = All (λ x. P (ip_string x)) (subnet_hosts ip ones bits)

  add_addr-IsScope :
      (a : Addr) (t : Targets)
      → IsScope P t
      → t.truncated ≡ false
      → Contributes a
      → IsScope P (add_addr a t)
  unfolding add_addr
  add_addr-IsScope other t v going h = v
  add_addr-IsScope (ipv4_net ip ones bits) t v going h =
      if_intro (IsScope P) (is_link_local ip) t
        (add_hosts (subnet_hosts ip ones bits) (add_self ip t)) (λ local. v)
        λ routable.
          add_hosts-IsScope (subnet_hosts ip ones bits) (add_self ip t)
            (record { capped = v.capped; full = v.full; distinct = v.distinct; scoped = v.scoped })
            going h

  add_addrs-IsScope :
      (as' : List Addr) (t : Targets)
      → IsScope P t
      → All Contributes as'
      → IsScope P (add_addrs as' t)
  unfolding add_addrs
  add_addrs-IsScope [] t v h = v
  add_addrs-IsScope (a ∷ as') t v h =
      if_intro (IsScope P) t.truncated t (add_addrs as' (add_addr a t)) (λ ended. v)
        λ going. add_addrs-IsScope as' (add_addr a t) (add_addr-IsScope a t v going h.0) h.1

  add_interface-IsScope :
      (i : Interface) (t : Targets)
      → IsScope P t
      → (is_scanned i ≡ true → All Contributes (addrs_of i.addrs))
      → IsScope P (add_interface i t)
  add_interface-IsScope i t v h =
      if_intro (IsScope P) (is_scanned i) (add_addrs (addrs_of i.addrs) t) t
        (λ scanned. add_addrs-IsScope (addrs_of i.addrs) t v (h scanned)) (λ skipped. v)

  add_interfaces-IsScope :
      (is : List Interface) (t : Targets)
      → IsScope P t
      → All (λ i. is_scanned i ≡ true → All Contributes (addrs_of i.addrs)) is
      → IsScope P (add_interfaces is t)
  unfolding add_interfaces
  add_interfaces-IsScope [] t v h = v
  add_interfaces-IsScope (i ∷ is) t v h =
      if_intro (IsScope P) t.truncated t (add_interfaces is (add_interface i t)) (λ ended. v)
        λ going. add_interfaces-IsScope is (add_interface i t) (add_interface-IsScope i t v h.0) h.1

-- The address belongs to a subnet of an interface that is up, no loopback and not virtual.
abbrev pub IsLocal : List Interface → Text → Type 0
IsLocal is h =
    (i : Interface) × (ip : ℕ) × (ones : ℕ) × (bits : ℕ) × (x : ℕ) × In i is
    × (is_scanned i ≡ true)
    × In (ipv4_net ip ones bits) (addrs_of i.addrs)
    × In x (subnet_hosts ip ones bits)
    × (h ≡ ip_string x)

contributes :
    (is : List Interface) (i : Interface) (a : Addr)
    → In i is
    → is_scanned i ≡ true
    → In a (addrs_of i.addrs)
    → Contributes (IsLocal is) a
contributes is i other m s n = tt
contributes is i (ipv4_net ip ones bits) m s n =
    All-intro (λ x. IsLocal is (ip_string x)) (subnet_hosts ip ones bits)
      λ x k. (i, ip, ones, bits, x, m, s, n, k, refl)

no_targets-IsScope : (P : Text → Type 0) → IsScope P no_targets
no_targets-IsScope P = record {
  capped = omega arith;
  full = λ e. absurd (cc);
  distinct = tt;
  scoped = tt;
}

-- When the interfaces can be listed, at most 1024 addresses are scanned, none of them twice, each
-- from a subnet of a local interface; the result is marked as truncated only when the list is full.
pub enumerate_scan_targets-IsScope :
    (is : List Interface) → IsScope (IsLocal is) (enumerate_scan_targets (ok is))
unfolding enumerate_scan_targets
enumerate_scan_targets-IsScope is =
    add_interfaces-IsScope (IsLocal is) is no_targets (no_targets-IsScope (IsLocal is)) (
      All-intro (λ i. is_scanned i ≡ true → All (Contributes (IsLocal is)) (addrs_of i.addrs)) is
        λ i m s.
          All-intro (Contributes (IsLocal is)) (addrs_of i.addrs) λ a n. contributes is i a m s n)
