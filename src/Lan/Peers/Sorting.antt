-- ===== src/Lan/Peers/Sorting.antt =====
-- `sort.Slice` by `ipLess`: the order of the devices in a result.
use nimo_os_gateway.Base.{
  ℕ, ◌<◌, ◌≡◌, ◌≢◌, refl, sym, ap, ◌∙◌, ◌↔◌, ◌⊎◌, inl, inr, Option, none, some, List, [], ◌∷◌, ltb,
  All, All-intro, All-In, In, Bool-cases, arith,
}
use nimo_os_gateway.Lan.Peers.{LanDevice, Network, ip_less, insert_device, sort_devices}

abbrev pub number_of : Option ℕ → ℕ
number_of none = 0
number_of (some n) = n

module _ (net : Network) where
  abbrev pub num : LanDevice → ℕ
  num d = number_of (net.parse_ip4 d.ip)

  abbrev pub HasNumber : LanDevice → Type 0
  HasNumber d = net.parse_ip4 d.ip ≡ some (num d)

  ip_less-num :
      (d e : LanDevice) → HasNumber d → HasNumber e → ip_less net d.ip e.ip ≡ ltb (num d) (num e)
  unfolding ip_less
  ip_less-num d e hd he = rw (hd, he) refl

  abbrev pub Above : ℕ → List LanDevice → Type 0
  Above n es = All (λ e. n < num e) es

  abbrev pub Ascending : List LanDevice → Type 0
  Ascending [] = Unit
  Ascending (d ∷ ds) = Above (num d) ds × Ascending ds

  abbrev pub Apart : ℕ → List LanDevice → Type 0
  Apart n es = All (λ e. n ≢ num e) es

  abbrev pub AllApart : List LanDevice → Type 0
  AllApart [] = Unit
  AllApart (d ∷ ds) = Apart (num d) ds × AllApart ds

  insert_device-In :
      (d k : LanDevice) (es : List LanDevice) → In k (insert_device net d es) ↔ ((k ≡ d) ⊎ In k es)
  unfolding insert_device
  insert_device-In d k [] = ground arith
  insert_device-In d k (e ∷ es) = ground (arith, insert_device-In d k es)

  pub sort_devices-In : (k : LanDevice) (ds : List LanDevice) → In k (sort_devices net ds) ↔ In k ds
  unfolding sort_devices
  sort_devices-In k [] = (λ h. h, λ h. h)
  sort_devices-In k (d ∷ ds) =
      ground (arith, sort_devices-In k ds, insert_device-In d k (sort_devices net ds))

  Above-mono : (n m : ℕ) (es : List LanDevice) → n < m → Above m es → Above n es
  Above-mono n m [] lt h = tt
  Above-mono n m (e ∷ es) lt h = (omega arith, Above-mono n m es lt h.1)

  insert_device-Above :
      (n : ℕ) (d : LanDevice) (es : List LanDevice)
      → n < num d
      → Above n es
      → Above n (insert_device net d es)
  insert_device-Above n d es lt h =
      All-intro (λ e. n < num e) (insert_device net d es)
        λ e m. elim ((insert_device-In d e es).0 m) [
          | inl same_device ↦ rw same_device lt
          | inr old ↦ All-In (λ e. n < num e) es h e old
        ]

  insert_device-Ascending :
      (d : LanDevice) (es : List LanDevice)
      → HasNumber d
      → All HasNumber es
      → Apart (num d) es
      → Ascending es
      → Ascending (insert_device net d es)
  unfolding insert_device
  insert_device-Ascending d [] hd hs apart up = (tt, tt)
  insert_device-Ascending d (e ∷ es) hd hs apart up = elim (Bool-cases (ltb (num d) (num e))) [
    | inl less ↦
        let lt : num d < num e = ground arith in
        rw (ip_less-num d e hd hs.0, less) ((lt, Above-mono (num d) (num e) es lt up.0), up)
    | inr not_less ↦
        let gt : num e < num d = ground (arith, apart.0) in
        rw (ip_less-num d e hd hs.0, not_less)
          (
            insert_device-Above (num e) d es gt up.0,
            insert_device-Ascending d es hd hs.1 apart.1 up.1,
          )
  ]

  All-sorted :
      (P : LanDevice → Type 0) (ds : List LanDevice) → All P ds → All P (sort_devices net ds)
  All-sorted P ds h =
      All-intro P (sort_devices net ds) λ e m. All-In P ds h e ((sort_devices-In e ds).0 m)

  pub sort_devices-Ascending :
      (ds : List LanDevice) → All HasNumber ds → AllApart ds → Ascending (sort_devices net ds)
  unfolding sort_devices
  sort_devices-Ascending [] h a = tt
  sort_devices-Ascending (d ∷ ds) h a =
      insert_device-Ascending d (sort_devices net ds) h.0 (All-sorted HasNumber ds h.1)
        (All-sorted (λ e. num d ≢ num e) ds a.0) (sort_devices-Ascending ds h.1 a.1)

  -- A list in strict order is determined by its members.
  pub Ascending-unique :
      (xs ys : List LanDevice)
      → Ascending xs
      → Ascending ys
      → ((k : LanDevice) → In k xs ↔ In k ys)
      → xs ≡ ys
  Ascending-unique [] [] hx hy s = refl
  Ascending-unique [] (y ∷ ys) hx hy s = absurd ((s y).1 (inl refl))
  Ascending-unique (x ∷ xs) [] hx hy s = absurd ((s x).0 (inl refl))
  Ascending-unique (x ∷ xs) (y ∷ ys) hx hy s =
      let head : x ≡ y = elim ((s x).0 (inl refl)) [
        | inl e ↦ e
        | inr later ↦ elim ((s y).1 (inl refl)) [
          | inl e ↦ sym e
          | inr also ↦ absurd (
              omega (
                arith,
                All-In (λ e. num y < num e) ys hy.0 x later,
                All-In (λ e. num x < num e) xs hx.0 y also,
              ))
        ]
      ] in
      ap (λ (d : LanDevice). d ∷ xs) head
      ∙ ap (λ ds. y ∷ ds)
          (Ascending-unique xs ys hx.1 hy.1 λ k. (
            λ m. elim ((s k).0 (inr m)) [
              | inl e ↦
                  absurd
                    (omega (arith, All-In (λ d. num x < num d) xs hx.0 k m, ap num (e ∙ sym head)))
              | inr n ↦ n
            ],
            λ m. elim ((s k).1 (inr m)) [
              | inl e ↦
                  absurd (omega (arith, All-In (λ d. num y < num d) ys hy.0 k m, ap num (e ∙ head)))
              | inr n ↦ n
            ],
          ))
