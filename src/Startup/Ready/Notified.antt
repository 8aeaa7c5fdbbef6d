-- ===== src/Startup/Ready/Notified.antt =====
-- systemd is told once both services are ready, and not before.
use mathlib.Core.Path.{subst}
use nimo_os_gateway.Base.{
  ℕ, suc, ◌+◌, ◌≤◌, ◌≡◌, ◌≢◌, refl, ◌∙◌, and_then-ok, ◌>>◌, ◌⊎◌, inl, inr, Option, none, some,
  Error, Act, some-injective, arith,
}
use nimo_os_gateway.Startup.Ready.{
  Starter, management_hook, management_ready, gateway_hook, gateway_ready, static_hook, serving,
  ended, Notifier, wants_management, wants_gateway, notifying, notified, System, Turn, start_turn,
  notify_turn, boot, after_hook, step, advance, Runs, here, next,
}

abbrev starter_work : Starter → ℕ
starter_work management_hook = 6
starter_work management_ready = 5
starter_work gateway_hook = 4
starter_work gateway_ready = 3
starter_work static_hook = 1
starter_work serving = 0
starter_work ended = 0

abbrev notifier_work : Notifier → ℕ
notifier_work notifying = 1
notifier_work _ = 0

module _ {S : Type 0} where
  -- The steps that are left.
  abbrev work : System S → ℕ
  work x = starter_work x.starter + notifier_work x.notifier

module _ {S : Type 0} (management gateway static : Act S) (p0 : S) where
  abbrev Managed : S → Type 0
  Managed p = management p0 ≡ (none, p)

  abbrev Gated : S → Type 0
  Gated p = (q : S) × Managed q × (gateway q ≡ (none, p))

  -- What has happened by the time that the two stand where they stand.
  abbrev Holds : Starter → Notifier → S → Type 0
  Holds management_hook wants_management p = p ≡ p0
  Holds management_ready wants_management p = Managed p
  Holds gateway_hook wants_gateway p = Managed p
  Holds gateway_ready wants_gateway p = Gated p
  Holds static_hook notifying p = Gated p
  Holds static_hook notified p = Gated p
  Holds serving notifying p = (q : S) × Gated q
  Holds serving notified p = (q : S) × Gated q
  Holds ended wants_management p = (management p0).0 ≢ none
  Holds ended wants_gateway p = (q : S) × Managed q × ((gateway q).0 ≢ none)
  Holds ended notifying p = (q : S) × Gated q × ((static q).0 ≢ none)
  Holds ended notified p = (q : S) × Gated q × ((static q).0 ≢ none)
  Holds _ _ _ = ⊥

  -- What a step keeps: the state of affairs, with less work left.
  abbrev Kept : ℕ → System S → Type 0
  Kept w y = Holds y.starter y.notifier y.process × (suc (work y) ≤ w)

  after_hook-Kept :
      (w : ℕ) (s : Starter) (n : Notifier) (r : Option Error × S) (y : System S)
      → some (after_hook s n r) ≡ some y
      → ((q : S) → r ≡ (none, q) → Kept w (record { starter = s; notifier = n; process = q }))
      → ((q : S) → r.0 ≢ none → Kept w (record { starter = ended; notifier = n; process = q }))
      → Kept w y
  after_hook-Kept w s n (none, q) y e good bad = subst (Kept w) (some-injective e) (good q refl)
  after_hook-Kept w s n (some f, q) y e good bad =
      subst (Kept w) (some-injective e) (bad q (λ h. cc))

  step-Kept :
      (t : Turn) (s : Starter) (n : Notifier) (p : S) (y : System S)
      → Holds s n p
      → step management gateway static t s n p ≡ some y
      → Kept (starter_work s + notifier_work n) y
  step-Kept start_turn management_hook wants_management p y h e =
      after_hook-Kept 6 management_ready wants_management (management p) y e
        (λ q ran. (rw h at ran, omega arith)) (λ q loud. (rw h at loud, omega arith))
  step-Kept start_turn gateway_hook wants_gateway p y h e =
      after_hook-Kept 4 gateway_ready wants_gateway (gateway p) y e
        (λ q ran. ((p, h, ran), omega arith)) (λ q loud. ((p, h, loud), omega arith))
  step-Kept start_turn static_hook notifying p y h e =
      after_hook-Kept 2 serving notifying (static p) y e (λ q ran. ((p, h), omega arith))
        (λ q loud. ((p, h, loud), omega arith))
  step-Kept start_turn static_hook notified p y h e =
      after_hook-Kept 1 serving notified (static p) y e (λ q ran. ((p, h), omega arith))
        (λ q loud. ((p, h, loud), omega arith))
  step-Kept start_turn management_ready wants_management p y h e =
      subst (Kept 5) (some-injective e) (h, omega arith)
  step-Kept start_turn gateway_ready wants_gateway p y h e =
      subst (Kept 3) (some-injective e) (h, omega arith)
  step-Kept notify_turn static_hook notifying p y h e =
      subst (Kept 2) (some-injective e) (h, omega arith)
  step-Kept notify_turn serving notifying p y h e =
      subst (Kept 1) (some-injective e) (h, omega arith)
  step-Kept t s n p y h e = ground arith

  Runs-Kept :
      (n : ℕ) (x : System S)
      → Runs management gateway static (boot p0) n x
      → Holds x.starter x.notifier x.process × (n + work x ≤ 6)
  unfolding advance
  Runs-Kept n x here = (refl, omega arith)
  Runs-Kept n x (next {n = k} {y = y} t before e) =
      let (h, bound) = Runs-Kept k y before in
      let (kept, less) = step-Kept t y.starter y.notifier y.process x h e in (kept, omega arith)

  -- systemd is told that the program is ready only after the hook of the management server and then
  -- that of the gateway have returned nil, in every order of the two goroutines.
  pub Runs-notified :
      (n : ℕ) (x : System S)
      → Runs management gateway static (boot p0) n x
      → x.notifier ≡ notified
      → (q r : S) × (management p0 ≡ (none, q)) × (gateway q ≡ (none, r))
  Runs-notified n x runs told =
      notified-Gated x.starter x.process
        (subst (λ k. Holds x.starter k x.process) told (Runs-Kept n x runs).0)
    where
      notified-Gated :
          (s : Starter) (p : S)
          → Holds s notified p
          → (q r : S) × (management p0 ≡ (none, q)) × (gateway q ≡ (none, r))
      notified-Gated static_hook p (q, first, second) = (q, p, first, second)
      notified-Gated serving p (r, (q, first, second)) = (q, r, first, second)
      notified-Gated ended p (r, (q, first, second), _) = (q, r, first, second)
      notified-Gated s p h = ground arith

  -- The three hooks one by one, when the chain of them ends without an error.
  hooks-quiet :
      ((management >> gateway >> static) p0).0 ≡ none
      → (q r : S) × (management p0 ≡ (none, q)) × (gateway q ≡ (none, r)) × ((static r).0 ≡ none)
  hooks-quiet h =
      let (first, rest) = and_then-ok (management p0) (gateway >> static) h in
      let q = (management p0).1 in
      let (second, last) = and_then-ok (gateway q) static (rw rest at h) in
      (q, (gateway q).1, λ i. (first i, q), λ i. (second i, (gateway q).1), rw (rest ∙ last) at h)

  ended-loud :
      (n : Notifier) (p : S) → ((management >> gateway >> static) p0).0 ≡ none → Holds ended n p → ⊥
  ended-loud wants_management p quiet loud =
      loud (and_then-ok (management p0) (gateway >> static) quiet).0
  ended-loud wants_gateway p quiet (q', managed, loud) =
      let (q, r, first, second, third) = hooks-quiet quiet in
      let same : q ≡ q' = cc in loud (cc (same, second))
  ended-loud notifying p quiet (r', (q', managed, gated), loud) =
      let (q, r, first, second, third) = hooks-quiet quiet in
      let same : q ≡ q' = cc in let same' : r ≡ r' = cc in loud (cc (same', third))
  ended-loud notified p quiet (r', (q', managed, gated), loud) =
      let (q, r, first, second, third) = hooks-quiet quiet in
      let same : q ≡ q' = cc in let same' : r ≡ r' = cc in loud (cc (same', third))

  -- One of the two can go on.
  abbrev pub CanGo : System S → Type 0
  CanGo x = (t : Turn) × (y : System S) × (advance management gateway static t x ≡ some y)

  step-progress :
      (s : Starter) (n : Notifier) (p : S)
      → ((management >> gateway >> static) p0).0 ≡ none
      → Holds s n p
      → ((t : Turn) × (y : System S) × (step management gateway static t s n p ≡ some y))
        ⊎ ((n ≡ notified) × (s ≡ serving))
  step-progress management_hook n p quiet h = inl (start_turn, _, refl)
  step-progress management_ready wants_management p quiet h = inl (start_turn, _, refl)
  step-progress gateway_hook n p quiet h = inl (start_turn, _, refl)
  step-progress gateway_ready wants_gateway p quiet h = inl (start_turn, _, refl)
  step-progress static_hook n p quiet h = inl (start_turn, _, refl)
  step-progress serving notifying p quiet h = inl (notify_turn, _, refl)
  step-progress serving notified p quiet h = inr (refl, refl)
  step-progress ended n p quiet h = absurd (ended-loud n p quiet h)
  step-progress s n p quiet h = ground arith

  -- When the three hooks return nil, every run has at most six steps, in every order of the two
  -- goroutines; one that cannot go on has told systemd, and the static files are served.
  pub Runs-eventually :
      (n : ℕ) (x : System S)
      → ((management >> gateway >> static) p0).0 ≡ none
      → Runs management gateway static (boot p0) n x
      → (n ≤ 6) × (CanGo x ⊎ ((x.notifier ≡ notified) × (x.starter ≡ serving)))
  unfolding advance
  Runs-eventually n x quiet runs =
      let (h, bound) = Runs-Kept n x runs in
      (omega arith, step-progress x.starter x.notifier x.process quiet h)
