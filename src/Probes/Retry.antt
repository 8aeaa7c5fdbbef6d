-- ===== src/Probes/Retry.antt =====
-- What the retry loops do with their bound.
use nimo_os_gateway.Base.{
  ℕ, zero, suc, ◌≡◌, ◌≢◌, refl, sym, ap, ◌∙◌, Option, none, some, Error, Result, ok, err, arith,
  leb, true, ◌<◌, fun_ext,
}
use nimo_os_gateway.Probes.{
  Ended, returned, panicked, running, Fetched, after, retry_loop, decrement, check_url,
  check_https_url, check_url_with_retry, check_https_url_with_retry, on_fetch,
}

module _ {S : Type 0} (check : S → Ended × S) where
  -- Round `n` is the first that does not fail, and it returns nil.
  abbrev pub SucceedsAt : ℕ → S → Type 0
  SucceedsAt zero s = (check s).0 ≡ returned none
  SucceedsAt (suc n) s =
      ((e : Error) × ((check s).0 ≡ returned (some e))) × SucceedsAt n (check s).1

  leb-zero : (n : ℕ) → leb 0 n ≡ true
  leb-zero n = ground arith

  -- The test of the loop never fails: a uint is never below zero.
  retry_loop_step :
      (fuel count : ℕ) (last : Option Error) (s : S)
      → retry_loop check (suc fuel) count last s
        ≡ after (check s) (λ e. retry_loop check fuel (decrement count) (some e))
  unfolding retry_loop
  retry_loop_step fuel count last s = rw leb-zero

  after-no_error :
      (r : Ended × S) (again : Error → S → Ended × S) (e : Error)
      → ((f : Error) (s : S) → (again f s).0 ≢ returned (some e))
      → (after r again).0 ≢ returned (some e)
  unfolding after
  after-no_error (returned none, s) again e h = cc
  after-no_error (returned (some f), s) again e h = h f s
  after-no_error (panicked, s) again e h = cc
  after-no_error (running, s) again e h = cc

  -- The loop never ends with an error.
  pub retry_loop-no_error :
      (fuel count : ℕ) (last : Option Error) (s : S) (e : Error)
      → (retry_loop check fuel count last s).0 ≢ returned (some e)
  retry_loop-no_error zero count last s e = unfold retry_loop in (cc)
  retry_loop-no_error (suc fuel) count last s e =
      rw retry_loop_step (
        after-no_error (check s) _ e λ f t. retry_loop-no_error fuel (decrement count) (some f) t e)

  -- The bound makes no difference.
  pub retry_loop-count :
      (fuel count count' : ℕ) (last last' : Option Error) (s : S)
      → retry_loop check fuel count last s ≡ retry_loop check fuel count' last' s
  unfolding retry_loop
  retry_loop-count zero count count' last last' s = refl
  retry_loop-count (suc fuel) count count' last last' s =
      retry_loop_step fuel count last s
      ∙ ap (after (check s)) (
          fun_ext λ e.
            fun_ext
              λ t. retry_loop-count fuel (decrement count) (decrement count') (some e) (some e) t)
      ∙ sym (retry_loop_step fuel count' last' s)

  after-returned :
      (r : Ended × S) (again : Error → S → Ended × S)
      → r.0 ≡ returned none
      → (after r again).0 ≡ returned none
  unfolding after
  after-returned (returned none, s) again h = refl
  after-returned (returned (some e), s) again h = cc
  after-returned (panicked, s) again h = cc
  after-returned (running, s) again h = cc

  after-panicked :
      (r : Ended × S) (again : Error → S → Ended × S)
      → r.0 ≡ panicked
      → (after r again).0 ≡ panicked
  unfolding after
  after-panicked (returned none, s) again h = cc
  after-panicked (returned (some e), s) again h = cc
  after-panicked (panicked, s) again h = refl
  after-panicked (running, s) again h = cc

  after-failed :
      (r : Ended × S) (again : Error → S → Ended × S) (e : Error)
      → r.0 ≡ returned (some e)
      → after r again ≡ again e r.1
  unfolding after
  after-failed (returned none, s) again e h = cc
  after-failed (returned (some f), s) again e h = ground arith
  after-failed (panicked, s) again e h = cc
  after-failed (running, s) again e h = cc

  -- It returns nil as soon as a round does; one round of fuel more than the failures is enough.
  pub retry_loop-succeeds :
      (n fuel count : ℕ) (last : Option Error) (s : S)
      → SucceedsAt n s
      → n < fuel
      → (retry_loop check fuel count last s).0 ≡ returned none
  retry_loop-succeeds n zero count last s h lt = absurd (omega arith)
  retry_loop-succeeds zero (suc fuel) count last s h lt =
      rw retry_loop_step (after-returned (check s) _ h)
  retry_loop-succeeds (suc n) (suc fuel) count last s ((e, failed), h) lt =
      rw (retry_loop_step, after-failed (check s) _ e failed)
        (retry_loop-succeeds n fuel (decrement count) (some e) (check s).1 h (omega arith))

  -- While every round fails it goes on, however often it has failed before.
  pub retry_loop-running :
      (fuel count : ℕ) (last : Option Error) (s : S)
      → ((t : S) → (e : Error) × ((check t).0 ≡ returned (some e)))
      → (retry_loop check fuel count last s).0 ≡ running
  retry_loop-running zero count last s h = unfold retry_loop in refl
  retry_loop-running (suc fuel) count last s h =
      let (e, failed) = h s in
      rw (retry_loop_step, after-failed (check s) _ e failed)
        (retry_loop-running fuel (decrement count) (some e) (check s).1 h)

module _ {S : Type 0} (get : S → Fetched × S) where
  -- `checkHTTPSURLWithRetry` with a server that never answers 200 never returns, whatever bound it
  -- is given and however many rounds it has run.
  pub check_https_url_with_retry-running :
      (fuel retry : ℕ) (s : S)
      → ((t : S) → (e : Error) × (check_https_url (get t).0 ≡ returned (some e)))
      → (check_https_url_with_retry get fuel retry s).0 ≡ running
  unfolding check_https_url_with_retry
  check_https_url_with_retry-running fuel retry s h =
      retry_loop-running (λ t. on_fetch check_https_url (get t)) fuel retry none s h

  -- What `http.Get` gives: a response or an error. It gives both only for too many redirects.
  abbrev pub got : Result ℕ → Fetched
  got (ok status) = (some status, none)
  got (err e) = (none, some e)

  abbrev pub verdict : Result ℕ → Ended
  verdict (ok status) = returned none
  verdict (err e) = panicked

  after_once :
      (r : Result ℕ) (f : Fetched × S) (again : Error → S → Ended × S)
      → f.0 ≡ got r
      → after (on_fetch check_url f) again ≡ (verdict r, f.1)
  unfolding after check_url
  after_once (ok status) (f, t) again h = rw h refl
  after_once (err e) (f, t) again h = rw h refl

  -- Where a fetch gives a response or an error, but not both, `checkURLWithRetry` fetches exactly
  -- once, whatever its bound: it returns nil for every response, whatever its status, and panics at
  -- every error.
  pub check_url_with_retry_once :
      (fuel retry : ℕ) (s : S) (r : Result ℕ)
      → (get s).0 ≡ got r
      → check_url_with_retry get (suc fuel) retry s ≡ (verdict r, (get s).1)
  unfolding check_url_with_retry
  check_url_with_retry_once fuel retry s r h =
      rw (retry_loop_step (λ t. on_fetch check_url (get t)) fuel retry none s)
        (after_once r (get s) _ h)

  check_url_with_retry-any_status :
      (fuel retry status : ℕ) (s : S)
      → (get s).0 ≡ (some status, none)
      → (check_url_with_retry get (suc fuel) retry s).0 ≡ returned none
  check_url_with_retry-any_status fuel retry status s h =
      ap (λ (r : Ended × S). r.0) (check_url_with_retry_once fuel retry s (ok status) h)

  check_url_with_retry-panicked :
      (fuel retry : ℕ) (s : S) (e : Error)
      → (get s).0 ≡ (none, some e)
      → (check_url_with_retry get (suc fuel) retry s).0 ≡ panicked
  check_url_with_retry-panicked fuel retry s e h =
      ap (λ (r : Ended × S). r.0) (check_url_with_retry_once fuel retry s (err e) h)
