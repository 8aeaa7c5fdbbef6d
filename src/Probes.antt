-- ===== src/Probes.antt =====
-- main.go: the checks that a new server answers, and their retry loops.
-- A check runs on the state `S` of the surroundings. The library's `http2.Get` is a parameter; it
-- answers with a response or none, and an error or none.
pub mod Retry
mod Tests
use nimo_os_gateway.Base.{
  ℕ, zero, suc, ◌+◌, ◌-◌, ◌%◌, ◌^◌, Bool, true, false, Option, none, some, Text, codes, Error, leb,
  ◌==◌, if◌then◌else◌,
}

abbrev pub check_url_not_ok : Error
check_url_not_ok = codes "check url did not return 200 OK"

abbrev pub status_ok : ℕ
status_ok = 200

-- How a call ends: it returns its error or nil, it panics, or it has not ended yet.
pub data Ended : Type 0 where
  returned : Option Error → Ended
  panicked : Ended
  running : Ended

-- The status of the response, if there is one, and the error.
abbrev pub Fetched : Type 0
Fetched = Option ℕ × Option Error

-- `checkURL`, as it is written: it returns when the error is nil, and goes on when it is not. To
-- read the body of a response that is nil panics.
unfoldable pub check_url : Fetched → Ended
check_url (response, none) = returned none
check_url (none, some e) = panicked
check_url (some status, some e) =
    if status == status_ok then returned (some check_url_not_ok) else returned none

-- `checkHTTPSURL`; `client.Get` of the standard library has a response when it has no error.
unfoldable pub check_https_url : Fetched → Ended
check_https_url (response, some e) = returned (some e)
check_https_url (none, none) = panicked
check_https_url (some status, none) =
    if status == status_ok then returned none else returned (some check_url_not_ok)

abbrev pub uint_mod : ℕ
uint_mod = 2 ^ 64

-- `count--` on a uint
unfoldable pub decrement : ℕ → ℕ
decrement count = (count + uint_mod - 1) % uint_mod

module _ {S : Type 0} where
  -- `for count >= 0 { … }`, with fuel for the rounds; `last` is the variable `err`.
  after : Ended × S → (Error → S → Ended × S) → Ended × S
  after (returned none, s) again = (returned none, s)
  after (returned (some e), s) again = again e s
  after (panicked, s) again = (panicked, s)
  after (running, s) again = (running, s)

  unfoldable pub retry_loop : (S → Ended × S) → (fuel count : ℕ) → Option Error → S → Ended × S
  unfolding after
  retry_loop check zero count last s = (running, s)
  retry_loop check (suc fuel) count last s =
      let round = after (check s) (λ e. retry_loop check fuel (decrement count) (some e)) in
      if leb 0 count then round else (returned last, s)

  -- `checkURLWithRetry` and `checkHTTPSURLWithRetry`, for a fetch that may change the surroundings
  abbrev on_fetch : (Fetched → Ended) → Fetched × S → Ended × S
  on_fetch check (f, s) = (check f, s)

  unfoldable pub check_url_with_retry : (S → Fetched × S) → (fuel retry : ℕ) → S → Ended × S
  unfolding retry_loop check_url
  check_url_with_retry get fuel retry s =
      retry_loop (λ s. on_fetch check_url (get s)) fuel retry none s

  unfoldable pub check_https_url_with_retry : (S → Fetched × S) → (fuel retry : ℕ) → S → Ended × S
  unfolding retry_loop check_https_url
  check_https_url_with_retry get fuel retry s =
      retry_loop (λ s. on_fetch check_https_url (get s)) fuel retry none s
