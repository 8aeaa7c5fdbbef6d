-- ===== src/Probes/Tests.antt =====
-- The retry loops on servers that count the requests they get.
use nimo_os_gateway.Base.{ℕ, ◌+◌, ◌≡◌, refl, none, some, codes, ok, err, leb, if◌then◌else◌, arith}
use nimo_os_gateway.Probes.{
  returned, panicked, running, Fetched, check_https_url, check_url_not_ok, on_fetch, decrement,
  retry_loop, check_url_with_retry, check_https_url_with_retry,
}
use nimo_os_gateway.Probes.Retry.{
  retry_loop-succeeds, check_https_url_with_retry-running, check_url_with_retry_once,
}

abbrev always : Fetched → ℕ → Fetched × ℕ
always f n = (f, n + 1)

-- It answers 503 twice, and 200 from then on.
abbrev third_time : ℕ → Fetched × ℕ
third_time n = ((some (if leb 2 n then 200 else 503), none), n + 1)

third_run : check_https_url_with_retry third_time 5 10 0 ≡ (returned none, 3)
unfolding check_https_url_with_retry decrement
third_run = refl

check_https_url_with_retry-running_example :
    (check_https_url_with_retry (always (some 404, none)) 100 1 0).0 ≡ running
unfolding check_https_url
check_https_url_with_retry-running_example =
    check_https_url_with_retry-running (always (some 404, none)) 100 1 0
      (λ t. (check_url_not_ok, refl))

-- A server that answers 500 passes, after one fetch.
check_url_with_retry_once_example :
    check_url_with_retry (always (some 500, none)) 1 10 0 ≡ (returned none, 1)
check_url_with_retry_once_example =
    check_url_with_retry_once (always (some 500, none)) 0 10 0 (ok 500) refl

-- One that is not there yet is a panic.
not_there :
    check_url_with_retry (always (none, some (codes "connection refused"))) 1 10 0 ≡ (panicked, 1)
not_there =
    check_url_with_retry_once (always (none, some (codes "connection refused"))) 0 10 0
      (err (codes "connection refused")) refl

retry_loop-succeeds_example :
    (retry_loop (λ s. on_fetch check_https_url (third_time s)) 5 10 none 0).0 ≡ returned none
unfolding check_https_url
retry_loop-succeeds_example =
    retry_loop-succeeds (λ s. on_fetch check_https_url (third_time s)) 2 5 10 none 0
      ((check_url_not_ok, refl), ((check_url_not_ok, refl), refl)) (omega arith)
