-- ===== src/Gateway/Tests.antt =====
-- Requests through the handler of the gateway.
use nimo_os_gateway.Base.{
  ℕ, ◌≡◌, ◌↔◌, refl, inl, inr, Option, none, some, [], ◌∷◌, Text, codes, same, split, lookup,
  insert, remove, last_index, arith,
}
use nimo_os_gateway.Internal.{decoded}
use nimo_os_gateway.Internal.Tests.{ascii_lower, ascii_lower-Lowers, spoofed}
use nimo_os_gateway.Gateway.{
  Headers, Request, x_forwarded_for, x_real_ip, get_header, serve, replied, proxied, cors_headers,
  rewritten, rewrite_request_source_ip,
}
use nimo_os_gateway.Gateway.SourceIp.{Rewritten, rewrite-outside, rewrite-loopback}
use nimo_os_gateway.Gateway.Serving.{IsPassed, serve-proxied_iff, serve-internal}

-- The proxy of each path, by a number.
abbrev to_seven : Text → Option ℕ
to_seven path = some 7

abbrev forged : Headers
forged =
    (x_forwarded_for, codes "::1, 1.2.3.4" ∷ [])
    ∷ (x_real_ip, codes "::1" ∷ [])
    ∷ (codes "Accept", codes "*/*" ∷ [])
    ∷ []

abbrev ask : Text → Text → Request
ask path remote_addr = record {
  method = codes "GET";
  path = path;
  remote_addr = remote_addr;
  headers = forged;
}

abbrev from_outside : Request
from_outside = ask (codes "/v1/files") (codes "10.0.0.9:5000")

abbrev from_proxy : Request
from_proxy = ask (codes "/v1/files") (codes "127.0.0.1:5000")

outside_run :
    rewrite_request_source_ip from_outside
    ≡ some (record from_outside { headers = (codes "Accept", codes "*/*" ∷ []) ∷ [] })
unfolding rewrite_request_source_ip split lookup remove insert same last_index get_header
outside_run = refl

rewrite-outside_example : Rewritten from_outside none (rewritten from_outside (codes "10.0.0.9"))
unfolding same
rewrite-outside_example =
    rewrite-outside from_outside (codes "10.0.0.9") (codes "5000") refl (omega arith) refl

rewrite-loopback_example :
    Rewritten from_proxy (some (codes " 1.2.3.4" ∷ [])) (rewritten from_proxy (codes "127.0.0.1"))
unfolding same get_header lookup
rewrite-loopback_example =
    rewrite-loopback from_proxy (codes "127.0.0.1") (codes "5000") refl (omega arith)
      (codes " 1.2.3.4") refl (omega arith, inr (codes "::1", refl))

serve-proxied_iff_example :
    (serve ascii_lower to_seven from_outside
      ≡ proxied 7 cors_headers (rewritten from_outside (codes "10.0.0.9")))
    ↔ IsPassed ascii_lower to_seven from_outside 7 cors_headers
        (rewritten from_outside (codes "10.0.0.9"))
unfolding decoded split
serve-proxied_iff_example =
    serve-proxied_iff ascii_lower to_seven from_outside (rewritten from_outside (codes "10.0.0.9"))
      7 cors_headers ascii_lower-Lowers (cc) ((cc), ((cc), ((cc), tt)))

serve-internal_example :
    serve ascii_lower to_seven (ask spoofed (codes "10.0.0.9:5000")) ≡ replied 404 cors_headers []
unfolding decoded split
serve-internal_example =
    serve-internal ascii_lower to_seven (ask spoofed (codes "10.0.0.9:5000")) (codes "_Internal")
      ascii_lower-Lowers (cc) (cc) (cc) ((cc), ((cc), ((cc), tt))) (inr (inr (inl refl))) refl
